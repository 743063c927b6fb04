-- ===== src/Store/Sound.antt =====
-- A well-formed store passes its own `verify`.
use mathlib.Core.List.{append_assoc, append-nil}
use attunegraph.Common.{
  ℕ, ◌≡◌, refl, ap, sym, ◌∙◌, true, false, some, List, [], ◌∷◌, ◌++◌, Text, arith, text_eq_refl,
  text_eq_iff, Sign, ◌==◌, length, length-map, length-sort, sort, All, ok,
}
use attunegraph.Common.Maps.{get, values, length-keys, length-values, All-values}
use attunegraph.Common.Sets.{has, add, add_all, is_distinct, has-append}
use attunegraph.Graph.Types.{Assertion}
use attunegraph.Graph.Fingerprint.{canonical_assertion}
use attunegraph.Validation.{normalize_assertion}
use attunegraph.Store.Index.{Index, add_keys, same_index}
use attunegraph.Store.Index.Of.{enter_all, same_index-expected}
use attunegraph.Store.State.{Store, compare_assertions}
use attunegraph.Store.Verify.{
  expected_outgoing, expected_incoming, expected_sources, expected_source_bases, has_moved,
  assertion_issues, all_assertion_issues, issues,
}
use attunegraph.Store.Invariant.{
  IsWellFormed, id_of, subject_keys, object_keys, source_keys, base_keys,
}
use attunegraph.Store.Invariant.Steps.{keys-distinct}

expected_outgoing_lem :
    (vs : List Assertion) (index : Index)
    → expected_outgoing vs index ≡ enter_all subject_keys vs index
unfolding expected_outgoing enter_all add_keys
expected_outgoing_lem [] index = refl
expected_outgoing_lem (a ∷ vs) index = expected_outgoing_lem vs _

expected_incoming_lem :
    (vs : List Assertion) (index : Index)
    → expected_incoming vs index ≡ enter_all object_keys vs index
unfolding expected_incoming enter_all add_keys
expected_incoming_lem [] index = refl
expected_incoming_lem (a ∷ vs) index = expected_incoming_lem vs _

expected_sources_lem :
    (vs : List Assertion) (index : Index)
    → expected_sources vs index ≡ enter_all source_keys vs index
unfolding expected_sources enter_all
expected_sources_lem [] index = refl
expected_sources_lem (a ∷ vs) index = expected_sources_lem vs _

expected_source_bases_lem :
    (vs : List Assertion) (index : Index)
    → expected_source_bases vs index ≡ enter_all base_keys vs index
unfolding expected_source_bases enter_all
expected_source_bases_lem [] index = refl
expected_source_bases_lem (a ∷ vs) index = expected_source_bases_lem vs _

not-has-append :
    (s : List Text) (x : Text) (xs : List Text) → is_distinct (s ++ x ∷ xs) ≡ true → has x s ≡ false
unfolding has is_distinct
not-has-append [] x xs d = refl
not-has-append (y ∷ s) x xs d =
    ground (arith, not-has-append s x xs, has-append y s (x ∷ xs), text_eq_iff y x, text_eq_iff x y)

-- Adding distinct members to a set that has none of them.
add_all-append : (xs s : List Text) → is_distinct (s ++ xs) ≡ true → add_all xs s ≡ s ++ xs
unfolding add_all add
add_all-append [] s d = sym (append-nil s)
add_all-append (x ∷ xs) s d =
    let new : has x s ≡ false = not-has-append s x xs d in
    rw new (
      add_all-append xs (s ++ x ∷ []) (ap is_distinct (append_assoc s (x ∷ []) xs) ∙ d)
      ∙ append_assoc s (x ∷ []) xs)

has_moved_refl : (ids : List Text) → has_moved ids ids ≡ false
unfolding has_moved
has_moved_refl [] = refl
has_moved_refl (id ∷ ids) = ground (arith, has_moved_refl ids, text_eq_refl id)

==-of_eq : (a b : ℕ) → a ≡ b → (a == b) ≡ true
==-of_eq a b h = ground arith

module _ (locale_compare : Text → Text → Sign) (s : Store) (w : IsWellFormed locale_compare s) where
  assertion_issues-nil :
      (vs : List Assertion)
      → All
          (λ a.
            (normalize_assertion locale_compare a ≡ ok a)
            × (get a.id s.fingerprints ≡ some (canonical_assertion a)))
          vs
      → all_assertion_issues locale_compare s vs ≡ []
  unfolding all_assertion_issues assertion_issues
  assertion_issues-nil [] h = refl
  assertion_issues-nil (a ∷ vs) h =
      ground (arith, h.0, assertion_issues-nil vs h.1, text_eq_refl (canonical_assertion a))

  fine :
      All
        (λ a.
          (normalize_assertion locale_compare a ≡ ok a)
          × (get a.id s.fingerprints ≡ some (canonical_assertion a)))
        (values s.assertions)
  fine = All-values _ s.assertions (keys-distinct locale_compare s w) (λ k v e.
      (w.normal k v e, ap (λ i. get i s.fingerprints) (w.own_id k v e) ∙ w.own_print k v e))

  length-journal : length s.assertions ≡ length s.journal_ids
  length-journal = sym (length-keys s.assertions) ∙ ap length w.journal

  length-prints : length s.assertions ≡ length s.fingerprints
  length-prints = length-journal ∙ sym (ap length w.prints) ∙ length-keys s.fingerprints

  length-recorded : length s.assertions ≡ length s.recorded_ids
  length-recorded =
      let sorted = sort (compare_assertions locale_compare) (values s.assertions) in
      sym (length-values s.assertions)
      ∙ sym (length-sort (compare_assertions locale_compare) (values s.assertions))
      ∙ sym (length-map id_of sorted)
      ∙ sym (ap length w.recorded)

  -- A well-formed store has no issue.
  pub issues-nil : issues locale_compare s ≡ []
  unfolding issues
  issues-nil =
      let d = keys-distinct locale_compare s w in
      let out =
        ap (same_index s.outgoing) (expected_outgoing_lem (values s.assertions) [])
        ∙ same_index-expected subject_keys s.outgoing s.assertions w.indexed.outgoing w.own_id d in
      let into =
        ap (same_index s.incoming) (expected_incoming_lem (values s.assertions) [])
        ∙ same_index-expected object_keys s.incoming s.assertions w.indexed.incoming w.own_id d in
      let sources =
        ap (same_index s.source_index) (expected_sources_lem (values s.assertions) [])
        ∙ same_index-expected source_keys s.source_index s.assertions w.indexed.sources w.own_id
            d in
      let bases =
        ap (same_index s.source_base_index) (expected_source_bases_lem (values s.assertions) [])
        ∙ same_index-expected base_keys s.source_base_index s.assertions w.indexed.bases w.own_id
            d in
      let moved =
        ap (λ ids. has_moved ids s.recorded_ids) (sym w.recorded) ∙ has_moved_refl s.recorded_ids in
      let once = ap length (add_all-append s.journal_ids [] w.distinct) in
      rw (
        ==-of_eq _ _ length-prints,
        ==-of_eq _ _ length-journal,
        ==-of_eq _ _ once,
        ==-of_eq _ _ length-recorded,
        assertion_issues-nil _ fine,
        out,
        into,
        sources,
        bases,
        moved,
      )
