-- ===== src/Store/Invariant/Steps.antt =====
-- `enter` and `removeAssertion` keep the invariant.
use mathlib.Core.Path.{ap₂}
use attunegraph.Common.{
  ◌≡◌, refl, ◌≢◌, ap, sym, subst, ◌∙◌, Bool, true, false, not, none, some, List, [], ◌∷◌, ◌++◌, map,
  Text, arith, text_eq, text_eq_iff, text_eq_refl, Sign, sort, select, All, ok, Bool-cases,
  Option-cases, inl, inr,
}
use attunegraph.Common.Maps.{
  get, put, drop_key, keys, values, get-put, get-drop_key, keys-put_new, keys-drop_key, get-none,
  has-keys, values-put_new, All-values, has-keys-of_get,
}
use attunegraph.Common.Sets.{
  has, delete, is_distinct, is_distinct-concat, is_distinct-delete, delete_absent,
}
use attunegraph.Common.Order.{IsOrder, sort-IsSorted, sort-concat, select-sort, All-sort}
use attunegraph.Graph.Types.{EvidenceRef, Assertion}
use attunegraph.Graph.Keys.{graph_ref_key, evidence_ref_key}
use attunegraph.Graph.Fingerprint.{canonical_assertion}
use attunegraph.Validation.{normalize_assertion, assertion_ok, safe_text}
use attunegraph.Store.Index.{remove_from_index, add_keys, remove_keys}
use attunegraph.Store.Index.Of.{Stored, HasOwnIds, IsIndexOf-enter, IsIndexOf-remove}
use attunegraph.Store.State.{
  Store, add_sources, remove_sources, splice_out, remove_assertion, enter, compare_assertions,
}
use attunegraph.Store.Verify.{base_key}
use attunegraph.Store.Invariant.{
  IsWellFormed, id_of, subject_keys, object_keys, source_keys, base_keys,
}
use attunegraph.Store.Invariant.Distinct.{is_distinct-sort}
use attunegraph.Store.Invariant.Insert.{Held, insert_recorded_id_lem}

-- The loops over the source references write the two source indexes, and nothing else.
pub add_sources_lem :
    (refs : List EvidenceRef) (id : Text) (s : Store)
    → add_sources refs id s ≡ record s {
      source_index = add_keys (map evidence_ref_key refs) id s.source_index;
      source_base_index = add_keys (map base_key refs) id s.source_base_index;
    }
unfolding add_sources add_keys
add_sources_lem [] id s = refl
add_sources_lem (ref ∷ refs) id s = add_sources_lem refs id _

pub remove_sources_lem :
    (refs : List EvidenceRef) (id : Text) (s : Store)
    → remove_sources refs id s ≡ record s {
      source_index = remove_keys (map evidence_ref_key refs) id s.source_index;
      source_base_index = remove_keys (map base_key refs) id s.source_base_index;
    }
unfolding remove_sources remove_keys
remove_sources_lem [] id s = refl
remove_sources_lem (ref ∷ refs) id s = remove_sources_lem refs id _

pub splice_out-delete :
    (id : Text) (ids : List Text) → is_distinct ids ≡ true → splice_out id ids ≡ delete id ids
unfolding splice_out delete is_distinct
splice_out-delete id [] d = refl
splice_out-delete id (j ∷ ids) d =
    ground (arith, splice_out-delete id ids, delete_absent id ids, text_eq_iff j id)

module _ (locale_compare : Text → Text → Sign) where
  -- What is normal has an id.
  pub normal-id : (a : Assertion) → normalize_assertion locale_compare a ≡ ok a → a.id ≢ []
  unfolding normalize_assertion assertion_ok safe_text
  normal-id a h e = ground arith

  module _ (s : Store) (w : IsWellFormed locale_compare s) where
    -- An id that is not stored is in no list of the store.
    pub fresh-prints : (id : Text) → get id s.assertions ≡ none → get id s.fingerprints ≡ none
    fresh-prints id fresh =
        get-none id s.fingerprints
          (ap (has id) (w.prints ∙ sym w.journal) ∙ has-keys id s.assertions fresh)

    pub fresh-journal : (id : Text) → get id s.assertions ≡ none → has id s.journal_ids ≡ false
    fresh-journal id fresh = ap (has id) (sym w.journal) ∙ has-keys id s.assertions fresh

    pub keys-distinct : is_distinct (keys s.assertions) ≡ true
    keys-distinct = ap is_distinct w.journal ∙ w.distinct

    Held-put :
        (a : Assertion)
        → get a.id s.assertions ≡ none
        → All (Held (put a.id a s.assertions)) (values s.assertions)
    Held-put a fresh =
        All-values (Held (put a.id a s.assertions)) s.assertions keys-distinct (λ k v e.
          let own = w.own_id k v e in
          (
            ap (λ i. get i (put a.id a s.assertions)) own
                ∙ ground (arith, get-put a.id k a s.assertions, text_eq_iff a.id k),
            normal-id v (w.normal k v e),
          ))

    get-enter :
        (a : Assertion) (P : Text → Assertion → Type 0)
        → P a.id a
        → ((id : Text) (b : Assertion) → get id s.assertions ≡ some b → P id b)
        → (id : Text) (b : Assertion) → get id (put a.id a s.assertions) ≡ some b
        → P id b
    get-enter a P pa ps id b e = elim (Bool-cases (text_eq a.id id)) [
      | inl same ↦
          let at : a.id ≡ id = (text_eq_iff a.id id).0 same in
          let it : a ≡ b = ground (arith, get-put a.id id a s.assertions) in
          subst (λ i. P i b) at (subst (P a.id) it pa)
      | inr apart ↦ ps id b (ground (arith, get-put a.id id a s.assertions))
    ]

module _ (locale_compare : Text → Text → Sign)
    (order : IsOrder (compare_assertions locale_compare)) where
  -- A new normalized assertion, with its fingerprint, keeps the store well formed.
  pub enter-IsWellFormed :
      (s : Store) (a : Assertion)
      → IsWellFormed locale_compare s
      → normalize_assertion locale_compare a ≡ ok a
      → get a.id s.assertions ≡ none
      → IsWellFormed locale_compare (enter locale_compare a (canonical_assertion a) s)
  unfolding enter add_keys
  enter-IsWellFormed s a w normal fresh = rw (add_sources_lem a.source_refs a.id) (record {
    journal = keys-put_new a.id a s.assertions fresh ∙ ap (λ ids. ids ++ a.id ∷ []) w.journal;
    prints =
        keys-put_new a.id (canonical_assertion a) s.fingerprints
          (fresh-prints locale_compare s w a.id fresh)
        ∙ ap (λ ids. ids ++ a.id ∷ []) w.prints;
    distinct = ground (
      arith,
      is_distinct-concat a.id s.journal_ids,
      fresh-journal locale_compare s w a.id fresh,
      w.distinct,
    );
    own_id = get-enter locale_compare s w a (λ id b. b.id ≡ id) refl w.own_id;
    own_print =
        get-enter locale_compare s w a
          (λ id b.
            get id (put a.id (canonical_assertion a) s.fingerprints) ≡ some (canonical_assertion b))
          (ground
            (arith, get-put a.id a.id (canonical_assertion a) s.fingerprints, text_eq_refl a.id))
          (λ id b e. ground (
            arith,
            w.own_print id b e,
            get-put a.id id (canonical_assertion a) s.fingerprints,
            text_eq_iff a.id id,
          ));
    normal =
        get-enter locale_compare s w a (λ id b. normalize_assertion locale_compare b ≡ ok b) normal
          w.normal;
    indexed = record {
      outgoing = IsIndexOf-enter subject_keys s.outgoing s.assertions a w.indexed.outgoing fresh;
      incoming = IsIndexOf-enter object_keys s.incoming s.assertions a w.indexed.incoming fresh;
      sources = IsIndexOf-enter source_keys s.source_index s.assertions a w.indexed.sources fresh;
      bases = IsIndexOf-enter base_keys s.source_base_index s.assertions a w.indexed.bases fresh;
    };
    recorded =
        insert_recorded_id_lem locale_compare order
          (record s {
            assertions = put a.id a s.assertions;
            fingerprints = put a.id (canonical_assertion a) s.fingerprints;
            journal_ids = s.journal_ids ++ a.id ∷ [];
          })
          a (sort (compare_assertions locale_compare) (values s.assertions))
          (All-sort (compare_assertions locale_compare) (Held (put a.id a s.assertions))
            (values s.assertions) (Held-put locale_compare s w a fresh))
          w.recorded (sort-IsSorted (compare_assertions locale_compare) order (values s.assertions))
        ∙ ap (map id_of) (
            sym (
              ap (sort (compare_assertions locale_compare))
                (values-put_new a.id a s.assertions fresh)
              ∙ sort-concat (compare_assertions locale_compare) (values s.assertions) a));
  })

  -- The store without an assertion that it has.
  abbrev removal : Store → Text → Assertion → Store
  removal s id a = remove_sources a.source_refs id (record s {
    assertions = drop_key id s.assertions;
    fingerprints = drop_key id s.fingerprints;
    journal_ids = splice_out id s.journal_ids;
    recorded_ids = splice_out id s.recorded_ids;
    outgoing = remove_from_index s.outgoing (graph_ref_key a.subject) id;
    incoming = remove_from_index s.incoming (graph_ref_key a.object) id;
  })

  -- What stays when an id is taken out.
  abbrev other : Text → Assertion → Bool
  other id a = not (text_eq a.id id)

  values-drop_key :
      (id : Text) (m : Stored)
      → HasOwnIds m
      → is_distinct (keys m) ≡ true
      → values (drop_key id m) ≡ select (other id) (values m)
  unfolding values drop_key keys get is_distinct
  values-drop_key id [] own d = refl
  values-drop_key id ((j, a) ∷ m) own d =
      let own_a : a.id ≡ j = own j a (rw (text_eq_refl j)) in
      let rest =
        values-drop_key id m
          (λ i b e. own i b (ground (arith, has-keys-of_get i b m e, text_eq_iff j i)))
          (ground arith) in
      ground (arith, rest, own_a)

  delete-ids :
      (id : Text) (l : List Assertion) → delete id (map id_of l) ≡ map id_of (select (other id) l)
  unfolding delete
  delete-ids id [] = refl
  delete-ids id (a ∷ l) = ground (arith, delete-ids id l)

  get-dropped :
      (id i : Text) (b : Assertion) (m : Stored)
      → get i (drop_key id m) ≡ some b
      → (text_eq id i ≡ false) × (get i m ≡ some b)
  get-dropped id i b m e = ground (arith, get-drop_key id i m)

  -- The ids of the values are the keys.
  ids-values :
      (m : Stored) → HasOwnIds m → is_distinct (keys m) ≡ true → map id_of (values m) ≡ keys m
  unfolding values keys get is_distinct
  ids-values [] own d = refl
  ids-values ((j, a) ∷ m) own d =
      let own_a : a.id ≡ j = own j a (rw (text_eq_refl j)) in
      let rest =
        ids-values m (λ i b e. own i b (ground (arith, has-keys-of_get i b m e, text_eq_iff j i)))
          (ground arith) in
      ap₂ (λ (i : Text) (is : List Text). i ∷ is) own_a rest

  pub recorded-distinct :
      (s : Store) → IsWellFormed locale_compare s → is_distinct s.recorded_ids ≡ true
  recorded-distinct s w =
      ap is_distinct w.recorded
      ∙ is_distinct-sort id_of (compare_assertions locale_compare) (values s.assertions) (
          ap is_distinct (ids-values s.assertions w.own_id (keys-distinct locale_compare s w))
          ∙ keys-distinct locale_compare s w)

  removed :
      (s : Store) (id : Text) (a : Assertion)
      → IsWellFormed locale_compare s
      → get id s.assertions ≡ some a
      → IsWellFormed locale_compare (removal s id a)
  unfolding remove_keys
  removed s id a w there = rw (remove_sources_lem a.source_refs id) (record {
    journal =
        keys-drop_key id s.assertions
        ∙ ap (delete id) w.journal
        ∙ sym (splice_out-delete id s.journal_ids w.distinct);
    prints =
        keys-drop_key id s.fingerprints
        ∙ ap (delete id) w.prints
        ∙ sym (splice_out-delete id s.journal_ids w.distinct);
    distinct =
        ap is_distinct (splice_out-delete id s.journal_ids w.distinct)
        ∙ is_distinct-delete id s.journal_ids w.distinct;
    own_id = λ i b e. w.own_id i b (get-dropped id i b s.assertions e).1;
    own_print = λ i b e.
        let kept = get-dropped id i b s.assertions e in
        ground (arith, kept, w.own_print i b kept.1, get-drop_key id i s.fingerprints);
    normal = λ i b e. w.normal i b (get-dropped id i b s.assertions e).1;
    indexed = record {
      outgoing =
          IsIndexOf-remove subject_keys s.outgoing s.assertions id a w.indexed.outgoing there;
      incoming = IsIndexOf-remove object_keys s.incoming s.assertions id a w.indexed.incoming there;
      sources =
          IsIndexOf-remove source_keys s.source_index s.assertions id a w.indexed.sources there;
      bases =
          IsIndexOf-remove base_keys s.source_base_index s.assertions id a w.indexed.bases there;
    };
    recorded =
        splice_out-delete id s.recorded_ids (recorded-distinct s w)
        ∙ ap (delete id) w.recorded
        ∙ delete-ids id (sort (compare_assertions locale_compare) (values s.assertions))
        ∙ ap (map id_of) (
            select-sort (compare_assertions locale_compare) order (other id) (values s.assertions)
            ∙ ap (sort (compare_assertions locale_compare)) (
                sym (values-drop_key id s.assertions w.own_id (keys-distinct locale_compare s w))));
  })

  -- Taking an assertion out keeps the store well formed.
  pub remove_assertion-IsWellFormed :
      (s : Store) (id : Text)
      → IsWellFormed locale_compare s
      → IsWellFormed locale_compare (remove_assertion id s)
  remove_assertion-IsWellFormed s id w = elim (Option-cases (get id s.assertions)) [
    | inl absent ↦ unfold remove_assertion in rw (absent, remove_assertion) w
    | inr (a, there) ↦
        unfold remove_assertion in rw (there, remove_assertion) (removed s id a w there)
  ]
