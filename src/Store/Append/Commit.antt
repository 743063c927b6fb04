-- ===== src/Store/Append/Commit.antt =====
-- The second loop of `append`: what the store has when a batch is written.
use mathlib.Core.List.{append_assoc, append-nil}
use attunegraph.Common.{
  ◌≡◌, refl, ap, sym, ◌∙◌, false, Option, none, some, [], ◌∷◌, ◌++◌, Text, arith, text_eq,
  text_eq_iff, text_eq_refl, Sign,
}
use attunegraph.Common.Maps.{get, put, keys, values, get-put, has-keys-of_get, has-keys, get-none}
use attunegraph.Common.Sets.{has, is_distinct}
use attunegraph.Common.Order.{IsOrder}
use attunegraph.Graph.Types.{Assertion}
use attunegraph.Store.State.{Store, enter, compare_assertions}
use attunegraph.Store.Index.Of.{Stored}
use attunegraph.Store.Invariant.{IsWellFormed}
use attunegraph.Store.Invariant.Steps.{add_sources_lem, enter-IsWellFormed}
use attunegraph.Store.Append.{Staged, Batch, commit}
use attunegraph.Store.Append.Staging.{known, AllReady}

abbrev pub assertion_in : Batch → Stored → Text → Option Assertion
assertion_in staged m id = elim (get id staged) [ none ↦ get id m | some e ↦ some e.assertion ]

module _ (locale_compare : Text → Text → Sign) where
  pub enter-assertions :
      (a : Assertion) (p : Text) (s : Store)
      → (enter locale_compare a p s).assertions ≡ put a.id a s.assertions
  unfolding enter
  enter-assertions a p s = rw (add_sources_lem a.source_refs a.id)

  pub enter-fingerprints :
      (a : Assertion) (p : Text) (s : Store)
      → (enter locale_compare a p s).fingerprints ≡ put a.id p s.fingerprints
  unfolding enter
  enter-fingerprints a p s = rw (add_sources_lem a.source_refs a.id)

  pub enter-journal_ids :
      (a : Assertion) (p : Text) (s : Store)
      → (enter locale_compare a p s).journal_ids ≡ s.journal_ids ++ a.id ∷ []
  unfolding enter
  enter-journal_ids a p s = rw (add_sources_lem a.source_refs a.id)

  -- The store behind a batch: each entry is there, what was there stays, and the journal has the new
  -- ids in the batch's order.
  pub record Committed (s : Store) (staged : Batch) (after : Store) : Type 0 where
    pub well_formed : IsWellFormed locale_compare after
    pub assertions : (id : Text) → get id after.assertions ≡ assertion_in staged s.assertions id
    pub prints : (id : Text) → get id after.fingerprints ≡ known s staged id
    pub journal : after.journal_ids ≡ s.journal_ids ++ keys staged

  -- An id without a fingerprint has no assertion.
  pub unknown-assertions :
      (s : Store) (id : Text)
      → IsWellFormed locale_compare s
      → get id s.fingerprints ≡ none
      → get id s.assertions ≡ none
  unknown-assertions s id w h =
      get-none id s.assertions
        (ap (has id) (w.journal ∙ sym w.prints) ∙ has-keys id s.fingerprints h)

  AllReady-enter :
      (s : Store) (k : Text) (e : Staged) (rest : Batch)
      → AllReady locale_compare s ((k, e) ∷ rest)
      → AllReady locale_compare (enter locale_compare e.assertion e.fingerprint s) rest
  unfolding keys is_distinct get
  AllReady-enter s k e rest r =
      let first = r.entries k e (rw (text_eq_refl k)) in
      record {
        distinct = let d = r.distinct in ground arith;
        entries = λ j b h.
            let apart : text_eq k j ≡ false =
              let d = r.distinct in ground (arith, has-keys-of_get j b rest h, text_eq_iff k j) in
            let b_ready = r.entries j b (rw apart h) in
            record {
              own = b_ready.own;
              print = b_ready.print;
              normal = b_ready.normal;
              unknown =
                  ap (get j) (enter-fingerprints e.assertion e.fingerprint s)
                  ∙ ground (
                    arith,
                    get-put e.assertion.id j e.fingerprint s.fingerprints,
                    first.own,
                    apart,
                    b_ready.unknown,
                  );
            };
      }

module _ (locale_compare : Text → Text → Sign)
    (order : IsOrder (compare_assertions locale_compare)) where
  pub commit-Committed :
      (staged : Batch) (s : Store)
      → IsWellFormed locale_compare s
      → AllReady locale_compare s staged
      → Committed locale_compare s staged (commit locale_compare (values staged) s)
  unfolding commit values get keys
  commit-Committed [] s w r = record {
    well_formed = w;
    assertions = λ id. refl;
    prints = λ id. refl;
    journal = sym (append-nil s.journal_ids);
  }
  commit-Committed ((k, e) ∷ rest) s w r =
      let first = r.entries k e (rw (text_eq_refl k)) in
      let next = enter locale_compare e.assertion e.fingerprint s in
      let well : IsWellFormed locale_compare next = rw (first.print) (
        enter-IsWellFormed locale_compare order s e.assertion w first.normal (
          unknown-assertions locale_compare s e.assertion.id w
            (ap (λ i. get i s.fingerprints) first.own ∙ first.unknown))) in
      let ih = commit-Committed rest next well (AllReady-enter locale_compare s k e rest r) in
      let once : get k rest ≡ none =
        get-none k rest (let d = r.distinct in unfold is_distinct in ground arith) in
      record {
        well_formed = ih.well_formed;
        assertions = λ id. ground (
          arith,
          ih.assertions id,
          enter-assertions locale_compare e.assertion e.fingerprint s,
          get-put e.assertion.id id e.assertion s.assertions,
          first.own,
          once,
          text_eq_iff k id,
        );
        prints = λ id. ground (
          arith,
          ih.prints id,
          enter-fingerprints locale_compare e.assertion e.fingerprint s,
          get-put e.assertion.id id e.fingerprint s.fingerprints,
          first.own,
          once,
          text_eq_iff k id,
        );
        journal =
            ih.journal
            ∙ ap (λ ids. ids ++ keys rest)
                (enter-journal_ids locale_compare e.assertion e.fingerprint s)
            ∙ append_assoc s.journal_ids (e.assertion.id ∷ []) (keys rest)
            ∙ ap (λ i. s.journal_ids ++ i ∷ keys rest) first.own;
      }
