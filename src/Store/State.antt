-- ===== src/Store/State.antt =====
-- src/in-memory-store.ts: the fields of `InMemoryAttuneGraphDataStore` and its private methods.
use attunegraph.Common.{
  ℕ, Bool, true, Option, none, some, List, [], ◌∷◌, ◌++◌, if◌then◌else◌, Text, text_eq, Sign,
  or_else, diff_sign, not_after, leb, length, get_elem?, take, drop,
}
use attunegraph.Common.Maps.{get, put, drop_key}
use attunegraph.Graph.Types.{EvidenceRef, Assertion}
use attunegraph.Graph.Keys.{graph_ref_key, evidence_ref_key, evidence_base_key}
use attunegraph.Graph.Instant.{instant_epoch}
use attunegraph.Store.Bisect.{bisect}
use attunegraph.Store.Index.{Index, add_to_index, remove_from_index}

pub record Store : Type 0 where
  pub assertions : List (Text × Assertion)
  pub fingerprints : List (Text × Text)
  pub incoming : Index
  pub journal_ids : List Text
  pub outgoing : Index
  pub recorded_ids : List Text
  pub source_base_index : Index
  pub source_index : Index

abbrev pub empty : Store
empty = record {
  assertions = [];
  fingerprints = [];
  incoming = [];
  journal_ids = [];
  outgoing = [];
  recorded_ids = [];
  source_base_index = [];
  source_index = [];
}

-- `id ? this.assertions.get(id) : undefined`, of an item of `recordedIds`: an empty id is falsy.
unfoldable pub stored_at : Store → Option Text → Option Assertion
stored_at s none = none
stored_at s (some []) = none
stored_at s (some (c ∷ id)) = get (c ∷ id) s.assertions

-- The loop over the source references of an assertion that enters it.
unfoldable pub add_sources : List EvidenceRef → Text → Store → Store
add_sources [] id s = s
add_sources (ref ∷ refs) id s = add_sources refs id (record s {
  source_index = add_to_index s.source_index (evidence_ref_key ref) id;
  source_base_index = add_to_index s.source_base_index (evidence_base_key ref.namespace ref.id) id;
})

unfoldable pub remove_sources : List EvidenceRef → Text → Store → Store
remove_sources [] id s = s
remove_sources (ref ∷ refs) id s = remove_sources refs id (record s {
  source_index = remove_from_index s.source_index (evidence_ref_key ref) id;
  source_base_index =
      remove_from_index s.source_base_index (evidence_base_key ref.namespace ref.id) id;
})

-- `indexOf` with `splice(index, 1)`: takes out the first occurrence.
unfoldable pub splice_out : Text → List Text → List Text
splice_out id [] = []
splice_out id (j ∷ ids) = let rest = splice_out id ids in if text_eq j id then ids else j ∷ rest

-- `removeAssertion`
unfoldable pub remove_assertion : Text → Store → Store
remove_assertion id s = elim (get id s.assertions) [
  | none ↦ s
  | some a ↦ remove_sources a.source_refs id (record s {
    assertions = drop_key id s.assertions;
    fingerprints = drop_key id s.fingerprints;
    journal_ids = splice_out id s.journal_ids;
    recorded_ids = splice_out id s.recorded_ids;
    outgoing = remove_from_index s.outgoing (graph_ref_key a.subject) id;
    incoming = remove_from_index s.incoming (graph_ref_key a.object) id;
  })
]

-- `firstRecordedAfter`: the test of its loop, and the loop.
abbrev pub is_at_most : Store → ℕ → ℕ → Bool
is_at_most s epoch middle = elim (stored_at s (get_elem? s.recorded_ids middle)) [
  | none ↦ true
  | some a ↦ leb (instant_epoch a.recorded_at) epoch
]

unfoldable pub first_recorded_after : Store → ℕ → ℕ
first_recorded_after s epoch = let n = length s.recorded_ids in bisect (is_at_most s epoch) n 0 n

module _ (locale_compare : Text → Text → Sign) where
  unfoldable pub compare_assertions : Assertion → Assertion → Sign
  compare_assertions left right =
      or_else (diff_sign (instant_epoch left.recorded_at) (instant_epoch right.recorded_at))
        (locale_compare left.id right.id)

  -- The test of the loop in `insertRecordedId`, and the method.
  abbrev pub is_not_after : Store → Assertion → ℕ → Bool
  is_not_after s a middle = elim (stored_at s (get_elem? s.recorded_ids middle)) [
    | none ↦ true
    | some m ↦ not_after (compare_assertions m a)
  ]

  unfoldable pub insert_recorded_id : Store → Assertion → List Text
  insert_recorded_id s a =
      let n = length s.recorded_ids in
      let low = bisect (is_not_after s a) n 0 n in
      take low s.recorded_ids ++ a.id ∷ drop low s.recorded_ids

  -- The body of the second loop of `append`.
  unfoldable pub enter : Assertion → Text → Store → Store
  enter a fingerprint s =
      let stored = record s {
        assertions = put a.id a s.assertions;
        fingerprints = put a.id fingerprint s.fingerprints;
        journal_ids = s.journal_ids ++ a.id ∷ [];
      } in
      add_sources a.source_refs a.id (record stored {
        recorded_ids = insert_recorded_id stored a;
        outgoing = add_to_index s.outgoing (graph_ref_key a.subject) a.id;
        incoming = add_to_index s.incoming (graph_ref_key a.object) a.id;
      })
