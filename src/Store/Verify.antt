-- ===== src/Store/Verify.antt =====
-- src/in-memory-store.ts: `verify`, the store's own check of its indexes.
use attunegraph.Common.{
  ℕ, Bool, true, false, ◌||◌, not, Option, none, some, List, [], ◌∷◌, ◌++◌, map, Text, text_eq,
  Sign, ◌==◌, length, sort, ok, err,
}
use attunegraph.Common.Maps.{get, values}
use attunegraph.Common.Sets.{add_all}
use attunegraph.Graph.Types.{EvidenceRef, Assertion}
use attunegraph.Graph.Fingerprint.{canonical_assertion}
use attunegraph.Graph.Keys.{graph_ref_key, evidence_ref_key, evidence_base_key}
use attunegraph.Validation.{normalize_assertion}
use attunegraph.Store.Index.{Index, add_to_index, add_keys, same_index}
use attunegraph.Store.State.{Store, compare_assertions}

pub data Issue : Type 0 where
  fingerprint_size journal_size journal_duplicates recorded_size : Issue
  fingerprint_mismatch invalid : Text → Issue
  outgoing_mismatch incoming_mismatch source_mismatch source_base_mismatch recorded_order : Issue

pub record Verification : Type 0 where
  pub assertion_count : ℕ
  pub issues : List Issue
  pub is_ok : Bool
  pub source_reference_count : ℕ

abbrev pub unless : Bool → Issue → List Issue
unless true issue = []
unless false issue = issue ∷ []

-- The expected indexes, entered in the order of `assertions.values()`.
unfoldable pub expected_outgoing : List Assertion → Index → Index
expected_outgoing [] index = index
expected_outgoing (a ∷ rest) index =
    expected_outgoing rest (add_to_index index (graph_ref_key a.subject) a.id)

unfoldable pub expected_incoming : List Assertion → Index → Index
expected_incoming [] index = index
expected_incoming (a ∷ rest) index =
    expected_incoming rest (add_to_index index (graph_ref_key a.object) a.id)

unfoldable pub expected_sources : List Assertion → Index → Index
expected_sources [] index = index
expected_sources (a ∷ rest) index =
    expected_sources rest (add_keys (map evidence_ref_key a.source_refs) a.id index)

abbrev pub base_key : EvidenceRef → Text
base_key ref = evidence_base_key ref.namespace ref.id

unfoldable pub expected_source_bases : List Assertion → Index → Index
expected_source_bases [] index = index
expected_source_bases (a ∷ rest) index =
    expected_source_bases rest (add_keys (map base_key a.source_refs) a.id index)

-- `expectedRecorded.some((id, index) => this.recordedIds[index] !== id)`
unfoldable pub has_moved : List Text → List Text → Bool
has_moved [] ids = false
has_moved (id ∷ rest) [] = true
has_moved (id ∷ rest) (j ∷ ids) = not (text_eq j id) || has_moved rest ids

module _ (locale_compare : Text → Text → Sign) where
  abbrev is_fingerprint : Option Text → Text → Bool
  is_fingerprint none print = false
  is_fingerprint (some known) print = text_eq print known

  -- The assertion's own check, with its `catch`.
  unfoldable pub assertion_issues : Store → Assertion → List Issue
  assertion_issues s a = elim (normalize_assertion locale_compare a) [
    | err e ↦ invalid a.id ∷ []
    | ok b ↦
        unless (is_fingerprint (get a.id s.fingerprints) (canonical_assertion b))
          (fingerprint_mismatch a.id)
  ]

  unfoldable pub all_assertion_issues : Store → List Assertion → List Issue
  all_assertion_issues s [] = []
  all_assertion_issues s (a ∷ rest) = assertion_issues s a ++ all_assertion_issues s rest

  abbrev pub expected_recorded : Store → List Text
  expected_recorded s =
      map (λ (a : Assertion). a.id) (sort (compare_assertions locale_compare) (values s.assertions))

  unfoldable pub issues : Store → List Issue
  issues s =
      unless (length s.assertions == length s.fingerprints) fingerprint_size
      ++ (unless (length s.assertions == length s.journal_ids) journal_size
          ++ (unless (length (add_all s.journal_ids []) == length s.journal_ids) journal_duplicates
              ++ (unless (length s.assertions == length s.recorded_ids) recorded_size
                  ++ (all_assertion_issues s (values s.assertions)
                      ++ (unless
                            (same_index s.outgoing (expected_outgoing (values s.assertions) []))
                            outgoing_mismatch
                          ++ (unless
                                (same_index s.incoming (expected_incoming (values s.assertions) []))
                                incoming_mismatch
                              ++ (unless
                                    (same_index s.source_index
                                      (expected_sources (values s.assertions) []))
                                    source_mismatch
                                  ++ (unless
                                        (same_index s.source_base_index
                                          (expected_source_bases (values s.assertions) []))
                                        source_base_mismatch
                                      ++ unless
                                          (not (has_moved (expected_recorded s) s.recorded_ids))
                                          recorded_order))))))))

  unfoldable pub verify : Store → Verification
  verify s = record {
    assertion_count = length s.assertions;
    issues = issues s;
    is_ok = elim (issues s) [ [] ↦ true | _ ↦ false ];
    source_reference_count = length s.source_index;
  }
