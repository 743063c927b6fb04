-- ===== src/Store/Tests.antt =====
-- Runs of the store, and the theorems about it at concrete stores. `localeCompare` is the order by
-- code units here.
use attunegraph.Common.{
  ◌≡◌, ◌≢◌, refl, ltb, true, false, Option, none, some, List, [], ◌∷◌, ◌++◌, Text, codes, arith,
  raw_compare, Result, ok, err, text_eq, ◌+◌, length, All, sort, sort_onto, insert_by,
}
use attunegraph.Common.Maps.{get, put, drop_key, keys, values}
use attunegraph.Common.Sets.{has, add, delete, add_all, is_distinct}
use attunegraph.Common.ByUnits.{by_units}
use attunegraph.Graph.Types.{
  node_kind_text, predicate_text, epistemic_text, derivation_text, NodeKind, Predicate,
  EpistemicClass, DerivationKind, EvidenceRef, Assertion, AppendReceipt, ForgetScope, ForgetReceipt,
}
use attunegraph.Json.{quote}
use attunegraph.Graph.Constants.{assertion_source_namespace}
use attunegraph.Graph.Fingerprint.{canonical_assertion}
use attunegraph.Graph.Instant.{parse_instant, instant_epoch}
use attunegraph.Graph.Keys.{graph_ref_key, evidence_ref_key, evidence_base_key}
use attunegraph.Validation.{
  DataError, assertion_collision, normalize_batch, normalize_assertion, assertion_ok, safe_text,
  ref_ok, evidence_ok, compare_evidence,
}
use attunegraph.Validation.Contract.{endpoint_contract, is_hypothesis_forbidden}
use attunegraph.Store.Bisect.{bisect, IsFalling, IsBorder, bisect-IsBorder}
use attunegraph.Store.Index.{add_to_index, remove_from_index, members, same_index, add_keys}
use attunegraph.Store.State.{
  Store, empty, stored_at, add_sources, remove_sources, splice_out, remove_assertion,
  first_recorded_after, compare_assertions, insert_recorded_id, enter,
}
use attunegraph.Store.Append.{find, stage, commit, append_normalized, append}
use attunegraph.Store.Append.Effect.{
  append-effect, append_replay, append_keeps, append-IsWellFormed, Conflict, append-Conflict,
}
use attunegraph.Store.Forget.{
  seed_refs, seed_sources, matching_ids, seeds, dependents, admit, close, remove_all, closure_fuel,
  removed_ids, forget,
}
use attunegraph.Store.Forget.Effect.{citation_key, Forgotten, forget-Forgotten, forget_no_orphans}
use attunegraph.Store.Recorded.{recorded, collect, start_index}
use attunegraph.Store.Verify.{
  verify, issues, expected_outgoing, expected_incoming, expected_sources, expected_source_bases,
  has_moved, assertion_issues, all_assertion_issues,
}
use attunegraph.Store.Invariant.{base_keys, IsWellFormed}
use attunegraph.Store.Reachable.{
  Reachable, empty-IsWellFormed, Reachable-IsWellFormed, Reachable-verify,
}

abbrev observed :
    Text
    → NodeKind
    → Text
    → Predicate
    → EpistemicClass
    → DerivationKind
    → Text
    → EvidenceRef
    → Assertion
observed id kind subject predicate class derived at source = record {
  id = codes "x";
  subject = record { id = subject; kind = kind };
  predicate = predicate;
  object = record { id = codes "thread-1"; kind = NodeKind.thread };
  epistemic_class = class;
  source_refs = source ∷ [];
  valid_from = none;
  valid_to = none;
  recorded_at = at;
  superseded_at = none;
  derivation = record { kind = derived; run_id = none; version = codes "1" };
}

abbrev pub first : Assertion
first =
    record (observed (codes "") NodeKind.artifact (codes "note-1") Predicate.linked_to
      EpistemicClass.user_asserted DerivationKind.projection (codes "2026-07-31T09:00:00.000Z")
      (record { id = codes "doc"; namespace = codes "notes"; version = none })) { id = codes "a1" }

-- Derived from the first one, and recorded earlier.
abbrev derived : Assertion
derived =
    record (observed (codes "") NodeKind.artifact (codes "note-2") Predicate.context_for
      EpistemicClass.deterministic_derived DerivationKind.rule (codes "2026-07-30T09:00:00.000Z")
      (record { id = codes "a1"; namespace = codes "attunegraph.assertion"; version = none })) {
        id = codes "b2";
      }

abbrev batch : List Assertion
batch = first ∷ derived ∷ []

-- The first assertion with another predicate.
abbrev changed : Assertion
changed = record first { predicate = Predicate.context_for }

runs : Unit {0}
unfolding append append_normalized normalize_batch normalize_assertion assertion_ok safe_text ref_ok
    evidence_ok compare_evidence parse_instant endpoint_contract is_hypothesis_forbidden
    canonical_assertion quote graph_ref_key evidence_ref_key evidence_base_key node_kind_text
    predicate_text epistemic_text derivation_text assertion_source_namespace instant_epoch stage
    find commit enter add_sources insert_recorded_id compare_assertions stored_at bisect
    add_to_index remove_from_index members get put drop_key keys values has add delete add_all
    is_distinct text_eq raw_compare insert_by sort_onto sort forget seeds seed_refs seed_sources
    matching_ids dependents admit close remove_all closure_fuel removed_ids remove_assertion
    remove_sources splice_out recorded collect start_index first_recorded_after verify issues
    same_index expected_outgoing expected_incoming expected_sources expected_source_bases has_moved
    assertion_issues all_assertion_issues add_keys
runs = tt

abbrev store_of : Result DataError (AppendReceipt × Store) → Store
store_of (ok (receipt, s)) = s
store_of (err e) = empty

abbrev pub two : Store
two = store_of (append raw_compare batch empty)

abbrev two_appended : AppendReceipt
two_appended = record { appended = 2; assertion_ids = codes "a1" ∷ codes "b2" ∷ []; replayed = 0 }

append-two : append raw_compare batch empty ≡ ok (two_appended, two)
unfolding runs
append-two = refl

-- The earlier instant stands first.
recorded_two : two.recorded_ids ≡ codes "b2" ∷ codes "a1" ∷ []
unfolding runs
recorded_two = refl

normal_two : normalize_batch raw_compare batch ≡ ok batch
unfolding runs
normal_two = refl

pub two-Reachable : Reachable raw_compare two
two-Reachable = Reachable.appended batch two_appended two Reachable.start append-two

abbrev pub forget_first : ForgetScope
forget_first = record { assertion_ids = codes "a1" ∷ []; graph_refs = []; source_refs = [] }

abbrev both_removed : ForgetReceipt
both_removed = record { removed = 2; removed_assertion_ids = codes "a1" ∷ codes "b2" ∷ [] }

abbrev forgotten_store : Option (ForgetReceipt × Store) → Store
forgotten_store none = two
forgotten_store (some (receipt, s)) = s

forget_both :
    forget two forget_first ≡ some (both_removed, forgotten_store (forget two forget_first))
unfolding runs
forget_both = refl

Reachable-verify_example :
    ((verify raw_compare two).issues ≡ []) × ((verify raw_compare two).is_ok ≡ true)
Reachable-verify_example = Reachable-verify raw_compare by_units two-Reachable

append-effect_example :
    (two.journal_ids ≡ [] ++ two_appended.assertion_ids)
    × (two_appended.appended + two_appended.replayed ≡ length batch)
    × All (λ (a : Assertion). get a.id two.fingerprints ≡ some (canonical_assertion a)) batch
append-effect_example =
    append-effect raw_compare by_units empty batch batch two_appended two
      (empty-IsWellFormed raw_compare) normal_two append-two

append_replay_example :
    append raw_compare batch two
    ≡ ok (record { appended = 0; assertion_ids = []; replayed = length batch }, two)
append_replay_example =
    append_replay raw_compare by_units empty batch batch two_appended two
      (empty-IsWellFormed raw_compare) normal_two append-two

normal_changed : normalize_batch raw_compare (changed ∷ []) ≡ ok (changed ∷ [])
unfolding runs
normal_changed = refl

stored_print : get (codes "a1") two.fingerprints ≡ some (canonical_assertion first)
unfolding runs
stored_print = refl

prints_differ : canonical_assertion first ≢ canonical_assertion changed
unfolding runs
prints_differ = λ e. ground arith

append-Conflict_example : append raw_compare (changed ∷ []) two ≡ err assertion_collision
append-Conflict_example =
    append-Conflict raw_compare by_units two (changed ∷ []) (changed ∷ [])
      (Reachable-IsWellFormed raw_compare by_units two-Reachable) normal_changed
      (Conflict.with_stored 0 changed (canonical_assertion first) refl stored_print prints_differ)

forget-Forgotten_example :
    (receipt : ForgetReceipt) × (after : Store) × (forget two forget_first ≡ some (receipt, after))
    × Forgotten raw_compare by_units two forget_first receipt after
forget-Forgotten_example =
    forget-Forgotten raw_compare by_units two forget_first
      (Reachable-IsWellFormed raw_compare by_units two-Reachable)

-- A third assertion, which cites neither.
abbrev third : Assertion
third =
    record (observed (codes "") NodeKind.artifact (codes "note-3") Predicate.linked_to
      EpistemicClass.user_asserted DerivationKind.projection (codes "2026-07-31T09:00:00.000Z")
      (record { id = codes "page"; namespace = codes "notes"; version = some (codes "2") })) {
        id = codes "c3";
      }

abbrev three : Store
three = store_of (append raw_compare (third ∷ []) two)

append-three :
    append raw_compare (third ∷ []) two
    ≡ ok (record { appended = 1; assertion_ids = codes "c3" ∷ []; replayed = 0 }, three)
unfolding runs
append-three = refl

three-Reachable : Reachable raw_compare three
three-Reachable = Reachable.appended (third ∷ []) _ three two-Reachable append-three

abbrev third_left : Store
third_left = forgotten_store (forget three forget_first)

forget-three : forget three forget_first ≡ some (both_removed, third_left)
unfolding runs
forget-three = refl

third_stored : get (codes "c3") third_left.assertions ≡ some third
unfolding runs
third_stored = refl

first_removed : has (codes "a1") both_removed.removed_assertion_ids ≡ true
unfolding runs
first_removed = refl

forget_no_orphans_example : has (citation_key (codes "a1")) (base_keys third) ≡ false
forget_no_orphans_example =
    forget_no_orphans raw_compare by_units three forget_first both_removed third_left
      (Reachable-IsWellFormed raw_compare by_units three-Reachable) forget-three (codes "a1")
      (codes "c3") third (λ e. cc) first_removed third_stored

normal_third : normalize_batch raw_compare (third ∷ []) ≡ ok (third ∷ [])
unfolding runs
normal_third = refl

first_stored : get (codes "a1") two.assertions ≡ some first
unfolding runs
first_stored = refl

append_keeps_example : get (codes "a1") three.assertions ≡ some first
append_keeps_example =
    append_keeps raw_compare by_units two (third ∷ []) (third ∷ []) _ three
      (Reachable-IsWellFormed raw_compare by_units two-Reachable) normal_third append-three
      (codes "a1") first first_stored

append-IsWellFormed_example : IsWellFormed raw_compare two
append-IsWellFormed_example =
    append-IsWellFormed raw_compare by_units empty batch two_appended two
      (empty-IsWellFormed raw_compare) append-two

Reachable-IsWellFormed_example : IsWellFormed raw_compare three
Reachable-IsWellFormed_example = Reachable-IsWellFormed raw_compare by_units three-Reachable

normal_first : normalize_assertion raw_compare first ≡ ok first
unfolding runs
normal_first = refl

below_three : IsFalling (λ i. ltb i 3) 8
below_three = λ i j le lt h. ground arith

bisect-IsBorder_example : IsBorder (λ i. ltb i 3) 0 8 (bisect (λ i. ltb i 3) 8 0 8)
bisect-IsBorder_example =
    bisect-IsBorder (λ i. ltb i 3) 8 below_three 8 0 8 (omega arith) (omega arith) (omega arith)
