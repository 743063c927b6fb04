-- ===== src/Store/Forget.antt =====
-- src/in-memory-store.ts: `forget`. The ids that a scope names are closed under the derivations
-- that cite one of them, and only then taken out.
pub mod Closure
pub mod Effect
use attunegraph.Common.{
  ℕ, zero, suc, ◌+◌, Bool, Option, none, some, List, [], ◌∷◌, ◌++◌, if◌then◌else◌, Text,
  raw_compare, Sign, length, select, sort,
}
use attunegraph.Common.Maps.{get, keys}
use attunegraph.Common.Sets.{has, add, add_all}
use attunegraph.Graph.Types.{GraphRef, EvidenceRef, ForgetScope, ForgetReceipt}
use attunegraph.Graph.Constants.{assertion_source_namespace}
use attunegraph.Graph.Keys.{graph_ref_key, evidence_ref_key, evidence_base_key}
use attunegraph.Store.Index.{members}
use attunegraph.Store.State.{Store, remove_assertion}

-- The ids under a graph reference, as subject and as object.
unfoldable pub seed_refs : Store → List GraphRef → List Text → List Text
seed_refs s [] removal = removal
seed_refs s (ref ∷ refs) removal = seed_refs s refs (
    add_all (members s.incoming (graph_ref_key ref))
      (add_all (members s.outgoing (graph_ref_key ref)) removal))

-- A source reference with a version names that version alone.
unfoldable pub matching_ids : Store → EvidenceRef → List Text
matching_ids s ref = elim ref.version [
  | some (c ∷ v) ↦ members s.source_index (evidence_ref_key ref)
  | _ ↦ members s.source_base_index (evidence_base_key ref.namespace ref.id)
]

unfoldable pub seed_sources : Store → List EvidenceRef → List Text → List Text
seed_sources s [] removal = removal
seed_sources s (ref ∷ refs) removal = seed_sources s refs (add_all (matching_ids s ref) removal)

unfoldable pub seeds : Store → ForgetScope → List Text
seeds s scope =
    seed_sources s scope.source_refs (seed_refs s scope.graph_refs (add_all scope.assertion_ids []))

-- The ids that cite an assertion as their source.
unfoldable pub dependents : Store → Text → List Text
dependents s id = members s.source_base_index (evidence_base_key assertion_source_namespace id)

-- The inner loop: the dependents that are new enter the removal and the queue.
unfoldable pub admit : List Text → List Text → List Text → List Text × List Text
admit [] removal queue = (removal, queue)
admit (id ∷ ids) removal queue =
    admit ids (if has id removal then removal else removal ++ id ∷ [])
      (if has id removal then queue else queue ++ id ∷ [])

-- `if (!removedId) continue`
abbrev dependents_of : Store → Text → List Text
dependents_of s [] = []
dependents_of s (c ∷ id) = dependents s (c ∷ id)

-- The outer loop, on the part of the queue that is still to be read; `none` is fuel that ran out.
unfoldable pub close : ℕ → Store → List Text → List Text → Option (List Text)
close fuel s removal [] = some removal
close zero s removal (id ∷ queue) = none
close (suc fuel) s removal (id ∷ queue) =
    let (removal', queue') = admit (dependents_of s id) removal queue in
    close fuel s removal' queue'

unfoldable pub remove_all : List Text → Store → Store
remove_all [] s = s
remove_all (id ∷ ids) s = remove_all ids (remove_assertion id s)

-- Each id of the closure is read once: those of the scope, and stored ones.
unfoldable pub closure_fuel : Store → List Text → ℕ
closure_fuel s removal = length removal + length s.journal_ids

-- The ids to take out, sorted by code units.
unfoldable pub removed_ids : Store → List Text → List Text
removed_ids s removal = sort raw_compare (select (λ id. has id (keys s.assertions)) removal)

-- `forget` behind the normalization of its scope.
unfoldable pub forget : Store → ForgetScope → Option (ForgetReceipt × Store)
forget s scope =
    let start = seeds s scope in
    elim (close (closure_fuel s start) s start start) [
      | none ↦ none
      | some removal ↦
          let ids = removed_ids s removal in
          some (record { removed = length ids; removed_assertion_ids = ids }, remove_all ids s)
    ]
