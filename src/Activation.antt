-- ===== src/Activation.antt =====
-- src/activation-subgraph.ts: `compileActivationSubgraph`, a slice of the graph around a thread that
-- fits a budget of assertions and of estimated tokens. The store is a parameter: the one method of
-- its interface that the function calls.
pub mod Conflicts
pub mod Output
pub mod Slice
pub mod Estimate
mod Tests
use attunegraph.Common.{
  ℕ, zero, suc, ◌+◌, ◌≤◌, Bool, true, false, ◌&&◌, ◌||◌, not, Option, none, some, List, [], ◌∷◌,
  ◌++◌, leb, ltb, min, if◌then◌else◌, Text, text_eq, Sign, length, take, any, sort, Result, ok, err,
  ◌>>=◌, ◌>>◌, guard,
}
use attunegraph.Graph.Types.{
  GraphRef, NodeKind, Assertion, Direction, QueryPlan, TraversalResult, ActivationBudget,
  ActivationConflict, ActivationSubgraph, ActivationInput,
}
use attunegraph.Graph.Constants.{
  max_graph_query_depth, max_graph_query_assertions, max_graph_query_considered_assertions,
  max_graph_query_visited_refs, max_activation_estimated_tokens, activation_predicates,
}
use attunegraph.Graph.Keys.{graph_ref_key}
use attunegraph.Validation.{DataError, invalid_query}
use attunegraph.Validation.Plans.{bounded_integer, normalize_plan}
use attunegraph.Activation.Conflicts.{compare_activation, detect_conflicts}
use attunegraph.Activation.Output.{TraversalStats, build_output}

-- `normalizeBudget`
unfoldable pub budget_ok : ActivationBudget → Bool
budget_ok b =
    bounded_integer b.max_assertions 1 max_graph_query_assertions
    && bounded_integer b.max_considered_assertions 1 max_graph_query_considered_assertions
    && leb b.max_assertions b.max_considered_assertions
    && bounded_integer b.max_depth 0 max_graph_query_depth
    && bounded_integer b.max_estimated_tokens 64 max_activation_estimated_tokens
    && bounded_integer b.max_visited_refs 1 max_graph_query_visited_refs

unfoldable pub activation_plan : ActivationInput → QueryPlan
activation_plan input = record {
  seeds = input.seed ∷ [];
  predicates = activation_predicates;
  direction = Direction.both;
  max_depth = input.budget.max_depth;
  max_assertions = min max_graph_query_assertions input.budget.max_considered_assertions;
  max_considered_assertions = input.budget.max_considered_assertions;
  max_visited_refs = input.budget.max_visited_refs;
  valid_at = some input.now;
  recorded_at_or_before =
      some (elim input.recorded_at_or_before [ none ↦ input.now | some at ↦ at ]);
  epistemic_classes = none;
  include_superseded = false;
}

-- `plan.seeds[0]`, where it is a thread.
unfoldable pub thread_seed : List GraphRef → Result DataError GraphRef
thread_seed [] = err invalid_query
thread_seed (seed ∷ seeds) = elim seed.kind [ NodeKind.thread ↦ ok seed | _ ↦ err invalid_query ]

-- An instant of the plan, which is missing or not empty.
abbrev given : Option Text → Result DataError Text
given none = err invalid_query
given (some []) = err invalid_query
given (some (c ∷ text)) = ok (c ∷ text)

-- What the selection has chosen, and why it has passed over others.
pub record Selection : Type 0 where
  pub selected : List Assertion
  pub assertion_cut : Bool
  pub token_cut : Bool

abbrev pub nothing_selected : Selection
nothing_selected = record { selected = []; assertion_cut = false; token_cut = false }

module _ (locale_compare : Text → Text → Sign) where
  -- The loop on the candidates.
  unfoldable pub select_candidates :
      ActivationInput
      → List ActivationConflict
      → TraversalStats
      → List Assertion
      → Selection
      → Selection
  select_candidates input conflicts stats [] s = s
  select_candidates input conflicts stats (a ∷ rest) s =
      let out =
        build_output locale_compare input (s.selected ++ a ∷ []) conflicts stats s.assertion_cut
          false in
      let next =
        if ltb input.budget.max_estimated_tokens out.diagnostics.estimated_tokens
        then record s { token_cut = true }
        else record s { selected = s.selected ++ a ∷ [] } in
      let more = select_candidates input conflicts stats rest next in
      if leb input.budget.max_assertions (length s.selected)
      then record s { assertion_cut = true }
      else more

  -- The loop that takes the last assertions out again, on the number that is left.
  unfoldable pub shrink :
      ActivationInput
      → List ActivationConflict
      → TraversalStats
      → Selection
      → ℕ
      → ActivationSubgraph
      → ActivationSubgraph
  shrink input conflicts stats s zero out = out
  shrink input conflicts stats s (suc left) out =
      let rest = shrink input conflicts stats s left (
        build_output locale_compare input (take left s.selected) conflicts stats s.assertion_cut
          true) in
      if ltb input.budget.max_estimated_tokens out.diagnostics.estimated_tokens then rest else out

  abbrev pub stats_of : TraversalResult → TraversalStats
  stats_of traversal = record {
    candidate_assertions = length traversal.assertions;
    detected_conflicts = length (
        detect_conflicts locale_compare
          (sort (compare_activation locale_compare) traversal.assertions));
    max_depth_reached = traversal.diagnostics.max_depth_reached;
    traversal_truncated = traversal.truncated;
    visited_refs = traversal.diagnostics.visited_refs;
  }

  -- The function behind the call of the store, on a normalized input.
  unfoldable pub compile_slice :
      ActivationInput → TraversalResult → Result DataError ActivationSubgraph
  compile_slice input traversal =
      let candidates = sort (compare_activation locale_compare) traversal.assertions in
      let conflicts = detect_conflicts locale_compare candidates in
      let stats = stats_of traversal in
      let s = select_candidates input conflicts stats candidates nothing_selected in
      let first =
        build_output locale_compare input s.selected conflicts stats
          (s.assertion_cut || (ltb (length s.selected) (length candidates) && not s.token_cut))
          s.token_cut in
      let out = shrink input conflicts stats s (length s.selected) first in
      if ltb input.budget.max_estimated_tokens out.diagnostics.estimated_tokens
      then err invalid_query
      else ok out

  module _ (store_traverse : QueryPlan → Result DataError TraversalResult) where
    unfoldable pub compile_activation_subgraph :
        ActivationInput → Result DataError ActivationSubgraph
    compile_activation_subgraph input = do
      guard (budget_ok input.budget) invalid_query
      plan ← normalize_plan locale_compare (activation_plan input)
      seed ← thread_seed plan.seeds
      now ← given plan.valid_at
      at ← given plan.recorded_at_or_before
      traversal ← store_traverse plan
      guard (any (λ ref. text_eq (graph_ref_key ref) (graph_ref_key seed)) traversal.refs)
          invalid_query
      compile_slice
          (record {
            budget = input.budget;
            now = now;
            recorded_at_or_before = some at;
            seed = seed;
          })
          traversal
