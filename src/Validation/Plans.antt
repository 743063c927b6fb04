-- ===== src/Validation/Plans.antt =====
-- src/validation.ts on arguments of the declared types: `normalizeGraphQueryPlan`,
-- `normalizeRecordedRange` and `normalizeForgetScope`, which stand in front of the store's methods.
use attunegraph.Common.{
  ℕ, Bool, true, ◌&&◌, not, Option, none, some, List, map, leb, ltb, ◌==◌, if◌then◌else◌, Text,
  Sign, length, any, sort, Result, ok, err,
}
use attunegraph.Common.Sets.{is_distinct}
use attunegraph.Common.Order.{IsOrder}
use attunegraph.Graph.Types.{
  GraphRef, QueryPlan, RecordedRange, ForgetScope, predicate_text, epistemic_text,
}
use attunegraph.Graph.Constants.{
  max_graph_query_depth, max_graph_query_assertions, max_graph_query_considered_assertions,
  max_graph_query_visited_refs,
}
use attunegraph.Graph.Instant.{instant_epoch}
use attunegraph.Graph.Keys.{graph_ref_key}
use attunegraph.Validation.{
  DataError, invalid_query, invalid_forget_scope, safe_text, max_id_characters, optional,
  is_canonical, ref_ok, evidence_ok,
}

-- `boundedInteger`
abbrev pub bounded_integer : ℕ → ℕ → ℕ → Bool
bounded_integer value minimum maximum = leb minimum value && leb value maximum

-- A list that is not empty, within its maximum, without a text that stands twice.
abbrev pub is_choice : ℕ → List Text → Bool
is_choice max_items items = bounded_integer (length items) 1 max_items && is_distinct items

abbrev pub classes_ok : Option (List Text) → Bool
classes_ok none = true
classes_ok (some classes) = is_choice 4 classes

abbrev pub class_names : QueryPlan → Option (List Text)
class_names plan = elim plan.epistemic_classes [
  | none ↦ none
  | some classes ↦ some (map epistemic_text classes)
]

-- The checks of `normalizeGraphQueryPlan`, on the seeds in their order.
unfoldable pub plan_ok : QueryPlan → Bool
plan_ok plan =
    is_choice 32 (map graph_ref_key plan.seeds)
    && not (any (λ ref. not (ref_ok ref)) plan.seeds)
    && is_choice 17 (map predicate_text plan.predicates)
    && classes_ok (class_names plan)
    && optional is_canonical plan.valid_at
    && optional is_canonical plan.recorded_at_or_before
    && bounded_integer plan.max_assertions 1 max_graph_query_assertions
    && bounded_integer plan.max_considered_assertions 1 max_graph_query_considered_assertions
    && bounded_integer plan.max_visited_refs 1 max_graph_query_visited_refs
    && leb plan.max_assertions plan.max_considered_assertions
    && leb (length plan.seeds) plan.max_visited_refs
    && bounded_integer plan.max_depth 0 max_graph_query_depth

module _ (locale_compare : Text → Text → Sign) where
  unfoldable pub compare_seeds : GraphRef → GraphRef → Sign
  compare_seeds left right = locale_compare (graph_ref_key left) (graph_ref_key right)

  -- Every exception of the function is `INVALID_QUERY`.
  unfoldable pub normalize_plan : QueryPlan → Result DataError QueryPlan
  normalize_plan input =
      let plan = record input { seeds = sort compare_seeds input.seeds } in
      if plan_ok plan then ok plan else err invalid_query

abbrev is_open : Option Text → Option Text → Bool
is_open (some after) (some through) = ltb (instant_epoch after) (instant_epoch through)
is_open _ _ = true

unfoldable pub normalize_range : RecordedRange → Result DataError RecordedRange
normalize_range range =
    if optional is_canonical range.after
      && optional is_canonical range.through
      && is_open range.after range.through
      && bounded_integer range.limit 1 max_graph_query_assertions
    then ok range
    else err invalid_query

-- `normalizeTextArray`
abbrev text_array_ok : List Text → Bool
text_array_ok items =
    leb (length items) max_graph_query_considered_assertions
    && not (any (λ item. not (safe_text max_id_characters item)) items)
    && is_distinct items

-- The checks of `normalizeForgetScope`. A field of the scope that is left out is an empty list here:
-- the method reads both alike.
unfoldable pub scope_ok : ForgetScope → Bool
scope_ok scope =
    text_array_ok scope.assertion_ids
    && leb (length scope.graph_refs) max_graph_query_visited_refs
    && not (any (λ ref. not (ref_ok ref)) scope.graph_refs)
    && leb (length scope.source_refs) max_graph_query_considered_assertions
    && not (any (λ ref. not (evidence_ok ref)) scope.source_refs)
    && not (
        length scope.assertion_ids == 0
        && length scope.graph_refs == 0
        && length scope.source_refs == 0)

unfoldable pub normalize_scope : ForgetScope → Result DataError ForgetScope
normalize_scope scope = if scope_ok scope then ok scope else err invalid_forget_scope

compare_seeds-IsOrder :
    (locale_compare : Text → Text → Sign)
    → IsOrder locale_compare
    → IsOrder (compare_seeds locale_compare)
unfolding compare_seeds
compare_seeds-IsOrder locale_compare locale = record {
  flips = λ a b. locale.flips (graph_ref_key a) (graph_ref_key b);
  trans = λ a b c. locale.trans (graph_ref_key a) (graph_ref_key b) (graph_ref_key c);
}
