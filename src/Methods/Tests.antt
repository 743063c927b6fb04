-- ===== src/Methods/Tests.antt =====
-- The methods on concrete arguments, at a store of two assertions.
use attunegraph.Common.{
  ◌≡◌, refl, false, none, some, [], ◌∷◌, codes, raw_compare, ok, take, select, sort, not,
}
use attunegraph.Common.Maps.{values}
use attunegraph.Graph.Types.{NodeKind, Predicate, Direction, QueryPlan, RecordedRange}
use attunegraph.Graph.Instant.{parse_instant, instant_epoch}
use attunegraph.Validation.{is_canonical}
use attunegraph.Validation.Plans.{normalize_range}
use attunegraph.Store.State.{compare_assertions}
use attunegraph.Store.Recorded.{is_past}
use attunegraph.Store.Recorded.Loop.{is_behind}
use attunegraph.Store.Invariant.{IsWellFormed}
use attunegraph.Store.Reachable.{Reachable-IsWellFormed}
use attunegraph.Store.Tests.{two, two-Reachable, forget_first}
use attunegraph.Common.ByUnits.{by_units}
use attunegraph.Methods.{
  traverse_plan, recorded_range, forget_scope, Served, traverse_plan-Served, Cleared,
  forget_scope-Cleared, recorded_range_lem,
}

two-IsWellFormed : IsWellFormed raw_compare two
two-IsWellFormed = Reachable-IsWellFormed raw_compare by_units two-Reachable

abbrev from_thread : QueryPlan
from_thread = record {
  seeds = record { id = codes "thread-1"; kind = NodeKind.thread } ∷ [];
  predicates = Predicate.linked_to ∷ Predicate.context_for ∷ [];
  direction = Direction.incoming;
  max_depth = 2;
  max_assertions = 8;
  max_considered_assertions = 16;
  max_visited_refs = 8;
  valid_at = none;
  recorded_at_or_before = none;
  epistemic_classes = none;
  include_superseded = false;
}

traverse_plan-Served_example :
    Served raw_compare two from_thread (traverse_plan raw_compare two from_thread)
traverse_plan-Served_example = traverse_plan-Served raw_compare two from_thread two-IsWellFormed

forget_scope-Cleared_example :
    Cleared raw_compare by_units two forget_first (forget_scope two forget_first)
forget_scope-Cleared_example =
    forget_scope-Cleared raw_compare by_units two forget_first two-IsWellFormed

abbrev from_thirtieth : RecordedRange
from_thirtieth = record {
  after = some (codes "2026-07-30T09:00:00.000Z");
  through = none;
  limit = 2;
}

accepted : normalize_range from_thirtieth ≡ ok from_thirtieth
unfolding normalize_range is_canonical parse_instant instant_epoch
accepted = refl

recorded_range_lem_example :
    recorded_range two from_thirtieth
    ≡ ok (
        take 2 (
          select
            (λ a. not (is_past none a))
            (select
              (is_behind (some (codes "2026-07-30T09:00:00.000Z")))
              (sort (compare_assertions raw_compare) (values two.assertions)))))
recorded_range_lem_example =
    recorded_range_lem raw_compare by_units two from_thirtieth from_thirtieth two-IsWellFormed
      accepted
