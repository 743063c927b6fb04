-- ===== src/Traverse/Tests.antt =====
-- Walks on a store of two assertions, which were appended one behind the other.
use attunegraph.Common.{
  ℕ, ◌≡◌, refl, false, Option, none, some, List, [], ◌∷◌, map, Text, codes, arith, raw_compare,
  sort, sort_onto, insert_by, text_eq, text_eq_iff,
}
use attunegraph.Common.Maps.{get, put, keys, values}
use attunegraph.Common.Sets.{has, add}
use attunegraph.Graph.Types.{
  NodeKind, Predicate, EpistemicClass, DerivationKind, Direction, GraphRef, Assertion, QueryPlan,
  TraversalResult, node_kind_text, predicate_text, epistemic_text,
}
use attunegraph.Graph.Instant.{parse_instant, instant_epoch}
use attunegraph.Graph.Keys.{graph_ref_key}
use attunegraph.Json.{quote}
use attunegraph.Store.Index.{members}
use attunegraph.Store.Index.Of.{HasOwnIds}
use attunegraph.Store.State.{Store, empty}
use attunegraph.Traverse.{
  matches_time, predicate_eq, class_eq, is_eligible, visit, visit_all, compare_refs, neighbors,
  select_assertion, consider, consider_all, expand, walk, visited_seeds, first_walk, stored_of,
  result_of, traverse_fuel, traverse,
}
use attunegraph.Traverse.Answer.{IsAnswered, traverse-IsAnswered}

abbrev pub note : Text → GraphRef
note id = record { id = id; kind = NodeKind.artifact }

abbrev pub link : Text → GraphRef → GraphRef → Assertion
link id subject object = record {
  id = id;
  subject = subject;
  predicate = Predicate.preceded;
  object = object;
  epistemic_class = EpistemicClass.user_asserted;
  source_refs = record { id = codes "d"; namespace = codes "n"; version = none } ∷ [];
  valid_from = none;
  valid_to = none;
  recorded_at = codes "2026-07-31T09:00:00.000Z";
  superseded_at = none;
  derivation = record { kind = DerivationKind.projection; run_id = none; version = codes "1" };
}

abbrev chain : Store
chain = record empty {
  assertions =
      (codes "p", link (codes "p") (note (codes "x")) (note (codes "y")))
      ∷ (codes "q", link (codes "q") (note (codes "y")) (note (codes "z")))
      ∷ [];
  outgoing =
      (codes "[\"artifact\",\"x\"]", codes "p" ∷ [])
      ∷ (codes "[\"artifact\",\"y\"]", codes "q" ∷ [])
      ∷ [];
  incoming =
      (codes "[\"artifact\",\"y\"]", codes "p" ∷ [])
      ∷ (codes "[\"artifact\",\"z\"]", codes "q" ∷ [])
      ∷ [];
}

abbrev plan_of_depth : ℕ → QueryPlan
plan_of_depth depth = record {
  seeds = note (codes "x") ∷ [];
  predicates = Predicate.preceded ∷ [];
  direction = Direction.both;
  max_depth = depth;
  max_assertions = 4;
  max_considered_assertions = 4;
  max_visited_refs = 4;
  valid_at = none;
  recorded_at_or_before = none;
  epistemic_classes = none;
  include_superseded = false;
}

chain-HasOwnIds : HasOwnIds chain.assertions
unfolding get
chain-HasOwnIds id a h = ground (arith, text_eq_iff (codes "p") id, text_eq_iff (codes "q") id)

abbrev ids_found : Option TraversalResult → List Text
ids_found none = []
ids_found (some r) = map (λ (a : Assertion). a.id) r.assertions

two_steps : ids_found (traverse raw_compare chain (plan_of_depth 2)) ≡ codes "p" ∷ codes "q" ∷ []
unfolding traverse result_of stored_of first_walk visited_seeds traverse_fuel walk expand
    consider_all consider select_assertion neighbors compare_refs visit_all visit is_eligible
    class_eq predicate_eq matches_time members quote graph_ref_key instant_epoch parse_instant
    node_kind_text predicate_text epistemic_text has add get put keys values sort sort_onto
    insert_by text_eq raw_compare
two_steps = refl

one_step : ids_found (traverse raw_compare chain (plan_of_depth 1)) ≡ codes "p" ∷ []
unfolding traverse result_of stored_of first_walk visited_seeds traverse_fuel walk expand
    consider_all consider select_assertion neighbors compare_refs visit_all visit is_eligible
    class_eq predicate_eq matches_time members quote graph_ref_key instant_epoch parse_instant
    node_kind_text predicate_text epistemic_text has add get put keys values sort sort_onto
    insert_by text_eq raw_compare
one_step = refl

traverse-IsAnswered_example :
    (result : TraversalResult) × (traverse raw_compare chain (plan_of_depth 2) ≡ some result)
    × IsAnswered chain (plan_of_depth 2) result
traverse-IsAnswered_example =
    traverse-IsAnswered raw_compare chain (plan_of_depth 2) chain-HasOwnIds (omega arith)
