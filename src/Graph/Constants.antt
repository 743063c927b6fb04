-- ===== src/Graph/Constants.antt =====
-- src/constants.ts: the bounds of a query and the order of the predicates.
use attunegraph.Common.{ℕ, Bool, true, false, List, [], ◌∷◌, Text, codes}
use attunegraph.Graph.Types.{Predicate}

abbrev pub max_graph_query_depth : ℕ
max_graph_query_depth = 4

abbrev pub max_graph_query_assertions : ℕ
max_graph_query_assertions = 256

abbrev pub max_graph_query_considered_assertions : ℕ
max_graph_query_considered_assertions = 1_024

abbrev pub max_graph_query_visited_refs : ℕ
max_graph_query_visited_refs = 1_024

abbrev pub max_activation_estimated_tokens : ℕ
max_activation_estimated_tokens = 32_768

unfoldable pub assertion_source_namespace : Text
assertion_source_namespace = codes "attunegraph.assertion"

-- ACTIVATION_PREDICATES
abbrev pub activation_predicates : List Predicate
activation_predicates =
    Predicate.supported_by ∷ Predicate.derived_from ∷ Predicate.revision_of ∷ Predicate.supersedes
    ∷ Predicate.governed_by ∷ Predicate.authorized_by ∷ Predicate.produced_outcome
    ∷ Predicate.proposes_policy ∷ Predicate.scoped_to ∷ Predicate.next_step_for
    ∷ Predicate.context_for ∷ Predicate.linked_to ∷ Predicate.delivered_for
    ∷ Predicate.observed_during ∷ Predicate.preceded ∷ Predicate.correlates_with
    ∷ Predicate.performed ∷ []

-- ACTIVATION_PREDICATE_PRIORITY
unfoldable pub predicate_priority : Predicate → ℕ
predicate_priority Predicate.supported_by = 0
predicate_priority Predicate.derived_from = 1
predicate_priority Predicate.revision_of = 2
predicate_priority Predicate.supersedes = 3
predicate_priority Predicate.governed_by = 4
predicate_priority Predicate.authorized_by = 5
predicate_priority Predicate.produced_outcome = 6
predicate_priority Predicate.proposes_policy = 7
predicate_priority Predicate.scoped_to = 8
predicate_priority Predicate.next_step_for = 9
predicate_priority Predicate.context_for = 10
predicate_priority Predicate.linked_to = 11
predicate_priority Predicate.delivered_for = 12
predicate_priority Predicate.observed_during = 13
predicate_priority Predicate.preceded = 14
predicate_priority Predicate.correlates_with = 15
predicate_priority Predicate.performed = 16

-- SINGLE_VALUE_PREDICATES
unfoldable pub is_single_value : Predicate → Bool
is_single_value Predicate.governed_by = true
is_single_value Predicate.next_step_for = true
is_single_value Predicate.produced_outcome = true
is_single_value _ = false
