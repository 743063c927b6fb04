-- ===== src/Validation/Contract.antt =====
-- src/validation.ts: which kinds of nodes a predicate joins (SUBJECT_KIND_RULES, OBJECT_KIND_RULES,
-- SAME_KIND_PREDICATES and `assertEndpointContract`), what a hypothesis may not assert, and the
-- error codes of src/error.ts.
use attunegraph.Common.{
  Bool, true, false, ◌&&◌, ◌||◌, not, text_eq, Option, none, some, List, [], ◌∷◌, any,
}
use attunegraph.Graph.Types.{
  NodeKind, thread, artifact, evidence, delivery, outcome, policy, decision, action, Predicate,
  GraphRef, node_kind_text,
}
use attunegraph.Graph.Keys.{graph_ref_key}

pub data DataError : Type 0 where
  assertion_collision invalid_assertion invalid_forget_scope invalid_query : DataError

-- HYPOTHESIS_FORBIDDEN_PREDICATES
unfoldable pub is_hypothesis_forbidden : Predicate → Bool
is_hypothesis_forbidden Predicate.authorized_by = true
is_hypothesis_forbidden Predicate.governed_by = true
is_hypothesis_forbidden Predicate.performed = true
is_hypothesis_forbidden Predicate.produced_outcome = true
is_hypothesis_forbidden Predicate.supersedes = true
is_hypothesis_forbidden _ = false

-- SUBJECT_KIND_RULES
pub subject_kinds : Predicate → Option (List NodeKind)
subject_kinds Predicate.authorized_by = some (action ∷ [])
subject_kinds Predicate.delivered_for = some (delivery ∷ [])
subject_kinds Predicate.governed_by = some (delivery ∷ decision ∷ action ∷ [])
subject_kinds Predicate.linked_to = some (artifact ∷ [])
subject_kinds Predicate.next_step_for = some (artifact ∷ [])
subject_kinds Predicate.context_for = some (artifact ∷ [])
subject_kinds Predicate.observed_during = some (evidence ∷ [])
subject_kinds Predicate.performed = some (decision ∷ [])
subject_kinds Predicate.produced_outcome = some (delivery ∷ [])
subject_kinds Predicate.proposes_policy = some (decision ∷ [])
subject_kinds Predicate.scoped_to = some (policy ∷ [])
subject_kinds _ = none

-- OBJECT_KIND_RULES
pub object_kinds : Predicate → Option (List NodeKind)
object_kinds Predicate.authorized_by = some (evidence ∷ [])
object_kinds Predicate.delivered_for = some (thread ∷ [])
object_kinds Predicate.derived_from = some (evidence ∷ [])
object_kinds Predicate.governed_by = some (policy ∷ [])
object_kinds Predicate.linked_to = some (thread ∷ [])
object_kinds Predicate.next_step_for = some (thread ∷ [])
object_kinds Predicate.context_for = some (thread ∷ [])
object_kinds Predicate.observed_during = some (thread ∷ [])
object_kinds Predicate.performed = some (action ∷ [])
object_kinds Predicate.produced_outcome = some (outcome ∷ [])
object_kinds Predicate.proposes_policy = some (policy ∷ [])
object_kinds Predicate.scoped_to = some (thread ∷ [])
object_kinds Predicate.supported_by = some (evidence ∷ [])
object_kinds _ = none

-- SAME_KIND_PREDICATES
pub is_same_kind : Predicate → Bool
is_same_kind Predicate.revision_of = true
is_same_kind Predicate.supersedes = true
is_same_kind _ = false

pub kind_eq : NodeKind → NodeKind → Bool
kind_eq k l = text_eq (node_kind_text k) (node_kind_text l)

abbrev allows : Option (List NodeKind) → NodeKind → Bool
allows none k = true
allows (some kinds) k = any (kind_eq k) kinds

unfoldable pub endpoint_contract : Predicate → GraphRef → GraphRef → Bool
unfolding subject_kinds object_kinds is_same_kind kind_eq
endpoint_contract p subject object =
    not (text_eq (graph_ref_key subject) (graph_ref_key object))
    && allows (subject_kinds p) subject.kind
    && allows (object_kinds p) object.kind
    && (not (is_same_kind p) || kind_eq subject.kind object.kind)
