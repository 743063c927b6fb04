-- ===== src/Graph/Types.antt =====
-- src/types.ts: nodes, predicates, assertions, query plans and the results of the store.
use attunegraph.Common.{ℕ, Bool, Option, List, Text, codes}

pub data NodeKind : Type 0 where
  thread artifact evidence delivery outcome policy decision action : NodeKind

pub data Predicate : Type 0 where
  linked_to next_step_for context_for supported_by derived_from revision_of supersedes : Predicate
  observed_during delivered_for produced_outcome proposes_policy scoped_to governed_by : Predicate
  preceded correlates_with authorized_by performed : Predicate

pub data EpistemicClass : Type 0 where
  user_asserted source_observed deterministic_derived model_hypothesis : EpistemicClass

pub data DerivationKind : Type 0 where
  projection rule model : DerivationKind

pub data Direction : Type 0 where
  outgoing incoming both : Direction

pub record GraphRef : Type 0 where
  pub id : Text
  pub kind : NodeKind

pub record EvidenceRef : Type 0 where
  pub id : Text
  pub namespace : Text
  pub version : Option Text

pub record Derivation : Type 0 where
  pub kind : DerivationKind
  pub run_id : Option Text
  pub version : Text

pub record Assertion : Type 0 where
  pub id : Text
  pub subject : GraphRef
  pub predicate : Predicate
  pub object : GraphRef
  pub epistemic_class : EpistemicClass
  pub source_refs : List EvidenceRef
  pub valid_from : Option Text
  pub valid_to : Option Text
  pub recorded_at : Text
  pub superseded_at : Option Text
  pub derivation : Derivation

pub record AppendReceipt : Type 0 where
  pub appended : ℕ
  pub assertion_ids : List Text
  pub replayed : ℕ

pub record QueryPlan : Type 0 where
  pub seeds : List GraphRef
  pub predicates : List Predicate
  pub direction : Direction
  pub max_depth : ℕ
  pub max_assertions : ℕ
  pub max_considered_assertions : ℕ
  pub max_visited_refs : ℕ
  pub valid_at : Option Text
  pub recorded_at_or_before : Option Text
  pub epistemic_classes : Option (List EpistemicClass)
  pub include_superseded : Bool

pub record Diagnostics : Type 0 where
  pub considered_assertions : ℕ
  pub max_depth_reached : ℕ
  pub visited_refs : ℕ

pub record TraversalResult : Type 0 where
  pub assertions : List Assertion
  pub diagnostics : Diagnostics
  pub refs : List GraphRef
  pub truncated : Bool

pub record RecordedRange : Type 0 where
  pub after : Option Text
  pub through : Option Text
  pub limit : ℕ

pub record ForgetScope : Type 0 where
  pub assertion_ids : List Text
  pub graph_refs : List GraphRef
  pub source_refs : List EvidenceRef

pub record ForgetReceipt : Type 0 where
  pub removed : ℕ
  pub removed_assertion_ids : List Text

pub record ActivationBudget : Type 0 where
  pub max_assertions : ℕ
  pub max_considered_assertions : ℕ
  pub max_depth : ℕ
  pub max_estimated_tokens : ℕ
  pub max_visited_refs : ℕ

pub record ActivationConflict : Type 0 where
  pub assertion_ids : List Text
  pub object_refs : List GraphRef
  pub predicate : Predicate
  pub source_refs : List EvidenceRef
  pub subject : GraphRef

pub data TruncationReason : Type 0 where
  assertion_budget token_budget traversal_budget : TruncationReason

pub record ActivationDiagnostics : Type 0 where
  pub candidate_assertions : ℕ
  pub detected_conflicts : ℕ
  pub max_depth_reached : ℕ
  pub reported_conflicts : ℕ
  pub selected_assertions : ℕ
  pub truncation_reasons : List TruncationReason
  pub visited_refs : ℕ
  pub estimated_tokens : ℕ

pub record ActivationSubgraph : Type 0 where
  pub assertions : List Assertion
  pub compiled_at : Text
  pub conflicts : List ActivationConflict
  pub refs : List GraphRef
  pub seed : GraphRef
  pub source_refs : List EvidenceRef
  pub truncated : Bool
  pub diagnostics : ActivationDiagnostics

pub record ActivationInput : Type 0 where
  pub budget : ActivationBudget
  pub now : Text
  pub recorded_at_or_before : Option Text
  pub seed : GraphRef

-- src/types.ts, GRAPH_NODE_KINDS: the texts of the kinds.
unfoldable pub node_kind_text : NodeKind → Text
node_kind_text NodeKind.thread = codes "thread"
node_kind_text NodeKind.artifact = codes "artifact"
node_kind_text NodeKind.evidence = codes "evidence"
node_kind_text NodeKind.delivery = codes "delivery"
node_kind_text NodeKind.outcome = codes "outcome"
node_kind_text NodeKind.policy = codes "policy"
node_kind_text NodeKind.decision = codes "decision"
node_kind_text NodeKind.action = codes "action"

-- GRAPH_PREDICATES
unfoldable pub predicate_text : Predicate → Text
predicate_text Predicate.linked_to = codes "LINKED_TO"
predicate_text Predicate.next_step_for = codes "NEXT_STEP_FOR"
predicate_text Predicate.context_for = codes "CONTEXT_FOR"
predicate_text Predicate.supported_by = codes "SUPPORTED_BY"
predicate_text Predicate.derived_from = codes "DERIVED_FROM"
predicate_text Predicate.revision_of = codes "REVISION_OF"
predicate_text Predicate.supersedes = codes "SUPERSEDES"
predicate_text Predicate.observed_during = codes "OBSERVED_DURING"
predicate_text Predicate.delivered_for = codes "DELIVERED_FOR"
predicate_text Predicate.produced_outcome = codes "PRODUCED_OUTCOME"
predicate_text Predicate.proposes_policy = codes "PROPOSES_POLICY"
predicate_text Predicate.scoped_to = codes "SCOPED_TO"
predicate_text Predicate.governed_by = codes "GOVERNED_BY"
predicate_text Predicate.preceded = codes "PRECEDED"
predicate_text Predicate.correlates_with = codes "CORRELATES_WITH"
predicate_text Predicate.authorized_by = codes "AUTHORIZED_BY"
predicate_text Predicate.performed = codes "PERFORMED"

-- GRAPH_EPISTEMIC_CLASSES
unfoldable pub epistemic_text : EpistemicClass → Text
epistemic_text EpistemicClass.user_asserted = codes "user-asserted"
epistemic_text EpistemicClass.source_observed = codes "source-observed"
epistemic_text EpistemicClass.deterministic_derived = codes "deterministic-derived"
epistemic_text EpistemicClass.model_hypothesis = codes "model-hypothesis"

-- GRAPH_DERIVATION_KINDS
unfoldable pub derivation_text : DerivationKind → Text
derivation_text DerivationKind.projection = codes "projection"
derivation_text DerivationKind.rule = codes "rule"
derivation_text DerivationKind.model = codes "model"
