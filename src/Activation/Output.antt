-- ===== src/Activation/Output.antt =====
-- src/activation-subgraph.ts: `buildCandidateOutput`, with the estimate of its own size.
use attunegraph.Common.{
  ℕ, zero, suc, ◌+◌, ◌/◌, Bool, not, List, [], ◌∷◌, ◌++◌, map, ◌==◌, if◌then◌else◌, Text, codes,
  Sign, length,
}
use attunegraph.Json.{quote}
use attunegraph.Json.Print.{number, boolean, array, object, byte_length}
use attunegraph.Graph.Types.{
  Assertion, ActivationConflict, ActivationDiagnostics, ActivationSubgraph, ActivationInput,
  TruncationReason, assertion_budget, token_budget, traversal_budget, predicate_text,
}
use attunegraph.Graph.Fingerprint.{graph_ref_json, evidence_ref_json, canonical_assertion}
use attunegraph.Activation.Conflicts.{collect_refs, collect_source_refs}

unfoldable pub reason_text : TruncationReason → Text
reason_text assertion_budget = codes "assertion-budget"
reason_text token_budget = codes "token-budget"
reason_text traversal_budget = codes "traversal-budget"

unfoldable pub conflict_json : ActivationConflict → Text
conflict_json c = object (
    (codes "assertionIds", array (map quote c.assertion_ids))
    ∷ (codes "objectRefs", array (map graph_ref_json c.object_refs))
    ∷ (codes "predicate", quote (predicate_text c.predicate))
    ∷ (codes "sourceRefs", array (map evidence_ref_json c.source_refs))
    ∷ (codes "subject", graph_ref_json c.subject)
    ∷ [])

-- The fields between the first and the last one.
abbrev pub diagnostics_fields : ActivationDiagnostics → List (Text × Text)
diagnostics_fields d =
    (codes "detectedConflicts", number d.detected_conflicts)
    ∷ (codes "maxDepthReached", number d.max_depth_reached)
    ∷ (codes "reportedConflicts", number d.reported_conflicts)
    ∷ (codes "selectedAssertions", number d.selected_assertions)
    ∷ (codes "truncationReasons", array (map (λ r. quote (reason_text r)) d.truncation_reasons))
    ∷ (codes "visitedRefs", number d.visited_refs)
    ∷ []

unfoldable pub diagnostics_json : ActivationDiagnostics → Text
diagnostics_json d = object (
    (codes "candidateAssertions", number d.candidate_assertions)
    ∷ (diagnostics_fields d ++ (codes "estimatedTokens", number d.estimated_tokens) ∷ []))

abbrev pub subgraph_fields : ActivationSubgraph → List (Text × Text)
subgraph_fields out =
    (codes "assertions", array (map canonical_assertion out.assertions))
    ∷ (codes "compiledAt", quote out.compiled_at)
    ∷ (codes "conflicts", array (map conflict_json out.conflicts))
    ∷ (codes "refs", array (map graph_ref_json out.refs))
    ∷ (codes "seed", graph_ref_json out.seed)
    ∷ (codes "sourceRefs", array (map evidence_ref_json out.source_refs))
    ∷ (codes "truncated", boolean out.truncated)
    ∷ []

unfoldable pub subgraph_json : ActivationSubgraph → Text
subgraph_json out = object (
    (codes "schemaVersion", number 1)
    ∷ (subgraph_fields out ++ (codes "diagnostics", diagnostics_json out.diagnostics) ∷ []))

-- `estimateTokens`: a quarter of the bytes, rounded up.
unfoldable pub estimate_tokens : Text → ℕ
estimate_tokens json = (byte_length json + 3) / 4

abbrev pub with_estimate : ActivationSubgraph → ℕ → ActivationSubgraph
with_estimate out n = record out { diagnostics = record out.diagnostics { estimated_tokens = n } }

-- The estimate is part of what it estimates: eight rounds at most.
unfoldable pub settle_estimate : ℕ → ActivationSubgraph → ℕ → ℕ
settle_estimate zero out estimated = estimated
settle_estimate (suc rounds) out estimated =
    let next = estimate_tokens (subgraph_json (with_estimate out estimated)) in
    let rest = settle_estimate rounds out next in if next == estimated then estimated else rest

-- The numbers of the traversal that every output reports.
pub record TraversalStats : Type 0 where
  pub candidate_assertions : ℕ
  pub detected_conflicts : ℕ
  pub max_depth_reached : ℕ
  pub traversal_truncated : Bool
  pub visited_refs : ℕ

unfoldable pub reasons : Bool → Bool → Bool → List TruncationReason
reasons assertion_cut token_cut traversal_cut =
    (if assertion_cut then assertion_budget ∷ [] else [])
    ++ ((if token_cut then token_budget ∷ [] else [])
        ++ (if traversal_cut then traversal_budget ∷ [] else []))

module _ (locale_compare : Text → Text → Sign) where
  -- The output with an estimate of 0.
  unfoldable pub unsettled_output :
      ActivationInput
      → List Assertion
      → List ActivationConflict
      → TraversalStats
      → Bool
      → Bool
      → ActivationSubgraph
  unsettled_output input assertions conflicts stats assertion_cut token_cut =
      let why = reasons assertion_cut token_cut stats.traversal_truncated in
      record {
        assertions = assertions;
        compiled_at = input.now;
        conflicts = conflicts;
        refs = collect_refs locale_compare input.seed assertions;
        seed = input.seed;
        source_refs = collect_source_refs locale_compare assertions conflicts;
        truncated = not (length why == 0);
        diagnostics = record {
          candidate_assertions = stats.candidate_assertions;
          detected_conflicts = stats.detected_conflicts;
          max_depth_reached = stats.max_depth_reached;
          reported_conflicts = length conflicts;
          selected_assertions = length assertions;
          truncation_reasons = why;
          visited_refs = stats.visited_refs;
          estimated_tokens = 0;
        };
      }

  -- `buildCandidateOutput`
  unfoldable pub build_output :
      ActivationInput
      → List Assertion
      → List ActivationConflict
      → TraversalStats
      → Bool
      → Bool
      → ActivationSubgraph
  build_output input assertions conflicts stats assertion_cut token_cut =
      let out = unsettled_output input assertions conflicts stats assertion_cut token_cut in
      with_estimate out (settle_estimate 8 out 0)
