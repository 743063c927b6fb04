-- ===== src/Activation/Tests.antt =====
-- A walk of one edge from its thread, and what is compiled from it.
use attunegraph.Common.{ℕ, ◌≡◌, false, none, [], ◌∷◌, codes, raw_compare, ◌⊎◌}
use attunegraph.Graph.Types.{NodeKind, GraphRef, TraversalResult, ActivationInput}
use attunegraph.Traverse.Tests.{note, link}
use attunegraph.Activation.Output.{estimate_tokens, subgraph_json, build_output}
use attunegraph.Activation.Slice.{Compiled, Refused, compile_slice-IsSlice}
use attunegraph.Activation.{stats_of}
use attunegraph.Activation.Estimate.{build_output-estimate_tokens}

abbrev start : GraphRef
start = record { id = codes "t"; kind = NodeKind.thread }

abbrev walked : TraversalResult
walked = record {
  assertions =
      link (codes "q") (note (codes "x")) start ∷ link (codes "p") start (note (codes "x")) ∷ [];
  refs = start ∷ note (codes "x") ∷ [];
  truncated = false;
  diagnostics = record { considered_assertions = 2; max_depth_reached = 1; visited_refs = 2 };
}

abbrev input_of : ℕ → ActivationInput
input_of tokens = record {
  budget = record {
    max_assertions = 2;
    max_considered_assertions = 4;
    max_depth = 1;
    max_estimated_tokens = tokens;
    max_visited_refs = 4;
  };
  now = codes "2026-07-31T09:00:00.000Z";
  recorded_at_or_before = none;
  seed = start;
}

compile_slice-IsSlice_example :
    Compiled raw_compare (input_of 4_000) walked ⊎ Refused raw_compare (input_of 4_000) walked
compile_slice-IsSlice_example = compile_slice-IsSlice raw_compare (input_of 4_000) walked

build_output-estimate_tokens_example :
    (build_output raw_compare
      (input_of 4_000)
      walked.assertions
      []
      (stats_of raw_compare walked)
      false
      false).diagnostics.estimated_tokens
    ≡ estimate_tokens (
        subgraph_json (
          build_output raw_compare
            (input_of 4_000)
            walked.assertions
            []
            (stats_of raw_compare walked)
            false
            false))
build_output-estimate_tokens_example =
    build_output-estimate_tokens raw_compare (input_of 4_000) walked.assertions []
      (stats_of raw_compare walked) false false
