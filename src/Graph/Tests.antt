-- ===== src/Graph/Tests.antt =====
-- The printer of string literals and the keys, at concrete texts.
use attunegraph.Common.{◌≡◌, refl, [], ◌∷◌, Text, codes, arith}
use attunegraph.Json.RoundTrip.{IsText, quote_split}
use attunegraph.Graph.Types.{NodeKind, GraphRef}
use attunegraph.Graph.Keys.{graph_ref_key-injective, evidence_base_key-injective}

-- A quotation mark, a line end and a lone high surrogate.
abbrev awkward : Text
awkward = b'"' ∷ 10 ∷ 0xd800 ∷ b'a' ∷ []

awkward-IsText : IsText awkward
awkward-IsText = omega arith

note-IsText : IsText (codes "note")
note-IsText = omega arith

quote_split_example : (awkward ≡ awkward) × (codes "note" ≡ codes "note")
quote_split_example =
    quote_split awkward awkward (codes "note") (codes "note") awkward-IsText awkward-IsText refl

abbrev node : GraphRef
node = record { id = awkward; kind = NodeKind.thread }

graph_ref_key-injective_example : node ≡ node
graph_ref_key-injective_example =
    graph_ref_key-injective node node awkward-IsText awkward-IsText refl

evidence_base_key-injective_example : (codes "note" ≡ codes "note") × (awkward ≡ awkward)
evidence_base_key-injective_example =
    evidence_base_key-injective (codes "note") awkward (codes "note") awkward note-IsText
      awkward-IsText note-IsText awkward-IsText refl
