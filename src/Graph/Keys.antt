-- ===== src/Graph/Keys.antt =====
-- The keys of src/validation.ts: JSON texts of references, which index the store.
use attunegraph.Common.{◌≡◌, Option, none, some, [], ◌∷◌, ◌++◌, Text, codes, arith}
use attunegraph.Json.{quote}
use attunegraph.Json.RoundTrip.{IsText, quote_split}
use attunegraph.Graph.Types.{NodeKind, GraphRef, EvidenceRef, node_kind_text}

-- `JSON.stringify([kind, id])`
unfoldable pub graph_ref_key : GraphRef → Text
graph_ref_key ref = b'[' ∷ (quote (node_kind_text ref.kind) ++ b',' ∷ (quote ref.id ++ b']' ∷ []))

-- The text of `version ?? null`.
pub version_json : Option Text → Text
version_json none = codes "null"
version_json (some v) = quote v

-- `JSON.stringify([namespace, id, version ?? null])`
unfoldable pub evidence_ref_key : EvidenceRef → Text
unfolding version_json
evidence_ref_key ref =
    b'['
    ∷ (quote ref.namespace
        ++ b',' ∷ (quote ref.id ++ b',' ∷ (version_json ref.version ++ b']' ∷ [])))

-- `JSON.stringify([namespace, id])`
unfoldable pub evidence_base_key : Text → Text → Text
evidence_base_key namespace id = b'[' ∷ (quote namespace ++ b',' ∷ (quote id ++ b']' ∷ []))

node_kind_text-IsText : (k : NodeKind) → IsText (node_kind_text k)
unfolding node_kind_text
node_kind_text-IsText NodeKind.thread = omega arith
node_kind_text-IsText _ = omega arith

node_kind_text-injective : (k l : NodeKind) → node_kind_text k ≡ node_kind_text l → k ≡ l
unfolding node_kind_text
node_kind_text-injective k l e = ground arith

-- Two references have one key only if they are the same node, when their ids are strings of
-- 16-bit units.
pub graph_ref_key-injective :
    (a b : GraphRef) → IsText a.id → IsText b.id → graph_ref_key a ≡ graph_ref_key b → a ≡ b
unfolding graph_ref_key
graph_ref_key-injective a b ha hb e =
    let kinds =
      quote_split (node_kind_text a.kind) (node_kind_text b.kind) (b',' ∷ (quote a.id ++ b']' ∷ []))
        (b',' ∷ (quote b.id ++ b']' ∷ [])) (node_kind_text-IsText a.kind)
        (node_kind_text-IsText b.kind) (cc) in
    let ids = quote_split a.id b.id (b']' ∷ []) (b']' ∷ []) ha hb (cc (kinds.1)) in
    ground (arith, ids, node_kind_text-injective a.kind b.kind kinds.0)

-- A base key is that of one namespace and one id, when all four are strings of 16-bit units.
pub evidence_base_key-injective :
    (n i m j : Text)
    → IsText n
    → IsText i
    → IsText m
    → IsText j
    → evidence_base_key n i ≡ evidence_base_key m j
    → (n ≡ m) × (i ≡ j)
unfolding evidence_base_key
evidence_base_key-injective n i m j hn hi hm hj e =
    let names =
      quote_split n m (b',' ∷ (quote i ++ b']' ∷ [])) (b',' ∷ (quote j ++ b']' ∷ [])) hn hm (cc) in
    let ids = quote_split i j (b']' ∷ []) (b']' ∷ []) hi hj (cc (names.1)) in (names.0, ids.0)
