-- ===== src/Graph/Fingerprint.antt =====
-- `canonicalAssertion` of src/validation.ts: the JSON text of a normalized assertion, its fields in
-- the order in which `normalizeGraphAssertion` builds them.
use attunegraph.Common.{Option, none, some, List, [], ◌∷◌, ◌++◌, Text, codes}
use attunegraph.Json.{quote}
use attunegraph.Graph.Types.{
  GraphRef, EvidenceRef, Derivation, Assertion, node_kind_text, predicate_text, epistemic_text,
  derivation_text,
}

-- `{"name":` and `,"name":` in front of a value.
abbrev first_field : Text → Text → Text
first_field name value = b'{' ∷ (quote name ++ b':' ∷ value)

abbrev field : Text → Text → Text
field name value = b',' ∷ (quote name ++ b':' ∷ value)

-- A property that stands only where the value has it.
abbrev optional_field : Text → Option Text → Text
optional_field name none = []
optional_field name (some v) = field name (quote v)

unfoldable pub graph_ref_json : GraphRef → Text
graph_ref_json ref =
    first_field (codes "id") (quote ref.id)
    ++ (field (codes "kind") (quote (node_kind_text ref.kind)) ++ b'}' ∷ [])

unfoldable pub evidence_ref_json : EvidenceRef → Text
evidence_ref_json ref =
    first_field (codes "id") (quote ref.id)
    ++ (field (codes "namespace") (quote ref.namespace)
        ++ (optional_field (codes "version") ref.version ++ b'}' ∷ []))

pub derivation_json : Derivation → Text
derivation_json d =
    first_field (codes "kind") (quote (derivation_text d.kind))
    ++ (optional_field (codes "runId") d.run_id
        ++ (field (codes "version") (quote d.version) ++ b'}' ∷ []))

-- The items of an array behind its first one.
more_refs : List EvidenceRef → Text
more_refs [] = []
more_refs (ref ∷ refs) = b',' ∷ (evidence_ref_json ref ++ more_refs refs)

pub evidence_refs_json : List EvidenceRef → Text
unfolding more_refs
evidence_refs_json [] = codes "[]"
evidence_refs_json (ref ∷ refs) = b'[' ∷ (evidence_ref_json ref ++ (more_refs refs ++ b']' ∷ []))

unfoldable pub canonical_assertion : Assertion → Text
unfolding graph_ref_json evidence_ref_json evidence_refs_json derivation_json
canonical_assertion a =
    first_field (codes "schemaVersion") (codes "1")
    ++ (field (codes "id") (quote a.id)
        ++ (field (codes "subject") (graph_ref_json a.subject)
            ++ (field (codes "predicate") (quote (predicate_text a.predicate))
                ++ (field (codes "object") (graph_ref_json a.object)
                    ++ (field (codes "epistemicClass") (quote (epistemic_text a.epistemic_class))
                        ++ (field (codes "sourceRefs") (evidence_refs_json a.source_refs)
                            ++ (optional_field (codes "validFrom") a.valid_from
                                ++ (optional_field (codes "validTo") a.valid_to
                                    ++ (field (codes "recordedAt") (quote a.recorded_at)
                                        ++ (optional_field (codes "supersededAt") a.superseded_at
                                            ++ (field (codes "derivation")
                                                  (derivation_json a.derivation)
                                                ++ b'}' ∷ [])))))))))))
