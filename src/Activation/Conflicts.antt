-- ===== src/Activation/Conflicts.antt =====
-- src/activation-subgraph.ts: the order of the candidates, the conflicts among them, and the
-- references that an output carries.
use attunegraph.Common.{
  ℕ, none, some, List, [], ◌∷◌, ◌++◌, map, ltb, if◌then◌else◌, Text, raw_compare, Sign, or_else,
  diff_sign, length, sort,
}
use attunegraph.Common.Maps.{get, put, values}
use attunegraph.Common.Sets.{add_all}
use attunegraph.Json.{quote}
use attunegraph.Json.Print.{array}
use attunegraph.Graph.Types.{
  GraphRef, EvidenceRef, Assertion, EpistemicClass, ActivationConflict, predicate_text,
}
use attunegraph.Graph.Constants.{predicate_priority, is_single_value}
use attunegraph.Graph.Instant.{instant_epoch}
use attunegraph.Graph.Keys.{graph_ref_key, evidence_ref_key}

-- EPISTEMIC_PRIORITY
unfoldable pub epistemic_priority : EpistemicClass → ℕ
epistemic_priority EpistemicClass.user_asserted = 0
epistemic_priority EpistemicClass.source_observed = 1
epistemic_priority EpistemicClass.deterministic_derived = 2
epistemic_priority EpistemicClass.model_hypothesis = 3

-- `JSON.stringify([graphRefKey(subject), predicate])`
unfoldable pub group_key : Assertion → Text
group_key a = array (quote (graph_ref_key a.subject) ∷ quote (predicate_text a.predicate) ∷ [])

abbrev pub Groups : Type 0
Groups = List (Text × List Assertion)

unfoldable pub group_assertions : List Assertion → Groups → Groups
group_assertions [] groups = groups
group_assertions (a ∷ rest) groups = group_assertions rest (
    if is_single_value a.predicate
    then (elim (get (group_key a) groups) [
      | none ↦ put (group_key a) (a ∷ []) groups
      | some group ↦ put (group_key a) (group ++ a ∷ []) groups
    ])
    else groups)

-- A map from keys, in which a later value replaces an earlier one.
unfoldable pub add_sources :
    List EvidenceRef → List (Text × EvidenceRef) → List (Text × EvidenceRef)
add_sources [] m = m
add_sources (ref ∷ refs) m = add_sources refs (put (evidence_ref_key ref) ref m)

unfoldable pub add_assertion_sources :
    List Assertion → List (Text × EvidenceRef) → List (Text × EvidenceRef)
add_assertion_sources [] m = m
add_assertion_sources (a ∷ rest) m = add_assertion_sources rest (add_sources a.source_refs m)

unfoldable pub add_conflict_sources :
    List ActivationConflict → List (Text × EvidenceRef) → List (Text × EvidenceRef)
add_conflict_sources [] m = m
add_conflict_sources (c ∷ rest) m = add_conflict_sources rest (add_sources c.source_refs m)

unfoldable pub add_objects : List Assertion → List (Text × GraphRef) → List (Text × GraphRef)
add_objects [] m = m
add_objects (a ∷ rest) m = add_objects rest (put (graph_ref_key a.object) a.object m)

unfoldable pub add_endpoints : List Assertion → List (Text × GraphRef) → List (Text × GraphRef)
add_endpoints [] m = m
add_endpoints (a ∷ rest) m =
    add_endpoints rest
      (put (graph_ref_key a.object) a.object (put (graph_ref_key a.subject) a.subject m))

module _ (locale_compare : Text → Text → Sign) where
  unfoldable pub compare_activation : Assertion → Assertion → Sign
  compare_activation left right =
      or_else (diff_sign (predicate_priority left.predicate) (predicate_priority right.predicate)) (
        or_else
          (diff_sign (epistemic_priority left.epistemic_class)
            (epistemic_priority right.epistemic_class))
          (or_else (diff_sign (instant_epoch right.recorded_at) (instant_epoch left.recorded_at))
            (locale_compare left.id right.id)))

  unfoldable pub by_ref_key : GraphRef → GraphRef → Sign
  by_ref_key left right = locale_compare (graph_ref_key left) (graph_ref_key right)

  unfoldable pub by_evidence_key : EvidenceRef → EvidenceRef → Sign
  by_evidence_key left right = locale_compare (evidence_ref_key left) (evidence_ref_key right)

  -- The conflict of a group, where it names two objects at least.
  unfoldable pub group_conflict : List Assertion → List ActivationConflict
  group_conflict [] = []
  group_conflict (first ∷ rest) =
      let group = first ∷ rest in
      if ltb (length (add_all (map (λ (a : Assertion). graph_ref_key a.object) group) [])) 2
      then []
      else record {
        assertion_ids = sort raw_compare (map (λ (a : Assertion). a.id) group);
        object_refs = sort by_ref_key (values (add_objects group []));
        predicate = first.predicate;
        source_refs = sort by_evidence_key (values (add_assertion_sources group []));
        subject = first.subject;
      }
        ∷ []

  unfoldable pub group_conflicts : List (List Assertion) → List ActivationConflict
  group_conflicts [] = []
  group_conflicts (group ∷ groups) = group_conflict group ++ group_conflicts groups

  unfoldable pub compare_conflicts : ActivationConflict → ActivationConflict → Sign
  compare_conflicts left right =
      or_else (locale_compare (graph_ref_key left.subject) (graph_ref_key right.subject))
        (locale_compare (predicate_text left.predicate) (predicate_text right.predicate))

  -- `detectConflicts`
  unfoldable pub detect_conflicts : List Assertion → List ActivationConflict
  detect_conflicts assertions =
      sort compare_conflicts (group_conflicts (values (group_assertions assertions [])))

  -- `collectRefs`
  unfoldable pub collect_refs : GraphRef → List Assertion → List GraphRef
  collect_refs seed assertions =
      sort by_ref_key (values (add_endpoints assertions ((graph_ref_key seed, seed) ∷ [])))

  -- `collectSourceRefs`
  unfoldable pub collect_source_refs : List Assertion → List ActivationConflict → List EvidenceRef
  collect_source_refs assertions conflicts =
      sort by_evidence_key
        (values (add_conflict_sources conflicts (add_assertion_sources assertions [])))
