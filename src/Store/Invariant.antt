-- ===== src/Store/Invariant.antt =====
-- What holds of every store that `append` and `forget` build (src/in-memory-store.ts): the maps, the
-- journal and the indexes agree, and `recordedIds` is the stable sort of the assertions.
pub mod Insert
pub mod Distinct
pub mod Steps
pub mod Comparator
use attunegraph.Common.{
  ◌≡◌, refl, Bool, true, Option, some, List, [], ◌∷◌, map, Text, Sign, sort, Result, ok,
}
use attunegraph.Common.Maps.{get, keys, values}
use attunegraph.Common.Sets.{is_distinct}
use attunegraph.Graph.Types.{Assertion}
use attunegraph.Graph.Fingerprint.{canonical_assertion}
use attunegraph.Graph.Keys.{graph_ref_key, evidence_ref_key}
use attunegraph.Validation.{normalize_assertion}
use attunegraph.Store.Index.Of.{IsIndexOf, HasOwnIds}
use attunegraph.Store.State.{Store, compare_assertions}
use attunegraph.Store.Verify.{base_key}

-- The keys under which an assertion stands in each index.
abbrev pub subject_keys : Assertion → List Text
subject_keys a = graph_ref_key a.subject ∷ []

abbrev pub object_keys : Assertion → List Text
object_keys a = graph_ref_key a.object ∷ []

abbrev pub source_keys : Assertion → List Text
source_keys a = map evidence_ref_key a.source_refs

abbrev pub base_keys : Assertion → List Text
base_keys a = map base_key a.source_refs

pub record IsIndexed (s : Store) : Type 0 where
  pub outgoing : IsIndexOf subject_keys s.outgoing s.assertions
  pub incoming : IsIndexOf object_keys s.incoming s.assertions
  pub sources : IsIndexOf source_keys s.source_index s.assertions
  pub bases : IsIndexOf base_keys s.source_base_index s.assertions

abbrev pub id_of : Assertion → Text
id_of a = a.id

module _ (locale_compare : Text → Text → Sign) where
  pub record IsWellFormed (s : Store) : Type 0 where
    pub journal : keys s.assertions ≡ s.journal_ids
    pub prints : keys s.fingerprints ≡ s.journal_ids
    pub distinct : is_distinct s.journal_ids ≡ true
    pub own_id : HasOwnIds s.assertions
    pub own_print :
        (id : Text) (a : Assertion)
        → get id s.assertions ≡ some a
        → get id s.fingerprints ≡ some (canonical_assertion a)
    pub normal :
        (id : Text) (a : Assertion)
        → get id s.assertions ≡ some a
        → normalize_assertion locale_compare a ≡ ok a
    pub indexed : IsIndexed s
    pub recorded :
        s.recorded_ids ≡ map id_of (sort (compare_assertions locale_compare) (values s.assertions))
