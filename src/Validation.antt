-- ===== src/Validation.antt =====
-- src/validation.ts on arguments of the declared types: the rules that an assertion and its
-- references obey. What the file does for arguments of other shapes (proxies, accessors, unknown
-- fields) is not modelled. `localeCompare` belongs to the host's ICU: a parameter.
pub mod Contract
pub mod Laws
pub mod Plans
pub mod Accepted
use attunegraph.Common.{
  ℕ, ◌+◌, Bool, true, false, ◌&&◌, ◌||◌, not, Option, none, some, List, [], ◌∷◌, map, ltb, leb,
  ◌==◌, if◌then◌else◌, Text, text_eq, Sign, length, any, sort, Result, ok, err, ◌>>=◌, ◌>>◌, guard,
}
use mathlib.Core.List.{reverse}
use attunegraph.Common.Sets.{has, is_distinct}
use attunegraph.Json.{is_high, is_low}
use attunegraph.Graph.Types.{
  GraphRef, EvidenceRef, Derivation, Assertion, EpistemicClass, DerivationKind,
}
use attunegraph.Graph.Keys.{graph_ref_key, evidence_ref_key}
use attunegraph.Graph.Instant.{parse_instant, instant_epoch}
use Contract.{endpoint_contract, is_hypothesis_forbidden}
pub use Contract.{
  DataError, assertion_collision, invalid_assertion, invalid_forget_scope, invalid_query,
}

abbrev pub max_id_characters : ℕ
max_id_characters = 512

abbrev max_namespace_characters : ℕ
max_namespace_characters = 128

abbrev max_version_characters : ℕ
max_version_characters = 128

-- White space and line terminators of the language, which `trim` takes off.
unfoldable pub is_space : ℕ → Bool
is_space c =
    (leb 9 c && leb c 13)
    || c == 32
    || c == 0xa0
    || c == 0x1680
    || (leb 0x2000 c && leb c 0x200a)
    || c == 0x2028
    || c == 0x2029
    || c == 0x202f
    || c == 0x205f
    || c == 0x3000
    || c == 0xfeff

trim_start : Text → Text
trim_start [] = []
trim_start (c ∷ s) = let rest = trim_start s in if is_space c then rest else c ∷ s

-- `value.trim()`
pub trim : Text → Text
unfolding trim_start is_space
trim s = reverse (trim_start (reverse (trim_start s)))

-- `Array.from(value).length`: a surrogate pair is one character.
unfoldable pub characters : Bool → Text → ℕ
characters after_high [] = 0
characters after_high (c ∷ s) = (if after_high && is_low c then 0 else 1) + characters (is_high c) s

unfoldable pub is_control : ℕ → Bool
is_control c = leb c 0x1f || c == 0x7f

unfoldable pub safe_text : ℕ → Text → Bool
unfolding trim characters is_control is_high is_low
safe_text max_characters s =
    not (length s == 0)
    && text_eq s (trim s)
    && leb (characters false s) max_characters
    && not (any is_control s)

abbrev pub optional : (Text → Bool) → Option Text → Bool
optional test none = true
optional test (some s) = test s

unfoldable pub is_canonical : Text → Bool
is_canonical s = elim (parse_instant s) [ none ↦ false | some t ↦ true ]

unfoldable pub ref_ok : GraphRef → Bool
ref_ok ref = safe_text max_id_characters ref.id

unfoldable pub evidence_ok : EvidenceRef → Bool
evidence_ok ref =
    safe_text max_id_characters ref.id
    && safe_text max_namespace_characters ref.namespace
    && optional (safe_text max_version_characters) ref.version

derivation_ok : Derivation → Bool
derivation_ok d =
    optional (safe_text max_id_characters) d.run_id && safe_text max_version_characters d.version

-- `!(from && to) || test`
both_or : Option Text → Option Text → (ℕ → ℕ → Bool) → Bool
both_or (some s) (some t) test = test (instant_epoch s) (instant_epoch t)
both_or _ _ test = true

pub times_ok : Assertion → Bool
unfolding is_canonical both_or
times_ok a =
    optional is_canonical a.valid_from
    && optional is_canonical a.valid_to
    && is_canonical a.recorded_at
    && optional is_canonical a.superseded_at
    && both_or a.valid_from a.valid_to (λ from to. ltb from to)
    && both_or (some a.recorded_at) a.superseded_at (λ recorded superseded. leb recorded superseded)

-- What each epistemic class asks of the derivation and of the predicate.
pub class_ok : Assertion → Bool
class_ok a = elim a.epistemic_class [
  | EpistemicClass.deterministic_derived ↦ elim a.derivation.kind [
    | DerivationKind.rule ↦ true
    | _ ↦ false
  ]
  | EpistemicClass.model_hypothesis ↦
      (elim a.derivation.kind [ DerivationKind.model ↦ true | _ ↦ false ])
      && not (is_hypothesis_forbidden a.predicate)
  | _ ↦ true
]

-- The checks of `normalizeGraphAssertion`, on the references in their order.
unfoldable pub assertion_ok : Assertion → Bool
unfolding derivation_ok times_ok class_ok
assertion_ok a =
    safe_text max_id_characters a.id
    && ref_ok a.subject
    && ref_ok a.object
    && not (length a.source_refs == 0)
    && leb (length a.source_refs) 128
    && not (any (λ ref. not (evidence_ok ref)) a.source_refs)
    && is_distinct (map evidence_ref_key a.source_refs)
    && times_ok a
    && derivation_ok a.derivation
    && class_ok a
    && endpoint_contract a.predicate a.subject a.object

module _ (locale_compare : Text → Text → Sign) where
  unfoldable pub compare_evidence : EvidenceRef → EvidenceRef → Sign
  compare_evidence left right = locale_compare (evidence_ref_key left) (evidence_ref_key right)

  -- Every exception of the function is `INVALID_ASSERTION`.
  unfoldable pub normalize_assertion : Assertion → Result DataError Assertion
  normalize_assertion input =
      let a = record input { source_refs = sort compare_evidence input.source_refs } in
      if assertion_ok a then ok a else err invalid_assertion

  pub normalize_all : List Assertion → Result DataError (List Assertion)
  normalize_all [] = ok []
  normalize_all (a ∷ rest) = do b ← normalize_assertion a; bs ← normalize_all rest; ok (b ∷ bs)

  unfoldable pub normalize_batch : List Assertion → Result DataError (List Assertion)
  unfolding normalize_all
  normalize_batch inputs = do
    guard (leb (length inputs) 65_536) invalid_assertion
    normalize_all inputs
