-- ===== src/Envelope/Contract.antt =====
-- src/canonical-immutable-envelope.ts: the errors, the limits and the checks of a contract.
use attunegraph.Common.{
  ℕ, Bool, false, ◌&&◌, ◌||◌, Option, none, some, [], ◌∷◌, ◌++◌, ltb, leb, ◌==◌, all, length,
  if◌then◌else◌, Text, codes, text_eq, Result, guard, ◌>>◌,
}
use attunegraph.Json.Print.{byte_length}
use attunegraph.Decision.{max_safe_integer}

-- `CanonicalImmutableEnvelopeErrorCode`
pub data Code : Type 0 where
  invalid_contract invalid_input profile_mismatch budget_exceeded integrity_mismatch : Code

-- `ErrorPhase`
pub data Phase : Type 0 where
  contract inspect encode integrity : Phase

-- `BudgetAxis`
pub data BudgetAxis : Type 0 where
  depth descriptors string_code_units string_bytes aggregate_string_bytes : BudgetAxis
  canonical_body_bytes full_envelope_bytes : BudgetAxis

-- The reasons that `fail` is given.
pub data Reason : Type 0 where
  invalid_hash_domain invalid_id_field invalid_id_prefix invalid_byte_limits : Reason
  over_budget unpaired_surrogate unsupported_number proxied unsupported_brand : Reason
  container_extensibility unsupported_value root_not_record unsupported_prototype : Reason
  missing_id expected_unsigned_root malformed_id content_id_mismatch : Reason

-- The axis of a budget that is exceeded, the actual value and the limit.
pub record Excess : Type 0 where
  pub axis : BudgetAxis
  pub actual : ℕ
  pub limit : ℕ

-- `CanonicalImmutableEnvelopeError`
pub record EnvelopeError : Type 0 where
  pub code : Code
  pub phase : Phase
  pub reason : Reason
  pub path : Text
  pub excess : Option Excess

-- `fail` without and with a budget.
abbrev pub failure : Code → Phase → Reason → Text → EnvelopeError
failure code phase reason path = record {
  code = code;
  phase = phase;
  reason = reason;
  path = path;
  excess = none;
}

abbrev pub exceeded : Phase → Text → BudgetAxis → ℕ → ℕ → EnvelopeError
exceeded phase path axis actual limit = record {
  code = budget_exceeded;
  phase = phase;
  reason = over_budget;
  path = path;
  excess = some (record { axis = axis; actual = actual; limit = limit });
}

-- `CANONICAL_IMMUTABLE_ENVELOPE_LIMITS`
abbrev pub max_depth : ℕ
max_depth = 12

abbrev pub max_descriptors : ℕ
max_descriptors = 32_768

abbrev pub max_string_code_units : ℕ
max_string_code_units = 16_384

abbrev pub max_string_bytes : ℕ
max_string_bytes = 16_384

abbrev pub max_aggregate_string_bytes : ℕ
max_aggregate_string_bytes = 1_000_000

abbrev pub max_error_path_bytes : ℕ
max_error_path_bytes = 512

abbrev pub max_hash_domain_bytes : ℕ
max_hash_domain_bytes = 128

abbrev pub max_id_field_bytes : ℕ
max_id_field_bytes = 64

abbrev pub max_id_prefix_bytes : ℕ
max_id_prefix_bytes = 128

abbrev pub max_internal_canonical_byte_limit : ℕ
max_internal_canonical_byte_limit = 2_097_152

-- `CanonicalImmutableEnvelopeSpec`
pub record Spec : Type 0 where
  pub hash_domain : Text
  pub id_field : Text
  pub id_prefix : Text

-- `CanonicalImmutableEnvelopeByteLimits`
pub record ByteLimits : Type 0 where
  pub max_canonical_body_bytes : ℕ
  pub max_envelope_bytes : ℕ

-- `DEFAULT_CANONICAL_BYTE_LIMITS`
abbrev pub default_byte_limits : ByteLimits
default_byte_limits = record {
  max_canonical_body_bytes = 1_048_256;
  max_envelope_bytes = 1_048_576;
}

abbrev pub path_too_long : Text
path_too_long = codes "<path-too-long>"

-- `replaceAll` of "~" by "~0" and then of "/" by "~1".
unfoldable pub escape_segment : Text → Text
escape_segment [] = []
escape_segment (c ∷ s) =
    let rest = escape_segment s in
    if c == b'~' then b'~' ∷ b'0' ∷ rest else if c == b'/' then b'~' ∷ b'1' ∷ rest else c ∷ rest

unfoldable pub bounded_path : Text → Text → Text
unfolding escape_segment
bounded_path parent segment =
    let next = parent ++ b'/' ∷ escape_segment segment in
    if text_eq parent path_too_long
    then parent
    else if ltb max_error_path_bytes (byte_length next)
    then path_too_long
    else next

unfoldable pub is_letter : ℕ → Bool
is_letter c = (leb b'A' c && leb c b'Z') || (leb b'a' c && leb c b'z')

unfoldable pub is_digit : ℕ → Bool
is_digit c = leb b'0' c && leb c b'9'

-- `/^[A-Za-z0-9][A-Za-z0-9._:/-]*$/u`
unfoldable pub matches_hash_domain : Text → Bool
unfolding is_letter is_digit
matches_hash_domain [] = false
matches_hash_domain (c ∷ s) =
    (is_letter c || is_digit c)
    && all
        (λ d.
          is_letter d
          || is_digit d
          || d == b'.'
          || d == b'_'
          || d == b':'
          || d == b'/'
          || d == b'-')
        s

-- `/^[A-Za-z_][A-Za-z0-9_]{0,63}$/u`
unfoldable pub matches_id_field : Text → Bool
unfolding is_letter is_digit
matches_id_field [] = false
matches_id_field (c ∷ s) =
    (is_letter c || c == b'_')
    && all (λ d. is_letter d || is_digit d || d == b'_') s
    && leb (length s) 63

-- `/^[\x20-\x7E]+$/u`
unfoldable pub matches_id_prefix : Text → Bool
matches_id_prefix [] = false
matches_id_prefix (c ∷ s) = all (λ d. leb 32 d && leb d 126) (c ∷ s)

-- `validateContract`, whose profile is one of the two.
unfoldable pub validate_contract : Spec → Result EnvelopeError (Unit {0})
unfolding matches_hash_domain matches_id_field matches_id_prefix
validate_contract spec =
    guard
      (ltb 0 (length spec.hash_domain)
        && leb (length spec.hash_domain) max_hash_domain_bytes
        && matches_hash_domain spec.hash_domain
        && byte_length spec.hash_domain == length spec.hash_domain)
      (failure invalid_contract contract invalid_hash_domain [])
    >> guard
        (leb (length spec.id_field) max_id_field_bytes
          && matches_id_field spec.id_field
          && byte_length spec.id_field == length spec.id_field)
        (failure invalid_contract contract invalid_id_field [])
    >> guard
        (ltb 0 (length spec.id_prefix)
          && leb (length spec.id_prefix) max_id_prefix_bytes
          && matches_id_prefix spec.id_prefix
          && byte_length spec.id_prefix == length spec.id_prefix)
        (failure invalid_contract contract invalid_id_prefix [])

-- `validateByteLimits` of the two numbers.
unfoldable pub validate_byte_limits : ByteLimits → Result EnvelopeError (Unit {0})
validate_byte_limits limits =
    guard
      (leb limits.max_canonical_body_bytes max_safe_integer
        && leb limits.max_envelope_bytes max_safe_integer
        && leb 1 limits.max_canonical_body_bytes
        && leb 1 limits.max_envelope_bytes
        && leb limits.max_canonical_body_bytes limits.max_envelope_bytes
        && leb limits.max_envelope_bytes max_internal_canonical_byte_limit)
      (failure invalid_contract contract invalid_byte_limits [])
