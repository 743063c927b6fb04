-- ===== src/Envelope/Charges.antt =====
-- src/canonical-immutable-envelope.ts: what the inspection tests and charges at a value.
use attunegraph.Common.{
  ℕ, suc, ◌+◌, Bool, true, false, ◌&&◌, ◌||◌, not, Option, none, some, List, [], ◌∷◌, ◌++◌, ltb,
  leb, ◌==◌, all, length, drop, if◌then◌else◌, Text, Result, ok, err, guard, ◌>>=◌, ◌>>◌,
}
use attunegraph.Common.Sets.{has}
use attunegraph.Json.{is_high, is_low}
use attunegraph.Decision.{max_safe_integer}
use attunegraph.Envelope.Values.{
  Number, not_a_number, minus_zero, infinite, natural, negative, mixed, small, Value, string_value,
  Profile, external_mutable, attunegraph_frozen, Brand, plain, proxy, branded, Prototype, standard,
  absent, foreign, Container, repeat,
}
use attunegraph.Envelope.Contract.{
  EnvelopeError, failure, exceeded, invalid_input, profile_mismatch, inspect, descriptors,
  string_code_units, string_bytes, aggregate_string_bytes, Spec, max_descriptors,
  max_string_code_units, max_string_bytes, max_aggregate_string_bytes, bounded_path,
  unpaired_surrogate, unsupported_number, proxied, unsupported_brand, container_extensibility,
  root_not_record, unsupported_prototype, missing_id, expected_unsigned_root, malformed_id,
}

-- The part of `InspectionState` that does not change.
pub record Options : Type 0 where
  pub profile : Profile
  pub spec : Spec
  pub allow_missing_frozen_root_id : Bool
  pub allow_frozen_plain_record_prototype : Bool

-- The part of `InspectionState` that changes.
pub record State : Type 0 where
  pub descriptors : ℕ
  pub aggregate_string_bytes : ℕ
  pub supplied_id : Option Text

unfoldable pub charge_descriptors : State → ℕ → Text → Result EnvelopeError State
charge_descriptors s amount path =
    if ltb max_descriptors (s.descriptors + amount)
    then err (exceeded inspect path descriptors (s.descriptors + amount) max_descriptors)
    else ok (record s { descriptors = s.descriptors + amount })

abbrev pub more : ℕ → Option ℕ → Option ℕ
more n none = none
more n (some m) = some (n + m)

-- The loop of `validateAndChargeString`: the bytes of a string, none if a surrogate has no partner.
-- The first argument says that the unit before was the first of a pair.
unfoldable pub count_bytes : Bool → Text → Option ℕ
count_bytes true [] = none
count_bytes true (c ∷ s) = let rest = count_bytes false s in if is_low c then more 4 rest else none
count_bytes false [] = some 0
count_bytes false (c ∷ s) =
    let rest = count_bytes (is_high c) s in
    if leb c 0x7f
    then more 1 rest
    else if leb c 0x7ff
    then more 2 rest
    else if is_high c
    then rest
    else if is_low c
    then none
    else more 3 rest

unfoldable pub charge_bytes : Option ℕ → State → Text → Result EnvelopeError State
charge_bytes none s path = err (failure invalid_input inspect unpaired_surrogate path)
charge_bytes (some bytes) s path =
    if ltb max_string_bytes bytes
    then err (exceeded inspect path string_bytes bytes max_string_bytes)
    else if ltb max_aggregate_string_bytes (s.aggregate_string_bytes + bytes)
    then err (
        exceeded inspect path aggregate_string_bytes (s.aggregate_string_bytes + bytes)
          max_aggregate_string_bytes)
    else ok (record s { aggregate_string_bytes = s.aggregate_string_bytes + bytes })

unfoldable pub validate_and_charge_string : Text → State → Text → Result EnvelopeError State
unfolding count_bytes charge_bytes
validate_and_charge_string value s path =
    if ltb max_string_code_units (length value)
    then err (exceeded inspect path string_code_units (length value) max_string_code_units)
    else charge_bytes (count_bytes false value) s path

-- The test of `validateNumber`.
unfoldable pub is_supported_number : Number → Bool
is_supported_number not_a_number = false
is_supported_number (infinite below) = false
is_supported_number minus_zero = false
is_supported_number (natural n) = leb n max_safe_integer
is_supported_number (negative n) = leb (suc n) max_safe_integer
is_supported_number (mixed below digits point) = true
is_supported_number (small below digits gap) = true

unfoldable pub validate_number : Number → Text → Result EnvelopeError (Unit {0})
unfolding is_supported_number
validate_number n path =
    guard (is_supported_number n) (failure invalid_input inspect unsupported_number path)

unfoldable pub reject_proxy_and_brands : Brand → Text → Result EnvelopeError (Unit {0})
reject_proxy_and_brands plain path = ok tt
reject_proxy_and_brands proxy path = err (failure invalid_input inspect proxied path)
reject_proxy_and_brands branded path = err (failure invalid_input inspect unsupported_brand path)

unfoldable pub same_profile : Profile → Profile → Bool
same_profile external_mutable external_mutable = true
same_profile attunegraph_frozen attunegraph_frozen = true
same_profile p q = false

-- `assertContainerProfile`, and `assertDataDescriptor` of properties that are as their object is.
unfoldable pub assert_container_profile :
    Container → Profile → Text → Result EnvelopeError (Unit {0})
unfolding same_profile
assert_container_profile c profile path =
    guard (same_profile c.profile profile)
      (failure profile_mismatch inspect container_extensibility path)

-- Whether the prototype of an array, or else of a record, is one that is supported.
unfoldable pub is_supported_prototype : Options → Bool → Prototype → Bool
is_supported_prototype o is_array foreign = false
is_supported_prototype o is_array standard =
    is_array || same_profile o.profile external_mutable || o.allow_frozen_plain_record_prototype
is_supported_prototype o is_array absent = not is_array

-- The tests of `inspectValue` on an object.
unfoldable pub admit_container :
    Options → Bool → Container → ℕ → Text → Result EnvelopeError (Unit {0})
unfolding reject_proxy_and_brands assert_container_profile is_supported_prototype
admit_container o is_array c level path =
    reject_proxy_and_brands c.brand path
    >> guard (not (level == 0 && is_array)) (failure invalid_input inspect root_not_record path)
    >> guard (is_supported_prototype o is_array c.prototype)
        (failure invalid_input inspect unsupported_prototype path)
    >> assert_container_profile c o.profile path

-- What `inspectValue` does with an object before its fields.
unfoldable pub enter : Options → Bool → Container → ℕ → Text → State → Result EnvelopeError State
unfolding charge_descriptors admit_container
enter o is_array c level path s =
    admit_container o is_array c level path >> charge_descriptors s 1 path

-- `value.startsWith(prefix)`
unfoldable pub starts_with : Text → Text → Bool
starts_with [] value = true
starts_with (c ∷ prefix) [] = false
starts_with (c ∷ prefix) (d ∷ value) = c == d && starts_with prefix value

unfoldable pub is_lower_hex : ℕ → Bool
is_lower_hex c = (leb b'0' c && leb c b'9') || (leb b'a' c && leb c b'f')

unfoldable pub well_formed_content_id : Text → Spec → Bool
unfolding is_lower_hex starts_with
well_formed_content_id value spec =
    starts_with spec.id_prefix value
    && length value == length spec.id_prefix + 64
    && all is_lower_hex (drop (length spec.id_prefix) value)

-- The tests of `inspectRecord` on the root.
unfoldable pub check_root : Options → Bool → Bool → Text → Result EnvelopeError (Unit {0})
check_root o root has_id path =
    guard
      (not (
        root
        && same_profile o.profile attunegraph_frozen
        && not has_id
        && not o.allow_missing_frozen_root_id))
      (failure invalid_input inspect missing_id path)
    >> guard (not (root && o.allow_missing_frozen_root_id && has_id))
        (failure invalid_input inspect expected_unsigned_root path)

-- A root without an id is charged for the one that it gets.
unfoldable pub charge_id : Options → Bool → Text → State → Result EnvelopeError State
unfolding validate_and_charge_string bounded_path
charge_id o true path s =
    let here = bounded_path path o.spec.id_field in
    validate_and_charge_string o.spec.id_field s here
    >>= (λ named. validate_and_charge_string (o.spec.id_prefix ++ repeat b'0' 64) named here)
charge_id o false path s = ok s

-- The checks and charges of `inspectRecord` before its loop.
unfoldable pub open_record : Options → Bool → List Text → Text → State → Result EnvelopeError State
unfolding charge_descriptors charge_id check_root
open_record o root keys path s =
    let has_id = root && has o.spec.id_field keys in
    let missing = root && not has_id in
    check_root o root has_id path
    >> charge_descriptors s (length keys + (if missing then 1 else 0)) path
    >>= charge_id o missing path

-- The id field of the root is kept apart; the other fields are defined in the detached record.
unfoldable pub admit_field :
    Options → Bool → Text → Value → State → Text → Result EnvelopeError (Option Text × State)
unfolding well_formed_content_id
admit_field o is_id key (string_value text) s path =
    if is_id
    then guard (well_formed_content_id text o.spec)
        (failure invalid_input inspect malformed_id path)
      >> ok (some text, record s { supplied_id = some text })
    else ok (none, s)
admit_field o is_id key child s path =
    guard (not is_id) (failure invalid_input inspect malformed_id path) >> ok (none, s)
