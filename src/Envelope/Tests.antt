-- ===== src/Envelope/Tests.antt =====
-- Runs of the envelope's operations on small inputs, and the laws at these.
use attunegraph.Common.{◌≡◌, refl, arith, true, false, some, [], ◌∷◌, ◌++◌, Text, codes, ok, err}
use attunegraph.Envelope.Values.{
  Fields, end, field, number_value, string_value, array_value, record_value, nil, cons, natural,
  mixed, small, number_text, Container, plain, standard, external_mutable, attunegraph_frozen,
  Input, number_input, string_input, array_input, record_input, element, last, entry, none_left,
  repeat,
}
use attunegraph.Envelope.Contract.{
  BudgetAxis, Spec, default_byte_limits, failure, integrity_mismatch, integrity,
  content_id_mismatch,
}
use attunegraph.Envelope.Charges.{Options, count_bytes}
use attunegraph.Envelope.Encode.{encode_canonical}
use attunegraph.Decision.{is_paired}
use attunegraph.Envelope.Canonical.{canonical}
use attunegraph.Envelope.Written.{encode_canonical_lem}
use attunegraph.Envelope.Measure.{count_bytes_lem}
use attunegraph.Envelope.Reordered.{swap_fields}
use attunegraph.Envelope.Detached.{frozen_record, frozen_fields, frozen, detached}
use attunegraph.Envelope.Specs.{IsDigest}
use attunegraph.Envelope.Sealing.{IsSealed, seal_body_lem, canonicalize-IsSealed}
use attunegraph.Envelope.Laws.{canonicalize_again, mint-content_id, canonicalize-Reordered}
use attunegraph.Envelope.{
  Sealed, seal_body, canonicalize_with_options, canonicalize_for_internal_use,
  mint_from_frozen_unsigned, content_id_from_frozen_unsigned,
}
use attunegraph.Envelope.Contract.{
  validate_contract, validate_byte_limits, bounded_path, escape_segment, is_digit, is_letter,
  matches_hash_domain, matches_id_field, matches_id_prefix,
}
use attunegraph.Json.Print.{
  object, array, more_items, more_fields, byte_length, boolean, byte_length_from, decimal_onto,
  number, unit_bytes,
}
use attunegraph.Json.{quote, hex_digit, is_high, is_low, quote_unit, quote_units, starts_low}
use attunegraph.Common.{text_eq, sort, raw_compare, insert_by, sort_onto}
use attunegraph.Common.Sets.{has}
use attunegraph.Envelope.Inspect.{inspect_envelope, inspect_value, inspect_shallow}
use attunegraph.Envelope.Charges.{
  enter, open_record, validate_number, admit_field, admit_container, assert_container_profile,
  charge_bytes, charge_descriptors, charge_id, check_root, is_lower_hex, is_supported_number,
  is_supported_prototype, reject_proxy_and_brands, same_profile, starts_with,
  validate_and_charge_string, well_formed_content_id,
}
use attunegraph.Envelope.Values.{
  entry_keys, element_count, after_point, define_field, exponential, minus_sign,
}
use attunegraph.Envelope.Encode.{append, visit, visit_keys}
use attunegraph.Envelope.{content_id_of, digest, matches_supplied}

-- A hash of 64 digits.
abbrev zeros : Text → Text
zeros text = codes "0000000000000000000000000000000000000000000000000000000000000000"

zeros-IsDigest : IsDigest zeros
unfolding is_lower_hex
zeros-IsDigest = record { digits = λ text. refl; lower = λ text. refl }

abbrev spec : Spec
spec = record { hash_domain = codes "d.v1"; id_field = codes "id"; id_prefix = codes "p:" }

abbrev external : Options
external = record {
  profile = external_mutable;
  spec = spec;
  allow_missing_frozen_root_id = false;
  allow_frozen_plain_record_prototype = false;
}

abbrev literal : Container
literal = record { brand = plain; prototype = standard; profile = external_mutable }

abbrev one : Input
one = number_input (natural 1)

abbrev items : Input
items = array_input literal (element (string_input (codes "é")) last)

abbrev body : Fields
body =
    field (codes "b") (number_value (natural 1))
      (field (codes "a") (array_value (cons (string_value (codes "é")) nil)) end)

abbrev outcome : Sealed
outcome = record {
  envelope = field (codes "b") (number_value (natural 1)) (
      field (codes "a") (array_value (cons (string_value (codes "é")) nil))
        (field (codes "id") (string_value (codes "p:" ++ zeros [])) end));
  canonical_json =
      codes
        "{\"a\":[\"é\"],\"b\":1,\"id\":\"p:0000000000000000000000000000000000000000000000000000000000000000\"}";
  canonical_byte_length = 92;
  content_id = codes "p:" ++ zeros [];
}

sealed_once :
    canonicalize_with_options zeros
      (record_input literal (entry (codes "b") one (entry (codes "a") items none_left)))
      external
      default_byte_limits
    ≡ ok outcome
unfolding canonicalize_with_options repeat encode_canonical count_bytes number_text seal_body
    validate_contract validate_byte_limits bounded_path escape_segment is_digit is_letter
    matches_hash_domain matches_id_field matches_id_prefix byte_length boolean byte_length_from
    decimal_onto number unit_bytes quote hex_digit is_high is_low quote_unit quote_units starts_low
    text_eq sort raw_compare insert_by sort_onto has inspect_envelope inspect_value inspect_shallow
    enter open_record validate_number admit_field admit_container assert_container_profile
    charge_bytes charge_descriptors charge_id check_root is_lower_hex is_supported_number
    is_supported_prototype reject_proxy_and_brands same_profile starts_with
    validate_and_charge_string well_formed_content_id entry_keys element_count after_point
    define_field exponential minus_sign append visit visit_keys content_id_of digest
    matches_supplied
sealed_once = refl

abbrev swapped : Sealed
swapped = record outcome {
  envelope = field (codes "a") (array_value (cons (string_value (codes "é")) nil)) (
      field (codes "b") (number_value (natural 1))
        (field (codes "id") (string_value (codes "p:" ++ zeros [])) end));
}

sealed_swapped :
    canonicalize_with_options zeros
      (record_input literal (entry (codes "a") items (entry (codes "b") one none_left)))
      external
      default_byte_limits
    ≡ ok swapped
unfolding canonicalize_with_options repeat encode_canonical count_bytes number_text seal_body
    validate_contract validate_byte_limits bounded_path escape_segment is_digit is_letter
    matches_hash_domain matches_id_field matches_id_prefix byte_length boolean byte_length_from
    decimal_onto number unit_bytes quote hex_digit is_high is_low quote_unit quote_units starts_low
    text_eq sort raw_compare insert_by sort_onto has inspect_envelope inspect_value inspect_shallow
    enter open_record validate_number admit_field admit_container assert_container_profile
    charge_bytes charge_descriptors charge_id check_root is_lower_hex is_supported_number
    is_supported_prototype reject_proxy_and_brands same_profile starts_with
    validate_and_charge_string well_formed_content_id entry_keys element_count after_point
    define_field exponential minus_sign append visit visit_keys content_id_of digest
    matches_supplied
sealed_swapped = refl

minted :
    mint_from_frozen_unsigned zeros
      (record_input frozen_record (frozen_fields body))
      spec
      default_byte_limits
    ≡ ok outcome
unfolding mint_from_frozen_unsigned frozen canonicalize_with_options repeat encode_canonical
    count_bytes number_text seal_body validate_contract validate_byte_limits bounded_path
    escape_segment is_digit is_letter matches_hash_domain matches_id_field matches_id_prefix
    byte_length boolean byte_length_from decimal_onto number unit_bytes quote hex_digit is_high
    is_low quote_unit quote_units starts_low text_eq sort raw_compare insert_by sort_onto has
    inspect_envelope inspect_value inspect_shallow enter open_record validate_number admit_field
    admit_container assert_container_profile charge_bytes charge_descriptors charge_id check_root
    is_lower_hex is_supported_number is_supported_prototype reject_proxy_and_brands same_profile
    starts_with validate_and_charge_string well_formed_content_id entry_keys element_count
    after_point define_field exponential minus_sign append visit visit_keys content_id_of digest
    matches_supplied
minted = refl

-- Numbers as the language prints them.
printed_numbers :
    (number_text (mixed true 125 1) ≡ codes "-1.25")
    × (number_text (small false 5 0) ≡ codes "0.5")
    × (number_text (small false 15 6) ≡ codes "1.5e-7")
unfolding number_text repeat after_point exponential minus_sign number decimal_onto
printed_numbers = (refl, refl, refl)

encode_canonical_lem_example :
    encode_canonical 20 BudgetAxis.canonical_body_bytes (record_value body)
    ≡ ok (record { json = codes "{\"a\":[\"é\"],\"b\":1}"; bytes = 18 })
unfolding canonical object array more_items more_fields canonicalize_with_options repeat
    encode_canonical count_bytes number_text seal_body validate_contract validate_byte_limits
    bounded_path escape_segment is_digit is_letter matches_hash_domain matches_id_field
    matches_id_prefix byte_length boolean byte_length_from decimal_onto number unit_bytes quote
    hex_digit is_high is_low quote_unit quote_units starts_low text_eq sort raw_compare insert_by
    sort_onto has inspect_envelope inspect_value inspect_shallow enter open_record validate_number
    admit_field admit_container assert_container_profile charge_bytes charge_descriptors charge_id
    check_root is_lower_hex is_supported_number is_supported_prototype reject_proxy_and_brands
    same_profile starts_with validate_and_charge_string well_formed_content_id entry_keys
    element_count after_point define_field exponential minus_sign append visit visit_keys
    content_id_of digest matches_supplied
encode_canonical_lem_example =
    encode_canonical_lem 20 BudgetAxis.canonical_body_bytes (record_value body)

count_bytes_lem_example : count_bytes false (0xd83d ∷ 0xde00 ∷ b'a' ∷ []) ≡ some 5
unfolding is_paired is_high is_low byte_length unit_bytes starts_low
count_bytes_lem_example = count_bytes_lem (0xd83d ∷ 0xde00 ∷ b'a' ∷ [])

seal_body_lem_example :
    seal_body zeros spec default_byte_limits (body, some (codes "p:1"))
    ≡ err (failure integrity_mismatch integrity content_id_mismatch (codes "/id"))
unfolding canonical object array more_items more_fields canonicalize_with_options repeat
    encode_canonical count_bytes number_text seal_body validate_contract validate_byte_limits
    bounded_path escape_segment is_digit is_letter matches_hash_domain matches_id_field
    matches_id_prefix byte_length boolean byte_length_from decimal_onto number unit_bytes quote
    hex_digit is_high is_low quote_unit quote_units starts_low text_eq sort raw_compare insert_by
    sort_onto has inspect_envelope inspect_value inspect_shallow enter open_record validate_number
    admit_field admit_container assert_container_profile charge_bytes charge_descriptors charge_id
    check_root is_lower_hex is_supported_number is_supported_prototype reject_proxy_and_brands
    same_profile starts_with validate_and_charge_string well_formed_content_id entry_keys
    element_count after_point define_field exponential minus_sign append visit visit_keys
    content_id_of digest matches_supplied
seal_body_lem_example = seal_body_lem zeros spec default_byte_limits body (some (codes "p:1"))

canonicalize-IsSealed_example :
    IsSealed zeros external default_byte_limits
      (record_input literal (entry (codes "b") one (entry (codes "a") items none_left)))
      outcome
canonicalize-IsSealed_example =
    canonicalize-IsSealed zeros
      (record_input literal (entry (codes "b") one (entry (codes "a") items none_left))) external
      default_byte_limits outcome sealed_once

canonicalize_again_example :
    canonicalize_for_internal_use zeros
      (record_input frozen_record (frozen_fields outcome.envelope))
      attunegraph_frozen
      spec
      default_byte_limits
    ≡ ok outcome
canonicalize_again_example =
    canonicalize_again zeros zeros-IsDigest
      (record_input literal (entry (codes "b") one (entry (codes "a") items none_left))) external
      default_byte_limits outcome sealed_once

mint-content_id_example :
    content_id_from_frozen_unsigned zeros (record_input frozen_record (frozen_fields body)) spec
    ≡ ok outcome.content_id
mint-content_id_example =
    mint-content_id zeros (record_input frozen_record (frozen_fields body)) spec default_byte_limits
      outcome (omega arith) minted

canonicalize-Reordered_example :
    (outcome.content_id ≡ swapped.content_id) × (outcome.canonical_json ≡ swapped.canonical_json)
unfolding detached
canonicalize-Reordered_example =
    canonicalize-Reordered zeros literal literal
      (entry (codes "b") one (entry (codes "a") items none_left))
      (entry (codes "a") items (entry (codes "b") one none_left)) external default_byte_limits
      outcome swapped (swap_fields (ground arith)) sealed_once sealed_swapped
