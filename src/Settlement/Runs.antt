-- ===== src/Settlement/Runs.antt =====
-- The settlement of the test's inventory with the envelopes of the code.
use attunegraph.Common.{
  text_eq, ◌≡◌, refl, [], ◌∷◌, codes, raw_compare, sort, sort_onto, insert_by, err,
}
use attunegraph.Settlement.Types.{Axis, Terminal, Inventory, SettlementError}
use attunegraph.Settlement.{
  add, add_within, attempt_output, attempted, count, is_consistent, counters, compare_entries,
  ordered, fits, compare_ranks, rejections, eligibles, settle_eligible, settle_optionals, settled,
  envelope, abstain, invalid, abstained, settle_admitted, settle_inventory,
}
use attunegraph.Settlement.Envelopes.{
  entry_input, entry_inputs, counters_input, ledger_input, capacity_input, sealed_as,
  ledger_canonical, capacity_canonical,
}
use attunegraph.Settlement.Admission.{
  is_lower, is_id_mark, is_marked, is_pattern, is_candidate_id, is_reason_id, is_free, is_safe_cost,
  is_safe_budget, check_candidate, check_optionals, check_inventory, settle_candidate_inventory,
}
use attunegraph.AttuneQl.Tokens
use attunegraph.Common.Sets
use attunegraph.Common.Sets.{has}
use attunegraph.Decision.{is_paired}
use attunegraph.Envelope.{
  seal_body, canonicalize_with_options, canonicalize_for_internal_use,
  canonicalize_immutable_envelope, content_id_of, digest, matches_supplied,
}
use attunegraph.Envelope.Contract.{
  failure, invalid_input, inspect, unpaired_surrogate, validate_contract, validate_byte_limits,
  bounded_path, escape_segment, is_digit, is_letter, matches_hash_domain, matches_id_field,
  matches_id_prefix,
}
use attunegraph.Envelope.Inspect.{inspect_envelope, inspect_value, inspect_shallow}
use attunegraph.Envelope.Charges.{
  enter, open_record, validate_number, admit_field, admit_container, assert_container_profile,
  charge_bytes, charge_descriptors, charge_id, check_root, is_lower_hex, is_supported_number,
  is_supported_prototype, reject_proxy_and_brands, same_profile, starts_with,
  validate_and_charge_string, well_formed_content_id, count_bytes,
}
use attunegraph.Envelope.Values.{
  entry_keys, element_count, after_point, define_field, exponential, minus_sign, number_text,
  repeat,
}
use attunegraph.Envelope.Encode.{append, visit, visit_keys, encode_canonical}
use attunegraph.Json.Print.{
  byte_length, boolean, byte_length_from, decimal_onto, number, unit_bytes,
}
use attunegraph.Json.{quote, hex_digit, is_high, is_low, quote_unit, quote_units, starts_low}
use attunegraph.Settlement.Tests.{stock, zeros, terminals, value_of}

-- An inventory whose id cannot be written in UTF-8.
abbrev unpaired : Inventory
unpaired = record (stock 200) { inventory_id = 0xd800 ∷ [] }

-- With room for all, for all but the big one, and for no ledger; and an id that the envelope refuses.
stock_with_envelopes :
    (terminals (value_of (settle_candidate_inventory zeros (stock 2000)))
      ≡ Terminal.admitted
        ∷ Terminal.rejected (codes "semantic:old")
        ∷ Terminal.admitted
        ∷ Terminal.admitted
        ∷ [])
    × (terminals (value_of (settle_candidate_inventory zeros (stock 950)))
        ≡ Terminal.admitted
          ∷ Terminal.rejected (codes "semantic:old")
          ∷ Terminal.failed Axis.bytes
          ∷ Terminal.admitted
          ∷ [])
    × (terminals (value_of (settle_candidate_inventory zeros (stock 200))) ≡ [])
    × (settle_candidate_inventory zeros unpaired
        ≡ err (
            SettlementError.envelope_refused
              (failure invalid_input inspect unpaired_surrogate (codes "/inventoryId"))))
unfolding settle_candidate_inventory check_inventory add add_within attempt_output attempted count
    is_consistent counters compare_entries ordered fits compare_ranks rejections eligibles
    settle_eligible settle_optionals settled envelope abstain invalid abstained settle_admitted
    settle_inventory entry_input entry_inputs counters_input ledger_input capacity_input sealed_as
    ledger_canonical capacity_canonical is_lower is_id_mark is_marked is_pattern is_candidate_id
    is_reason_id is_free is_safe_cost is_safe_budget check_candidate check_optionals has Sets.add
    Tokens.is_digit is_paired seal_body canonicalize_with_options canonicalize_for_internal_use
    canonicalize_immutable_envelope content_id_of digest matches_supplied validate_contract
    validate_byte_limits bounded_path escape_segment is_digit is_letter matches_hash_domain
    matches_id_field matches_id_prefix inspect_envelope inspect_value inspect_shallow enter
    open_record validate_number admit_field admit_container assert_container_profile charge_bytes
    charge_descriptors charge_id check_root is_lower_hex is_supported_number is_supported_prototype
    reject_proxy_and_brands same_profile starts_with validate_and_charge_string
    well_formed_content_id count_bytes entry_keys element_count after_point define_field exponential
    minus_sign number_text repeat append visit visit_keys encode_canonical byte_length boolean
    byte_length_from decimal_onto number unit_bytes quote hex_digit is_high is_low quote_unit
    quote_units starts_low text_eq raw_compare sort sort_onto insert_by
stock_with_envelopes = (refl, refl, refl, refl)
