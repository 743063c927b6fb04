-- ===== src/Envelope/Signed.antt =====
-- Proofs about the inspection of src/canonical-immutable-envelope.ts on envelopes that are signed and
-- frozen.
use attunegraph.Common.{
  ◌+◌, ◌≤◌, ◌≡◌, refl, Bool, true, false, not, some, [], length, Text, text_eq, text_eq_refl, arith,
  ok, &&-eq-true,
}
use attunegraph.Common.Sets.{has}
use attunegraph.Json.Print.{byte_length}
use attunegraph.Envelope.Values.{
  string_value, Fields, end, field, entry_keys, record_input, define_field,
}
use attunegraph.Envelope.Contract.{Spec, max_descriptors, max_aggregate_string_bytes, bounded_path}
use attunegraph.Envelope.Charges.{
  State, well_formed_content_id, enter, admit_container, reject_proxy_and_brands,
  assert_container_profile, is_supported_prototype, same_profile, check_root, charge_id,
  open_record, admit_field,
}
use attunegraph.Envelope.Inspect.{
  inspect_shallow, inspect_entries, inspect_value, fresh_state, inspect_envelope,
}
use attunegraph.Envelope.Detached.{
  frozen, frozen_fields, frozen_record, string_fits, fields_fit, fields_count, fields_descriptors,
  fields_bytes,
}
use attunegraph.Envelope.RootFields.{lacks}
use attunegraph.Envelope.Specs.{string_fits-ascii, IsSpec}
use attunegraph.Envelope.Again.{
  verify_options, charge_descriptors_room, charge_string_room, fields_fit-parts, entry_kept, again,
}

module _ (spec : Spec) (h : IsSpec spec) (id : Text)
    (formed : well_formed_content_id id spec ≡ true) (fits : string_fits id ≡ true) where
  -- The loop over the fields of a signed body.
  signed_fields :
      (fs : Fields) (path : Text) (s : State)
      → lacks spec.id_field fs ≡ true
      → fields_fit 1 fs ≡ true
      → s.descriptors + fields_descriptors fs ≤ max_descriptors
      → s.aggregate_string_bytes + (fields_bytes fs + (byte_length spec.id_field + byte_length id))
        ≤ max_aggregate_string_bytes
      → (t : State) × (inspect_entries
            (verify_options spec)
            (frozen_fields (define_field fs spec.id_field (string_value id)))
            true
            1
            path
            s
          ≡ ok (fs, t))
        × (t.supplied_id ≡ some id)
  unfolding frozen inspect_shallow define_field lacks fields_fit fields_descriptors fields_bytes
      admit_field
  signed_fields end path s l f hd hb =
      let here = bounded_path path spec.id_field in
      let field_fits =
        string_fits-ascii spec.id_field h.field_ascii (omega (arith, h.field_length)) in
      let u = record s {
        aggregate_string_bytes = s.aggregate_string_bytes + byte_length spec.id_field;
      } in
      let w = record u { aggregate_string_bytes = u.aggregate_string_bytes + byte_length id } in
      (
        record w { supplied_id = some id },
        rw (
          charge_string_room spec.id_field s here field_fits (omega (arith, hb)),
          charge_string_room id u here fits (omega (arith, hb)),
          text_eq_refl spec.id_field,
          formed,
        ),
        refl,
      )
  signed_fields (field key v fs) path s l f hd hb =
      let here = bounded_path path key in
      let (not_id, l') = &&-eq-true (not (text_eq key spec.id_field)) (lacks spec.id_field fs) l in
      let (fk, deep, fv, ffs) = fields_fit-parts spec key v fs 1 f in
      let u = record s { aggregate_string_bytes = s.aggregate_string_bytes + byte_length key } in
      let a = again spec v 1 here u refl fv (omega (arith, hd)) (omega (arith, hb)) in
      let c = a.charged in
      let (t, e, supplied) =
        signed_fields fs path a.last l' ffs (omega (arith, hd, c.descriptors))
          (omega (arith, hb, c.bytes)) in
      (
        t,
        entry_kept spec true key v (frozen_fields (define_field fs spec.id_field (string_value id)))
            1 path s u a.last t fs (charge_string_room key s here fk (omega (arith, hb))) deep a.is
            (negated (text_eq key spec.id_field) not_id) e,
        supplied,
      )
    where
      negated : (b : Bool) → not b ≡ true → b ≡ false
      negated b k = ground arith

  signed_keys :
      (fs : Fields)
      → (has spec.id_field
            (entry_keys (frozen_fields (define_field fs spec.id_field (string_value id))))
          ≡ true)
        × (length (entry_keys (frozen_fields (define_field fs spec.id_field (string_value id))))
            ≡ fields_count fs + 1)
  unfolding has entry_keys frozen define_field fields_count
  signed_keys end = (rw (text_eq_refl spec.id_field), omega arith)
  signed_keys (field key v fs) = let (a, b) = signed_keys fs in (ground arith, omega (arith, b))

  -- The signed envelope of a body that fits the limits with its id.
  pub signed_inspected :
      (fs : Fields)
      → lacks spec.id_field fs ≡ true
      → fields_fit 1 fs ≡ true
      → fields_count fs + fields_descriptors fs + 2 ≤ max_descriptors
      → fields_bytes fs + (byte_length spec.id_field + byte_length id) ≤ max_aggregate_string_bytes
      → inspect_envelope (verify_options spec) (
          record_input frozen_record
            (frozen_fields (define_field fs spec.id_field (string_value id))))
        ≡ ok (fs, some id)
  unfolding inspect_envelope inspect_value inspect_shallow enter admit_container
      reject_proxy_and_brands assert_container_profile is_supported_prototype same_profile
      open_record check_root charge_id
  signed_inspected fs l f hd hb =
      let (present, count) = signed_keys fs in
      let s1 = record fresh_state { descriptors = 0 + 1 } in
      let s2 = record s1 { descriptors = s1.descriptors + ((fields_count fs + 1) + 0) } in
      let e2 = charge_descriptors_room s1 ((fields_count fs + 1) + 0) [] (omega (arith, hd)) in
      let (t, e, supplied) = signed_fields fs [] s2 l f (omega (arith, hd)) (omega (arith, hb)) in
      rw (present, count, e2, e, supplied)
