-- ===== src/Envelope/Again.antt =====
-- Proofs about the inspection of src/canonical-immutable-envelope.ts on values that are frozen.
use attunegraph.Common.{
  ℕ, suc, ◌+◌, ◌≤◌, ◌≡◌, refl, ap, ◌∙◌, Bool, true, false, ◌&&◌, ltb, leb, ◌==◌, length, Text,
  text_eq, arith, ok, three_true, four_true,
}
use attunegraph.Json.Print.{byte_length, number}
use attunegraph.Decision.{is_paired}
use attunegraph.Envelope.Values.{
  Value, null_value, boolean_value, number_value, string_value, array_value, record_value, Items,
  nil, cons, Fields, end, field, attunegraph_frozen, Entries, entry, element_count, entry_keys,
}
use attunegraph.Envelope.Contract.{
  Spec, max_depth, max_descriptors, max_string_code_units, max_string_bytes,
  max_aggregate_string_bytes, bounded_path,
}
use attunegraph.Envelope.Charges.{
  Options, State, charge_bytes, charge_descriptors, validate_and_charge_string, validate_number,
  admit_container, enter, check_root, charge_id, open_record, reject_proxy_and_brands,
  assert_container_profile, is_supported_prototype, same_profile,
}
use attunegraph.Envelope.Inspect.{inspect_shallow, inspect_elements, inspect_entries}
use attunegraph.Envelope.Measure.{count_bytes_lem}
use attunegraph.Envelope.Detached.{
  frozen, frozen_items, frozen_fields, string_fits, value_fits, items_fit, fields_fit,
  value_descriptors, items_count, fields_count, items_descriptors, fields_descriptors, value_bytes,
  items_bytes, fields_bytes,
}
use attunegraph.Envelope.Charged.{Charged, Charged-refl, Charged-trans}
use attunegraph.Envelope.Steps.{admit_field-other}

-- How an envelope is verified: frozen, with its id.
abbrev pub verify_options : Spec → Options
verify_options spec = record {
  profile = attunegraph_frozen;
  spec = spec;
  allow_missing_frozen_root_id = false;
  allow_frozen_plain_record_prototype = false;
}

pub charge_descriptors_room :
    (s : State) (n : ℕ) (path : Text)
    → s.descriptors + n ≤ max_descriptors
    → charge_descriptors s n path ≡ ok (record s { descriptors = s.descriptors + n })
unfolding charge_descriptors
charge_descriptors_room s n path h =
    let within : ltb max_descriptors (s.descriptors + n) ≡ false = ground arith in rw within

string_fits-bounds :
    (value : Text)
    → string_fits value ≡ true
    → (ltb max_string_code_units (length value) ≡ false)
      × (is_paired false value ≡ true)
      × (ltb max_string_bytes (byte_length value) ≡ false)
unfolding string_fits
string_fits-bounds value h =
    let (a, c, d) =
      three_true (leb (length value) max_string_code_units) (is_paired false value)
        (leb (byte_length value) max_string_bytes) h in
    (
      not_over (length value) max_string_code_units a,
      c,
      not_over (byte_length value) max_string_bytes d,
    )
  where
    not_over : (n m : ℕ) → leb n m ≡ true → ltb m n ≡ false
    not_over n m h = ground arith

pub charge_string_room :
    (value : Text) (s : State) (path : Text)
    → string_fits value ≡ true
    → s.aggregate_string_bytes + byte_length value ≤ max_aggregate_string_bytes
    → validate_and_charge_string value s path
      ≡ ok (record s { aggregate_string_bytes = s.aggregate_string_bytes + byte_length value })
unfolding validate_and_charge_string charge_bytes
charge_string_room value s path fit h =
    let (units, paired, bytes) = string_fits-bounds value fit in
    let within : ltb max_aggregate_string_bytes (s.aggregate_string_bytes + byte_length value)
        ≡ false =
      not_above (s.aggregate_string_bytes + byte_length value) h in
    rw (units, count_bytes_lem value, paired, bytes, within)
  where
    not_above : (n : ℕ) → n ≤ max_aggregate_string_bytes → ltb max_aggregate_string_bytes n ≡ false
    not_above n h = ground arith

frozen-count : (vs : Items) → element_count (frozen_items vs) ≡ items_count vs
unfolding frozen element_count items_count
frozen-count nil = refl
frozen-count (cons v vs) = ap suc (frozen-count vs)

frozen-keys : (fs : Fields) → length (entry_keys (frozen_fields fs)) ≡ fields_count fs
unfolding frozen entry_keys fields_count
frozen-keys end = refl
frozen-keys (field key v fs) = ap suc (frozen-keys fs)

-- The state in which an inspection ends, and what has been charged until then.
pub record Ends (s : State) (d b : ℕ) (R : State → Type 0) : Type 0 where
  pub last : State
  pub is : R last
  pub charged : Charged s d b last

module _ (spec : Spec) where
  abbrev o : Options
  o = verify_options spec

  -- A field that is not the id of the root.
  pub entry_kept :
      (root : Bool) (key : Text) (v : Value) (es : Entries) (level : ℕ) (path : Text)
      (s u w t : State) (fs : Fields)
      → validate_and_charge_string key s (bounded_path path key) ≡ ok u
      → leb level max_depth ≡ true
      → inspect_shallow o (frozen v) level (bounded_path path key) u ≡ ok (v, w)
      → (root && text_eq key spec.id_field) ≡ false
      → inspect_entries o es root level path w ≡ ok (fs, t)
      → inspect_entries o (entry key (frozen v) es) root level path s ≡ ok (field key v fs, t)
  unfolding inspect_entries
  entry_kept root key v es level path s u w t fs e1 deep e2 e3 e4 =
      rw (e1, deep, e2, e3, admit_field-other o key v w (bounded_path path key), e4)

  -- The tests of one field and of those behind it.
  pub fields_fit-parts :
      (key : Text) (v : Value) (fs : Fields) (level : ℕ)
      → fields_fit level (field key v fs) ≡ true
      → (string_fits key ≡ true)
        × (leb level max_depth ≡ true)
        × (value_fits level v ≡ true)
        × (fields_fit level fs ≡ true)
  unfolding fields_fit
  fields_fit-parts key v fs level f =
      four_true (string_fits key) (leb level max_depth) (value_fits level v) (fields_fit level fs) f

  mutual
    unfolding frozen inspect_shallow enter admit_container reject_proxy_and_brands
        assert_container_profile is_supported_prototype same_profile value_fits value_descriptors
        value_bytes validate_number open_record check_root charge_id

    pub again :
        (v : Value) (level : ℕ) (path : Text) (s : State)
        → (level == 0) ≡ false
        → value_fits level v ≡ true
        → s.descriptors + value_descriptors v ≤ max_descriptors
        → s.aggregate_string_bytes + value_bytes v ≤ max_aggregate_string_bytes
        → Ends s
            (value_descriptors v)
            (value_bytes v)
            (λ t. inspect_shallow o (frozen v) level path s ≡ ok (v, t))
    again null_value level path s p f hd hb = record {
      last = s;
      is = refl;
      charged = Charged-refl s;
    }
    again (boolean_value b) level path s p f hd hb = record {
      last = s;
      is = refl;
      charged = Charged-refl s;
    }
    again (number_value n) level path s p f hd hb = record {
      last = s;
      is = rw f;
      charged = Charged-refl s;
    }
    again (string_value text) level path s p f hd hb = record {
      last = record s { aggregate_string_bytes = s.aggregate_string_bytes + byte_length text };
      is = rw (charge_string_room text s path f hb);
      charged = record { descriptors = omega arith; bytes = refl; supplied = refl };
    }
    again (array_value vs) level path s p f hd hb =
        let s1 = record s { descriptors = s.descriptors + 1 } in
        let s2 = record s1 { descriptors = s1.descriptors + items_count vs } in
        let e1 = charge_descriptors_room s 1 path (omega (arith, hd)) in
        let e2 = charge_descriptors_room s1 (items_count vs) path (omega (arith, hd)) in
        let a = again_items vs 0 (suc level) path s2 (ground arith) f (omega (arith, hd)) hb in
        record {
          last = a.last;
          is = rw (p, e1, frozen-count vs, e2, a.is);
          charged = record {
            descriptors = omega (arith, a.charged.descriptors);
            bytes = a.charged.bytes;
            supplied = a.charged.supplied;
          };
        }
    again (record_value fs) level path s p f hd hb =
        let s1 = record s { descriptors = s.descriptors + 1 } in
        let s2 = record s1 { descriptors = s1.descriptors + (fields_count fs + 0) } in
        let e1 = charge_descriptors_room s 1 path (omega (arith, hd)) in
        let e2 = charge_descriptors_room s1 (fields_count fs + 0) path (omega (arith, hd)) in
        let a = again_fields fs (suc level) path s2 (ground arith) f (omega (arith, hd)) hb in
        record {
          last = a.last;
          is = rw (p, e1, frozen-keys fs, e2, a.is);
          charged = record {
            descriptors = omega (arith, a.charged.descriptors);
            bytes = a.charged.bytes;
            supplied = a.charged.supplied;
          };
        }

    again_items :
        (vs : Items) (index level : ℕ) (path : Text) (s : State)
        → (level == 0) ≡ false
        → items_fit level vs ≡ true
        → s.descriptors + items_descriptors vs ≤ max_descriptors
        → s.aggregate_string_bytes + items_bytes vs ≤ max_aggregate_string_bytes
        → Ends s
            (items_descriptors vs)
            (items_bytes vs)
            (λ t. inspect_elements o (frozen_items vs) index level path s ≡ ok (vs, t))
    again_items nil index level path s p f hd hb = record {
      last = s;
      is = refl;
      charged = Charged-refl s;
    }
    again_items (cons v vs) index level path s p f hd hb =
        let (deep, fv, fvs) =
          three_true (leb level max_depth) (value_fits level v) (items_fit level vs) f in
        let a =
          again v level (bounded_path path (number index)) s p fv (omega (arith, hd))
            (omega (arith, hb)) in
        let c = a.charged in
        let b =
          again_items vs (suc index) level path a.last p fvs (omega (arith, hd, c.descriptors))
            (omega (arith, hb, c.bytes)) in
        record {
          last = b.last;
          is = rw (deep, a.is, b.is);
          charged = Charged-trans a.charged b.charged;
        }

    again_fields :
        (fs : Fields) (level : ℕ) (path : Text) (s : State)
        → (level == 0) ≡ false
        → fields_fit level fs ≡ true
        → s.descriptors + fields_descriptors fs ≤ max_descriptors
        → s.aggregate_string_bytes + fields_bytes fs ≤ max_aggregate_string_bytes
        → Ends s
            (fields_descriptors fs)
            (fields_bytes fs)
            (λ t. inspect_entries o (frozen_fields fs) false level path s ≡ ok (fs, t))
    again_fields end level path s p f hd hb = record {
      last = s;
      is = refl;
      charged = Charged-refl s;
    }
    again_fields (field key v fs) level path s p f hd hb =
        let here = bounded_path path key in
        let (fk, deep, fv, ffs) = fields_fit-parts key v fs level f in
        let u = record s { aggregate_string_bytes = s.aggregate_string_bytes + byte_length key } in
        let a = again v level here u p fv (omega (arith, hd)) (omega (arith, hb)) in
        let c = a.charged in
        let b =
          again_fields fs level path a.last p ffs (omega (arith, hd, c.descriptors))
            (omega (arith, hb, c.bytes)) in
        let d = b.charged in
        record {
          last = b.last;
          is =
              entry_kept false key v (frozen_fields fs) level path s u a.last b.last fs
                (charge_string_room key s here fk (omega (arith, hb))) deep a.is refl b.is;
          charged = record {
            descriptors = omega (arith, c.descriptors, d.descriptors);
            bytes = omega (arith, c.bytes, d.bytes);
            supplied = d.supplied ∙ c.supplied;
          };
        }
