-- ===== src/Envelope/RootFields.antt =====
-- What the loop over the fields of the root has detached, tested and charged.
use attunegraph.Common.{
  ℕ, ◌+◌, ◌≤◌, ◌≡◌, refl, sym, ap, ◌∙◌, Bool, true, false, ◌&&◌, not, Option, none, some, [], ◌∷◌,
  length, if◌then◌else◌, Text, text_eq, text_eq-eq, arith, Bool-cases, inl, inr, ok, guard-eq-ok,
  ok-pair,
}
use attunegraph.Common.Sets.{has}
use attunegraph.Json.{is_high}
use attunegraph.Json.Print.{unit_bytes, byte_length_from, byte_length}
use attunegraph.Envelope.Values.{
  Value, null_value, boolean_value, number_value, string_value, array_value, record_value, Fields,
  end, field, Input, Entries, none_left, entry, entry_keys,
}
use attunegraph.Envelope.Contract.{bounded_path}
use attunegraph.Envelope.Charges.{Options, State, well_formed_content_id, admit_field}
use attunegraph.Envelope.Inspect.{inspect_shallow, inspect_entries, define_kept}
use attunegraph.Envelope.Detached.{
  detached, detached_entries, without, fields_fit, fields_count, fields_descriptors, fields_bytes,
  value_descriptors, value_bytes,
}
use attunegraph.Envelope.Charged.{Stays}
use attunegraph.Envelope.Steps.{Step, inspect_entries-Step, admit_field-other}
use attunegraph.Envelope.Taken.{inspect_Admitted}

pub bytes_from-le : (p : Bool) (s : Text) → length s ≤ byte_length_from p s
unfolding byte_length_from unit_bytes
bytes_from-le p [] = omega arith
bytes_from-le p (c ∷ s) = ground (arith, bytes_from-le (is_high c) s)

-- A string has as many bytes as code units at least.
pub length-le-byte_length : (s : Text) → length s ≤ byte_length s
unfolding byte_length
length-le-byte_length s = bytes_from-le false s

-- No field has the key.
unfoldable pub lacks : Text → Fields → Bool
lacks key end = true
lacks key (field name v fs) = not (text_eq name key) && lacks key fs

pub lacks-without : (key : Text) (fs : Fields) → lacks key (without key fs) ≡ true
unfolding lacks without
lacks-without key end = refl
lacks-without key (field name v fs) = elim (Bool-cases (text_eq name key)) [
  | inl this ↦ rw this (lacks-without key fs)
  | inr other ↦ rw (other, other) (lacks-without key fs)
]

-- What an id field costs.
abbrev pub id_cost : Options → ℕ
id_cost o = byte_length o.spec.id_field + (length o.spec.id_prefix + 64)

-- An id field is a string of the length of an id.
pub admit_field-id :
    (o : Options) (key : Text) (child : Value) (s : State) (path : Text) (r : Option Text × State)
    → admit_field o true key child s path ≡ ok r
    → (text : Text) × (child ≡ string_value text)
      × (well_formed_content_id text o.spec ≡ true)
      × (r ≡ (some text, record s { supplied_id = some text }))
unfolding admit_field
admit_field-id o key null_value s path r h = absurd (cc)
admit_field-id o key (boolean_value b) s path r h = absurd (cc)
admit_field-id o key (number_value n) s path r h = absurd (cc)
admit_field-id o key (array_value vs) s path r h = absurd (cc)
admit_field-id o key (record_value fs) s path r h = absurd (cc)
admit_field-id o key (string_value text) s path r h =
    let (fine, k) = guard-eq-ok (well_formed_content_id text o.spec) _ _ h in (text, refl, fine, cc)

pub well_formed-length :
    (o : Options) (text : Text)
    → well_formed_content_id text o.spec ≡ true
    → length text ≡ length o.spec.id_prefix + 64
unfolding well_formed_content_id
well_formed-length o text h = ground arith

-- The loop over the fields of the root.
pub record RootFields (o : Options) (es : Entries) (s : State) (fs : Fields) (t : State)
    : Type 0 where
  pub value : fs ≡ without o.spec.id_field (detached_entries es)
  pub fits : fields_fit 1 fs ≡ true
  pub descriptors : t.descriptors ≡ s.descriptors + fields_descriptors fs
  pub bytes :
      s.aggregate_string_bytes
        + fields_bytes fs
        + (if has o.spec.id_field (entry_keys es) then id_cost o else 0)
      ≤ t.aggregate_string_bytes
  pub count :
      fields_count fs + (if has o.spec.id_field (entry_keys es) then 1 else 0)
      ≤ length (entry_keys es)
  pub stays : Stays s t

module _ (o : Options) (path : Text) where
  root_other :
      (key : Text) (v : Input) (es : Entries) (s : State) (fs : Fields) (t : State)
      → text_eq key o.spec.id_field ≡ false
      → (st : Step o true key v es 1 path s fs t)
      → RootFields o es (st.child.1) (st.rest.0) (st.rest.1)
      → RootFields o (entry key v es) s fs t
  unfolding detached without fields_fit fields_count fields_descriptors fields_bytes entry_keys has
  root_other key v es s fs t e st b =
      let a =
        inspect_Admitted o v 1 (bounded_path path key) st.named (st.child.0) (st.child.1) refl
          st.child_is in
      let c = st.key_charged in
      let d = a.charged in
      let other : ok (none, st.child.1) ≡ ok st.admitted =
        sym (admit_field-other o key (st.child.0) (st.child.1) (bounded_path path key))
        ∙ (rw e at st.field_is) in
      let (is_kept, same_state) = ok-pair other in
      let same : field key (st.child.0) (st.rest.0) ≡ fs = (rw (← is_kept) at st.fields_are) in
      rw (← same, ← st.state_is)
        (record {
          value = rw e (λ i. field key (a.value i) (b.value i));
          fits = rw (st.key_fits, st.deep, a.fits) b.fits;
          descriptors = omega (arith, c.descriptors, d.descriptors, b.descriptors);
          bytes = rw e (omega (arith, c.bytes, d.bytes, b.bytes));
          count = rw e (omega (arith, b.count));
          stays = λ q. b.stays (a.stays (st.key_stays q));
        })

  root_id :
      (key : Text) (v : Input) (es : Entries) (s : State) (fs : Fields) (t : State)
      → text_eq key o.spec.id_field ≡ true
      → (st : Step o true key v es 1 path s fs t)
      → RootFields o es (st.admitted.1) (st.rest.0) (st.rest.1)
      → RootFields o (entry key v es) s fs t
  unfolding detached without fields_fit fields_count fields_descriptors fields_bytes entry_keys has
      value_descriptors value_bytes
  root_id key v es s fs t e st b =
      let a =
        inspect_Admitted o v 1 (bounded_path path key) st.named (st.child.0) (st.child.1) refl
          st.child_is in
      let c = st.key_charged in
      let d = a.charged in
      let (text, is_text, fine, admitted) =
        admit_field-id o key (st.child.0) (st.child.1) (bounded_path path key) st.admitted
          (rw e at st.field_is) in
      let units = well_formed-length o text fine in
      let least = length-le-byte_length text in
      let cost : value_bytes (st.child.0) ≡ byte_length text = ap value_bytes is_text in
      let count : value_descriptors (st.child.0) ≡ 0 = ap value_descriptors is_text in
      let state : st.admitted.1 ≡ record (st.child.1) { supplied_id = some text } =
        ap (λ r. r.1) admitted in
      let bytes = ap (λ u. u.aggregate_string_bytes) state in
      let charges = ap (λ u. u.descriptors) state in
      let named : byte_length key ≡ byte_length o.spec.id_field =
        ap byte_length (text_eq-eq key o.spec.id_field e) in
      let same : st.rest.0 ≡ fs =
        ap (λ x. define_kept x key (st.child.0) (st.rest.0)) (sym (ap (λ r. r.0) admitted))
        ∙ st.fields_are in
      rw (← same, ← st.state_is)
        (record {
          value = rw e b.value;
          fits = b.fits;
          descriptors = omega (arith, c.descriptors, d.descriptors, b.descriptors, charges, count);
          bytes = rw e (omega (arith, c.bytes, d.bytes, b.bytes, bytes, cost, named, units, least));
          count = rw e (omega (arith, b.count));
          stays = λ q.
              let w = a.stays (st.key_stays q) in
              b.stays (record { descriptors = rw charges w.descriptors; bytes = rw bytes w.bytes });
        })

  pub root_fields :
      (es : Entries) (s : State) (fs : Fields) (t : State)
      → inspect_entries o es true 1 path s ≡ ok (fs, t)
      → RootFields o es s fs t
  unfolding inspect_shallow detached without fields_fit fields_count fields_descriptors fields_bytes
      entry_keys has
  root_fields none_left s fs t h =
      let (same, state) = ok-pair h in
      rw (← same, ← state)
        (record {
          value = refl;
          fits = refl;
          descriptors = omega arith;
          bytes = omega arith;
          count = omega arith;
          stays = λ q. q;
        })
  root_fields (entry key v es) s fs t h =
      let st = inspect_entries-Step o true key v es 1 path s fs t h in
      elim (Bool-cases (text_eq key o.spec.id_field)) [
        | inl this ↦
            root_id key v es s fs t this st
              (root_fields es (st.admitted.1) (st.rest.0) (st.rest.1) st.rest_is)
        | inr other ↦
            let same_state : st.child.1 ≡ st.admitted.1 =
              (ok-pair (
                sym (admit_field-other o key (st.child.0) (st.child.1) (bounded_path path key))
                ∙ (rw other at st.field_is))).1 in
            root_other key v es s fs t other st (
              root_fields es (st.child.1) (st.rest.0) (st.rest.1) (rw (← same_state) at st.rest_is))
      ]
