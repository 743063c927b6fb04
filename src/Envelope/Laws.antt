-- ===== src/Envelope/Laws.antt =====
-- Proofs about sealed envelopes of src/canonical-immutable-envelope.ts.
use attunegraph.Common.{
  ℕ, ◌≤◌, ◌++◌, ◌∷◌, subst, ◌≡◌, sym, ap, ◌∙◌, false, some, Text, text_eq, text_eq-eq, text_eq_refl,
  arith, Bool-cases, inl, inr, ok, ltb,
}
use attunegraph.Json.Print.{byte_length}
use attunegraph.Envelope.Values.{
  Value, string_value, record_value, Fields, end, field, attunegraph_frozen, Input, record_input,
  Container, Entries, define_field,
}
use attunegraph.Envelope.Contract.{BudgetAxis, Spec, ByteLimits, default_byte_limits}
use attunegraph.Envelope.Charges.{Options}
use attunegraph.Envelope.Canonical.{canonical}
use attunegraph.Envelope.Written.{encode_canonical_lem}
use attunegraph.Envelope.Reordered.{
  FieldsReordered, unchanged, fields_of, no_fields, keep_field, swap_fields, in_turn,
  canonical-Reordered,
}
use attunegraph.Envelope.Detached.{frozen_record, frozen_fields, detached_entries, without}
use attunegraph.Envelope.Root.{body_lacks}
use attunegraph.Envelope.Specs.{
  IsDigest, validate_contract-IsSpec, id_well_formed, id_fits, id_bytes,
}
use attunegraph.Envelope.Signed.{signed_inspected}
use attunegraph.Envelope.Again.{verify_options}
use attunegraph.Envelope.Sealing.{id_of, signed, sealed, seal_body_lem, canonicalize-IsSealed}
use attunegraph.Envelope.{
  Sealed, seal_body, content_id_of, digest, canonicalize_with_options,
  canonicalize_for_internal_use, unsigned_options, mint_from_frozen_unsigned,
  content_id_from_frozen_unsigned,
}

module _ (sha256_hex : Text → Text) where
  -- A body within the limits is sealed.
  seals :
      (spec : Spec) (limits : ByteLimits) (body : Fields)
      → byte_length (canonical (record_value body)) ≤ limits.max_canonical_body_bytes
      → byte_length (canonical (record_value (signed sha256_hex spec body)))
        ≤ limits.max_envelope_bytes
      → seal_body sha256_hex spec limits (body, some (id_of sha256_hex spec body))
        ≡ ok (sealed sha256_hex spec body)
  seals spec limits body h k =
      let short : ltb limits.max_canonical_body_bytes (byte_length (canonical (record_value body)))
          ≡ false =
        ground arith in
      let fine : ltb limits.max_envelope_bytes
            (byte_length (canonical (record_value (signed sha256_hex spec body))))
          ≡ false =
        ground arith in
      seal_body_lem sha256_hex spec limits body (some (id_of sha256_hex spec body))
      ∙ rw (short, fine, text_eq_refl (id_of sha256_hex spec body))

  -- If a hash has 64 lower hexadecimal digits, then what has been sealed passes the verification of a
  -- frozen envelope under the same contract and limits, with the same outcome: the same fields in the
  -- same order, the same canonical JSON with its length, and the same id.
  pub canonicalize_again :
      (hash : IsDigest sha256_hex) (input : Input) (o : Options) (limits : ByteLimits) (r : Sealed)
      → canonicalize_with_options sha256_hex input o limits ≡ ok r
      → canonicalize_for_internal_use sha256_hex
          (record_input frozen_record (frozen_fields r.envelope))
          attunegraph_frozen
          o.spec
          limits
        ≡ ok r
  unfolding canonicalize_for_internal_use canonicalize_with_options
  canonicalize_again hash input o limits r h =
      let a = canonicalize-IsSealed sha256_hex input o limits r h in
      let b = a.is_body in
      let spec_ok = validate_contract-IsSpec o.spec a.done a.contract_holds in
      let content = o.spec.hash_domain ++ 0 ∷ canonical (record_value a.body) in
      let digits = hash.digits content in
      let lower = hash.lower content in
      let cost = id_bytes o.spec spec_ok (sha256_hex content) digits lower in
      let inspected =
        signed_inspected o.spec spec_ok (id_of sha256_hex o.spec a.body)
          (id_well_formed o.spec spec_ok (sha256_hex content) digits lower)
          (id_fits o.spec spec_ok (sha256_hex content) digits lower) a.body (body_lacks b) b.fits
          b.descriptors (omega (arith, b.bytes, cost)) in
      let total : byte_length (canonical (record_value (signed sha256_hex o.spec a.body)))
          ≤ limits.max_envelope_bytes =
        subst (λ x. x.canonical_byte_length ≤ limits.max_envelope_bytes) (sym a.result) a.bytes in
      let again : canonicalize_with_options sha256_hex
            (record_input frozen_record (frozen_fields (signed sha256_hex o.spec a.body)))
            (verify_options o.spec) limits
          ≡ ok (sealed sha256_hex o.spec a.body) =
        rw (a.contract_holds, a.limits_hold, inspected)
          (seals o.spec limits a.body a.body_bytes total) in
      subst
        (λ x.
          canonicalize_for_internal_use sha256_hex
            (record_input frozen_record (frozen_fields x.envelope)) attunegraph_frozen o.spec limits
          ≡ ok x)
        a.result again

  -- If an envelope is minted of a frozen body, with a limit on the body that is not above the default
  -- one, then the content id that is computed without the envelope is that of the envelope.
  pub mint-content_id :
      (input : Input) (spec : Spec) (limits : ByteLimits) (r : Sealed)
      → limits.max_canonical_body_bytes ≤ default_byte_limits.max_canonical_body_bytes
      → mint_from_frozen_unsigned sha256_hex input spec limits ≡ ok r
      → content_id_from_frozen_unsigned sha256_hex input spec ≡ ok r.content_id
  unfolding mint_from_frozen_unsigned content_id_from_frozen_unsigned content_id_of digest
  mint-content_id input spec limits r le h =
      let a =
        canonicalize-IsSealed sha256_hex input (unsigned_options sha256_hex spec) limits r h in
      let lim = default_byte_limits.max_canonical_body_bytes in
      let short : ltb lim (byte_length (canonical (record_value a.body))) ≡ false =
        within lim (byte_length (canonical (record_value a.body)))
          (omega (arith, a.body_bytes, le)) in
      let first = encode_canonical_lem lim BudgetAxis.canonical_body_bytes (record_value a.body) in
      let same : id_of sha256_hex spec a.body ≡ r.content_id = ap (λ x. x.content_id) a.result in
      rw (a.contract_holds, a.inspected, first, short) (ap ok same)
    where
      within : (n m : ℕ) → m ≤ n → ltb n m ≡ false
      within n m k = ground arith

-- The order of the fields.
FieldsReordered-refl : (fs : Fields) → FieldsReordered fs fs
FieldsReordered-refl end = no_fields
FieldsReordered-refl (field key v fs) = keep_field (unchanged v) (FieldsReordered-refl fs)

without-Reordered :
    (id : Text) {fs gs : Fields}
    → FieldsReordered fs gs
    → FieldsReordered (without id fs) (without id gs)
unfolding without
without-Reordered id no_fields = no_fields
without-Reordered id (keep_field {key} {v} {w} {fs} {gs} h k) = elim (Bool-cases (text_eq key id)) [
  | inl this ↦ rw this (without-Reordered id k)
  | inr other ↦ rw other (keep_field h (without-Reordered id k))
]
without-Reordered id (swap_fields {key} {name} {v} {w} {fs} h) =
    elim (Bool-cases (text_eq key id)) [
      | inl this ↦ elim (Bool-cases (text_eq name id)) [
        | inl that ↦ absurd (h (text_eq-eq key id this ∙ sym (text_eq-eq name id that)))
        | inr other ↦ rw (this, other) (FieldsReordered-refl (field name w (without id fs)))
      ]
      | inr other ↦ elim (Bool-cases (text_eq name id)) [
        | inl that ↦ rw (other, that) (FieldsReordered-refl (field key v (without id fs)))
        | inr neither ↦ rw (other, neither) (swap_fields h)
      ]
    ]
without-Reordered id (in_turn h k) = in_turn (without-Reordered id h) (without-Reordered id k)

define_field-Reordered :
    (id : Text) (x : Value) {fs gs : Fields}
    → FieldsReordered fs gs
    → FieldsReordered (define_field fs id x) (define_field gs id x)
unfolding define_field
define_field-Reordered id x no_fields = FieldsReordered-refl (field id x end)
define_field-Reordered id x (keep_field h k) = keep_field h (define_field-Reordered id x k)
define_field-Reordered id x (swap_fields h) = swap_fields h
define_field-Reordered id x (in_turn h k) =
    in_turn (define_field-Reordered id x h) (define_field-Reordered id x k)

module _ (sha256_hex : Text → Text) (spec : Spec) where
  sealed_reordered :
      {fs gs : Fields}
      → FieldsReordered fs gs
      → ((sealed sha256_hex spec fs).content_id ≡ (sealed sha256_hex spec gs).content_id)
        × ((sealed sha256_hex spec fs).canonical_json ≡ (sealed sha256_hex spec gs).canonical_json)
  sealed_reordered {fs} {gs} h =
      let body = canonical-Reordered (record_value fs) (record_value gs) (fields_of h) in
      let id = ap (λ t. spec.id_prefix ++ sha256_hex (spec.hash_domain ++ 0 ∷ t)) body in
      let id_field : Text → Fields = λ t. define_field gs spec.id_field (string_value t) in
      (
        id,
        canonical-Reordered (record_value (signed sha256_hex spec fs))
              (record_value
                (define_field gs spec.id_field (string_value (id_of sha256_hex spec fs))))
              (fields_of
                (define_field-Reordered spec.id_field (string_value (id_of sha256_hex spec fs)) h))
            ∙ ap (λ t. canonical (record_value (id_field t))) id,
      )

input_entries :
    {c d : Container} {es gs : Entries} → record_input c es ≡ record_input d gs → gs ≡ es
input_entries h = cc

-- If two inputs that differ in the order of the fields of their records only, at any depth, are sealed
-- under the same contract and limits, then they get the same id and the same canonical JSON.
pub canonicalize-Reordered :
    (sha256_hex : Text → Text) (c d : Container) (es gs : Entries) (o : Options)
    (limits : ByteLimits) (q r : Sealed)
    → FieldsReordered (detached_entries es) (detached_entries gs)
    → canonicalize_with_options sha256_hex (record_input c es) o limits ≡ ok q
    → canonicalize_with_options sha256_hex (record_input d gs) o limits ≡ ok r
    → (q.content_id ≡ r.content_id) × (q.canonical_json ≡ r.canonical_json)
canonicalize-Reordered sha256_hex c d es gs o limits q r h e k =
    let a = canonicalize-IsSealed sha256_hex (record_input c es) o limits q e in
    let b = canonicalize-IsSealed sha256_hex (record_input d gs) o limits r k in
    let left : a.body ≡ without o.spec.id_field (detached_entries es) =
      a.is_body.value
      ∙ ap (λ x. without o.spec.id_field (detached_entries x))
          (input_entries a.is_body.is_record) in
    let right : b.body ≡ without o.spec.id_field (detached_entries gs) =
      b.is_body.value
      ∙ ap (λ x. without o.spec.id_field (detached_entries x))
          (input_entries b.is_body.is_record) in
    let (ids, texts) = sealed_reordered sha256_hex o.spec (without-Reordered o.spec.id_field h) in
    rw (← a.result, ← b.result, left, right) (ids, texts)
