-- ===== src/Envelope/Sealing.antt =====
-- Proofs about the sealing of a body in src/canonical-immutable-envelope.ts.
use attunegraph.Common.{
  ℕ, suc, ◌≤◌, ◌≡◌, refl, sym, ◌∙◌, Bool, true, false, Option, none, some, [], ◌∷◌, ◌++◌, ltb,
  if◌then◌else◌, Text, text_eq, arith, Bool-cases, inl, inr, ok, err, ◌>>◌, >>=-eq-ok, ltb-false→le,
}
use attunegraph.Json.Print.{byte_length}
use attunegraph.Envelope.Values.{Value, string_value, record_value, Fields, Input, define_field}
use attunegraph.Envelope.Contract.{
  EnvelopeError, BudgetAxis, failure, exceeded, integrity_mismatch, integrity, content_id_mismatch,
  encode, Spec, ByteLimits, bounded_path, validate_contract, validate_byte_limits,
}
use attunegraph.Envelope.Charges.{Options}
use attunegraph.Envelope.Inspect.{inspect_envelope}
use attunegraph.Envelope.Encode.{Encoded, encode_canonical}
use attunegraph.Envelope.Canonical.{canonical}
use attunegraph.Envelope.Written.{encode_canonical_lem}
use attunegraph.Envelope.Root.{IsBody, inspect_envelope-IsBody}
use attunegraph.Envelope.{
  Sealed, matches_supplied, digest, content_id_of, seal_body, canonicalize_with_options,
}

-- An encoding that ends well is the canonical JSON, within the limit.
encoded :
    (limit : ℕ) (axis : BudgetAxis) (v : Value) (e : Encoded)
    → encode_canonical limit axis v ≡ ok e
    → (e ≡ record { json = canonical v; bytes = byte_length (canonical v) })
      × (byte_length (canonical v) ≤ limit)
encoded limit axis v e h =
    let full = sym (encode_canonical_lem limit axis v) ∙ h in
    elim (Bool-cases (ltb limit (byte_length (canonical v)))) [
      | inl over ↦
          let never : err (exceeded encode [] axis (suc limit) limit) ≡ ok e = rw over at full in
          absurd (cc)
      | inr within ↦
          let same : ok (record { json = canonical v; bytes = byte_length (canonical v) }) ≡ ok e =
            rw within at full in
          (cc, ltb-false→le limit (byte_length (canonical v)) within)
    ]

module _ (sha256_hex : Text → Text) where
  -- The envelope that a body gets.
  abbrev pub id_of : Spec → Fields → Text
  id_of spec body =
      spec.id_prefix ++ sha256_hex (spec.hash_domain ++ 0 ∷ canonical (record_value body))

  abbrev pub signed : Spec → Fields → Fields
  signed spec body = define_field body spec.id_field (string_value (id_of spec body))

  abbrev pub sealed : Spec → Fields → Sealed
  sealed spec body = record {
    envelope = signed spec body;
    canonical_json = canonical (record_value (signed spec body));
    canonical_byte_length = byte_length (canonical (record_value (signed spec body)));
    content_id = id_of spec body;
  }

  -- Whether the id that came with an input is another than that of its content.
  abbrev pub differs : Option Text → Text → Bool
  differs none id = false
  differs (some supplied) id = if text_eq supplied id then false else true

  matches_supplied_lem :
      (supplied : Option Text) (id : Text) (spec : Spec)
      → matches_supplied supplied id spec ≡ (
          if differs supplied id
          then err (
              failure integrity_mismatch integrity content_id_mismatch
                (bounded_path [] spec.id_field))
          else ok tt)
  unfolding matches_supplied
  matches_supplied_lem none id spec = refl
  matches_supplied_lem (some s) id spec = elim (Bool-cases (text_eq s id)) [
    | inl same ↦ rw same
    | inr other ↦ rw other
  ]

  -- The outcomes of the sealing of a body, in the order of its tests: the canonical JSON of the body
  -- is over its limit, that of the signed envelope is over its limit, the id that came with the body
  -- is not that of its content, or the sealed envelope.
  pub seal_body_lem :
      (spec : Spec) (limits : ByteLimits) (body : Fields) (supplied : Option Text)
      → seal_body sha256_hex spec limits (body, supplied) ≡ (
          if ltb limits.max_canonical_body_bytes (byte_length (canonical (record_value body)))
          then err (
              exceeded encode [] BudgetAxis.canonical_body_bytes
                (suc limits.max_canonical_body_bytes)
                limits.max_canonical_body_bytes)
          else if ltb limits.max_envelope_bytes
              (byte_length (canonical (record_value (signed spec body))))
          then err (
              exceeded encode [] BudgetAxis.full_envelope_bytes
                (suc limits.max_envelope_bytes)
                limits.max_envelope_bytes)
          else if differs supplied (id_of spec body)
          then err (
              failure integrity_mismatch integrity content_id_mismatch
                (bounded_path [] spec.id_field))
          else ok (sealed spec body))
  unfolding seal_body content_id_of digest
  seal_body_lem spec limits body supplied =
      let first =
        encode_canonical_lem limits.max_canonical_body_bytes BudgetAxis.canonical_body_bytes
          (record_value body) in
      let second =
        encode_canonical_lem limits.max_envelope_bytes BudgetAxis.full_envelope_bytes
          (record_value (signed spec body)) in
      let third = matches_supplied_lem supplied (id_of spec body) spec in
      elim (Bool-cases
        (ltb limits.max_canonical_body_bytes (byte_length (canonical (record_value body))))) [
          | inl long ↦ rw (first, long)
          | inr short ↦
              elim (Bool-cases (
                ltb limits.max_envelope_bytes
                  (byte_length (canonical (record_value (signed spec body)))))) [
                    | inl long ↦ rw (first, short, second, long)
                    | inr fine ↦ elim (Bool-cases (differs supplied (id_of spec body))) [
                      | inl other ↦ rw (first, short, second, fine, third, other)
                      | inr agrees ↦ rw (first, short, second, fine, third, agrees)
                    ]
                  ]
        ]

  -- What is known of an envelope that has been sealed.
  pub record IsSealed (o : Options) (limits : ByteLimits) (input : Input) (r : Sealed)
      : Type 0 where
    pub body : Fields
    pub supplied : Option Text
    pub done : Unit {0}
    pub contract_holds : validate_contract o.spec ≡ ok done
    pub limits_hold : validate_byte_limits limits ≡ ok done
    pub inspected : inspect_envelope o input ≡ ok (body, supplied)
    pub is_body : IsBody o.spec input body
    pub agrees : differs supplied (id_of o.spec body) ≡ false
    pub body_bytes : byte_length (canonical (record_value body)) ≤ limits.max_canonical_body_bytes
    pub bytes : r.canonical_byte_length ≤ limits.max_envelope_bytes
    pub result : sealed o.spec body ≡ r

  sealed_result :
      (spec : Spec) (limits : ByteLimits) (body : Fields) (supplied : Option Text) (r : Sealed)
      → seal_body sha256_hex spec limits (body, supplied) ≡ ok r
      → (byte_length (canonical (record_value body)) ≤ limits.max_canonical_body_bytes)
        × (byte_length (canonical (record_value (signed spec body))) ≤ limits.max_envelope_bytes)
        × (differs supplied (id_of spec body) ≡ false)
        × (sealed spec body ≡ r)
  sealed_result spec limits body supplied r h =
      outcome (byte_length (canonical (record_value body)))
        (byte_length (canonical (record_value (signed spec body))))
        (differs supplied (id_of spec body)) _ _ _ (sealed spec body)
        (sym (seal_body_lem spec limits body supplied) ∙ h)
    where
      outcome :
          (n m : ℕ) (d : Bool) (a b c : EnvelopeError) (x : Sealed)
          → (if ltb limits.max_canonical_body_bytes n
              then err a
              else if ltb limits.max_envelope_bytes m
              then err b
              else if d
              then err c
              else ok x)
            ≡ ok r
          → (n ≤ limits.max_canonical_body_bytes)
            × (m ≤ limits.max_envelope_bytes)
            × (d ≡ false)
            × (x ≡ r)
      outcome n m d a b c x h = (ground arith, ground arith, ground arith, ground arith)

  -- An envelope that is sealed comes of a contract and limits that are accepted and of an input that
  -- is a record; its fields are those of the input but the id field, which stands last and holds the
  -- prefix and the hash of the domain, a zero and the canonical JSON of the others; its JSON is the
  -- canonical JSON of all fields and its length that of this JSON in UTF-8, within the limit; and an
  -- id that came with the input is the same.
  pub canonicalize-IsSealed :
      (input : Input) (o : Options) (limits : ByteLimits) (r : Sealed)
      → canonicalize_with_options sha256_hex input o limits ≡ ok r
      → IsSealed o limits input r
  unfolding canonicalize_with_options
  canonicalize-IsSealed input o limits r h =
      let ((body, supplied), e, k) =
        >>=-eq-ok
          (validate_contract o.spec >> validate_byte_limits limits >> inspect_envelope o input)
          (seal_body sha256_hex o.spec limits) h in
      let (d1, e1, inspected) =
        >>=-eq-ok (validate_contract o.spec >> validate_byte_limits limits)
          (λ done. inspect_envelope o input) e in
      let (d2, contract_holds, limits_hold) =
        >>=-eq-ok (validate_contract o.spec) (λ done. validate_byte_limits limits) e1 in
      let (n, m, d, same) = sealed_result o.spec limits body supplied r k in
      record {
        body = body;
        supplied = supplied;
        done = tt;
        contract_holds = contract_holds;
        limits_hold = limits_hold;
        inspected = inspected;
        is_body = inspect_envelope-IsBody o input body supplied inspected;
        agrees = d;
        body_bytes = n;
        bytes = rw (← same) m;
        result = same;
      }
