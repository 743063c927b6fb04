-- ===== src/Envelope.antt =====
-- src/canonical-immutable-envelope.ts
pub mod Values
pub mod Contract
pub mod Charges
pub mod Inspect
pub mod Paired
pub mod Encode
pub mod Canonical
pub mod Printed
pub mod Written
pub mod Measure
pub mod Reordered
pub mod Detached
pub mod Charged
pub mod Steps
pub mod Taken
pub mod RootFields
pub mod Root
pub mod Again
pub mod Specs
pub mod Signed
pub mod Sealing
pub mod Laws
mod Tests
use attunegraph.Common.{
  ℕ, true, false, Option, none, some, [], ◌∷◌, ◌++◌, text_eq, Text, Result, ok, err, guard, ◌>>=◌,
  ◌>>◌,
}
use attunegraph.Envelope.Values.{
  Value, string_value, record_value, Fields, Profile, external_mutable, attunegraph_frozen, Input,
  define_field,
}
use attunegraph.Envelope.Contract.{
  EnvelopeError, BudgetAxis, failure, integrity_mismatch, integrity, content_id_mismatch, Spec,
  ByteLimits, default_byte_limits, bounded_path, validate_contract, validate_byte_limits,
}
use attunegraph.Envelope.Inspect.{inspect_envelope}
use attunegraph.Envelope.Charges.{Options}
use attunegraph.Envelope.Encode.{Encoded, encode_canonical}

-- `CanonicalImmutableEnvelopeResult`, whose envelope is a record.
pub record Sealed : Type 0 where
  pub envelope : Fields
  pub canonical_json : Text
  pub canonical_byte_length : ℕ
  pub content_id : Text

-- The comparison of the id that came with the input.
unfoldable pub matches_supplied : Option Text → Text → Spec → Result EnvelopeError (Unit {0})
matches_supplied none content_id spec = ok tt
matches_supplied (some supplied) content_id spec =
    guard (text_eq supplied content_id)
      (failure integrity_mismatch integrity content_id_mismatch (bounded_path [] spec.id_field))

-- SHA-256 of a text in UTF-8, in hexadecimal digits.
module _ (sha256_hex : Text → Text) where
  -- The hash is updated with the domain, a zero and the canonical JSON.
  unfoldable pub digest : Text → Text → Text
  digest hash_domain unsigned_canonical_json =
      sha256_hex (hash_domain ++ 0 ∷ unsigned_canonical_json)

  unfoldable pub content_id_of : Spec → Text → Text
  unfolding digest
  content_id_of spec json = spec.id_prefix ++ digest spec.hash_domain json

  -- The envelope of an inspected body.
  unfoldable pub seal_body : Spec → ByteLimits → Fields × Option Text → Result EnvelopeError Sealed
  unfolding content_id_of matches_supplied
  seal_body spec limits (body, supplied) =
      encode_canonical (limits.max_canonical_body_bytes) BudgetAxis.canonical_body_bytes
        (record_value body)
      >>= λ unsigned.
          (let content_id = content_id_of spec unsigned.json in
            let signed = define_field body spec.id_field (string_value content_id) in
            encode_canonical (limits.max_envelope_bytes) BudgetAxis.full_envelope_bytes
              (record_value signed)
            >>= λ full.
                (matches_supplied supplied content_id spec
                  >> ok (record {
                    envelope = signed;
                    canonical_json = full.json;
                    canonical_byte_length = full.bytes;
                    content_id = content_id;
                  })))

  -- `canonicalizeImmutableEnvelopeWithInternalOptions`
  unfoldable pub canonicalize_with_options :
      Input → Options → ByteLimits → Result EnvelopeError Sealed
  unfolding seal_body
  canonicalize_with_options input o limits =
      validate_contract o.spec
      >> validate_byte_limits limits
      >> inspect_envelope o input
      >>= seal_body o.spec limits

  -- `canonicalizeImmutableEnvelopeForInternalUse`
  unfoldable pub canonicalize_for_internal_use :
      Input → Profile → Spec → ByteLimits → Result EnvelopeError Sealed
  unfolding canonicalize_with_options
  canonicalize_for_internal_use input profile spec limits =
      canonicalize_with_options input
        (record {
          profile = profile;
          spec = spec;
          allow_missing_frozen_root_id = false;
          allow_frozen_plain_record_prototype = false;
        })
        limits

  -- `canonicalizeImmutableEnvelope`
  unfoldable pub canonicalize_immutable_envelope :
      Input → Profile → Spec → Result EnvelopeError Sealed
  unfolding canonicalize_for_internal_use
  canonicalize_immutable_envelope input profile spec =
      canonicalize_for_internal_use input profile spec default_byte_limits

  -- How a frozen body without an id is inspected.
  abbrev pub unsigned_options : Spec → Options
  unsigned_options spec = record {
    profile = attunegraph_frozen;
    spec = spec;
    allow_missing_frozen_root_id = true;
    allow_frozen_plain_record_prototype = true;
  }

  -- `mintCanonicalImmutableEnvelopeFromFrozenUnsignedForInternalUse`
  unfoldable pub mint_from_frozen_unsigned : Input → Spec → ByteLimits → Result EnvelopeError Sealed
  unfolding canonicalize_with_options
  mint_from_frozen_unsigned input spec limits =
      canonicalize_with_options input (unsigned_options spec) limits

  -- `contentIdFromFrozenUnsignedForInternalUse`
  unfoldable pub content_id_from_frozen_unsigned : Input → Spec → Result EnvelopeError Text
  unfolding content_id_of
  content_id_from_frozen_unsigned input spec =
      validate_contract spec >> inspect_envelope (unsigned_options spec) input >>= λ inspected.
      (encode_canonical (default_byte_limits.max_canonical_body_bytes)
          BudgetAxis.canonical_body_bytes (record_value (inspected.0))
        >>= (λ unsigned. ok (content_id_of spec unsigned.json)))
