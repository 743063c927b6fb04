-- ===== src/Envelope/Specs.antt =====
-- What a contract says of its texts, and the ids that are built of them.
use attunegraph.Common.{
  ℕ, ◌+◌, ◌≤◌, ◌<◌, ◌≡◌, refl, sym, ◌∙◌, Bool, true, false, ◌&&◌, ◌||◌, [], ◌∷◌, ◌++◌, ltb, leb,
  ◌==◌, all, All-append, length, length-append, drop, Text, arith, ok, guard, ◌>>◌, &&-eq-true,
  three_true, four_true, >>=-eq-ok, leb→le,
}
use attunegraph.Json.Print.{byte_length}
use attunegraph.Decision.{is_paired}
use attunegraph.Envelope.Contract.{
  EnvelopeError, Spec, max_string_code_units, max_string_bytes, is_letter, is_digit,
  matches_hash_domain, matches_id_field, matches_id_prefix, validate_contract, failure,
  invalid_contract, contract, invalid_hash_domain, invalid_id_field, max_id_field_bytes,
  max_id_prefix_bytes, max_hash_domain_bytes,
}
use attunegraph.Envelope.Charges.{starts_with, is_lower_hex, well_formed_content_id}
use attunegraph.Envelope.Paired.{IsAscii, IsAscii-IsPaired}
use attunegraph.Envelope.Measure.{count_bytes_lem, count_bytes-ascii}
use attunegraph.Envelope.Detached.{string_fits}

pub byte_length-ascii : (s : Text) → IsAscii s → byte_length s ≡ length s
byte_length-ascii s h =
    let e = count_bytes_lem s in
    let paired : is_paired false s ≡ true = IsAscii-IsPaired s h in
    let both = sym (count_bytes-ascii s h) ∙ (rw paired at e) in cc

pub string_fits-ascii : (s : Text) → IsAscii s → length s ≤ 16_384 → string_fits s ≡ true
unfolding string_fits
string_fits-ascii s h k =
    let paired : is_paired false s ≡ true = IsAscii-IsPaired s h in
    rw (paired, byte_length-ascii s h) (bounded (length s) k)
  where
    bounded :
        (n : ℕ)
        → n ≤ 16_384
        → (leb n max_string_code_units && true && leb n max_string_bytes) ≡ true
    bounded n k = ground arith

pub all-IsAscii :
    (p : ℕ → Bool) (s : Text) → ((c : ℕ) → p c ≡ true → c < 128) → all p s ≡ true → IsAscii s
all-IsAscii p [] h e = tt
all-IsAscii p (c ∷ s) h e =
    let (a, b) = &&-eq-true (p c) (all p s) e in (h c a, all-IsAscii p s h b)

-- What the contract says of the texts of a spec.
pub record IsSpec (spec : Spec) : Type 0 where
  pub field_ascii : IsAscii spec.id_field
  pub field_length : length spec.id_field ≤ 64
  pub prefix_ascii : IsAscii spec.id_prefix
  pub prefix_length : length spec.id_prefix ≤ 128

pub id_field-IsAscii : (s : Text) → matches_id_field s ≡ true → IsAscii s
unfolding matches_id_field is_letter is_digit
id_field-IsAscii [] h = tt
id_field-IsAscii (c ∷ s) h =
    let (a, b, k) =
      three_true (is_letter c || c == b'_') (all (λ d. is_letter d || is_digit d || d == b'_') s)
        (leb (length s) 63) h in
    (
      ground arith,
      all-IsAscii (λ d. is_letter d || is_digit d || d == b'_') s (λ d e. ground arith) b,
    )

pub id_prefix-IsAscii : (s : Text) → matches_id_prefix s ≡ true → IsAscii s
unfolding matches_id_prefix
id_prefix-IsAscii [] h = tt
id_prefix-IsAscii (c ∷ s) h =
    all-IsAscii (λ d. leb 32 d && leb d 126) (c ∷ s) (λ d e. ground arith) h

pub guard-passes :
    (test : Bool) (thrown : EnvelopeError) (done : Unit {0})
    → guard test thrown ≡ ok done
    → (test ≡ true) × (Unit {0})
guard-passes true thrown done h = (refl, tt)
guard-passes false thrown done h = absurd (cc)

pub validate_contract-IsSpec :
    (spec : Spec) (done : Unit {0}) → validate_contract spec ≡ ok done → IsSpec spec
unfolding validate_contract
validate_contract-IsSpec spec done h =
    let fieldish =
      leb (length spec.id_field) max_id_field_bytes
      && matches_id_field spec.id_field
      && byte_length spec.id_field == length spec.id_field in
    let prefixed =
      ltb 0 (length spec.id_prefix)
      && leb (length spec.id_prefix) max_id_prefix_bytes
      && matches_id_prefix spec.id_prefix
      && byte_length spec.id_prefix == length spec.id_prefix in
    let domained =
      ltb 0 (length spec.hash_domain)
      && leb (length spec.hash_domain) max_hash_domain_bytes
      && matches_hash_domain spec.hash_domain
      && byte_length spec.hash_domain == length spec.hash_domain in
    let (d1, e1, h1) =
      >>=-eq-ok
        (guard domained (failure invalid_contract contract invalid_hash_domain [])
          >> guard fieldish (failure invalid_contract contract invalid_id_field []))
        _ h in
    let (d2, e2, h2) =
      >>=-eq-ok (guard domained (failure invalid_contract contract invalid_hash_domain [])) _ e1 in
    let (f, kf) = guard-passes fieldish _ d1 h2 in
    let (p, kp) = guard-passes prefixed _ done h1 in
    let (fa, fb, fc) =
      three_true (leb (length spec.id_field) max_id_field_bytes) (matches_id_field spec.id_field)
        (byte_length spec.id_field == length spec.id_field) f in
    let (pa, pb, pc, pd) =
      four_true (ltb 0 (length spec.id_prefix)) (leb (length spec.id_prefix) max_id_prefix_bytes)
        (matches_id_prefix spec.id_prefix) (byte_length spec.id_prefix == length spec.id_prefix)
        p in
    record {
      field_ascii = id_field-IsAscii spec.id_field fb;
      field_length = leb→le (length spec.id_field) max_id_field_bytes fa;
      prefix_ascii = id_prefix-IsAscii spec.id_prefix pc;
      prefix_length = leb→le (length spec.id_prefix) max_id_prefix_bytes pb;
    }

-- SHA-256 in hexadecimal digits, as `digest("hex")` writes it.
pub record IsDigest (sha256_hex : Text → Text) : Type 0 where
  pub digits : (text : Text) → length (sha256_hex text) ≡ 64
  pub lower : (text : Text) → all is_lower_hex (sha256_hex text) ≡ true

pub starts_with-append : (s t : Text) → starts_with s (s ++ t) ≡ true
unfolding starts_with
starts_with-append [] t = refl
starts_with-append (c ∷ s) t = ground (arith, starts_with-append s t)

pub drop-append : (s t : Text) → drop (length s) (s ++ t) ≡ t
drop-append [] t = refl
drop-append (c ∷ s) t = drop-append s t

pub lower_lt : (c : ℕ) → is_lower_hex c ≡ true → c < 128
unfolding is_lower_hex
lower_lt c h = ground arith

-- The id of a content.
module _ (spec : Spec) (h : IsSpec spec) (hex : Text) (digits : length hex ≡ 64)
    (lower : all is_lower_hex hex ≡ true) where
  id-IsAscii : IsAscii (spec.id_prefix ++ hex)
  id-IsAscii =
      All-append (λ c. c < 128) spec.id_prefix hex h.prefix_ascii
        (all-IsAscii is_lower_hex hex lower_lt lower)

  id_length : length (spec.id_prefix ++ hex) ≡ length spec.id_prefix + 64
  id_length = omega (arith, length-append spec.id_prefix hex, digits)

  pub id_well_formed : well_formed_content_id (spec.id_prefix ++ hex) spec ≡ true
  unfolding well_formed_content_id
  id_well_formed =
      rw (starts_with-append spec.id_prefix hex, drop-append spec.id_prefix hex, lower, id_length)
        (ground arith)

  pub id_fits : string_fits (spec.id_prefix ++ hex) ≡ true
  id_fits =
      string_fits-ascii (spec.id_prefix ++ hex) id-IsAscii
        (omega (arith, id_length, h.prefix_length))

  pub id_bytes : byte_length (spec.id_prefix ++ hex) ≡ length spec.id_prefix + 64
  id_bytes = byte_length-ascii (spec.id_prefix ++ hex) id-IsAscii ∙ id_length
