-- ===== src/Envelope/Paired.antt =====
-- Lemmas on texts in which each surrogate has its partner: their lengths in UTF-8, and what
-- `JSON.stringify` prints.
use attunegraph.Common.{
  ℕ, ◌+◌, ◌/◌, ◌%◌, ◌<◌, ◌≡◌, refl, sym, ap, ◌∙◌, ◌≤◌, Bool, true, false, ◌&&◌, [], ◌∷◌, ◌++◌, ltb,
  Text, All, arith, Bool-cases, inl, inr, ltb→lt, ltb-false→le,
}
use mathlib.Core.List.{append-nil, append_assoc}
use attunegraph.Json.{is_high, is_low, starts_low, hex_digit, hex4, quote_unit, quote_units, quote}
use attunegraph.Json.Print.{unit_bytes, byte_length_from, byte_length}
use attunegraph.Decision.{is_paired}

abbrev pub IsPaired : Text → Type 0
IsPaired s = is_paired false s ≡ true

abbrev pub IsAscii : Text → Type 0
IsAscii s = All (λ c. c < 128) s

paired_append :
    (p : Bool) (s t : Text)
    → is_paired p s ≡ true
    → is_paired false t ≡ true
    → is_paired p (s ++ t) ≡ true
unfolding is_paired is_high is_low
paired_append false [] t h k = k
paired_append true [] t h k = absurd (ground arith)
paired_append true (c ∷ s) t h k = ground (arith, paired_append false s t)
paired_append false (c ∷ s) t h k = ground (arith, paired_append (is_high c) s t)

pub IsPaired-append : (s t : Text) → IsPaired s → IsPaired t → IsPaired (s ++ t)
IsPaired-append s t = paired_append false s t

bytes_append :
    (p : Bool) (s t : Text)
    → is_paired p s ≡ true
    → byte_length_from p (s ++ t) ≡ byte_length_from p s + byte_length_from false t
unfolding is_paired byte_length_from unit_bytes starts_low is_high is_low
bytes_append false [] t h = omega arith
bytes_append true [] t h = absurd (ground arith)
bytes_append true (c ∷ []) t h = ground arith
bytes_append false (c ∷ []) t h = ground arith
bytes_append true (c ∷ d ∷ s) t h = ground (arith, bytes_append (is_high c) (d ∷ s) t)
bytes_append false (c ∷ d ∷ s) t h = ground (arith, bytes_append (is_high c) (d ∷ s) t)

pub byte_length-append :
    (s t : Text) → IsPaired s → byte_length (s ++ t) ≡ byte_length s + byte_length t
unfolding byte_length
byte_length-append s t h = bytes_append false s t h

paired_ascii : (s t : Text) → IsAscii s → is_paired false (s ++ t) ≡ is_paired false t
unfolding is_paired is_high is_low
paired_ascii [] t h = refl
paired_ascii (c ∷ s) t h = ground (arith, paired_ascii s t h.1, h.0)

pub IsAscii-IsPaired : (s : Text) → IsAscii s → IsPaired s
unfolding is_paired
IsAscii-IsPaired s h = ap (is_paired false) (sym (append-nil s)) ∙ paired_ascii s [] h

hex_digit-lt : (d : ℕ) → d < 16 → hex_digit d < 128
unfolding hex_digit
hex_digit-lt d h = ground arith

hex4-IsAscii : (c : ℕ) → IsAscii (hex4 c)
hex4-IsAscii c = (
  hex_digit-lt (c / 4096 % 16) (omega arith),
  (
    hex_digit-lt (c / 256 % 16) (omega arith),
    (hex_digit-lt (c / 16 % 16) (omega arith), (hex_digit-lt (c % 16) (omega arith), tt)),
  ),
)

-- Behind an escape the reading goes on as behind a whole character.
paired_hex4 : (c : ℕ) (t : Text) → is_paired false (92 ∷ b'u' ∷ (hex4 c ++ t)) ≡ is_paired false t
paired_hex4 c t = paired_ascii (92 ∷ b'u' ∷ hex4 c) t (omega arith, (omega arith, hex4-IsAscii c))

quote_unit-IsAscii : (p : Bool) (c : ℕ) (q : Bool) → c < 128 → IsAscii (quote_unit p c q)
unfolding quote_unit is_high is_low
quote_unit-IsAscii p c q h = ground (arith, hex4-IsAscii c)

narrow_unit :
    (p : Bool) (c : ℕ) (q : Bool) (t : Text)
    → c < 128
    → is_paired (p && is_low c) (quote_unit p c q ++ t) ≡ is_paired (is_high c && q) t
unfolding is_low is_high
narrow_unit p c q t h =
    ground (arith, paired_ascii (quote_unit p c q) t (quote_unit-IsAscii p c q h))

wide_unit :
    (p : Bool) (c : ℕ) (q : Bool) (t : Text)
    → 128 ≤ c
    → is_paired (p && is_low c) (quote_unit p c q ++ t) ≡ is_paired (is_high c && q) t
unfolding quote_unit is_paired is_low is_high
wide_unit p c q t h = ground (arith, paired_hex4 c t)

-- What is printed for one unit is read as the unit is.
paired_quote_unit :
    (p : Bool) (c : ℕ) (q : Bool) (t : Text)
    → is_paired (p && is_low c) (quote_unit p c q ++ t) ≡ is_paired (is_high c && q) t
paired_quote_unit p c q t = elim (Bool-cases (ltb c 128)) [
  | inl small ↦ narrow_unit p c q t (ltb→lt c 128 small)
  | inr large ↦ wide_unit p c q t (ltb-false→le c 128 large)
]

paired_quote_units :
    (p : Bool) (s : Text) → is_paired (p && starts_low s) (quote_units p s ++ b'"' ∷ []) ≡ true
unfolding quote_units starts_low is_paired is_high is_low
paired_quote_units true [] = refl
paired_quote_units false [] = refl
paired_quote_units p (c ∷ s) =
    let tail = quote_units (is_high c) s in
    rw (append_assoc (quote_unit p c (starts_low s)) tail (b'"' ∷ []))
      (paired_quote_unit p c (starts_low s) (tail ++ b'"' ∷ []) ∙ paired_quote_units (is_high c) s)

pub quote-IsPaired : (s : Text) → IsPaired (quote s)
unfolding quote is_paired is_high is_low
quote-IsPaired s = paired_quote_units false s
