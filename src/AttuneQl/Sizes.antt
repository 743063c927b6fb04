-- ===== src/AttuneQl/Sizes.antt =====
-- How long the JSON texts of accepted strings and numbers are.
use attunegraph.Common.{
  ltb-false→le, ℕ, zero, suc, ◌+◌, ◌*◌, ◌/◌, ◌%◌, ◌≤◌, ◌<◌, ◌≡◌, Bool, true, false, ◌&&◌, not, [],
  ◌∷◌, ltb, leb, if◌then◌else◌, Text, arith, length, length-append, any, Bool-cases, inl, inr,
  leb→le, ltb→lt,
}
use attunegraph.Json.{is_high, is_low, starts_low, quote, quote_unit, quote_units}
use attunegraph.Json.Print.{decimal_onto, number}
use attunegraph.Json.Sizes.{digit_count, digits_of, digits_of_small, digits_of_large}
use attunegraph.Validation.{safe_text, characters, is_control, max_id_characters}
use attunegraph.Decision.{is_paired, is_well_formed_unicode, bounded_text, max_safe_integer}

length-decimal_onto :
    (fuel n : ℕ) (rest : Text)
    → length (decimal_onto fuel n rest) ≡ digit_count fuel n + length rest
unfolding decimal_onto digit_count
length-decimal_onto zero n rest = omega arith
length-decimal_onto (suc fuel) n rest = elim (Bool-cases (ltb n 10)) [
  | inl small ↦ rw small (omega arith)
  | inr large ↦ rw large (omega (arith, length-decimal_onto fuel (n / 10) ((b'0' + n % 10) ∷ rest)))
]

-- Ten to one more than the exponent.
power_of_ten : ℕ → ℕ
power_of_ten zero = 10
power_of_ten (suc k) = 10 * power_of_ten k

digits_of_below : (k n : ℕ) → n < power_of_ten k → digits_of n ≤ suc k
unfolding power_of_ten
digits_of_below zero n h = omega (arith, digits_of_small n h)
digits_of_below (suc k) n h = elim (Bool-cases (ltb n 10)) [
  | inl small ↦ omega (arith, digits_of_small n (ltb→lt n 10 small))
  | inr large ↦ omega (
    arith,
    digits_of_large n (ltb-false→le n 10 large),
    digits_of_below k (n / 10) (omega (arith, h)),
  )
]

digits_of_safe : (n : ℕ) → n ≤ max_safe_integer → digits_of n ≤ 16
unfolding power_of_ten
digits_of_safe n h = digits_of_below 15 n (omega (arith, h))

pub length-number : (n : ℕ) → n ≤ max_safe_integer → length (number n) ≤ 16
unfolding number digits_of
length-number n h = omega (arith, length-decimal_onto n n [], digits_of_safe n h)

-- A unit that is no control character and no lone surrogate is escaped as two units at most, and
-- not at all where it belongs to a pair.
quote_unit_short :
    (p : Bool) (c : ℕ) (q : Bool)
    → is_control c ≡ false
    → is_low c ≡ false
    → is_high c ≡ false
    → length (quote_unit p c q) ≤ 2
unfolding quote_unit is_control
quote_unit_short p c q control low high = ground (arith, control, low, high)

quote_unit_high : (p : Bool) (c : ℕ) → is_high c ≡ true → length (quote_unit p c true) ≤ 1
unfolding quote_unit is_high is_low
quote_unit_high p c high = ground (arith, high)

quote_unit_low : (c : ℕ) (q : Bool) → is_low c ≡ true → length (quote_unit true c q) ≤ 1
unfolding quote_unit is_high is_low
quote_unit_low c q low = ground (arith, low)

is_high-is_low : (c : ℕ) → is_high c ≡ true → is_low c ≡ false
unfolding is_high is_low
is_high-is_low c high = ground (arith, high)

low-is_high : (c : ℕ) → is_low c ≡ true → is_high c ≡ false
unfolding is_high is_low
low-is_high c low = ground (arith, low)

paired-starts_low : (s : Text) → is_paired true s ≡ true → starts_low s ≡ true
unfolding is_paired starts_low
paired-starts_low [] h = h
paired-starts_low (c ∷ s) h = ground arith

-- Two units for each character are enough.
quote_units_short :
    (p : Bool) (s : Text)
    → is_paired p s ≡ true
    → any is_control s ≡ false
    → length (quote_units p s) ≤ 2 * characters p s + (if p then 1 else 0)
unfolding is_paired characters quote_units
quote_units_short p [] paired control = omega arith
quote_units_short true (c ∷ s) paired control =
    let low : is_low c ≡ true = ground arith in
    let paired' : is_paired false s ≡ true = ground arith in
    let single = low-is_high c low in
    rw (single, low)
      (omega (
        arith,
        length-append (quote_unit true c (starts_low s)) (quote_units false s),
        quote_unit_low c (starts_low s) low,
        quote_units_short false s paired' (ground arith),
      ))
quote_units_short false (c ∷ s) paired control = elim (Bool-cases (is_high c)) [
  | inl high ↦
      let paired' : is_paired true s ≡ true = let h = rw high at paired in h in
      rw (high, paired-starts_low s paired')
        (omega (
          arith,
          length-append (quote_unit false c true) (quote_units true s),
          quote_unit_high false c high,
          quote_units_short true s paired' (ground arith),
        ))
  | inr single ↦
      let rest : (not (is_low c) && is_paired false s) ≡ true = let h = rw single at paired in h in
      rw single (
        omega (
          arith,
          length-append (quote_unit false c (starts_low s)) (quote_units false s),
          quote_unit_short false c (starts_low s) (ground arith) (ground arith) single,
          quote_units_short false s (ground arith) (ground arith),
        ))
]

-- An accepted string is printed in 1,026 units at most.
pub length-quote : (s : Text) → bounded_text s ≡ true → length (quote s) ≤ 1_026
unfolding bounded_text safe_text is_well_formed_unicode quote
length-quote s h =
    let few : leb (characters false s) max_id_characters ≡ true = ground (arith, h) in
    let paired : is_paired false s ≡ true = ground (arith, h) in
    let control : any is_control s ≡ false = ground (arith, h) in
    omega (
      arith,
      leb→le (characters false s) max_id_characters few,
      length-append (quote_units false s) (b'"' ∷ []),
      quote_units_short false s paired control,
    )
