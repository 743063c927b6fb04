-- ===== src/Envelope/Measure.antt =====
-- Proofs about the loop of `validateAndChargeString` of src/canonical-immutable-envelope.ts.
use attunegraph.Common.{
  ℕ, ◌+◌, ◌<◌, ◌≡◌, refl, ◌∙◌, Bool, true, false, ◌&&◌, not, none, some, [], ◌∷◌, leb,
  if◌then◌else◌, Text, arith, length, Bool-cases, inl, inr,
}
use attunegraph.Json.{is_high, is_low, starts_low}
use attunegraph.Json.Print.{unit_bytes, byte_length_from, byte_length}
use attunegraph.Decision.{is_paired}
use attunegraph.Envelope.Charges.{count_bytes, more}
use attunegraph.Envelope.Paired.{IsAscii}

-- What the loop adds for the first unit of a pair is added at the second.
abbrev owed : Bool → ℕ
owed true = 2
owed false = 0

starts_low-of_paired : (s : Text) → is_paired true s ≡ true → starts_low s ≡ true
unfolding is_paired starts_low
starts_low-of_paired [] h = ground arith
starts_low-of_paired (c ∷ s) h = ground arith

high_range : (c : ℕ) → is_high c ≡ true → (0x7ff < c) × (is_low c ≡ false)
unfolding is_high is_low
high_range c h = (ground arith, ground arith)

low_range : (c : ℕ) → is_low c ≡ true → 0x7ff < c
unfolding is_low
low_range c h = ground arith

not_high : (c : ℕ) → is_low c ≡ true → is_high c ≡ false
unfolding is_low is_high
not_high c h = ground arith

-- A unit that is no first one of a pair, in front of what has been measured.
single :
    (c : ℕ) (q paired : Bool) (m : ℕ)
    → is_high c ≡ false
    → (if leb c 0x7f
        then more 1 (if paired then some (owed false + m) else none)
        else if leb c 0x7ff
        then more 2 (if paired then some (owed false + m) else none)
        else if false
        then none
        else if is_low c
        then none
        else more 3 (if paired then some (owed false + m) else none))
      ≡ (if not (is_low c) && paired then some (owed false + (unit_bytes false c q + m)) else none)
unfolding unit_bytes
single c q true m h = ground (arith, low_range c)
single c q false m h = ground (arith, low_range c)

first_of_pair :
    (c : ℕ) (q paired : Bool) (m : ℕ)
    → is_high c ≡ true
    → (paired ≡ true → q ≡ true)
    → (if leb c 0x7f
        then more 1 (if paired then some (owed true + m) else none)
        else if leb c 0x7ff
        then more 2 (if paired then some (owed true + m) else none)
        else if true
        then (if paired then some (owed true + m) else none)
        else if is_low c
        then none
        else more 3 (if paired then some (owed true + m) else none))
      ≡ (if paired then some (owed false + (unit_bytes false c q + m)) else none)
unfolding unit_bytes
first_of_pair c q true m h k = ground (arith, (high_range c h).0, k refl)
first_of_pair c q false m h k = ground (arith, (high_range c h).0)

second_of_pair :
    (c : ℕ) (q paired : Bool) (m : ℕ)
    → is_low c ≡ true
    → more 4 (if paired then some (owed false + m) else none)
      ≡ (if paired then some (owed true + (unit_bytes true c q + m)) else none)
unfolding unit_bytes
second_of_pair c q true m h = ground (arith, low_range c h, high_range c)
second_of_pair c q false m h = refl

measure :
    (p : Bool) (s : Text)
    → count_bytes p s ≡ (if is_paired p s then some (owed p + byte_length_from p s) else none)
unfolding count_bytes is_paired byte_length_from
measure false [] = refl
measure true [] = refl
measure true (c ∷ s) = elim (Bool-cases (is_low c)) [
  | inl low ↦
      rw (low, measure false s, not_high c low)
        (second_of_pair c (starts_low s) (is_paired false s) (byte_length_from false s) low)
  | inr other ↦ rw other
]
measure false (c ∷ s) = elim (Bool-cases (is_high c)) [
  | inl high ↦
      rw (high, measure true s)
        (first_of_pair c (starts_low s) (is_paired true s) (byte_length_from true s) high
          (starts_low-of_paired s))
  | inr other ↦
      rw (other, measure false s)
        (single c (starts_low s) (is_paired false s) (byte_length_from false s) other)
]

-- The loop of the inspection gives the number of bytes of a string whose surrogates are paired, and
-- nothing for any other string.
pub count_bytes_lem :
    (s : Text) → count_bytes false s ≡ (if is_paired false s then some (byte_length s) else none)
unfolding byte_length
count_bytes_lem s = measure false s ∙ ground arith

pub count_bytes-ascii : (s : Text) → IsAscii s → count_bytes false s ≡ some (length s)
unfolding count_bytes is_high
count_bytes-ascii [] h = refl
count_bytes-ascii (c ∷ s) h = ground (arith, count_bytes-ascii s h.1, h.0)
