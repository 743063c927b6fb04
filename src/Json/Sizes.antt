-- ===== src/Json/Sizes.antt =====
-- How many digits a number has, and how the length of a JSON text depends on one number in it.
use attunegraph.Common.{
  ltb-false→le, ℕ, zero, suc, ◌+◌, ◌/◌, ◌≤◌, ◌<◌, ◌≡◌, refl, ap, ltb, if◌then◌else◌, arith,
  Bool-cases, inl, inr, ltb→lt,
}

-- The number of digits, with rounds as in `decimal_onto`.
unfoldable pub digit_count : ℕ → ℕ → ℕ
digit_count zero n = 1
digit_count (suc fuel) n = let more = digit_count fuel (n / 10) in if ltb n 10 then 1 else suc more

-- Rounds beyond the number change nothing.
pub digit_count_enough :
    (fuel fuel' n : ℕ) → n ≤ fuel → n ≤ fuel' → digit_count fuel n ≡ digit_count fuel' n
unfolding digit_count
digit_count_enough zero zero n h k = refl
digit_count_enough zero (suc fuel') n h k = ground (arith, h)
digit_count_enough (suc fuel) zero n h k = ground (arith, k)
digit_count_enough (suc fuel) (suc fuel') n h k = elim (Bool-cases (ltb n 10)) [
  | inl small ↦ rw small
  | inr large ↦
      let le = ltb-false→le n 10 large in
      rw large
        (ap suc (digit_count_enough fuel fuel' (n / 10) (omega (arith, le)) (omega (arith, le))))
]

unfoldable pub digits_of : ℕ → ℕ
digits_of n = digit_count n n

pub digits_of_small : (n : ℕ) → n < 10 → digits_of n ≡ 1
unfolding digits_of digit_count
digits_of_small zero h = refl
digits_of_small (suc n) h = ground arith

pub digits_of_large : (n : ℕ) → 10 ≤ n → digits_of n ≡ suc (digits_of (n / 10))
unfolding digits_of digit_count
digits_of_large zero h = absurd (omega arith)
digits_of_large (suc n) h =
    let same = digit_count_enough n (suc n / 10) (suc n / 10) (omega arith) (omega arith) in
    ground (arith, same)

digits_of_mono_below : (bound m n : ℕ) → n ≤ bound → m ≤ n → digits_of m ≤ digits_of n
digits_of_mono_below zero m n b h = let e : m ≡ n = omega arith in rw e (omega arith)
digits_of_mono_below (suc bound) m n b h = elim (Bool-cases (ltb n 10)) [
  | inl small ↦
      let lt = ltb→lt n 10 small in
      omega (arith, digits_of_small n lt, digits_of_small m (omega (arith, lt)))
  | inr large ↦
      let le = ltb-false→le n 10 large in
      let step = digits_of_large n le in
      elim (Bool-cases (ltb m 10)) [
        | inl small ↦ omega (arith, step, digits_of_small m (ltb→lt m 10 small))
        | inr large' ↦
            let le' = ltb-false→le m 10 large' in
            omega (
              arith,
              step,
              digits_of_large m le',
              digits_of_mono_below bound (m / 10) (n / 10) (omega (arith, le)) (omega arith),
            )
      ]
]

pub digits_of_mono : (m n : ℕ) → m ≤ n → digits_of m ≤ digits_of n
digits_of_mono m n h = digits_of_mono_below n m n (omega arith) h

-- Two more in the number give one digit more at most.
add_two_below : (bound n : ℕ) → n ≤ bound → digits_of (n + 2) ≤ digits_of n + 1
add_two_below zero n b = omega (arith, digits_of_small (n + 2) (omega arith))
add_two_below (suc bound) n b = elim (Bool-cases (ltb n 10)) [
  | inl small ↦
      let lt = ltb→lt n 10 small in
      omega (
        arith,
        digits_of_small n lt,
        digits_of_mono (n + 2) 99 (omega (arith, lt)),
        digits_of_large 99 (omega arith),
        digits_of_small 9 (omega arith),
      )
  | inr large ↦
      let le = ltb-false→le n 10 large in
      omega (
        arith,
        digits_of_large n le,
        digits_of_large (n + 2) (omega (arith, le)),
        add_two_below bound (n / 10) (omega (arith, le)),
        digits_of_mono ((n + 2) / 10) (n / 10 + 2) (omega arith),
      )
]

pub digits_of-add_two : (n : ℕ) → digits_of (n + 2) ≤ digits_of n + 1
digits_of-add_two n = add_two_below n n (omega arith)

pub digits_of_pos : (n : ℕ) → 0 < digits_of n
digits_of_pos n = elim (Bool-cases (ltb n 10)) [
  | inl small ↦ omega (arith, digits_of_small n (ltb→lt n 10 small))
  | inr large ↦ omega (arith, digits_of_large n (ltb-false→le n 10 large))
]

-- So does the number of its digits.
add_digits_below : (bound n : ℕ) → n ≤ bound → digits_of (n + digits_of n) ≤ digits_of n + 1
add_digits_below zero n b =
    let one = digits_of_small n (omega arith) in
    omega (
      arith,
      one,
      digits_of_mono (n + digits_of n) (n + 2) (omega (arith, one)),
      digits_of-add_two n,
    )
add_digits_below (suc bound) n b = elim (Bool-cases (ltb n 10)) [
  | inl small ↦
      let one = digits_of_small n (ltb→lt n 10 small) in
      omega (
        arith,
        one,
        digits_of_mono (n + digits_of n) (n + 2) (omega (arith, one)),
        digits_of-add_two n,
      )
  | inr large ↦
      let le = ltb-false→le n 10 large in
      let more = digits_of_large n le in
      let ih = add_digits_below bound (n / 10) (omega (arith, le)) in
      let pos = digits_of_pos (n / 10) in
      omega (
        arith,
        more,
        digits_of_large (n + digits_of n) (omega (arith, le)),
        ih,
        digits_of_mono ((n + digits_of n) / 10) (n / 10 + digits_of (n / 10))
            (omega (arith, more, pos)),
      )
]

pub digits_of-add_digits : (n : ℕ) → digits_of (n + digits_of n) ≤ digits_of n + 1
digits_of-add_digits n = add_digits_below n n (omega arith)
