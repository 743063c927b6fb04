-- ===== src/Store/Bisect.antt =====
-- The binary searches of src/in-memory-store.ts (`insertRecordedId`, `firstRecordedAfter`): the loop
-- on `low` and `high`, with the test that moves `low` up. Each round makes the gap smaller, so
-- `high - low` rounds are enough.
use attunegraph.Common.{
  ℕ, zero, suc, ◌+◌, ◌-◌, ◌/◌, ◌≤◌, ◌<◌, ◌≡◌, Bool, true, false, ltb, if◌then◌else◌, arith,
  Bool-cases, inl, inr, leb, leb→le, leb-false→lt, ltb→lt,
}

unfoldable pub bisect : (ℕ → Bool) → ℕ → ℕ → ℕ → ℕ
bisect goes_right zero low high = low
bisect goes_right (suc fuel) low high =
    let middle = (low + high) / 2 in
    let upper = bisect goes_right fuel (middle + 1) high in
    let lower = bisect goes_right fuel low middle in
    if ltb low high then (if goes_right middle then upper else lower) else low

not_ltb : (a b : ℕ) → ltb a b ≡ false → b ≤ a
not_ltb a b h = ground arith

-- The test holds of no place behind one where it fails.
abbrev pub IsFalling : (ℕ → Bool) → ℕ → Type 0
IsFalling test n = (i j : ℕ) → i ≤ j → j < n → test j ≡ true → test i ≡ true

-- The place is the border: the test holds below it, and fails from there on.
pub record IsBorder (test : ℕ → Bool) (low high r : ℕ) : Type 0 where
  pub from : low ≤ r
  pub to : r ≤ high
  pub below : (i : ℕ) → low ≤ i → i < r → test i ≡ true
  pub above : (i : ℕ) → r ≤ i → i < high → test i ≡ false

module _ (test : ℕ → Bool) (n : ℕ) (falling : IsFalling test n) where
  fails_above : (i j : ℕ) → i ≤ j → j < n → test i ≡ false → test j ≡ false
  fails_above i j h k f = elim (Bool-cases (test j)) [
    | inl t ↦ ground (arith, falling i j h k t)
    | inr t ↦ t
  ]

  upper-IsBorder :
      (low high mid r : ℕ)
      → low ≤ mid
      → mid < high
      → high ≤ n
      → test mid ≡ true
      → IsBorder test (mid + 1) high r
      → IsBorder test low high r
  upper-IsBorder low high mid r h k l t b = record {
    from = omega (arith, b.from);
    to = b.to;
    below = λ i p q. elim (Bool-cases (leb i mid)) [
      | inl e ↦ falling i mid (leb→le i mid e) (omega arith) t
      | inr e ↦ b.below i (omega (arith, leb-false→lt i mid e)) q
    ];
    above = λ i p q. b.above i p q;
  }

  lower-IsBorder :
      (low high mid r : ℕ)
      → mid < high
      → high ≤ n
      → test mid ≡ false
      → IsBorder test low mid r
      → IsBorder test low high r
  lower-IsBorder low high mid r k l t b = record {
    from = b.from;
    to = omega (arith, b.to);
    below = λ i p q. b.below i p q;
    above = λ i p q. elim (Bool-cases (leb mid i)) [
      | inl e ↦ fails_above mid i (leb→le mid i e) (omega arith) t
      | inr e ↦ b.above i p (leb-false→lt mid i e)
    ];
  }

  -- Where the test holds of a first part of the places only, and the fuel is the width of the gap at
  -- least, the loop returns the border between the places that pass and those that fail.
  pub bisect-IsBorder :
      (fuel low high : ℕ)
      → low ≤ high
      → high ≤ n
      → high - low ≤ fuel
      → IsBorder test low high (bisect test fuel low high)
  unfolding bisect
  bisect-IsBorder zero low high h k f = record {
    from = omega arith;
    to = omega arith;
    below = λ i a b. absurd (omega arith);
    above = λ i a b. absurd (omega arith);
  }
  bisect-IsBorder (suc fuel) low high h k f = elim (Bool-cases (ltb low high)) [
    | inr e ↦ rw e (record {
      from = omega arith;
      to = omega arith;
      below = λ i a b. absurd (omega arith);
      above = λ i a b. absurd (omega (arith, leb-false→lt, not_ltb low high e));
    })
    | inl e ↦
        let open_gap = ltb→lt low high e in
        let mid = (low + high) / 2 in
        elim (Bool-cases (test mid)) [
          | inl t ↦
              rw (e, t)
                (upper-IsBorder low high mid _ (omega arith) (omega arith) k t
                  (bisect-IsBorder fuel (mid + 1) high (omega arith) k (omega arith)))
          | inr t ↦
              rw (e, t)
                (lower-IsBorder low high mid _ (omega arith) k t
                  (bisect-IsBorder fuel low mid (omega arith) (omega arith) (omega arith)))
        ]
  ]
