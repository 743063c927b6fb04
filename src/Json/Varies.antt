-- ===== src/Json/Varies.antt =====
-- Two JSON texts that differ in one number only: their lengths differ as the numbers' digits do.
use attunegraph.Common.{
  ℕ, zero, suc, ◌+◌, ◌/◌, ◌%◌, ◌<◌, ◌≡◌, refl, ap, sym, ◌∙◌, Bool, false, List, [], ◌∷◌, ◌++◌, ltb,
  Text, codes, arith, Bool-cases, inl, inr, ltb→lt,
}
use mathlib.Core.List.{append_assoc, append-nil}
use attunegraph.Json.{is_high, is_low, starts_low, quote}
use attunegraph.Json.Print.{
  decimal_onto, number, more_fields, object, unit_bytes, byte_length_from, byte_length,
}
use attunegraph.Json.Sizes.{digit_count, digits_of}

decimal_onto-append :
    (fuel n : ℕ) (s rest : Text) → decimal_onto fuel n s ++ rest ≡ decimal_onto fuel n (s ++ rest)
unfolding decimal_onto
decimal_onto-append zero n s rest = refl
decimal_onto-append (suc fuel) n s rest = elim (Bool-cases (ltb n 10)) [
  | inl small ↦ rw small
  | inr large ↦ rw large (decimal_onto-append fuel (n / 10) ((b'0' + n % 10) ∷ s) rest)
]

starts_low-decimal_onto : (fuel n : ℕ) (rest : Text) → starts_low (decimal_onto fuel n rest) ≡ false
unfolding decimal_onto starts_low is_low
starts_low-decimal_onto zero n rest = ground arith
starts_low-decimal_onto (suc fuel) n rest =
    ground (arith, starts_low-decimal_onto fuel (n / 10) ((b'0' + n % 10) ∷ rest))

byte_length-digit :
    (q : Bool) (c : ℕ) (rest : Text)
    → c < 128
    → byte_length_from q (c ∷ rest) ≡ suc (byte_length_from false rest)
unfolding byte_length_from unit_bytes is_high
byte_length-digit q c rest h = ground arith

byte_length-decimal_onto :
    (fuel n : ℕ) (q : Bool) (rest : Text)
    → byte_length_from q (decimal_onto fuel n rest)
      ≡ digit_count fuel n + byte_length_from false rest
unfolding decimal_onto digit_count
byte_length-decimal_onto zero n q rest =
    omega (arith, byte_length-digit q (b'0' + n % 10) rest (omega arith))
byte_length-decimal_onto (suc fuel) n q rest = elim (Bool-cases (ltb n 10)) [
  | inl small ↦
      rw small
        (omega (arith, byte_length-digit q (b'0' + n) rest (omega (arith, ltb→lt n 10 small))))
  | inr large ↦ rw large (
      omega (
        arith,
        byte_length-decimal_onto fuel (n / 10) q ((b'0' + n % 10) ∷ rest),
        byte_length-digit false (b'0' + n % 10) rest (omega arith),
      ))
]

-- The lengths differ as `k` and `m` do, whatever stands in front.
pub record Differ (k m : ℕ) (s t : Text) : Type 0 where
  pub low : starts_low s ≡ starts_low t
  pub bytes : (q : Bool) → byte_length_from q s + m ≡ byte_length_from q t + k

-- The same, whatever follows too.
abbrev pub Varies : ℕ → ℕ → Text → Text → Type 0
Varies k m s t = (rest : Text) → Differ k m (s ++ rest) (t ++ rest)

module _ (k m : ℕ) where
  Differ-cons : (c : ℕ) (s t : Text) → Differ k m s t → Differ k m (c ∷ s) (c ∷ t)
  unfolding byte_length_from starts_low
  Differ-cons c s t h = record {
    low = refl;
    bytes = λ q. rw (h.low) (omega (arith, h.bytes (is_high c)));
  }

  Differ-prefix : (x s t : Text) → Differ k m s t → Differ k m (x ++ s) (x ++ t)
  Differ-prefix [] s t h = h
  Differ-prefix (c ∷ x) s t h = Differ-cons c (x ++ s) (x ++ t) (Differ-prefix x s t h)

  -- A text in front of what varies, and one behind it.
  Varies-prefix : (x s t : Text) → Varies k m s t → Varies k m (x ++ s) (x ++ t)
  Varies-prefix x s t h rest =
      rw (append_assoc x s rest, append_assoc x t rest)
        (Differ-prefix x (s ++ rest) (t ++ rest) (h rest))

  Varies-cons : (c : ℕ) (s t : Text) → Varies k m s t → Varies k m (c ∷ s) (c ∷ t)
  Varies-cons c s t h rest = Differ-cons c (s ++ rest) (t ++ rest) (h rest)

  Varies-suffix : (s t y : Text) → Varies k m s t → Varies k m (s ++ y) (t ++ y)
  Varies-suffix s t y h rest = rw (append_assoc s y rest, append_assoc t y rest) (h (y ++ rest))

  more_fields-Varies :
      (fields : List (Text × Text)) (name v w : Text)
      → Varies k m v w
      → Varies k m (more_fields (fields ++ (name, v) ∷ [])) (more_fields (fields ++ (name, w) ∷ []))
  unfolding more_fields
  more_fields-Varies [] name v w h = Varies-cons b',' _ _ (
      Varies-prefix (quote name) (b':' ∷ (v ++ codes "}")) (b':' ∷ (w ++ codes "}"))
        (Varies-cons b':' _ _ (Varies-suffix v w (codes "}") h)))
  more_fields-Varies ((n, u) ∷ fields) name v w h = Varies-cons b',' _ _ (
      Varies-prefix (quote n) _ _
        (Varies-cons b':' _ _ (Varies-prefix u _ _ (more_fields-Varies fields name v w h))))

  -- An object whose last field varies, behind another field.
  pub object-Varies :
      (first : Text × Text) (fields : List (Text × Text)) (name v w : Text)
      → Varies k m v w
      → Varies k m
          (object (first ∷ fields ++ (name, v) ∷ []))
          (object (first ∷ fields ++ (name, w) ∷ []))
  unfolding object
  object-Varies (n, u) fields name v w h = Varies-cons b'{' _ _ (
      Varies-prefix (quote n) _ _
        (Varies-cons b':' _ _ (Varies-prefix u _ _ (more_fields-Varies fields name v w h))))

  pub byte_length-Varies : (s t : Text) → Varies k m s t → byte_length s + m ≡ byte_length t + k
  unfolding byte_length
  byte_length-Varies s t h =
      let d = h [] in
      ap (λ x. byte_length_from false x + m) (sym (append-nil s))
      ∙ d.bytes false
      ∙ ap (λ x. byte_length_from false x + k) (append-nil t)

-- A number varies as its digits do.
pub number-Varies : (n m : ℕ) → Varies (digits_of n) (digits_of m) (number n) (number m)
unfolding number digits_of
number-Varies n m rest =
    rw (decimal_onto-append n n [] rest, decimal_onto-append m m [] rest)
      (record {
        low = starts_low-decimal_onto n n rest ∙ sym (starts_low-decimal_onto m m rest);
        bytes = λ q.
            omega (arith, byte_length-decimal_onto n n q rest, byte_length-decimal_onto m m q rest);
      })
