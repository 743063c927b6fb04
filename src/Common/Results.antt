-- ===== src/Common/Results.antt =====
-- Exceptions as values.
use mathlib.Core.Path.{◌≡◌, refl}
use mathlib.Core.Bool.{Bool, true, false}
use mathlib.Core.Logic.{◌⊎◌, inl, inr}

pub data Result {ℓ} (E : Type 0) (A : Type ℓ) : Type ℓ where
  ok : A → Result E A
  err : E → Result E A

infixl 5 ◌>>=◌ ◌>>◌
abbrev pub ◌>>=◌ {ℓ κ} :
    {E : Type 0} {A : Type ℓ} {B : Type κ} → Result E A → (A → Result E B) → Result E B
err thrown >>= f = err thrown
ok value >>= f = f value

abbrev pub ◌>>◌ {ℓ} : {E : Type 0} {B : Type ℓ} → Result E (Unit {0}) → Result E B → Result E B
first >> rest = first >>= λ done. rest

-- `if (!test) throw e`
abbrev pub guard : {E : Type 0} → Bool → E → Result E (Unit {0})
guard false thrown = err thrown
guard true thrown = ok tt

-- A chain that gives a value has a first step that does.
pub >>=-eq-ok {ℓ κ} :
    {E : Type 0} {A : Type ℓ} {B : Type κ} (first : Result E A) (rest : A → Result E B) {last : B}
    → (first >>= rest) ≡ ok last
    → (value : A) × (first ≡ ok value) × (rest value ≡ ok last)
>>=-eq-ok (err thrown) rest h = cc
>>=-eq-ok (ok value) rest h = (value, refl, h)

-- A test in front of a chain that gives a value holds.
pub guard-eq-ok {ℓ} :
    {E : Type 0} {B : Type ℓ} (test : Bool) (thrown : E) (rest : Result E B) {last : B}
    → (guard test thrown >> rest) ≡ ok last
    → (test ≡ true) × (rest ≡ ok last)
guard-eq-ok false thrown rest h = cc
guard-eq-ok true thrown rest h = (refl, h)

pub ok-pair {ℓ κ} :
    {E : Type 0} {A : Type ℓ} {B : Type κ} {a a' : A} {b b' : B}
    → Path (Result E (A × B)) (ok (a, b)) (ok (a', b'))
    → (a ≡ a') × (b ≡ b')
ok-pair h = (cc, cc)

pub Result-cases {ℓ} :
    {E : Type 0} {A : Type ℓ} (r : Result E A)
    → ((e : E) × (r ≡ err e)) ⊎ ((value : A) × (r ≡ ok value))
Result-cases (err e) = inl (e, refl)
Result-cases (ok value) = inr (value, refl)
