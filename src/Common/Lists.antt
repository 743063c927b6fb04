-- ===== src/Common/Lists.antt =====
-- Lists measured and indexed by native numbers, Boolean quantifiers, and the stable sort of
-- `Array.prototype.sort`.
use Prim.Native.Nat.{ℕ, zero, suc, ◌+◌, ◌≤◌, ◌<◌}
use mathlib.Core.Path.{◌≡◌, refl, ap}
use mathlib.Core.Bool.{Bool, true, false, ◌&&◌, ◌||◌}
use mathlib.Core.Option.{Option, none, some}
use mathlib.Core.List.{List, [], ◌∷◌, ◌++◌, map}
use native.Mathlib.Omega.{arith}
use attunegraph.Common.Tests.{if◌then◌else◌, Sign, not_after}

module _ {ℓ} {A : Type ℓ} where
  abbrev pub length : List A → ℕ
  length [] = 0
  length (x ∷ xs) = suc (length xs)

  abbrev pub get_elem? : List A → ℕ → Option A
  get_elem? [] i = none
  get_elem? (x ∷ xs) zero = some x
  get_elem? (x ∷ xs) (suc i) = get_elem? xs i

  abbrev pub take : ℕ → List A → List A
  take zero xs = []
  take (suc n) [] = []
  take (suc n) (x ∷ xs) = x ∷ take n xs

  abbrev pub drop : ℕ → List A → List A
  drop zero xs = xs
  drop (suc n) [] = []
  drop (suc n) (x ∷ xs) = drop n xs

  abbrev pub any : (A → Bool) → List A → Bool
  any p [] = false
  any p (x ∷ xs) = p x || any p xs

  abbrev pub all : (A → Bool) → List A → Bool
  all p [] = true
  all p (x ∷ xs) = p x && all p xs

  -- `Array.prototype.filter` with a test.
  abbrev pub select : (A → Bool) → List A → List A
  select p [] = []
  select p (x ∷ xs) = let rest = select p xs in if p x then x ∷ rest else rest

  -- Insertion behind the items that compare as equal, which makes the sort stable.
  unfoldable pub insert_by : (A → A → Sign) → A → List A → List A
  insert_by cmp x [] = x ∷ []
  insert_by cmp x (y ∷ ys) = if not_after (cmp y x) then y ∷ insert_by cmp x ys else x ∷ y ∷ ys

  unfoldable pub sort_onto : (A → A → Sign) → List A → List A → List A
  sort_onto cmp sorted [] = sorted
  sort_onto cmp sorted (x ∷ xs) = sort_onto cmp (insert_by cmp x sorted) xs

  -- `xs.sort(cmp)`
  unfoldable pub sort : (A → A → Sign) → List A → List A
  unfolding insert_by sort_onto
  sort cmp xs = sort_onto cmp [] xs

  pub length-append : (xs ys : List A) → length (xs ++ ys) ≡ length xs + length ys
  length-append [] ys = omega arith
  length-append (x ∷ xs) ys = omega (arith, length-append xs ys)

  pub any-append : (p : A → Bool) (xs ys : List A) → any p (xs ++ ys) ≡ (any p xs || any p ys)
  any-append p [] ys = refl
  any-append p (x ∷ xs) ys = ground (arith, any-append p xs ys)

  pub all-append : (p : A → Bool) (xs ys : List A) → all p (xs ++ ys) ≡ (all p xs && all p ys)
  all-append p [] ys = refl
  all-append p (x ∷ xs) ys = ground (arith, all-append p xs ys)

  pub take-append-drop : (n : ℕ) (xs : List A) → take n xs ++ drop n xs ≡ xs
  take-append-drop zero xs = refl
  take-append-drop (suc n) [] = refl
  take-append-drop (suc n) (x ∷ xs) = ap (λ l. x ∷ l) (take-append-drop n xs)

  any-insert_by :
      (p : A → Bool) (cmp : A → A → Sign) (x : A) (ys : List A)
      → any p (insert_by cmp x ys) ≡ (p x || any p ys)
  unfolding insert_by
  any-insert_by p cmp x [] = refl
  any-insert_by p cmp x (y ∷ ys) = ground (arith, any-insert_by p cmp x ys)

  any-sort_onto :
      (p : A → Bool) (cmp : A → A → Sign) (s xs : List A)
      → any p (sort_onto cmp s xs) ≡ (any p s || any p xs)
  unfolding sort_onto
  any-sort_onto p cmp s [] = ground arith
  any-sort_onto p cmp s (x ∷ xs) =
      ground (arith, any-sort_onto p cmp (insert_by cmp x s) xs, any-insert_by p cmp x s)

  pub any-sort : (p : A → Bool) (cmp : A → A → Sign) (xs : List A) → any p (sort cmp xs) ≡ any p xs
  unfolding sort
  any-sort p cmp xs = any-sort_onto p cmp [] xs

  length-insert_by :
      (cmp : A → A → Sign) (x : A) (ys : List A) → length (insert_by cmp x ys) ≡ suc (length ys)
  unfolding insert_by
  length-insert_by cmp x [] = refl
  length-insert_by cmp x (y ∷ ys) = ground (arith, length-insert_by cmp x ys)

  length-sort_onto :
      (cmp : A → A → Sign) (s xs : List A) → length (sort_onto cmp s xs) ≡ length s + length xs
  unfolding sort_onto
  length-sort_onto cmp s [] = omega arith
  length-sort_onto cmp s (x ∷ xs) =
      omega (arith, length-sort_onto cmp (insert_by cmp x s) xs, length-insert_by cmp x s)

  pub length-sort : (cmp : A → A → Sign) (xs : List A) → length (sort cmp xs) ≡ length xs
  unfolding sort
  length-sort cmp xs = omega (arith, length-sort_onto cmp [] xs)

  pub length-select : (p : A → Bool) (xs : List A) → length (select p xs) ≤ length xs
  length-select p [] = omega arith
  length-select p (x ∷ xs) = ground (arith, length-select p xs)

module _ {ℓ κ} {A : Type ℓ} where
  abbrev pub All : (A → Type κ) → List A → Type κ
  All P [] = Unit
  All P (x ∷ xs) = P x × All P xs

  pub All-append : (P : A → Type κ) (xs ys : List A) → All P xs → All P ys → All P (xs ++ ys)
  All-append P [] ys hx hy = hy
  All-append P (x ∷ xs) ys hx hy = (hx.0, All-append P xs ys hx.1 hy)

  pub All-map : (P Q : A → Type κ) → ((x : A) → P x → Q x) → (xs : List A) → All P xs → All Q xs
  All-map P Q f [] h = tt
  All-map P Q f (x ∷ xs) h = (f x h.0, All-map P Q f xs h.1)

  pub All-of : (P : A → Type κ) → ((x : A) → P x) → (xs : List A) → All P xs
  All-of P h [] = tt
  All-of P h (x ∷ xs) = (h x, All-of P h xs)

module _ {ℓ} {A : Type ℓ} where
  pub get_elem?-of_lt : (xs : List A) (i : ℕ) → i < length xs → (x : A) × (get_elem? xs i ≡ some x)
  get_elem?-of_lt [] i h = elim h [ ]
  get_elem?-of_lt (x ∷ xs) zero h = (x, refl)
  get_elem?-of_lt (x ∷ xs) (suc i) h = get_elem?-of_lt xs i (omega arith)

  pub lt-of_get_elem? : (xs : List A) (i : ℕ) (x : A) → get_elem? xs i ≡ some x → i < length xs
  lt-of_get_elem? [] i x h = cc
  lt-of_get_elem? (y ∷ xs) zero x h = omega arith
  lt-of_get_elem? (y ∷ xs) (suc i) x h = omega (arith, lt-of_get_elem? xs i x h)

  pub All-get_elem? {κ} :
      (P : A → Type κ) (xs : List A) (i : ℕ) (x : A) → All P xs → get_elem? xs i ≡ some x → P x
  All-get_elem? P [] i x h e = absurd (cc)
  All-get_elem? P (y ∷ xs) zero x h e = let same : y ≡ x = cc in rw (← same) (h.0)
  All-get_elem? P (y ∷ xs) (suc i) x h e = All-get_elem? P xs i x h.1 e

module _ {ℓ κ} {A : Type ℓ} {B : Type κ} (f : A → B) where
  pub length-map : (xs : List A) → length (map f xs) ≡ length xs
  length-map [] = refl
  length-map (x ∷ xs) = ap suc (length-map xs)

  pub get_elem?-map :
      (xs : List A) (i : ℕ) (x : A) → get_elem? xs i ≡ some x → get_elem? (map f xs) i ≡ some (f x)
  get_elem?-map [] i x h = absurd (cc)
  get_elem?-map (y ∷ xs) zero x h = ground arith
  get_elem?-map (y ∷ xs) (suc i) x h = get_elem?-map xs i x h

  pub take-map : (n : ℕ) (xs : List A) → take n (map f xs) ≡ map f (take n xs)
  take-map zero xs = refl
  take-map (suc n) [] = refl
  take-map (suc n) (x ∷ xs) = ap (λ l. f x ∷ l) (take-map n xs)

  pub drop-map : (n : ℕ) (xs : List A) → drop n (map f xs) ≡ map f (drop n xs)
  drop-map zero xs = refl
  drop-map (suc n) [] = refl
  drop-map (suc n) (x ∷ xs) = drop-map n xs
