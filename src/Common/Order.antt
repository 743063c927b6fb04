-- ===== src/Common/Order.antt =====
-- Comparators that are consistent, and the stable sort by one of them.
use mathlib.Core.Path.{◌≡◌, refl, ap, sym, ◌∙◌}
use mathlib.Core.Logic.{inl, inr}
use mathlib.Core.Bool.{Bool, true, false}
use mathlib.Core.Option.{some}
use mathlib.Core.List.{List, [], ◌∷◌, ◌++◌, append-nil, append_assoc}
use Prim.Native.Nat.{ℕ, zero, suc, ◌≤◌, ◌<◌}
use native.Mathlib.Omega.{arith}
use attunegraph.Common.Tests.{Sign, before, same, after, not_after, if◌then◌else◌, Bool-cases}
use attunegraph.Common.Lists.{
  All, All-get_elem?, length, take, drop, get_elem?, select, insert_by, sort, sort_onto,
}

abbrev pub flip : Sign → Sign
flip before = after
flip same = same
flip after = before

-- What the language asks of the argument of `sort`.
pub record IsOrder {ℓ} {A : Type ℓ} (cmp : A → A → Sign) : Type ℓ where
  pub flips : (a b : A) → cmp b a ≡ flip (cmp a b)
  pub trans :
      (a b c : A)
      → not_after (cmp a b) ≡ true
      → not_after (cmp b c) ≡ true
      → not_after (cmp a c) ≡ true

module _ {ℓ} {A : Type ℓ} (cmp : A → A → Sign) where
  -- Each item comes not after those behind it.
  abbrev pub IsSorted : List A → Type 0
  IsSorted [] = Unit
  IsSorted (x ∷ xs) = All (λ y. not_after (cmp x y) ≡ true) xs × IsSorted xs

  -- An item goes in front of the items that come after it.
  insert_front :
      (x : A) (l : List A) → All (λ z. not_after (cmp z x) ≡ false) l → insert_by cmp x l ≡ x ∷ l
  unfolding insert_by
  insert_front x [] h = refl
  insert_front x (z ∷ l) h = rw (h.0)

  -- Insertion at the place that the tests of a binary search describe.
  pub insert_at :
      (x : A) (l : List A) (low : ℕ)
      → low ≤ length l
      → ((i : ℕ) (y : A) → i < low → get_elem? l i ≡ some y → not_after (cmp y x) ≡ true)
      → ((i : ℕ) (y : A) → low ≤ i → get_elem? l i ≡ some y → not_after (cmp y x) ≡ false)
      → take low l ++ x ∷ drop low l ≡ insert_by cmp x l
  unfolding insert_by
  insert_at x [] zero h p q = refl
  insert_at x [] (suc low) h p q = absurd (omega arith)
  insert_at x (y ∷ l) zero h p q = rw (q 0 y (omega arith) refl)
  insert_at x (y ∷ l) (suc low) h p q = rw (p 0 y (omega arith) refl) (
      ap (λ t. y ∷ t)
        (insert_at x l low (omega arith) (λ i z k e. p (suc i) z (omega arith) e)
          (λ i z k e. q (suc i) z (omega arith) e)))

  sort_onto-concat :
      (s xs : List A) (x : A)
      → sort_onto cmp s (xs ++ x ∷ []) ≡ insert_by cmp x (sort_onto cmp s xs)
  unfolding sort_onto
  sort_onto-concat s [] x = refl
  sort_onto-concat s (y ∷ xs) x = sort_onto-concat (insert_by cmp y s) xs x

  module _ {κ} (P : A → Type κ) where
    All-insert_by : (x : A) (l : List A) → P x → All P l → All P (insert_by cmp x l)
    unfolding insert_by
    All-insert_by x [] px h = (px, tt)
    All-insert_by x (y ∷ l) px h = elim (Bool-cases (not_after (cmp y x))) [
      | inl e ↦ rw e (h.0, All-insert_by x l px h.1)
      | inr e ↦ rw e (px, h)
    ]

    All-sort_onto : (s xs : List A) → All P s → All P xs → All P (sort_onto cmp s xs)
    unfolding sort_onto
    All-sort_onto s [] hs hx = hs
    All-sort_onto s (x ∷ xs) hs hx =
        All-sort_onto (insert_by cmp x s) xs (All-insert_by x s hx.0 hs) hx.1

    pub All-sort : (xs : List A) → All P xs → All P (sort cmp xs)
    unfolding sort
    All-sort xs h = All-sort_onto [] xs tt h

  module _ (order : IsOrder cmp) where
    above_front :
        (x y : A) (l : List A)
        → not_after (cmp y x) ≡ false
        → All (λ z. not_after (cmp y z) ≡ true) l
        → All (λ z. not_after (cmp z x) ≡ false) l
    above_front x y [] h a = tt
    above_front x y (z ∷ l) h a = (
      elim (Bool-cases (not_after (cmp z x))) [
        | inl e ↦ ground (arith, order.trans y z x a.0 e)
        | inr e ↦ e
      ],
      above_front x y l h a.1,
    )

    All-trans :
        (x y : A) (l : List A)
        → not_after (cmp x y) ≡ true
        → All (λ z. not_after (cmp y z) ≡ true) l
        → All (λ z. not_after (cmp x z) ≡ true) l
    All-trans x y [] e h = tt
    All-trans x y (z ∷ l) e h = (order.trans x y z e h.0, All-trans x y l e h.1)

    IsSorted-insert_by : (x : A) (l : List A) → IsSorted l → IsSorted (insert_by cmp x l)
    unfolding insert_by
    IsSorted-insert_by x [] h = (tt, tt)
    IsSorted-insert_by x (y ∷ l) h = elim (Bool-cases (not_after (cmp y x))) [
      | inl e ↦
          rw e
            (All-insert_by (λ z. not_after (cmp y z) ≡ true) x l e h.0, IsSorted-insert_by x l h.1)
      | inr e ↦
          let le : not_after (cmp x y) ≡ true = ground (arith, order.flips y x) in
          rw e ((le, All-trans x y l le h.0), h)
    ]

    IsSorted-sort_onto : (s xs : List A) → IsSorted s → IsSorted (sort_onto cmp s xs)
    unfolding sort_onto
    IsSorted-sort_onto s [] h = h
    IsSorted-sort_onto s (x ∷ xs) h =
        IsSorted-sort_onto (insert_by cmp x s) xs (IsSorted-insert_by x s h)

    pub sort-IsSorted : (xs : List A) → IsSorted (sort cmp xs)
    unfolding sort
    sort-IsSorted xs = IsSorted-sort_onto [] xs tt

    All-select : (p : A → Bool) (P : A → Type 0) (l : List A) → All P l → All P (select p l)
    All-select p P [] h = tt
    All-select p P (x ∷ l) h = elim (Bool-cases (p x)) [
      | inl e ↦ rw e (h.0, All-select p P l h.1)
      | inr e ↦ rw e (All-select p P l h.1)
    ]

    select-insert_by :
        (p : A → Bool) (x : A) (l : List A)
        → IsSorted l
        → select p (insert_by cmp x l) ≡ (if p x then insert_by cmp x (select p l) else select p l)
    unfolding insert_by
    select-insert_by p x [] h = refl
    select-insert_by p x (y ∷ l) h = elim (Bool-cases (not_after (cmp y x))) [
      | inl e ↦ ground (arith, select-insert_by p x l h.1)
      | inr e ↦
          let front = insert_front x (select p (y ∷ l)) (
            All-select p (λ z. not_after (cmp z x) ≡ false) (y ∷ l) (e, above_front x y l e h.0)) in
          rw e (elim (Bool-cases (p x)) [ inl t ↦ rw t (sym front) | inr t ↦ rw t ])
    ]

    select-sort_onto :
        (p : A → Bool) (s xs : List A)
        → IsSorted s
        → select p (sort_onto cmp s xs) ≡ sort_onto cmp (select p s) (select p xs)
    unfolding sort_onto
    select-sort_onto p s [] h = refl
    select-sort_onto p s (x ∷ xs) h =
        let ih = select-sort_onto p (insert_by cmp x s) xs (IsSorted-insert_by x s h) in
        let step = select-insert_by p x s h in
        elim (Bool-cases (p x)) [
          | inl t ↦ rw t (ih ∙ ap (λ l. sort_onto cmp l (select p xs)) (rw t at step))
          | inr t ↦ rw t (ih ∙ ap (λ l. sort_onto cmp l (select p xs)) (rw t at step))
        ]

    -- Taking items out commutes with sorting.
    pub select-sort : (p : A → Bool) (xs : List A) → select p (sort cmp xs) ≡ sort cmp (select p xs)
    unfolding sort
    select-sort p xs = select-sort_onto p [] xs tt

  -- The sort inserts its last item last.
  pub sort-concat : (xs : List A) (x : A) → sort cmp (xs ++ x ∷ []) ≡ insert_by cmp x (sort cmp xs)
  unfolding sort
  sort-concat xs x = sort_onto-concat [] xs x

  pub IsSorted-get_elem? :
      (l : List A) (i j : ℕ) (x y : A)
      → IsSorted l
      → i < j
      → get_elem? l i ≡ some x
      → get_elem? l j ≡ some y
      → not_after (cmp x y) ≡ true
  IsSorted-get_elem? [] i j x y h lt p q = absurd (cc)
  IsSorted-get_elem? (z ∷ l) i zero x y h lt p q = absurd (omega arith)
  IsSorted-get_elem? (z ∷ l) zero (suc j) x y h lt p q =
      let same : z ≡ x = cc in
      rw (← same) (All-get_elem? (λ w. not_after (cmp z w) ≡ true) l j y h.0 q)
  IsSorted-get_elem? (z ∷ l) (suc i) (suc j) x y h lt p q =
      IsSorted-get_elem? l i j x y h.1 (omega arith) p q

  insert_last :
      (x : A) (l : List A)
      → All (λ z. not_after (cmp z x) ≡ true) l
      → insert_by cmp x l ≡ l ++ x ∷ []
  unfolding insert_by
  insert_last x [] h = refl
  insert_last x (z ∷ l) h = rw (h.0) (ap (λ t. z ∷ t) (insert_last x l h.1))

  All-before :
      (s : List A) (x : A) (xs : List A)
      → IsSorted (s ++ x ∷ xs)
      → All (λ z. not_after (cmp z x) ≡ true) s
  All-before [] x xs h = tt
  All-before (y ∷ s) x xs h = (last_of s h.0, All-before s x xs h.1)
    where
      last_of :
          (s : List A)
          → All (λ z. not_after (cmp y z) ≡ true) (s ++ x ∷ xs)
          → not_after (cmp y x) ≡ true
      last_of [] k = k.0
      last_of (z ∷ s) k = last_of s k.1

  sort_onto-sorted : (s xs : List A) → IsSorted (s ++ xs) → sort_onto cmp s xs ≡ s ++ xs
  unfolding sort_onto
  sort_onto-sorted s [] h = sym (append-nil s)
  sort_onto-sorted s (x ∷ xs) h =
      let step = insert_last x s (All-before s x xs h) in
      rw step (
        sort_onto-sorted (s ++ x ∷ []) xs (rw (append_assoc s (x ∷ []) xs) h)
        ∙ append_assoc s (x ∷ []) xs)

  -- What is sorted stays as it is.
  pub sort-sorted : (xs : List A) → IsSorted xs → sort cmp xs ≡ xs
  unfolding sort
  sort-sorted xs h = sort_onto-sorted [] xs h
