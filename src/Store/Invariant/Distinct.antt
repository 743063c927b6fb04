-- ===== src/Store/Invariant/Distinct.antt =====
-- Sorting repeats no key and loses none.
use attunegraph.Common.{
  ◌≡◌, refl, Bool, true, ◌&&◌, ◌||◌, not, List, [], ◌∷◌, map, Text, arith, text_eq, text_eq_iff,
  Sign, sort, sort_onto, insert_by,
}
use attunegraph.Common.Sets.{has, is_distinct}

module _ {A : Type 0} (f : A → Text) (cmp : A → A → Sign) where
  has-insert_by :
      (k : Text) (x : A) (l : List A)
      → has k (map f (insert_by cmp x l)) ≡ (text_eq (f x) k || has k (map f l))
  unfolding has insert_by
  has-insert_by k x [] = refl
  has-insert_by k x (y ∷ l) = ground (arith, has-insert_by k x l)

  is_distinct-insert_by :
      (x : A) (l : List A)
      → is_distinct (map f (insert_by cmp x l))
        ≡ (not (has (f x) (map f l)) && is_distinct (map f l))
  unfolding is_distinct has insert_by
  is_distinct-insert_by x [] = refl
  is_distinct-insert_by x (y ∷ l) = ground (
    arith,
    is_distinct-insert_by x l,
    has-insert_by (f y) x l,
    text_eq_iff (f x) (f y),
    text_eq_iff (f y) (f x),
  )

  -- No key of the one list is a key of the other.
  abbrev apart : List A → List Text → Bool
  apart [] ks = true
  apart (x ∷ xs) ks = not (has (f x) ks) && apart xs ks

  apart-insert_by :
      (xs : List A) (x : A) (l : List A)
      → apart xs (map f (insert_by cmp x l)) ≡ (not (has (f x) (map f xs)) && apart xs (map f l))
  unfolding has
  apart-insert_by [] x l = refl
  apart-insert_by (y ∷ xs) x l = ground (
    arith,
    apart-insert_by xs x l,
    has-insert_by (f y) x l,
    text_eq_iff (f x) (f y),
    text_eq_iff (f y) (f x),
  )

  is_distinct-sort_onto :
      (s xs : List A)
      → is_distinct (map f s) ≡ true
      → is_distinct (map f xs) ≡ true
      → apart xs (map f s) ≡ true
      → is_distinct (map f (sort_onto cmp s xs)) ≡ true
  unfolding sort_onto is_distinct
  is_distinct-sort_onto s [] hs hx h = hs
  is_distinct-sort_onto s (x ∷ xs) hs hx h =
      is_distinct-sort_onto (insert_by cmp x s) xs (ground (arith, is_distinct-insert_by x s))
        (ground arith) (ground (arith, apart-insert_by xs x s))

  apart-nil : (xs : List A) → apart xs [] ≡ true
  unfolding has
  apart-nil [] = refl
  apart-nil (x ∷ xs) = ground (arith, apart-nil xs)

  pub is_distinct-sort :
      (xs : List A) → is_distinct (map f xs) ≡ true → is_distinct (map f (sort cmp xs)) ≡ true
  unfolding sort
  is_distinct-sort xs h = is_distinct-sort_onto [] xs (unfold is_distinct in refl) h (apart-nil xs)
