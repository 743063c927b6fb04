-- ===== src/Common/Sets.antt =====
-- `Set<string>`: its members in insertion order.
use mathlib.Core.Path.{◌≡◌, refl}
use mathlib.Core.Bool.{Bool, true, false, ◌&&◌, ◌||◌, not}
use mathlib.Core.List.{List, [], ◌∷◌, ◌++◌}
use Prim.Native.Nat.{◌≤◌, ◌<◌, ◌+◌}
use native.Mathlib.Omega.{arith}
use attunegraph.Common.Tests.{if◌then◌else◌}
use attunegraph.Common.Lists.{length, length-append}
use attunegraph.Common.Texts.{Text, text_eq, text_eq_iff, text_eq_refl}

-- `set.has(x)`
unfoldable pub has : Text → List Text → Bool
has x [] = false
has x (y ∷ s) = text_eq y x || has x s

-- `set.add(x)`
unfoldable pub add : Text → List Text → List Text
unfolding has
add x s = if has x s then s else s ++ x ∷ []

-- `set.delete(x)`
unfoldable pub delete : Text → List Text → List Text
delete x [] = []
delete x (y ∷ s) = let rest = delete x s in if text_eq y x then rest else y ∷ rest

-- `new Set(xs)`, onto a set.
unfoldable pub add_all : List Text → List Text → List Text
unfolding add
add_all [] s = s
add_all (x ∷ xs) s = add_all xs (add x s)

pub has-append : (x : Text) (s t : List Text) → has x (s ++ t) ≡ (has x s || has x t)
unfolding has
has-append x [] t = refl
has-append x (y ∷ s) t = ground (arith, has-append x s t)

pub has-add : (x y : Text) (s : List Text) → has y (add x s) ≡ (text_eq x y || has y s)
unfolding has add
has-add x y s = ground (arith, has-append y s (x ∷ []), text_eq_iff x y)

pub has-delete : (x y : Text) (s : List Text) → has y (delete x s) ≡ (not (text_eq x y) && has y s)
unfolding has delete
has-delete x y [] = ground arith
has-delete x y (z ∷ s) =
    ground (arith, has-delete x y s, text_eq_iff z x, text_eq_iff z y, text_eq_iff x y)

pub has-add_all : (x : Text) (xs s : List Text) → has x (add_all xs s) ≡ (has x xs || has x s)
unfolding has add_all
has-add_all x [] s = refl
has-add_all x (y ∷ xs) s = ground (arith, has-add_all x xs (add y s), has-add y x s)

-- No member stands twice.
unfoldable pub is_distinct : List Text → Bool
is_distinct [] = true
is_distinct (x ∷ s) = not (has x s) && is_distinct s

pub is_distinct-concat :
    (x : Text) (s : List Text) → is_distinct (s ++ x ∷ []) ≡ (not (has x s) && is_distinct s)
unfolding is_distinct has
is_distinct-concat x [] = refl
is_distinct-concat x (y ∷ s) =
    ground
      (arith, is_distinct-concat x s, has-append y s (x ∷ []), text_eq_iff y x, text_eq_iff x y)

pub is_distinct-add :
    (x : Text) (s : List Text) → is_distinct s ≡ true → is_distinct (add x s) ≡ true
unfolding add
is_distinct-add x s h = ground (arith, is_distinct-concat x s)

pub is_distinct-delete :
    (x : Text) (s : List Text) → is_distinct s ≡ true → is_distinct (delete x s) ≡ true
unfolding is_distinct delete
is_distinct-delete x [] h = refl
is_distinct-delete x (y ∷ s) h = ground (arith, is_distinct-delete x s, has-delete x y s)

pub is_distinct-add_all :
    (xs s : List Text) → is_distinct s ≡ true → is_distinct (add_all xs s) ≡ true
unfolding add_all
is_distinct-add_all [] s h = h
is_distinct-add_all (x ∷ xs) s h = is_distinct-add_all xs (add x s) (is_distinct-add x s h)

-- What is not there is not deleted.
pub delete_absent : (x : Text) (s : List Text) → has x s ≡ false → delete x s ≡ s
unfolding has delete
delete_absent x [] h = refl
delete_absent x (y ∷ s) h = ground (arith, delete_absent x s)

pub length-add-le : (x : Text) (s : List Text) → length (add x s) ≤ length s + 1
unfolding add
length-add-le x s = ground (arith, length-append s (x ∷ []))

pub length-delete :
    (x : Text) (s : List Text)
    → is_distinct s ≡ true
    → has x s ≡ true
    → length (delete x s) + 1 ≡ length s
unfolding has delete is_distinct
length-delete x [] d h = ground arith
length-delete x (y ∷ s) d h = ground (arith, length-delete x s, delete_absent x s, text_eq_iff y x)

length-delete-le : (x : Text) (s : List Text) → length (delete x s) ≤ length s
unfolding delete
length-delete-le x [] = omega arith
length-delete-le x (y ∷ s) = ground (arith, length-delete-le x s)

length-delete-lt : (x : Text) (s : List Text) → has x s ≡ true → length (delete x s) < length s
unfolding has delete
length-delete-lt x [] h = ground arith
length-delete-lt x (y ∷ s) h = ground (arith, length-delete-lt x s, length-delete-le x s)

-- A set of distinct members that all lie in `t` has at most as many as `t`.
pub length-subset :
    (s t : List Text)
    → is_distinct s ≡ true
    → ((x : Text) → has x s ≡ true → has x t ≡ true)
    → length s ≤ length t
unfolding has is_distinct
length-subset [] t d h = omega arith
length-subset (x ∷ s) t d h =
    let inside : has x t ≡ true = h x (ground (arith, text_eq_refl x)) in
    let fewer =
      length-subset s (delete x t) (ground arith)
        (λ y m. rw (has-delete x y t) (ground (arith, h y, text_eq_iff x y))) in
    omega (arith, length-delete-lt x t inside)
