-- ===== src/Common/Subsequences.antt =====
-- Lists that keep some items of a list, in their order.
use Prim.Native.Nat.{ℕ, zero, suc}
use mathlib.Core.List.{List, [], ◌∷◌, ◌++◌}
use attunegraph.Common.Lists.{take}

module _ {ℓ} {A : Type ℓ} where
  pub data IsSubsequence : List A → List A → Type ℓ where
    nil : IsSubsequence [] []
    skip : {xs ys : List A} (y : A) → IsSubsequence xs ys → IsSubsequence xs (y ∷ ys)
    keep : {xs ys : List A} (y : A) → IsSubsequence xs ys → IsSubsequence (y ∷ xs) (y ∷ ys)

  pub IsSubsequence-nil : (ys : List A) → IsSubsequence [] ys
  IsSubsequence-nil [] = nil
  IsSubsequence-nil (y ∷ ys) = skip y (IsSubsequence-nil ys)

  -- Items may follow in the longer list.
  pub IsSubsequence-append :
      {xs ys : List A} (zs : List A) → IsSubsequence xs ys → IsSubsequence xs (ys ++ zs)
  IsSubsequence-append zs nil = IsSubsequence-nil zs
  IsSubsequence-append zs (skip y h) = skip y (IsSubsequence-append zs h)
  IsSubsequence-append zs (keep y h) = keep y (IsSubsequence-append zs h)

  pub IsSubsequence-concat :
      {xs ys : List A} (z : A) → IsSubsequence xs ys → IsSubsequence (xs ++ z ∷ []) (ys ++ z ∷ [])
  IsSubsequence-concat z nil = keep z nil
  IsSubsequence-concat z (skip y h) = skip y (IsSubsequence-concat z h)
  IsSubsequence-concat z (keep y h) = keep y (IsSubsequence-concat z h)

  pub IsSubsequence-take :
      (n : ℕ) {xs ys : List A} → IsSubsequence xs ys → IsSubsequence (take n xs) ys
  IsSubsequence-take zero {ys = ys} h = IsSubsequence-nil ys
  IsSubsequence-take (suc n) nil = nil
  IsSubsequence-take (suc n) (skip y h) = skip y (IsSubsequence-take (suc n) h)
  IsSubsequence-take (suc n) (keep y h) = keep y (IsSubsequence-take n h)
