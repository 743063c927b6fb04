-- ===== src/Common/Maps.antt =====
-- `Map<string, V>`: its entries in insertion order.
use mathlib.Core.Path.{◌≡◌, refl, ap}
use mathlib.Core.Bool.{Bool, true, false, ◌||◌}
use mathlib.Core.Option.{Option, none, some}
use mathlib.Core.Logic.{inl, inr}
use mathlib.Core.List.{List, [], ◌∷◌, ◌++◌}
use native.Mathlib.Omega.{arith}
use attunegraph.Common.Tests.{if◌then◌else◌, Bool-cases}
use attunegraph.Common.Lists.{length, all, All}
use attunegraph.Common.Sets
use attunegraph.Common.Texts.{Text, text_eq, text_eq_iff, text_eq_refl}

module _ {ℓ} {V : Type ℓ} where
  -- `map.get(k)`
  unfoldable pub get : Text → List (Text × V) → Option V
  get k [] = none
  get k ((j, v) ∷ m) = if text_eq j k then some v else get k m

  -- `map.set(k, v)`: a new key goes to the end, a known one keeps its place.
  unfoldable pub put : Text → V → List (Text × V) → List (Text × V)
  put k v [] = (k, v) ∷ []
  put k v ((j, w) ∷ m) = if text_eq j k then (j, v) ∷ m else (j, w) ∷ put k v m

  -- `map.delete(k)`
  unfoldable pub drop_key : Text → List (Text × V) → List (Text × V)
  drop_key k [] = []
  drop_key k ((j, v) ∷ m) = let rest = drop_key k m in if text_eq j k then rest else (j, v) ∷ rest

  -- `map.keys()`
  unfoldable pub keys : List (Text × V) → List Text
  keys [] = []
  keys ((j, v) ∷ m) = j ∷ keys m

  -- `map.values()`
  unfoldable pub values : List (Text × V) → List V
  values [] = []
  values ((j, v) ∷ m) = v ∷ values m

  pub get-put :
      (k j : Text) (v : V) (m : List (Text × V))
      → get j (put k v m) ≡ (if text_eq k j then some v else get j m)
  unfolding get put
  get-put k j v [] = refl
  get-put k j v ((i, w) ∷ m) =
      ground (arith, get-put k j v m, text_eq_iff i k, text_eq_iff i j, text_eq_iff k j)

  pub get-drop_key :
      (k j : Text) (m : List (Text × V))
      → get j (drop_key k m) ≡ (if text_eq k j then none else get j m)
  unfolding get drop_key
  get-drop_key k j [] = ground arith
  get-drop_key k j ((i, w) ∷ m) =
      ground (arith, get-drop_key k j m, text_eq_iff i k, text_eq_iff i j, text_eq_iff k j)

  pub has-keys : (k : Text) (m : List (Text × V)) → get k m ≡ none → Sets.has k (keys m) ≡ false
  unfolding get keys Sets.has
  has-keys k [] h = refl
  has-keys k ((j, v) ∷ m) h = ground (arith, has-keys k m)

  pub get-none : (k : Text) (m : List (Text × V)) → Sets.has k (keys m) ≡ false → get k m ≡ none
  unfolding get keys Sets.has
  get-none k [] h = refl
  get-none k ((j, v) ∷ m) h = ground (arith, get-none k m)

  -- A new key goes behind the others.
  pub keys-put_new :
      (k : Text) (v : V) (m : List (Text × V))
      → get k m ≡ none
      → keys (put k v m) ≡ keys m ++ k ∷ []
  unfolding get put keys
  keys-put_new k v [] h = refl
  keys-put_new k v ((j, w) ∷ m) h = ground (arith, keys-put_new k v m)

  pub keys-drop_key :
      (k : Text) (m : List (Text × V)) → keys (drop_key k m) ≡ Sets.delete k (keys m)
  unfolding keys drop_key Sets.delete
  keys-drop_key k [] = refl
  keys-drop_key k ((j, v) ∷ m) = ground (arith, keys-drop_key k m)

  pub length-keys : (m : List (Text × V)) → length (keys m) ≡ length m
  unfolding keys
  length-keys [] = refl
  length-keys ((j, v) ∷ m) = ap Prim.Native.Nat.suc (length-keys m)

  pub has-keys-put :
      (k j : Text) (v : V) (m : List (Text × V))
      → Sets.has j (keys (put k v m)) ≡ (text_eq k j || Sets.has j (keys m))
  unfolding put keys Sets.has
  has-keys-put k j v [] = refl
  has-keys-put k j v ((i, w) ∷ m) =
      ground (arith, has-keys-put k j v m, text_eq_iff i k, text_eq_iff i j, text_eq_iff k j)

  pub is_distinct-keys-put :
      (k : Text) (v : V) (m : List (Text × V))
      → Sets.is_distinct (keys m) ≡ true
      → Sets.is_distinct (keys (put k v m)) ≡ true
  unfolding put keys Sets.is_distinct Sets.has
  is_distinct-keys-put k v [] h = refl
  is_distinct-keys-put k v ((i, w) ∷ m) h =
      ground
        (arith, is_distinct-keys-put k v m, has-keys-put k i v m, text_eq_iff i k, text_eq_iff k i)

  pub is_distinct-keys-drop_key :
      (k : Text) (m : List (Text × V))
      → Sets.is_distinct (keys m) ≡ true
      → Sets.is_distinct (keys (drop_key k m)) ≡ true
  is_distinct-keys-drop_key k m h = rw (keys-drop_key k m) (Sets.is_distinct-delete k (keys m) h)

  -- A key of the map has a value.
  pub get-of_has :
      (k : Text) (m : List (Text × V)) → Sets.has k (keys m) ≡ true → (v : V) × (get k m ≡ some v)
  unfolding get keys Sets.has
  get-of_has k [] h = cc
  get-of_has k ((j, v) ∷ m) h = elim (Bool-cases (text_eq j k)) [
    | inl here ↦ (v, rw here)
    | inr there ↦ rw there (get-of_has k m (ground arith))
  ]

  pub has-keys-of_get :
      (k : Text) (v : V) (m : List (Text × V)) → get k m ≡ some v → Sets.has k (keys m) ≡ true
  unfolding get keys Sets.has
  has-keys-of_get k v [] h = ground arith
  has-keys-of_get k v ((j, w) ∷ m) h = ground (arith, has-keys-of_get k v m)

  -- A test that holds of each key with its value holds of each entry.
  pub all-entries :
      (p : Text × V → Bool) (m : List (Text × V))
      → Sets.is_distinct (keys m) ≡ true
      → ((k : Text) (v : V) → get k m ≡ some v → p (k, v) ≡ true)
      → all p m ≡ true
  unfolding get keys Sets.is_distinct
  all-entries p [] d h = refl
  all-entries p ((j, w) ∷ m) d h =
      let rest =
        all-entries p m (ground arith)
          (λ k v e. h k v (ground (arith, has-keys-of_get k v m e, text_eq_iff j k))) in
      ground (arith, h j w, text_eq_refl j, rest)

  pub values-put_new :
      (k : Text) (v : V) (m : List (Text × V))
      → get k m ≡ none
      → values (put k v m) ≡ values m ++ v ∷ []
  unfolding get put values
  values-put_new k v [] h = refl
  values-put_new k v ((j, w) ∷ m) h = ground (arith, values-put_new k v m)

  pub length-values : (m : List (Text × V)) → length (values m) ≡ length m
  unfolding values
  length-values [] = refl
  length-values ((j, v) ∷ m) = ap Prim.Native.Nat.suc (length-values m)

  -- What holds of the value of each key holds of all values.
  pub All-values {κ} :
      (P : V → Type κ) (m : List (Text × V))
      → Sets.is_distinct (keys m) ≡ true
      → ((k : Text) (v : V) → get k m ≡ some v → P v)
      → All P (values m)
  unfolding get keys values Sets.is_distinct
  All-values P [] d h = tt
  All-values P ((j, w) ∷ m) d h = (
    h j w (rw (text_eq_refl j)),
    All-values P m (ground arith)
        (λ k v e. h k v (ground (arith, has-keys-of_get k v m e, text_eq_iff j k))),
  )
