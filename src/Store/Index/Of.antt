-- ===== src/Store/Index/Of.antt =====
-- An index of the stored assertions under the keys that a function gives of each.
use attunegraph.Common.{
  ◌≡◌, refl, sym, ◌∙◌, Bool, true, false, ◌&&◌, ◌||◌, Option, none, some, List, [], ◌∷◌, Text,
  arith, text_eq, text_eq_iff, text_eq_refl, any,
}
use attunegraph.Common.Maps.{
  get, put, drop_key, keys, values, get-put, get-drop_key, has-keys-of_get, get-none,
}
use attunegraph.Common.Sets.{has, is_distinct}
use attunegraph.Graph.Types.{Assertion}
use attunegraph.Store.Index.{Index, members, add_keys, remove_keys, same_index}
use attunegraph.Store.Index.Laws.{in_index, in_index-add_keys, in_index-remove_keys}
use attunegraph.Store.Index.Tidy.{
  IsTidy, IsTidy-nil, IsTidy-add_keys, IsTidy-remove_keys, same_index-of_same,
}

abbrev pub Stored : Type 0
Stored = List (Text × Assertion)

-- Whether an assertion is there and stands under the key.
abbrev pub under : (Assertion → List Text) → Text → Option Assertion → Bool
under f k none = false
under f k (some a) = has k (f a)

pub record IsIndexOf (f : Assertion → List Text) (index : Index) (m : Stored) : Type 0 where
  pub holds : (k i : Text) → in_index index k i ≡ under f k (get i m)
  pub tidy : IsTidy index

-- Each stored assertion stands under its own id.
abbrev pub HasOwnIds : Stored → Type 0
HasOwnIds m = (id : Text) (a : Assertion) → get id m ≡ some a → a.id ≡ id

-- The loops of `verify` that build the expected index.
unfoldable pub enter_all : (Assertion → List Text) → List Assertion → Index → Index
enter_all f [] index = index
enter_all f (a ∷ rest) index = enter_all f rest (add_keys (f a) a.id index)

empty_index : (k i : Text) → in_index [] k i ≡ false
unfolding members has get
empty_index k i = refl

module _ (f : Assertion → List Text) where
  pub IsIndexOf-enter :
      (index : Index) (m : Stored) (a : Assertion)
      → IsIndexOf f index m
      → get a.id m ≡ none
      → IsIndexOf f (add_keys (f a) a.id index) (put a.id a m)
  IsIndexOf-enter index m a h fresh = record {
    holds = λ k i. ground (
      arith,
      in_index-add_keys (f a) a.id index k i,
      get-put a.id i a m,
      h.holds k i,
      text_eq_iff a.id i,
    );
    tidy = IsTidy-add_keys (f a) a.id index h.tidy;
  }

  pub IsIndexOf-remove :
      (index : Index) (m : Stored) (id : Text) (a : Assertion)
      → IsIndexOf f index m
      → get id m ≡ some a
      → IsIndexOf f (remove_keys (f a) id index) (drop_key id m)
  IsIndexOf-remove index m id a h there = record {
    holds = λ k i. ground (
      arith,
      in_index-remove_keys (f a) id index k i,
      get-drop_key id i m,
      h.holds k i,
      text_eq_iff id i,
    );
    tidy = IsTidy-remove_keys (f a) id index h.tidy;
  }

  in_index-enter_all :
      (vs : List Assertion) (index : Index) (k i : Text)
      → in_index (enter_all f vs index) k i
        ≡ (any (λ a. has k (f a) && text_eq a.id i) vs || in_index index k i)
  unfolding enter_all
  in_index-enter_all [] index k i = refl
  in_index-enter_all (a ∷ rest) index k i = ground (
    arith,
    in_index-enter_all rest (add_keys (f a) a.id index) k i,
    in_index-add_keys (f a) a.id index k i,
  )

  IsTidy-enter_all :
      (vs : List Assertion) (index : Index) → IsTidy index → IsTidy (enter_all f vs index)
  unfolding enter_all
  IsTidy-enter_all [] index t = t
  IsTidy-enter_all (a ∷ rest) index t =
      IsTidy-enter_all rest (add_keys (f a) a.id index) (IsTidy-add_keys (f a) a.id index t)

  any-values :
      (m : Stored) (k i : Text)
      → HasOwnIds m
      → is_distinct (keys m) ≡ true
      → any (λ a. has k (f a) && text_eq a.id i) (values m) ≡ under f k (get i m)
  unfolding values get keys is_distinct
  any-values [] k i own d = refl
  any-values ((j, a) ∷ m) k i own d =
      let own_a : a.id ≡ j = own j a (rw (text_eq_refl j)) in
      let rest =
        any-values m k i
          (λ id b e. own id b (ground (arith, has-keys-of_get id b m e, text_eq_iff j id)))
          (ground arith) in
      ground (arith, rest, text_eq_iff j i, own_a, get-none i m)

  -- The expected index is an index of the assertions that it is built from.
  pub IsIndexOf-enter_all :
      (m : Stored)
      → HasOwnIds m
      → is_distinct (keys m) ≡ true
      → IsIndexOf f (enter_all f (values m) []) m
  IsIndexOf-enter_all m own d = record {
    holds = λ k i.
        in_index-enter_all (values m) [] k i
        ∙ ground (arith, any-values m k i own d, empty_index k i);
    tidy = IsTidy-enter_all (values m) [] IsTidy-nil;
  }

  -- So an index of the stored assertions passes the comparison with the expected one.
  pub same_index-expected :
      (index : Index) (m : Stored)
      → IsIndexOf f index m
      → HasOwnIds m
      → is_distinct (keys m) ≡ true
      → same_index index (enter_all f (values m) []) ≡ true
  same_index-expected index m h own d =
      let expected = IsIndexOf-enter_all m own d in
      same_index-of_same index (enter_all f (values m) []) h.tidy expected.tidy
        (λ k i. h.holds k i ∙ sym (expected.holds k i))
