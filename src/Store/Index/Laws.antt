-- ===== src/Store/Index/Laws.antt =====
-- What an index holds after an entry and after a removal, and that it keeps no empty set.
use attunegraph.Common.{
  inl, inr, Option-cases, ◌≡◌, refl, Bool, false, ◌&&◌, ◌||◌, not, List, [], ◌∷◌, Text, arith,
  text_eq, text_eq_iff, if◌then◌else◌,
}
use attunegraph.Common.Maps.{get, put, drop_key, get-put, get-drop_key}
use attunegraph.Common.Sets.{has, add, delete, has-add, has-delete}
use attunegraph.Store.Index.{
  Index, add_to_index, remove_from_index, drop_if_empty, members, add_keys, remove_keys,
}

-- Whether the index holds `id` under `key`.
abbrev pub in_index : Index → Text → Text → Bool
in_index index key id = has id (members index key)

in_index-put :
    (index : Index) (key : Text) (ids : List Text) (k i : Text)
    → in_index (put key ids index) k i ≡ (if text_eq key k then has i ids else in_index index k i)
unfolding members
in_index-put index key ids k i = ground (arith, get-put key k ids index)

in_index-drop_key :
    (index : Index) (key k i : Text)
    → in_index (drop_key key index) k i ≡ (if text_eq key k then false else in_index index k i)
unfolding members has
in_index-drop_key index key k i = ground (arith, get-drop_key key k index)

pub in_index-add_to_index :
    (index : Index) (key id k i : Text)
    → in_index (add_to_index index key id) k i
      ≡ (text_eq key k && text_eq id i || in_index index k i)
unfolding add_to_index members has
in_index-add_to_index index key id k i = elim (Option-cases (get key index)) [
  | inl none_there ↦
      ground (arith, none_there, in_index-put index key (id ∷ []) k i, text_eq_iff key k)
  | inr (ids, there) ↦
      ground
        (arith, there, in_index-put index key (add id ids) k i, has-add id i ids, text_eq_iff key k)
]

in_index-drop_if_empty :
    (index : Index) (key : Text) (ids : List Text) (k i : Text)
    → in_index (drop_if_empty key ids index) k i
      ≡ (if text_eq key k then has i ids else in_index index k i)
unfolding has
in_index-drop_if_empty index key [] k i = in_index-drop_key index key k i
in_index-drop_if_empty index key (j ∷ ids) k i = in_index-put index key (j ∷ ids) k i

pub in_index-remove_from_index :
    (index : Index) (key id k i : Text)
    → in_index (remove_from_index index key id) k i
      ≡ (in_index index k i && not (text_eq key k && text_eq id i))
unfolding remove_from_index members has
in_index-remove_from_index index key id k i = elim (Option-cases (get key index)) [
  | inl none_there ↦ ground (arith, none_there, text_eq_iff key k)
  | inr (ids, there) ↦ ground (
    arith,
    there,
    in_index-drop_if_empty index key (delete id ids) k i,
    has-delete id i ids,
    text_eq_iff key k,
  )
]

pub in_index-add_keys :
    (ks : List Text) (id : Text) (index : Index) (k i : Text)
    → in_index (add_keys ks id index) k i ≡ (has k ks && text_eq id i || in_index index k i)
unfolding add_keys has
in_index-add_keys [] id index k i = refl
in_index-add_keys (key ∷ ks) id index k i = ground (
  arith,
  in_index-add_keys ks id (add_to_index index key id) k i,
  in_index-add_to_index index key id k i,
)

pub in_index-remove_keys :
    (ks : List Text) (id : Text) (index : Index) (k i : Text)
    → in_index (remove_keys ks id index) k i
      ≡ (in_index index k i && not (has k ks && text_eq id i))
unfolding remove_keys has
in_index-remove_keys [] id index k i = ground arith
in_index-remove_keys (key ∷ ks) id index k i = ground (
  arith,
  in_index-remove_keys ks id (remove_from_index index key id) k i,
  in_index-remove_from_index index key id k i,
)
