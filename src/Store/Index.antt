-- ===== src/Store/Index.antt =====
-- src/in-memory-store.ts: `addToIndex`, `removeFromIndex` and `sameIndex`.
pub mod Laws
pub mod Tidy
pub mod Of
use attunegraph.Common.{
  Bool, true, false, ◌&&◌, Option, none, some, List, [], ◌∷◌, ◌==◌, if◌then◌else◌, Text, length,
  all,
}
use attunegraph.Common.Maps.{get, put, drop_key}
use attunegraph.Common.Sets.{has, add, delete}

abbrev pub Index : Type 0
Index = List (Text × List Text)

unfoldable pub add_to_index : Index → Text → Text → Index
add_to_index index key id = elim (get key index) [
  | some ids ↦ put key (add id ids) index
  | none ↦ put key (id ∷ []) index
]

abbrev drop_if_empty : Text → List Text → Index → Index
drop_if_empty key [] index = drop_key key index
drop_if_empty key (id ∷ ids) index = put key (id ∷ ids) index

unfoldable pub remove_from_index : Index → Text → Text → Index
remove_from_index index key id = elim (get key index) [
  | none ↦ index
  | some ids ↦ drop_if_empty key (delete id ids) index
]

same_entry : Index → Text × List Text → Bool
same_entry right (key, ids) = elim (get key right) [
  | none ↦ false
  | some ids' ↦ length ids == length ids' && all (λ id. has id ids') ids
]

unfoldable pub same_index : Index → Index → Bool
unfolding same_entry
same_index left right = length left == length right && all (same_entry right) left

-- `index.get(key) ?? []`
unfoldable pub members : Index → Text → List Text
members index key = elim (get key index) [ none ↦ [] | some ids ↦ ids ]

-- The loops that enter, and that take out, one id under several keys.
unfoldable pub add_keys : List Text → Text → Index → Index
add_keys [] id index = index
add_keys (key ∷ rest) id index = add_keys rest id (add_to_index index key id)

unfoldable pub remove_keys : List Text → Text → Index → Index
remove_keys [] id index = index
remove_keys (key ∷ rest) id index = remove_keys rest id (remove_from_index index key id)
