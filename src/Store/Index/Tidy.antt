-- ===== src/Store/Index/Tidy.antt =====
-- An index keeps no empty set and no member twice; two such indexes with the same entries pass
-- `sameIndex`.
use attunegraph.Common.{
  ◌≤◌, ◌≡◌, refl, ◌≢◌, Bool, true, false, Option, none, some, List, [], ◌∷◌, Text, arith, text_eq,
  text_eq_refl, if◌then◌else◌, inl, inr, Option-cases, length, all,
}
use attunegraph.Common.Maps.{
  get, put, keys, get-put, get-drop_key, is_distinct-keys-put, is_distinct-keys-drop_key,
  get-of_has, all-entries, length-keys, has-keys-of_get,
}
use attunegraph.Common.Sets.{
  has, add, delete, is_distinct, is_distinct-add, is_distinct-delete, length-subset,
}
use attunegraph.Store.Index.{
  Index, add_to_index, remove_from_index, drop_if_empty, members, add_keys, remove_keys, same_index,
  same_entry,
}
use attunegraph.Store.Index.Laws.{in_index}

abbrev pub EntryIsTidy : Option (List Text) → Type 0
EntryIsTidy none = Unit
EntryIsTidy (some ids) = (ids ≢ []) × (is_distinct ids ≡ true)

pub record IsTidy (index : Index) : Type 0 where
  pub entries : (key : Text) → EntryIsTidy (get key index)
  pub distinct : is_distinct (keys index) ≡ true

EntryIsTidy-if :
    (b : Bool) (o p : Option (List Text))
    → EntryIsTidy o
    → EntryIsTidy p
    → EntryIsTidy (if b then o else p)
EntryIsTidy-if true o p ho hp = ho
EntryIsTidy-if false o p ho hp = hp

pub IsTidy-nil : IsTidy []
unfolding get keys is_distinct
IsTidy-nil = record { entries = λ k. tt; distinct = refl }

IsTidy-put :
    (index : Index) (key : Text) (ids : List Text)
    → IsTidy index
    → ids ≢ []
    → is_distinct ids ≡ true
    → IsTidy (put key ids index)
IsTidy-put index key ids t ne d = record {
  entries = λ k.
      rw (get-put key k ids index)
        (EntryIsTidy-if (text_eq key k) (some ids) (get k index) (ne, d) (t.entries k));
  distinct = is_distinct-keys-put key ids index t.distinct;
}

IsTidy-drop_if_empty :
    (index : Index) (key : Text) (ids : List Text)
    → IsTidy index
    → is_distinct ids ≡ true
    → IsTidy (drop_if_empty key ids index)
IsTidy-drop_if_empty index key [] t d = record {
  entries = λ k.
      rw (get-drop_key key k index)
        (EntryIsTidy-if (text_eq key k) none (get k index) tt (t.entries k));
  distinct = is_distinct-keys-drop_key key index t.distinct;
}
IsTidy-drop_if_empty index key (j ∷ ids) t d = IsTidy-put index key (j ∷ ids) t (λ e. cc) d

add-ne-nil : (id : Text) (ids : List Text) → add id ids ≢ []
unfolding add has
add-ne-nil id [] h = cc
add-ne-nil id (j ∷ ids) h = ground arith

pub IsTidy-add_to_index :
    (index : Index) (key id : Text) → IsTidy index → IsTidy (add_to_index index key id)
unfolding add_to_index
IsTidy-add_to_index index key id t = elim (Option-cases (get key index)) [
  | inl absent ↦
      rw (absent, add_to_index)
        (IsTidy-put index key (id ∷ []) t (λ e. cc) (unfold is_distinct has in refl))
  | inr (ids, there) ↦
      let tidy : EntryIsTidy (some ids) = rw there at (t.entries key) in
      rw (there, add_to_index)
        (IsTidy-put index key (add id ids) t (add-ne-nil id ids) (is_distinct-add id ids tidy.1))
]

pub IsTidy-remove_from_index :
    (index : Index) (key id : Text) → IsTidy index → IsTidy (remove_from_index index key id)
unfolding remove_from_index
IsTidy-remove_from_index index key id t = elim (Option-cases (get key index)) [
  | inl absent ↦ rw (absent, remove_from_index) t
  | inr (ids, there) ↦
      let tidy : EntryIsTidy (some ids) = rw there at (t.entries key) in
      rw (there, remove_from_index)
        (IsTidy-drop_if_empty index key (delete id ids) t (is_distinct-delete id ids tidy.1))
]

pub IsTidy-add_keys :
    (ks : List Text) (id : Text) (index : Index) → IsTidy index → IsTidy (add_keys ks id index)
unfolding add_keys
IsTidy-add_keys [] id index t = t
IsTidy-add_keys (key ∷ ks) id index t =
    IsTidy-add_keys ks id (add_to_index index key id) (IsTidy-add_to_index index key id t)

pub IsTidy-remove_keys :
    (ks : List Text) (id : Text) (index : Index) → IsTidy index → IsTidy (remove_keys ks id index)
unfolding remove_keys
IsTidy-remove_keys [] id index t = t
IsTidy-remove_keys (key ∷ ks) id index t =
    IsTidy-remove_keys ks id (remove_from_index index key id)
      (IsTidy-remove_from_index index key id t)

all-has :
    (ids ids' : List Text)
    → ((i : Text) → has i ids ≡ true → has i ids' ≡ true)
    → all (λ id. has id ids') ids ≡ true
unfolding has
all-has [] ids' h = refl
all-has (i ∷ ids) ids' h =
    ground (arith, h i, text_eq_refl i, all-has ids ids' (λ j m. h j (ground arith)))

abbrev Within : Index → Index → Type 0
Within left right = (k i : Text) → in_index left k i ≡ true → in_index right k i ≡ true

-- A key of one tidy index is a key of another that has its entries.
key_of_Within :
    (left right : Index)
    → IsTidy left
    → Within left right
    → (k : Text) (ids : List Text) → get k left ≡ some ids
    → (ids' : List Text) × (get k right ≡ some ids')
key_of_Within left right t h k [] e =
    let tidy : EntryIsTidy (some []) = rw e at (t.entries k) in absurd (tidy.0 refl)
key_of_Within left right t h k (i ∷ ids) e = elim (Option-cases (get k right)) [
  | inr found ↦ found
  | inl absent ↦ absurd (unfold members has in ground (arith, h k i, text_eq_refl i))
]

keys-Within : (left right : Index) → IsTidy left → Within left right → length left ≤ length right
keys-Within left right t h =
    let same = length-subset (keys left) (keys right) t.distinct (λ k m.
      let (ids, e) = get-of_has k left m in
      let (ids', e') = key_of_Within left right t h k ids e in has-keys-of_get k ids' right e') in
    omega (arith, length-keys left, length-keys right)

has-Within :
    (left right : Index) (k : Text) (ids ids' : List Text)
    → Within left right
    → get k left ≡ some ids
    → get k right ≡ some ids'
    → (i : Text) → has i ids ≡ true
    → has i ids' ≡ true
unfolding members
has-Within left right k ids ids' h e e' i m = ground (arith, h k i)

same_entry-of_Within :
    (left right : Index)
    → IsTidy left
    → IsTidy right
    → Within left right
    → Within right left
    → (k : Text) (ids : List Text) → get k left ≡ some ids
    → same_entry right (k, ids) ≡ true
unfolding same_entry
same_entry-of_Within left right tl tr h h' k ids e =
    let (ids', e') = key_of_Within left right tl h k ids e in
    let d : EntryIsTidy (some ids) = rw e at (tl.entries k) in
    let d' : EntryIsTidy (some ids') = rw e' at (tr.entries k) in
    let into = has-Within left right k ids ids' h e e' in
    let back = has-Within right left k ids' ids h' e' e in
    ground (
      arith,
      all-has ids ids' into,
      length-subset ids ids' d.1 into,
      length-subset ids' ids d'.1 back,
    )

-- Tidy indexes with the same entries pass the comparison of `verify`.
pub same_index-of_same :
    (left right : Index)
    → IsTidy left
    → IsTidy right
    → ((k i : Text) → in_index left k i ≡ in_index right k i)
    → same_index left right ≡ true
unfolding same_index
same_index-of_same left right tl tr same =
    let h : Within left right = λ k i e. rw (← same k i) e in
    let h' : Within right left = λ k i e. rw (same k i) e in
    ground (
      arith,
      keys-Within left right tl h,
      keys-Within right left tr h',
      all-entries (same_entry right) left tl.distinct (same_entry-of_Within left right tl tr h h'),
    )
