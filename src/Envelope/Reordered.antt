-- ===== src/Envelope/Reordered.antt =====
-- Values that differ in the order of the fields of their records only, and their canonical JSON.
use attunegraph.Common.{
  ◌≡◌, refl, sym, ap, ◌∙◌, ◌≢◌, List, [], ◌∷◌, sort, sort_onto, insert_by, raw_compare-same, Text,
  arith,
}
use attunegraph.Common.Order.{IsOrder}
use attunegraph.Common.ByUnits.{by_units}
use attunegraph.Json.Print.{array, object}
use attunegraph.Envelope.Values.{
  Value, array_value, record_value, Items, nil, cons, Fields, end, field,
}
use attunegraph.Envelope.Encode.{compare_keys}
use attunegraph.Envelope.Canonical.{canonical, canonical_items, canonical_fields}

mutual
  -- Fields with different keys change places, at any depth.
  pub data Reordered : Value → Value → Type 0 where
    unchanged : (v : Value) → Reordered v v
    items_of : {vs ws : Items} → ItemsReordered vs ws → Reordered (array_value vs) (array_value ws)
    fields_of :
        {fs gs : Fields} → FieldsReordered fs gs → Reordered (record_value fs) (record_value gs)

  pub data ItemsReordered : Items → Items → Type 0 where
    no_items : ItemsReordered nil nil
    keep_item :
        {v w : Value} {vs ws : Items}
        → Reordered v w
        → ItemsReordered vs ws
        → ItemsReordered (cons v vs) (cons w ws)

  pub data FieldsReordered : Fields → Fields → Type 0 where
    no_fields : FieldsReordered end end
    keep_field :
        {key : Text} {v w : Value} {fs gs : Fields}
        → Reordered v w
        → FieldsReordered fs gs
        → FieldsReordered (field key v fs) (field key w gs)
    swap_fields :
        {key name : Text} {v w : Value} {fs : Fields}
        → key ≢ name
        → FieldsReordered (field key v (field name w fs)) (field name w (field key v fs))
    in_turn :
        {fs gs hs : Fields} → FieldsReordered fs gs → FieldsReordered gs hs → FieldsReordered fs hs

by_keys {ℓ} : {A : Type ℓ} → IsOrder (compare_keys {A = A})
by_keys = record {
  flips = λ a b. by_units.flips (a.0) (b.0);
  trans = λ a b c. by_units.trans (a.0) (b.0) (c.0);
}

module _ {ℓ} {A : Type ℓ} where
  -- Two insertions with different keys can change places.
  insert_by_comm :
      (x y : Text × A) (s : List (Text × A))
      → x.0 ≢ y.0
      → insert_by compare_keys x (insert_by compare_keys y s)
        ≡ insert_by compare_keys y (insert_by compare_keys x s)
  unfolding insert_by
  insert_by_comm x y [] h = ground (arith, by_keys.flips x y, raw_compare-same (x.0) (y.0))
  insert_by_comm x y (z ∷ s) h = ground (
    arith,
    by_keys.flips x y,
    by_keys.flips x z,
    by_keys.flips y z,
    by_keys.trans x y z,
    by_keys.trans y x z,
    by_keys.trans z x y,
    by_keys.trans z y x,
    raw_compare-same (x.0) (y.0),
    insert_by_comm x y s h,
  )

cong_cons : {s t : Text} {ss ts : List Text} → s ≡ t → ss ≡ ts → s ∷ ss ≡ t ∷ ts
cong_cons h k = λ i. h i ∷ k i

mutual
  unfolding canonical sort sort_onto

  canonical_same : {v w : Value} → Reordered v w → canonical v ≡ canonical w
  canonical_same (unchanged v) = refl
  canonical_same (items_of h) = ap array (items_reordered h)
  canonical_same (fields_of h) = ap object (fields_reordered h [])

  items_reordered : {vs ws : Items} → ItemsReordered vs ws → canonical_items vs ≡ canonical_items ws
  items_reordered no_items = refl
  items_reordered (keep_item h k) = cong_cons (canonical_same h) (items_reordered k)

  fields_reordered :
      {fs gs : Fields}
      → FieldsReordered fs gs
      → (s : List (Text × Text))
      → sort_onto compare_keys s (canonical_fields fs)
        ≡ sort_onto compare_keys s (canonical_fields gs)
  fields_reordered no_fields s = refl
  fields_reordered (keep_field {key} {v} {w} {fs} {gs} h k) s =
      ap (λ t. sort_onto compare_keys (insert_by compare_keys (key, t) s) (canonical_fields fs))
        (canonical_same h)
      ∙ fields_reordered k (insert_by compare_keys (key, canonical w) s)
  fields_reordered (swap_fields {key} {name} {v} {w} {fs} h) s =
      ap (λ t. sort_onto compare_keys t (canonical_fields fs))
        (insert_by_comm (name, canonical w) (key, canonical v) s (λ e. h (sym e)))
  fields_reordered (in_turn h k) s = fields_reordered h s ∙ fields_reordered k s

-- The canonical JSON does not depend on the order of the fields.
pub canonical-Reordered : (v w : Value) → Reordered v w → canonical v ≡ canonical w
canonical-Reordered v w h = canonical_same h
