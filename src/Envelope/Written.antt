-- ===== src/Envelope/Written.antt =====
-- Proofs about `encodeCanonical` of src/canonical-immutable-envelope.ts: the writer with its limit of
-- bytes against the canonical JSON.
use attunegraph.Common.{
  ℕ, suc, ◌≡◌, refl, ap, ◌∙◌, Bool, true, false, List, [], ◌∷◌, ◌++◌, map, ltb, if◌then◌else◌, sort,
  sort_onto, insert_by, not_after, Text, codes, All, arith, Bool-cases, inl, inr, Result, ok, err,
  ◌>>=◌,
}
use mathlib.Core.Path.{fun_ext}
use mathlib.Core.List.{append_assoc}
use attunegraph.Json.{quote}
use attunegraph.Json.Print.{more_items, array, more_fields, object, byte_length}
use attunegraph.Envelope.Values.{
  Value, null_value, boolean_value, number_value, string_value, array_value, record_value, Items,
  nil, cons, Fields, end, field,
}
use attunegraph.Envelope.Contract.{EnvelopeError, BudgetAxis, exceeded, encode}
use attunegraph.Envelope.Encode.{
  Encoded, Writer, append, visit_keys, visit, visit_items, visit_fields, encode_canonical,
  compare_keys,
}
use attunegraph.Envelope.Canonical.{canonical, canonical_items, canonical_fields}
use attunegraph.Envelope.Paired.{
  IsPaired, IsAscii-IsPaired, byte_length-append, quote-IsPaired, IsPaired-append,
}
use attunegraph.Envelope.Printed.{IsField, canonical-IsPaired, canonical_fields-IsPaired}

>>=_assoc {ℓ κ ν} :
    {E : Type 0} {A : Type ℓ} {B : Type κ} {C : Type ν} (r : Result E A) (f : A → Result E B)
    (g : B → Result E C)
    → (r >>= f >>= g) ≡ (r >>= λ a. (f a >>= g))
>>=_assoc (ok a) f g = refl
>>=_assoc (err e) f g = refl

-- Sorting looks at the keys only.
module _ {ℓ κ} {A : Type ℓ} {B : Type κ} (f : A → B) where
  abbrev keyed : Text × A → Text × B
  keyed a = (a.0, f (a.1))

  insert_by-keyed :
      (x : Text × A) (l : List (Text × A))
      → insert_by compare_keys (keyed x) (map keyed l) ≡ map keyed (insert_by compare_keys x l)
  unfolding insert_by
  insert_by-keyed x [] = refl
  insert_by-keyed x (y ∷ l) = elim (Bool-cases (not_after (compare_keys y x))) [
    | inl behind ↦ rw behind (ap (λ t. keyed y ∷ t) (insert_by-keyed x l))
    | inr front ↦ rw front
  ]

  sort_onto-keyed :
      (s l : List (Text × A))
      → sort_onto compare_keys (map keyed s) (map keyed l) ≡ map keyed (sort_onto compare_keys s l)
  unfolding sort_onto
  sort_onto-keyed s [] = refl
  sort_onto-keyed s (x ∷ l) =
      ap (λ t. sort_onto compare_keys t (map keyed l)) (insert_by-keyed x s)
      ∙ sort_onto-keyed (insert_by compare_keys x s) l

  sort-keyed :
      (l : List (Text × A)) → sort compare_keys (map keyed l) ≡ map keyed (sort compare_keys l)
  unfolding sort
  sort-keyed l = sort_onto-keyed [] l

module _ (limit : ℕ) (axis : BudgetAxis) where
  -- Two texts are written as one.
  append_both :
      (s t : Text) (w : Encoded)
      → IsPaired s
      → (append limit axis s w >>= append limit axis t) ≡ append limit axis (s ++ t) w
  unfolding append
  append_both s t w h = ground (arith, byte_length-append s t h, append_assoc w.json s t)

  abbrev Writes : Writer → Text → Type 0
  Writes write text = (w : Encoded) → write w ≡ append limit axis text w

  -- Behind any result, what is written in steps is written at once.
  then_written :
      (r : Result EnvelopeError Encoded) (write : Writer) (text : Text)
      → Writes write text
      → (r >>= write) ≡ (r >>= append limit axis text)
  then_written (ok w) write text h = h w
  then_written (err e) write text h = refl

  abbrev field_text : Text → Text → Text → Text
  field_text key value rest = quote key ++ b':' ∷ (value ++ rest)

  -- One field and what follows it.
  module _ (key value rest : Text) (closed : IsPaired value) (write : Writer)
      (follows : Writes write rest) where
    field_written :
        (w : Encoded)
        → (append limit axis (quote key) w
            >>= append limit axis (codes ":")
            >>= append limit axis value
            >>= write)
          ≡ append limit axis (field_text key value rest) w
    field_written w =
        let colon =
          IsPaired-append (quote key) (codes ":") (quote-IsPaired key)
            (IsAscii-IsPaired (codes ":") (ground arith)) in
        let whole = IsPaired-append (quote key ++ codes ":") value colon closed in
        ap (λ r. r >>= append limit axis value >>= write)
          (append_both (quote key) (codes ":") w (quote-IsPaired key))
        ∙ ap (λ r. r >>= write) (append_both (quote key ++ codes ":") value w colon)
        ∙ then_written (append limit axis ((quote key ++ codes ":") ++ value) w) write rest follows
        ∙ append_both ((quote key ++ codes ":") ++ value) rest w whole
        ∙ ap (λ s. append limit axis s w)
            (append_assoc (quote key ++ codes ":") value rest
              ∙ append_assoc (quote key) (codes ":") (value ++ rest))

  abbrev close_keys : List (Text × Writer) → Bool → Writer
  close_keys keys first w = visit_keys limit axis first keys w >>= append limit axis (codes "}")

  abbrev writers : List (Text × Text) → List (Text × Writer)
  writers fields = map (keyed (append limit axis)) fields

  -- The fields from one on, behind any result.
  module _ (key value : Text) (fields : List (Text × Text)) (closed : IsPaired value)
      (follows : Writes (close_keys (writers fields) false) (more_fields fields)) where
    fields_written :
        (r : Result EnvelopeError Encoded)
        → (r
            >>= append limit axis (quote key)
            >>= append limit axis (codes ":")
            >>= append limit axis value
            >>= visit_keys limit axis false (writers fields)
            >>= append limit axis (codes "}"))
          ≡ (r >>= append limit axis (field_text key value (more_fields fields)))
    fields_written (err e) = refl
    fields_written (ok w) =
        >>=_assoc
          (append limit axis (quote key) w
            >>= append limit axis (codes ":")
            >>= append limit axis value)
          (visit_keys limit axis false (writers fields)) (append limit axis (codes "}"))
        ∙ field_written key value (more_fields fields) closed (close_keys (writers fields) false)
            follows w

  -- The loop over keys whose values are written as the texts say.
  keys_written :
      (fields : List (Text × Text))
      → All IsField fields
      → Writes (close_keys (writers fields) false) (more_fields fields)
  unfolding visit_keys more_fields
  keys_written [] h w = refl
  keys_written ((key, value) ∷ fields) h w =
      fields_written key value fields h.0 (keys_written fields h.1)
        (append limit axis (codes ",") w)
      ∙ append_both (codes ",") (field_text key value (more_fields fields)) w
          (IsAscii-IsPaired (codes ",") (ground arith))

  record_written :
      (fields : List (Text × Text)) (w : Encoded)
      → All IsField fields
      → (append limit axis (codes "{") w
          >>= visit_keys limit axis true (writers fields)
          >>= append limit axis (codes "}"))
        ≡ append limit axis (object fields) w
  unfolding visit_keys object
  record_written [] w h =
      no_key (append limit axis (codes "{") w)
      ∙ append_both (codes "{") (codes "}") w (IsAscii-IsPaired (codes "{") (ground arith))
    where
      no_key :
          (r : Result EnvelopeError Encoded)
          → (r >>= visit_keys limit axis true [] >>= append limit axis (codes "}"))
            ≡ (r >>= append limit axis (codes "}"))
      no_key (err e) = refl
      no_key (ok x) = refl
  record_written ((key, value) ∷ fields) w h =
      first_key (append limit axis (codes "{") w)
      ∙ append_both (codes "{") (field_text key value (more_fields fields)) w
          (IsAscii-IsPaired (codes "{") (ground arith))
    where
      first_key :
          (r : Result EnvelopeError Encoded)
          → (r
              >>= visit_keys limit axis true (writers ((key, value) ∷ fields))
              >>= append limit axis (codes "}"))
            ≡ (r >>= append limit axis (field_text key value (more_fields fields)))
      first_key (err e) = refl
      first_key (ok x) = fields_written key value fields h.0 (keys_written fields h.1) (ok x)

  -- One item and what follows it, behind any result.
  module _ (value rest : Text) (closed : IsPaired value) (visit_one write : Writer)
      (one : Writes visit_one value)
      (follows : Writes (λ w. write w >>= append limit axis (codes "]")) rest) where
    item_written :
        (r : Result EnvelopeError Encoded)
        → (r >>= visit_one >>= write >>= append limit axis (codes "]"))
          ≡ (r >>= append limit axis (value ++ rest))
    item_written (err e) = refl
    item_written (ok w) =
        >>=_assoc (visit_one w) write (append limit axis (codes "]"))
        ∙ ap (λ r. r >>= λ x. (write x >>= append limit axis (codes "]"))) (one w)
        ∙ then_written (append limit axis value w) (λ x. write x >>= append limit axis (codes "]"))
            rest follows
        ∙ append_both value rest w closed

  no_item :
      (r : Result EnvelopeError Encoded)
      → (r >>= visit_items limit axis true nil >>= append limit axis (codes "]"))
        ≡ (r >>= append limit axis (codes "]"))
  unfolding visit
  no_item (err e) = refl
  no_item (ok x) = refl

  first_item :
      (v : Value) (vs : Items)
      → Writes (visit limit axis v) (canonical v)
      → Writes
          (λ w. visit_items limit axis false vs w >>= append limit axis (codes "]"))
          (more_items (canonical_items vs))
      → (r : Result EnvelopeError Encoded)
      → (r >>= visit_items limit axis true (cons v vs) >>= append limit axis (codes "]"))
        ≡ (r >>= append limit axis (canonical v ++ more_items (canonical_items vs)))
  unfolding visit
  first_item v vs one follows (err e) = refl
  first_item v vs one follows (ok x) =
      item_written (canonical v) (more_items (canonical_items vs)) (canonical-IsPaired v)
        (visit limit axis v) (visit_items limit axis false vs) one follows (ok x)

  mutual
    unfolding visit canonical more_items array

    visit_written : (v : Value) → Writes (visit limit axis v) (canonical v)
    visit_written null_value w = refl
    visit_written (boolean_value b) w = refl
    visit_written (number_value n) w = refl
    visit_written (string_value s) w = refl
    visit_written (array_value items) w = array_written items w
    visit_written (record_value fields) w =
        ap
          (λ l.
            append limit axis (codes "{") w
            >>= visit_keys limit axis true l
            >>= append limit axis (codes "}"))
          (ap (sort compare_keys) (visit_fields_written fields)
            ∙ sort-keyed (append limit axis) (canonical_fields fields))
        ∙ record_written (sort compare_keys (canonical_fields fields)) w
            (canonical_fields-IsPaired fields)

    array_written :
        (vs : Items) → Writes (visit limit axis (array_value vs)) (array (canonical_items vs))
    array_written nil w =
        no_item (append limit axis (codes "[") w)
        ∙ append_both (codes "[") (codes "]") w (IsAscii-IsPaired (codes "[") (ground arith))
    array_written (cons v vs) w =
        first_item v vs (visit_written v) (items_written vs) (append limit axis (codes "[") w)
        ∙ append_both (codes "[") (canonical v ++ more_items (canonical_items vs)) w
            (IsAscii-IsPaired (codes "[") (ground arith))

    items_written :
        (vs : Items)
        → Writes
            (λ w. visit_items limit axis false vs w >>= append limit axis (codes "]"))
            (more_items (canonical_items vs))
    items_written nil w = refl
    items_written (cons v vs) w =
        item_written (canonical v) (more_items (canonical_items vs)) (canonical-IsPaired v)
          (visit limit axis v) (visit_items limit axis false vs) (visit_written v)
          (items_written vs) (append limit axis (codes ",") w)
        ∙ append_both (codes ",") (canonical v ++ more_items (canonical_items vs)) w
            (IsAscii-IsPaired (codes ",") (ground arith))

    visit_fields_written :
        (fields : Fields) → visit_fields limit axis fields ≡ writers (canonical_fields fields)
    visit_fields_written end = refl
    visit_fields_written (field key v fields) =
        ap (λ f. (key, f) ∷ visit_fields limit axis fields) (fun_ext (visit_written v))
        ∙ ap (λ l. (key, append limit axis (canonical v)) ∷ l) (visit_fields_written fields)

  -- A limit on the bytes of the whole text decides, whatever order the parts are written in: a value
  -- is encoded as its canonical JSON with its length in UTF-8, or refused if that is over the limit.
  pub encode_canonical_lem :
      (v : Value)
      → encode_canonical limit axis v ≡ (
          if ltb limit (byte_length (canonical v))
          then err (exceeded encode [] axis (suc limit) limit)
          else ok (record { json = canonical v; bytes = byte_length (canonical v) }))
  unfolding encode_canonical append
  encode_canonical_lem v = visit_written v (record { json = []; bytes = 0 }) ∙ ground arith
