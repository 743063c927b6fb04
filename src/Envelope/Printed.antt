-- ===== src/Envelope/Printed.antt =====
-- Lemmas on the canonical JSON of a value: which code units it has.
use attunegraph.Common.{
  ℕ, zero, suc, ◌+◌, ◌/◌, ◌%◌, ◌<◌, Bool, true, false, List, [], ◌∷◌, ◌++◌, ltb, take, drop, sort,
  Text, codes, All, All-append, arith, Bool-cases, inl, inr, ltb→lt,
}
use attunegraph.Common.Order.{All-sort}
use attunegraph.Json.{quote}
use attunegraph.Json.Print.{decimal_onto, number, boolean, more_items, array, more_fields, object}
use attunegraph.Decision.{is_paired}
use attunegraph.Envelope.Values.{
  Number, not_a_number, minus_zero, infinite, natural, negative, mixed, small, Value, null_value,
  boolean_value, number_value, string_value, array_value, record_value, Items, nil, cons, Fields,
  end, field, repeat, minus_sign, after_point, exponential, number_text,
}
use attunegraph.Envelope.Encode.{compare_keys}
use attunegraph.Envelope.Canonical.{canonical, canonical_items, canonical_fields}
use attunegraph.Envelope.Paired.{
  IsPaired, IsAscii, IsPaired-append, IsAscii-IsPaired, quote-IsPaired,
}

decimal_onto-IsAscii : (fuel n : ℕ) (s : Text) → IsAscii s → IsAscii (decimal_onto fuel n s)
unfolding decimal_onto
decimal_onto-IsAscii zero n s h = (omega arith, h)
decimal_onto-IsAscii (suc fuel) n s h = elim (Bool-cases (ltb n 10)) [
  | inl one ↦ rw one (omega (arith, ltb→lt n 10 one), h)
  | inr many ↦ rw many (decimal_onto-IsAscii fuel (n / 10) ((b'0' + n % 10) ∷ s) (omega arith, h))
]

number-IsAscii : (n : ℕ) → IsAscii (number n)
unfolding number
number-IsAscii n = decimal_onto-IsAscii n n [] tt

take-IsAscii : (n : ℕ) (s : Text) → IsAscii s → IsAscii (take n s)
take-IsAscii zero s h = tt
take-IsAscii (suc n) [] h = tt
take-IsAscii (suc n) (c ∷ s) h = (h.0, take-IsAscii n s h.1)

drop-IsAscii : (n : ℕ) (s : Text) → IsAscii s → IsAscii (drop n s)
drop-IsAscii zero s h = h
drop-IsAscii (suc n) [] h = tt
drop-IsAscii (suc n) (c ∷ s) h = drop-IsAscii n s h.1

repeat-IsAscii : (c n : ℕ) → c < 128 → IsAscii (repeat c n)
unfolding repeat
repeat-IsAscii c zero h = tt
repeat-IsAscii c (suc n) h = (h, repeat-IsAscii c n h)

module _ (s t : Text) where
  IsAscii-append : IsAscii s → IsAscii t → IsAscii (s ++ t)
  IsAscii-append = All-append (λ c. c < 128) s t

minus_sign-IsAscii : (below : Bool) → IsAscii (minus_sign below)
unfolding minus_sign
minus_sign-IsAscii true = (omega arith, tt)
minus_sign-IsAscii false = tt

after_point-IsAscii : (s : Text) → IsAscii s → IsAscii (after_point s)
unfolding after_point
after_point-IsAscii [] h = tt
after_point-IsAscii (c ∷ s) h = (omega arith, h)

exponential-IsAscii : (s : Text) (e : ℕ) → IsAscii s → IsAscii (exponential s e)
unfolding exponential
exponential-IsAscii [] e h = tt
exponential-IsAscii (c ∷ s) e h = (
  h.0,
  IsAscii-append (after_point s) (b'e' ∷ b'-' ∷ number e) (after_point-IsAscii s h.1)
      (omega arith, (omega arith, number-IsAscii e)),
)

number_text-IsAscii : (n : Number) → IsAscii (number_text n)
unfolding number_text
number_text-IsAscii not_a_number = ground arith
number_text-IsAscii (infinite below) = ground arith
number_text-IsAscii minus_zero = ground arith
number_text-IsAscii (natural n) = number-IsAscii n
number_text-IsAscii (negative n) = (omega arith, number-IsAscii (suc n))
number_text-IsAscii (mixed below digits point) =
    IsAscii-append (minus_sign below)
      (take point (number digits) ++ b'.' ∷ drop point (number digits)) (minus_sign-IsAscii below)
      (IsAscii-append (take point (number digits)) (b'.' ∷ drop point (number digits))
        (take-IsAscii point (number digits) (number-IsAscii digits))
        (omega arith, drop-IsAscii point (number digits) (number-IsAscii digits)))
number_text-IsAscii (small below digits gap) = elim (Bool-cases (ltb gap 6)) [
  | inl few ↦ rw few (
      IsAscii-append (minus_sign below) (b'0' ∷ b'.' ∷ (repeat b'0' gap ++ number digits))
        (minus_sign-IsAscii below)
        (
          omega arith,
          (
            omega arith,
            IsAscii-append (repeat b'0' gap) (number digits) (repeat-IsAscii b'0' gap (omega arith))
                (number-IsAscii digits),
          ),
        ))
  | inr many ↦ rw many (
      IsAscii-append (minus_sign below) (exponential (number digits) (suc gap))
        (minus_sign-IsAscii below)
        (exponential-IsAscii (number digits) (suc gap) (number-IsAscii digits)))
]

boolean-IsPaired : (b : Bool) → IsPaired (boolean b)
unfolding boolean is_paired
boolean-IsPaired true = IsAscii-IsPaired (codes "true") (ground arith)
boolean-IsPaired false = IsAscii-IsPaired (codes "false") (ground arith)

IsPaired-unit : (c : ℕ) (s : Text) → c < 128 → IsPaired s → IsPaired (c ∷ s)
IsPaired-unit c s lt h = IsPaired-append (c ∷ []) s (IsAscii-IsPaired (c ∷ []) (lt, tt)) h

more_items-IsPaired : (items : List Text) → All IsPaired items → IsPaired (more_items items)
unfolding more_items
more_items-IsPaired [] h = IsAscii-IsPaired (codes "]") (ground arith)
more_items-IsPaired (item ∷ items) h =
    IsPaired-unit b',' (item ++ more_items items) (omega arith)
      (IsPaired-append item (more_items items) h.0 (more_items-IsPaired items h.1))

array-IsPaired : (items : List Text) → All IsPaired items → IsPaired (array items)
unfolding array
array-IsPaired [] h = IsAscii-IsPaired (codes "[]") (ground arith)
array-IsPaired (item ∷ items) h =
    IsPaired-unit b'[' (item ++ more_items items) (omega arith)
      (IsPaired-append item (more_items items) h.0 (more_items-IsPaired items h.1))

abbrev pub IsField : Text × Text → Type 0
IsField f = IsPaired (f.1)

field-IsPaired :
    (name value rest : Text)
    → IsPaired value
    → IsPaired rest
    → IsPaired (quote name ++ b':' ∷ (value ++ rest))
field-IsPaired name value rest h k =
    IsPaired-append (quote name) (b':' ∷ (value ++ rest)) (quote-IsPaired name)
      (IsPaired-unit b':' (value ++ rest) (omega arith) (IsPaired-append value rest h k))

more_fields-IsPaired :
    (fields : List (Text × Text)) → All IsField fields → IsPaired (more_fields fields)
unfolding more_fields
more_fields-IsPaired [] h = IsAscii-IsPaired (codes "}") (ground arith)
more_fields-IsPaired ((name, value) ∷ fields) h =
    IsPaired-unit b',' (quote name ++ b':' ∷ (value ++ more_fields fields)) (omega arith)
      (field-IsPaired name value (more_fields fields) h.0 (more_fields-IsPaired fields h.1))

object-IsPaired : (fields : List (Text × Text)) → All IsField fields → IsPaired (object fields)
unfolding object
object-IsPaired [] h = IsAscii-IsPaired (codes "{}") (ground arith)
object-IsPaired ((name, value) ∷ fields) h =
    IsPaired-unit b'{' (quote name ++ b':' ∷ (value ++ more_fields fields)) (omega arith)
      (field-IsPaired name value (more_fields fields) h.0 (more_fields-IsPaired fields h.1))

mutual
  unfolding canonical

  value_IsPaired : (v : Value) → IsPaired (canonical v)
  value_IsPaired null_value = IsAscii-IsPaired (codes "null") (ground arith)
  value_IsPaired (boolean_value b) = boolean-IsPaired b
  value_IsPaired (number_value n) = IsAscii-IsPaired (number_text n) (number_text-IsAscii n)
  value_IsPaired (string_value s) = quote-IsPaired s
  value_IsPaired (array_value items) = array-IsPaired (canonical_items items) (items_IsPaired items)
  value_IsPaired (record_value fields) =
      object-IsPaired (sort compare_keys (canonical_fields fields))
        (All-sort compare_keys IsField (canonical_fields fields) (fields_IsPaired fields))

  items_IsPaired : (items : Items) → All IsPaired (canonical_items items)
  items_IsPaired nil = tt
  items_IsPaired (cons v vs) = (value_IsPaired v, items_IsPaired vs)

  fields_IsPaired : (fields : Fields) → All IsField (canonical_fields fields)
  fields_IsPaired end = tt
  fields_IsPaired (field key v fields) = (value_IsPaired v, fields_IsPaired fields)

pub canonical-IsPaired : (v : Value) → IsPaired (canonical v)
canonical-IsPaired v = value_IsPaired v

pub canonical_fields-IsPaired :
    (fields : Fields) → All IsField (sort compare_keys (canonical_fields fields))
canonical_fields-IsPaired fields =
    All-sort compare_keys IsField (canonical_fields fields) (fields_IsPaired fields)
