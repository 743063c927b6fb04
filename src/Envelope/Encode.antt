-- ===== src/Envelope/Encode.antt =====
-- src/canonical-immutable-envelope.ts: the canonical JSON of a detached value, written within a limit
-- of bytes.
use attunegraph.Common.{
  ℕ, suc, ◌+◌, Bool, true, false, List, [], ◌∷◌, ◌++◌, ltb, if◌then◌else◌, sort, raw_compare, Sign,
  Text, codes, Result, ok, err, ◌>>=◌,
}
use attunegraph.Json.{quote}
use attunegraph.Json.Print.{boolean, byte_length}
use attunegraph.Envelope.Values.{
  Value, null_value, boolean_value, number_value, string_value, array_value, record_value, Items,
  nil, cons, Fields, end, field, number_text,
}
use attunegraph.Envelope.Contract.{EnvelopeError, BudgetAxis, exceeded, encode}

-- What `encodeCanonical` has written: `json` and `bytes`.
pub record Encoded : Type 0 where
  pub json : Text
  pub bytes : ℕ

abbrev pub Writer : Type 0
Writer = Encoded → Result EnvelopeError Encoded

-- The comparator of `sortedRecordKeys`, which looks at the keys.
abbrev pub compare_keys {ℓ} : {A : Type ℓ} → Text × A → Text × A → Sign
compare_keys a b = raw_compare (a.0) (b.0)

module _ (limit : ℕ) (axis : BudgetAxis) where
  unfoldable pub append : Text → Writer
  append fragment w =
      let next = w.bytes + byte_length fragment in
      if ltb limit next
      then err (exceeded encode [] axis (suc limit) limit)
      else ok (record { json = w.json ++ fragment; bytes = next })

  abbrev pub separate : Bool → Writer
  separate true w = ok w
  separate false w = append (codes ",") w

  -- The loop over the sorted keys of a record. Each comes with what writes its value.
  unfoldable pub visit_keys : Bool → List (Text × Writer) → Writer
  unfolding append
  visit_keys first [] w = ok w
  visit_keys first ((key, visit_value) ∷ keys) w =
      separate first w
      >>= append (quote key)
      >>= append (codes ":")
      >>= visit_value
      >>= visit_keys false keys

  unfoldable mutual
    unfolding append visit_keys

    pub visit : Value → Writer
    visit null_value w = append (codes "null") w
    visit (boolean_value b) w = append (boolean b) w
    visit (number_value n) w = append (number_text n) w
    visit (string_value s) w = append (quote s) w
    visit (array_value items) w =
        append (codes "[") w >>= visit_items true items >>= append (codes "]")
    visit (record_value fields) w =
        append (codes "{") w
        >>= visit_keys true (sort compare_keys (visit_fields fields))
        >>= append (codes "}")

    pub visit_items : Bool → Items → Writer
    visit_items first nil w = ok w
    visit_items first (cons v vs) w = separate first w >>= visit v >>= visit_items false vs

    -- The keys of a record, each with the visit of its value.
    pub visit_fields : Fields → List (Text × Writer)
    visit_fields end = []
    visit_fields (field key v fields) = (key, visit v) ∷ visit_fields fields

  unfoldable pub encode_canonical : Value → Result EnvelopeError Encoded
  unfolding visit
  encode_canonical v = visit v (record { json = []; bytes = 0 })
