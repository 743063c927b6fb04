-- ===== src/Json/Print.antt =====
-- `JSON.stringify` of numbers, arrays and objects, whose parts are given as texts, and the length of
-- a text in UTF-8.
use attunegraph.Common.{
  ℕ, zero, suc, ◌+◌, ◌/◌, ◌%◌, Bool, true, false, ◌&&◌, List, [], ◌∷◌, ◌++◌, ltb, if◌then◌else◌,
  Text, codes,
}
use attunegraph.Json.{is_high, is_low, quote, starts_low}

-- The digits of a number, with as many rounds as the number.
unfoldable pub decimal_onto : ℕ → ℕ → Text → Text
decimal_onto zero n rest = (b'0' + n % 10) ∷ rest
decimal_onto (suc fuel) n rest =
    let more = decimal_onto fuel (n / 10) ((b'0' + n % 10) ∷ rest) in
    if ltb n 10 then (b'0' + n) ∷ rest else more

unfoldable pub number : ℕ → Text
unfolding decimal_onto
number n = decimal_onto n n []

unfoldable pub boolean : Bool → Text
boolean true = codes "true"
boolean false = codes "false"

unfoldable pub more_items : List Text → Text
more_items [] = codes "]"
more_items (item ∷ items) = b',' ∷ (item ++ more_items items)

unfoldable pub array : List Text → Text
unfolding more_items
array [] = codes "[]"
array (item ∷ items) = b'[' ∷ (item ++ more_items items)

unfoldable pub more_fields : List (Text × Text) → Text
more_fields [] = codes "}"
more_fields ((name, value) ∷ fields) = b',' ∷ (quote name ++ b':' ∷ (value ++ more_fields fields))

unfoldable pub object : List (Text × Text) → Text
unfolding more_fields
object [] = codes "{}"
object ((name, value) ∷ fields) = b'{' ∷ (quote name ++ b':' ∷ (value ++ more_fields fields))

-- The bytes of a code unit: the two units of a surrogate pair have four together, and a surrogate
-- without its partner is encoded as a replacement character of three.
unfoldable pub unit_bytes : Bool → ℕ → Bool → ℕ
unit_bytes after_high c before_low =
    if ltb c 128
    then 1
    else if ltb c 2048
    then 2
    else if is_high c && before_low
    then 2
    else if is_low c && after_high
    then 2
    else 3

unfoldable pub byte_length_from : Bool → Text → ℕ
byte_length_from after_high [] = 0
byte_length_from after_high (c ∷ s) =
    unit_bytes after_high c (starts_low s) + byte_length_from (is_high c) s

-- `Buffer.byteLength(text, "utf8")`
unfoldable pub byte_length : Text → ℕ
unfolding byte_length_from unit_bytes starts_low is_high is_low
byte_length s = byte_length_from false s
