-- ===== src/Json.antt =====
-- `JSON.stringify` and `JSON.parse` on strings, as the sources use them: for the keys of the
-- indexes (src/validation.ts), for the fingerprints and for the literals of AttuneQL.
pub mod RoundTrip
pub mod Print
pub mod Sizes
pub mod Varies
use attunegraph.Common.{
  ℕ, suc, zero, ◌+◌, ◌*◌, ◌/◌, ◌%◌, ◌-◌, Bool, true, false, ◌&&◌, ◌||◌, not, Option, none, some,
  List, [], ◌∷◌, ◌++◌, ltb, leb, ◌==◌, if◌then◌else◌, Text, codes,
}

unfoldable pub is_high : ℕ → Bool
is_high c = leb 0xd800 c && leb c 0xdbff

unfoldable pub is_low : ℕ → Bool
is_low c = leb 0xdc00 c && leb c 0xdfff

unfoldable pub starts_low : Text → Bool
starts_low [] = false
starts_low (c ∷ s) = is_low c

unfoldable pub hex_digit : ℕ → ℕ
hex_digit d = if ltb d 10 then d + 48 else d + 87

abbrev pub hex4 : ℕ → Text
hex4 c =
    hex_digit (c / 4096 % 16)
    ∷ hex_digit (c / 256 % 16)
    ∷ hex_digit (c / 16 % 16)
    ∷ hex_digit (c % 16)
    ∷ []

-- One code unit in a string literal. A surrogate without its partner is escaped.
unfoldable pub quote_unit : Bool → ℕ → Bool → Text
quote_unit after_high c before_low =
    if c == b'"'
    then 92 ∷ b'"' ∷ []
    else if c == 92
    then 92 ∷ 92 ∷ []
    else if c == 8
    then 92 ∷ b'b' ∷ []
    else if c == 9
    then 92 ∷ b't' ∷ []
    else if c == 10
    then 92 ∷ b'n' ∷ []
    else if c == 12
    then 92 ∷ b'f' ∷ []
    else if c == 13
    then 92 ∷ b'r' ∷ []
    else if ltb c 32 || (is_high c && not before_low) || (is_low c && not after_high)
    then 92 ∷ b'u' ∷ hex4 c
    else c ∷ []

unfoldable pub quote_units : Bool → Text → Text
quote_units after_high [] = []
quote_units after_high (c ∷ s) = quote_unit after_high c (starts_low s) ++ quote_units (is_high c) s

-- `JSON.stringify(text)`
unfoldable pub quote : Text → Text
unfolding quote_units quote_unit starts_low is_high is_low hex_digit
quote s = b'"' ∷ (quote_units false s ++ b'"' ∷ [])

-- Where the reader of a string literal stands.
pub data Mode : Type 0 where
  plain escaped : Mode
  hex : ℕ → ℕ → Mode

pub data Move : Type 0 where
  close fault : Move
  next : Mode → Text → Move

pub hex_value : ℕ → Option ℕ
hex_value c =
    if leb b'0' c && leb c b'9'
    then some (c - 48)
    else if leb b'a' c && leb c b'f'
    then some (c - 87)
    else if leb b'A' c && leb c b'F'
    then some (c - 55)
    else none

-- A digit of a `\u` escape; `left` digits follow it.
pub hex_move : ℕ → ℕ → Option ℕ → Move
hex_move left value none = fault
hex_move zero value (some d) = next plain ((value * 16 + d) ∷ [])
hex_move (suc left) value (some d) = next (hex left (value * 16 + d)) []

pub escape_move : ℕ → Move
escape_move c =
    if c == b'"' || c == 92 || c == b'/'
    then next plain (c ∷ [])
    else if c == b'b'
    then next plain (8 ∷ [])
    else if c == b't'
    then next plain (9 ∷ [])
    else if c == b'n'
    then next plain (10 ∷ [])
    else if c == b'f'
    then next plain (12 ∷ [])
    else if c == b'r'
    then next plain (13 ∷ [])
    else if c == b'u'
    then next (hex 3 0) []
    else fault

pub move : Mode → ℕ → Move
move plain c =
    if c == b'"'
    then close
    else if c == 92
    then next escaped []
    else if ltb c 32
    then fault
    else next plain (c ∷ [])
move escaped c = escape_move c
move (hex left value) c = hex_move left value (hex_value c)

abbrev pub prepend : Text → Option (Text × Text) → Option (Text × Text)
prepend out none = none
prepend out (some (s, rest)) = some (out ++ s, rest)

-- The literal behind its opening quote, and the text behind its closing one.
pub read : Mode → Text → Option (Text × Text)
read m [] = none
read m (c ∷ s) = elim (move m c) [
  | close ↦ some ([], s)
  | fault ↦ none
  | next m' out ↦ prepend out (read m' s)
]

abbrev whole : Option (Text × Text) → Option Text
whole none = none
whole (some (s, [])) = some s
whole (some (s, c ∷ rest)) = none

-- `JSON.parse(raw)` of a text that begins with a quote; `none` is the exception.
unfoldable pub parse_literal : Text → Option Text
unfolding read move escape_move hex_move hex_value
parse_literal [] = none
parse_literal (c ∷ raw) = if c == b'"' then whole (read plain raw) else none
