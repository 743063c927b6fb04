-- ===== src/Json/RoundTrip.antt =====
-- The reader of string literals inverts the printer.
use attunegraph.Common.{
  ℕ, ◌+◌, ◌*◌, ◌<◌, ◌/◌, ◌%◌, ◌≡◌, refl, Bool, false, Option, none, some, [], ◌∷◌, ◌++◌, Text,
  arith, ap, ◌∙◌, suc, All,
}
use mathlib.Core.List.{append_assoc}
use attunegraph.Json.{
  is_high, starts_low, hex_digit, hex4, quote_unit, quote_units, quote, plain, hex, hex_value,
  hex_move, escape_move, move, prepend, read, parse_literal,
}

-- The units of a string are 16 bits wide.
abbrev pub IsText : Text → Type 0
IsText s = All (λ c. c < 65536) s

hex_value-hex_digit : (d : ℕ) → d < 16 → hex_value (hex_digit d) ≡ some d
unfolding hex_value hex_digit
hex_value-hex_digit d h = ground arith

prepend-nil : (o : Option (Text × Text)) → prepend [] o ≡ o
prepend-nil none = refl
prepend-nil (some (s, r)) = refl

read-hex_digit :
    (left v d : ℕ) (s : Text)
    → d < 16
    → read (hex (suc left) v) (hex_digit d ∷ s) ≡ read (hex left (v * 16 + d)) s
unfolding read move hex_move
read-hex_digit left v d s h =
    ground (arith, hex_value-hex_digit d h, prepend-nil (read (hex left (v * 16 + d)) s))

read-last_digit :
    (v d : ℕ) (s : Text)
    → d < 16
    → read (hex 0 v) (hex_digit d ∷ s) ≡ prepend ((v * 16 + d) ∷ []) (read plain s)
unfolding read move hex_move
read-last_digit v d s h = ground (arith, hex_value-hex_digit d h)

read-hex4 :
    (c : ℕ) (s : Text) → c < 65536 → read (hex 3 0) (hex4 c ++ s) ≡ prepend (c ∷ []) (read plain s)
read-hex4 c s h =
    let a = c / 4096 % 16 in
    let b = c / 256 % 16 in
    let d = c / 16 % 16 in
    let value : ((((0 * 16 + a) * 16 + b) * 16 + d) * 16 + c % 16) ≡ c = omega arith in
    read-hex_digit 2 0 a (hex_digit b ∷ hex_digit d ∷ hex_digit (c % 16) ∷ s) (omega arith)
    ∙ read-hex_digit 1 (0 * 16 + a) b (hex_digit d ∷ hex_digit (c % 16) ∷ s) (omega arith)
    ∙ read-hex_digit 0 ((0 * 16 + a) * 16 + b) d (hex_digit (c % 16) ∷ s) (omega arith)
    ∙ read-last_digit (((0 * 16 + a) * 16 + b) * 16 + d) (c % 16) s (omega arith)
    ∙ ap (λ n. prepend (n ∷ []) (read plain s)) value

-- What is printed for one unit is read as that unit.
read-quote_unit :
    (p : Bool) (c : ℕ) (q : Bool) (s : Text)
    → c < 65536
    → read plain (quote_unit p c q ++ s) ≡ prepend (c ∷ []) (read plain s)
unfolding read move escape_move quote_unit
read-quote_unit p c q s h =
    ground (arith, read-hex4 c s h, prepend-nil (read (hex 3 0) (hex4 c ++ s)))

read-quote_units :
    (p : Bool) (s rest : Text)
    → IsText s
    → read plain (quote_units p s ++ b'"' ∷ rest) ≡ some (s, rest)
unfolding quote_units read move
read-quote_units p [] rest h = ground arith
read-quote_units p (c ∷ s) rest h = rw (
  append_assoc,
  read-quote_unit p c (starts_low s) (quote_units (is_high c) s ++ b'"' ∷ rest) h.0,
  read-quote_units (is_high c) s rest h.1,
)

-- Reading a printed literal gives the string back, and ends exactly behind the literal.
pub read-quote :
    (s rest : Text) → IsText s → read plain (quote_units false s ++ b'"' ∷ rest) ≡ some (s, rest)
read-quote s rest h = read-quote_units false s rest h

-- A string of 16-bit code units that `JSON.stringify` prints is read back as the same string by
-- `JSON.parse`, lone surrogates and control characters included.
pub parse_literal-quote : (s : Text) → IsText s → parse_literal (quote s) ≡ some s
unfolding parse_literal quote
parse_literal-quote s h = rw (read-quote_units false s [] h)

-- A literal is no proper prefix of another: what follows it is determined too.
pub quote_split :
    (s t rest rest' : Text)
    → IsText s
    → IsText t
    → quote s ++ rest ≡ quote t ++ rest'
    → (s ≡ t) × (rest ≡ rest')
unfolding quote
quote_split s t rest rest' hs ht e = ground (
  arith,
  read-quote s rest hs,
  read-quote t rest' ht,
  append_assoc (quote_units false s) (b'"' ∷ []) rest,
  append_assoc (quote_units false t) (b'"' ∷ []) rest',
)
