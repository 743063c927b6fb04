-- ===== src/AttuneQl/Tokens.antt =====
-- src/attuneql.ts: `tokenize`. The loop goes through the source unit by unit: the units of a token
-- that are read with its first one are skipped.
use attunegraph.Common.{
  ℕ, zero, suc, ◌+◌, Bool, true, false, ◌&&◌, ◌||◌, Option, none, some, List, [], ◌∷◌, ◌==◌, leb,
  if◌then◌else◌, Text, length, Result, ok, err, ◌>>=◌, ◌>>◌, guard,
}
use attunegraph.Json.{parse_literal}
use attunegraph.Validation.{is_space}
use attunegraph.Decision.{GraphError}

abbrev pub max_attuneql_code_units : ℕ
max_attuneql_code_units = 8_192

abbrev pub max_attuneql_tokens : ℕ
max_attuneql_tokens = 64

-- What `parseAttuneQL` throws: a syntax error with its offset, or an error of the normalization.
pub data QueryError : Type 0 where
  syntax : ℕ → QueryError
  semantic : GraphError → QueryError

pub data TokenKind : Type 0 where
  word integer string punctuation : TokenKind

pub record Token : Type 0 where
  pub kind : TokenKind
  pub value : Text
  pub offset : ℕ

unfoldable pub is_digit : ℕ → Bool
is_digit c = leb b'0' c && leb c b'9'

unfoldable pub is_letter : ℕ → Bool
is_letter c = (leb b'A' c && leb c b'Z') || (leb b'a' c && leb c b'z')

unfoldable pub is_word : ℕ → Bool
is_word c = is_letter c || is_digit c || c == b'_' || c == b'-'

unfoldable pub is_punctuation : ℕ → Bool
is_punctuation c = c == b'(' || c == b')' || c == b',' || c == b';'

-- The units in front of the first one that fails the test.
unfoldable pub span : (ℕ → Bool) → Text → Text
span test [] = []
span test (c ∷ s) = let rest = span test s in if test c then c ∷ rest else []

abbrev pub onto : ℕ → Option Text → Option Text
onto c none = none
onto c (some s) = some (c ∷ s)

-- The units of a string behind its opening quote, the closing one included.
unfoldable pub string_units : Bool → Text → Option Text
string_units escaped [] = none
string_units true (c ∷ s) = onto c (string_units false s)
string_units false (c ∷ s) =
    let rest = string_units (c == 92) s in if c == b'"' then some (c ∷ []) else onto c rest

-- A token and how many units it has behind its first one.
abbrev pub Lexed : Type 0
Lexed = Result QueryError (Token × ℕ)

abbrev pub string_value : ℕ → ℕ → Option Text → Lexed
string_value offset extra none = err (syntax offset)
string_value offset extra (some value) =
    ok (record { kind = string; value = value; offset = offset }, extra)

abbrev pub string_token : ℕ → Option Text → Lexed
string_token offset none = err (syntax offset)
string_token offset (some units) = string_value offset (length units) (parse_literal (b'"' ∷ units))

unfoldable pub read_token : ℕ → ℕ → Text → Lexed
read_token offset c s =
    if is_punctuation c
    then ok (record { kind = punctuation; value = c ∷ []; offset = offset }, 0)
    else if c == b'"'
    then string_token offset (string_units false s)
    else if is_digit c
    then ok (
      record { kind = integer; value = c ∷ span is_digit s; offset = offset },
      length (span is_digit s),
    )
    else if is_letter c
    then ok (
      record { kind = word; value = c ∷ span is_word s; offset = offset },
      length (span is_word s),
    )
    else err (syntax offset)

-- `count` tokens stand before the text; an error of the budget has the offset behind the token.
unfoldable pub tokenize_from : ℕ → ℕ → ℕ → Text → Result QueryError (List Token)
tokenize_from skip offset count [] = ok []
tokenize_from (suc skip) offset count (c ∷ s) = tokenize_from skip (suc offset) count s
tokenize_from zero offset count (c ∷ s) =
    if is_space c then tokenize_from zero (suc offset) count s else (do
      (token, extra) ← read_token offset c s
      guard (leb (suc count) max_attuneql_tokens) (syntax (suc (offset + extra)))
      tokens ← tokenize_from extra (suc offset) (suc count) s
      ok (token ∷ tokens))

unfoldable pub tokenize : Text → Result QueryError (List Token)
tokenize source = do
  guard (leb 1 (length source) && leb (length source) max_attuneql_code_units) (syntax 0)
  tokenize_from 0 0 0 source
