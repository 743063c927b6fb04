-- ===== src/AttuneQl/Lexing.antt =====
-- A text that is made of lexemes is read as their tokens.
use attunegraph.Common.{
  ℕ, suc, ◌+◌, ◌≤◌, ◌<◌, ◌≡◌, refl, ap, ◌∙◌, true, false, List, [], ◌∷◌, ◌++◌, leb, ◌==◌, Text,
  arith, length, All, ok,
}
use mathlib.Core.List.{append_assoc}
use attunegraph.Json.{quote}
use attunegraph.Json.RoundTrip.{IsText, parse_literal-quote}
use attunegraph.Validation.{is_space}
use attunegraph.AttuneQl.Tokens.{
  TokenKind, word, integer, string, punctuation, Token, is_digit, is_letter, is_word,
  is_punctuation, read_token, tokenize_from, max_attuneql_tokens,
}
use attunegraph.AttuneQl.Lexemes.{
  Lexeme, text_of, lexeme_text, render, place, IsRun, IsValue, IsLexeme, span_all,
  string_units-quote_units,
}

-- What is read at the first unit of a rendered lexeme.
abbrev Reads : ℕ → Lexeme → Text → Text → Type 0
Reads offset x [] rest = true ≡ false
Reads offset x (c ∷ s) rest =
    (is_space c ≡ false)
    × (read_token offset c (s ++ b' ' ∷ rest)
        ≡ ok (record { kind = x.kind; value = x.value; offset = offset }, length s))

-- A letter is nothing else that a token can begin with,
letter_alone :
    (c : ℕ)
    → is_letter c ≡ true
    → (is_space c ≡ false)
      × (is_punctuation c ≡ false)
      × ((c == b'"') ≡ false)
      × (is_digit c ≡ false)
unfolding is_letter is_space is_punctuation is_digit
letter_alone c h =
    let low : 65 ≤ c = ground (arith, h) in
    let high : c ≤ 122 = ground (arith, h) in
    (ground arith, ground arith, ground arith, ground arith)

-- and neither is a digit.
digit_alone :
    (c : ℕ)
    → is_digit c ≡ true
    → (is_space c ≡ false) × (is_punctuation c ≡ false) × ((c == b'"') ≡ false)
unfolding is_space is_punctuation is_digit
digit_alone c h =
    let low : 48 ≤ c = ground (arith, h) in
    let high : c ≤ 57 = ground (arith, h) in (ground arith, ground arith, ground arith)

punctuation-is_space : (c : ℕ) → is_punctuation c ≡ true → is_space c ≡ false
unfolding is_space is_punctuation
punctuation-is_space c h =
    let low : 40 ≤ c = ground (arith, h) in let high : c ≤ 59 = ground (arith, h) in ground arith

is_word-space : is_word b' ' ≡ false
unfolding is_word is_letter is_digit
is_word-space = refl

is_digit-space : is_digit b' ' ≡ false
unfolding is_digit
is_digit-space = refl

read_word :
    (offset : ℕ) (w rest : Text)
    → IsRun is_letter is_word w
    → Reads offset (record { kind = word; value = w }) w rest
unfolding read_token
read_word offset [] rest h = h
read_word offset (c ∷ s) rest h =
    let other = letter_alone c h.0 in
    (other.0, rw (other.1, other.2, other.3, h.0, span_all is_word s rest is_word-space h.1) refl)

read_integer :
    (offset : ℕ) (w rest : Text)
    → IsRun is_digit is_digit w
    → Reads offset (record { kind = integer; value = w }) w rest
unfolding read_token
read_integer offset [] rest h = h
read_integer offset (c ∷ s) rest h =
    let other = digit_alone c h.0 in
    (other.0, rw (other.1, other.2, h.0, span_all is_digit s rest is_digit-space h.1) refl)

read_string :
    (offset : ℕ) (v rest : Text)
    → IsText v
    → Reads offset (record { kind = string; value = v }) (quote v) rest
unfolding read_token is_space is_punctuation quote
read_string offset v rest h = (
  refl,
  rw (append_assoc, string_units-quote_units false v (b' ' ∷ rest))
      (let same = parse_literal-quote v h in rw same refl),
)

read_punctuation :
    (offset : ℕ) (w rest : Text)
    → IsValue punctuation w
    → Reads offset (record { kind = punctuation; value = w }) w rest
unfolding read_token
read_punctuation offset [] rest h = h
read_punctuation offset (c ∷ s) rest h = (punctuation-is_space c h.0, rw (h.0, h.1) refl)

read_value :
    (offset : ℕ) (kind : TokenKind) (v rest : Text)
    → IsValue kind v
    → Reads offset (record { kind = kind; value = v }) (text_of kind v) rest
read_value offset word v rest h = read_word offset v rest h
read_value offset integer v rest h = read_integer offset v rest h
read_value offset string v rest h = read_string offset v rest h
read_value offset punctuation v rest h = read_punctuation offset v rest h

is_space-space : is_space b' ' ≡ true
unfolding is_space
is_space-space = refl

tokenize_space :
    (offset count : ℕ) (rest : Text)
    → tokenize_from 0 offset count (b' ' ∷ rest) ≡ tokenize_from 0 (suc offset) count rest
unfolding tokenize_from
tokenize_space offset count rest = rw is_space-space refl

tokenize-nil : (offset count : ℕ) → tokenize_from 0 offset count [] ≡ ok []
unfolding tokenize_from
tokenize-nil offset count = refl

skip_lem :
    (s rest : Text) (offset count : ℕ)
    → tokenize_from (length s) offset count (s ++ rest)
      ≡ tokenize_from 0 (offset + length s) count rest
unfolding tokenize_from
skip_lem [] rest offset count = ap (λ o. tokenize_from 0 o count rest) (omega arith)
skip_lem (c ∷ s) rest offset count =
    skip_lem s rest (suc offset) count ∙ ap (λ o. tokenize_from 0 o count rest) (omega arith)

-- One lexeme and its space in front of a text.
tokenize_lexeme :
    (offset count : ℕ) (x : Lexeme) (w rest : Text) (tokens : List Token)
    → Reads offset x w rest
    → count < max_attuneql_tokens
    → tokenize_from 0 (suc (offset + length w)) (suc count) rest ≡ ok tokens
    → tokenize_from 0 offset count (w ++ b' ' ∷ rest)
      ≡ ok (record { kind = x.kind; value = x.value; offset = offset } ∷ tokens)
unfolding tokenize_from
tokenize_lexeme offset count x [] rest tokens r few h = absurd (cc)
tokenize_lexeme offset count x (c ∷ s) rest tokens r few h =
    let fits : leb (suc count) max_attuneql_tokens ≡ true = ground (arith, few) in
    let space : tokenize_from 0 (suc offset + length s) (suc count) (b' ' ∷ rest) ≡ ok tokens =
      tokenize_space (suc offset + length s) (suc count) rest
      ∙ ap (λ o. tokenize_from 0 o (suc count) rest) (omega arith)
      ∙ h in
    rw (r.0, r.1, fits, skip_lem s (b' ' ∷ rest) (suc offset) (suc count), space) refl

-- A rendered list is read as its tokens, each at its place.
pub tokenize_from-render :
    (xs : List Lexeme) (offset count : ℕ)
    → All IsLexeme xs
    → count + length xs ≤ max_attuneql_tokens
    → tokenize_from 0 offset count (render xs) ≡ ok (place offset xs)
unfolding render place
tokenize_from-render [] offset count h few = tokenize-nil offset count
tokenize_from-render (x ∷ xs) offset count h few =
    tokenize_lexeme offset count x (lexeme_text x) (render xs)
      (place (suc (offset + length (lexeme_text x))) xs)
      (read_value offset x.kind x.value (render xs) h.0) (omega (arith, few))
      (tokenize_from-render xs (suc (offset + length (lexeme_text x))) (suc count) h.1
        (omega (arith, few)))
