-- ===== src/AttuneQl/Lexemes.antt =====
-- The tokens of a text that is made of lexemes with a space behind each.
use attunegraph.Common.{
  ℕ, suc, ◌+◌, ◌/◌, ◌%◌, ◌<◌, ◌≡◌, refl, ap, sym, Bool, true, false, Option, some, List, [], ◌∷◌,
  ◌++◌, Text, arith, length, All,
}
use mathlib.Core.List.{append_assoc}
use attunegraph.Json.{quote, quote_unit, quote_units, hex_digit, hex4, is_high, starts_low}
use attunegraph.Json.RoundTrip.{IsText}
use attunegraph.AttuneQl.Tokens.{
  TokenKind, word, integer, string, punctuation, Token, is_digit, is_letter, is_word,
  is_punctuation, span, onto, string_units,
}

pub record Lexeme : Type 0 where
  pub kind : TokenKind
  pub value : Text

abbrev pub text_of : TokenKind → Text → Text
text_of string value = quote value
text_of word value = value
text_of integer value = value
text_of punctuation value = value

abbrev pub lexeme_text : Lexeme → Text
lexeme_text x = text_of x.kind x.value

unfoldable pub render : List Lexeme → Text
render [] = []
render (x ∷ xs) = lexeme_text x ++ b' ' ∷ render xs

-- The tokens of a rendered list.
unfoldable pub place : ℕ → List Lexeme → List Token
place offset [] = []
place offset (x ∷ xs) =
    record { kind = x.kind; value = x.value; offset = offset }
    ∷ place (suc (offset + length (lexeme_text x))) xs

abbrev pub AllTrue : (ℕ → Bool) → Text → Type 0
AllTrue test s = All (λ c. test c ≡ true) s

-- A text that is not empty, with a test for the first unit and one for the others.
abbrev pub IsRun : (ℕ → Bool) → (ℕ → Bool) → Text → Type 0
IsRun first more [] = true ≡ false
IsRun first more (c ∷ s) = (first c ≡ true) × AllTrue more s

abbrev pub IsValue : TokenKind → Text → Type 0
IsValue word value = IsRun is_letter is_word value
IsValue integer value = IsRun is_digit is_digit value
IsValue string value = IsText value
IsValue punctuation [] = true ≡ false
IsValue punctuation (c ∷ s) = (is_punctuation c ≡ true) × (s ≡ [])

abbrev pub IsLexeme : Lexeme → Type 0
IsLexeme x = IsValue x.kind x.value

pub span_all :
    (test : ℕ → Bool) (s rest : Text)
    → test b' ' ≡ false
    → AllTrue test s
    → span test (s ++ b' ' ∷ rest) ≡ s
unfolding span
span_all test [] rest e h = rw e refl
span_all test (c ∷ s) rest e h = rw (h.0, span_all test s rest e h.1) refl

abbrev onto_all : Text → Option Text → Option Text
onto_all [] o = o
onto_all (c ∷ s) o = onto c (onto_all s o)

string_units-hex_digit :
    (d : ℕ) (s : Text)
    → d < 16
    → string_units false (hex_digit d ∷ s) ≡ onto (hex_digit d) (string_units false s)
unfolding string_units hex_digit
string_units-hex_digit d s h = ground arith

string_units-hex4 :
    (c : ℕ) (s : Text) → string_units false (hex4 c ++ s) ≡ onto_all (hex4 c) (string_units false s)
string_units-hex4 c s =
    rw
      (
        string_units-hex_digit (c / 4096 % 16) _ (omega arith),
        string_units-hex_digit (c / 256 % 16) _ (omega arith),
        string_units-hex_digit (c / 16 % 16) _ (omega arith),
        string_units-hex_digit (c % 16) s (omega arith),
      )
      refl

string_units-quote_unit :
    (p : Bool) (c : ℕ) (q : Bool) (s : Text)
    → string_units false (quote_unit p c q ++ s)
      ≡ onto_all (quote_unit p c q) (string_units false s)
unfolding string_units quote_unit
string_units-quote_unit p c q s = ground (arith, string_units-hex4 c s)

onto_all-some : (s t : Text) → onto_all s (some t) ≡ some (s ++ t)
onto_all-some [] t = refl
onto_all-some (c ∷ s) t = rw (onto_all-some s t) refl

pub string_units-quote_units :
    (p : Bool) (v rest : Text)
    → string_units false (quote_units p v ++ b'"' ∷ rest) ≡ some (quote_units p v ++ b'"' ∷ [])
unfolding string_units quote_units
string_units-quote_units p [] rest = refl
string_units-quote_units p (c ∷ v) rest =
    rw
      (
        append_assoc,
        string_units-quote_unit p c (starts_low v) (quote_units (is_high c) v ++ b'"' ∷ rest),
        string_units-quote_units (is_high c) v rest,
        onto_all-some (quote_unit p c (starts_low v)) (quote_units (is_high c) v ++ b'"' ∷ []),
      )
      (ap some (
        sym (append_assoc (quote_unit p c (starts_low v)) (quote_units (is_high c) v) (b'"' ∷ []))))
