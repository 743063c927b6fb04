-- ===== src/AttuneQl/QueryText.antt =====
-- A text in the query language for each query.
use attunegraph.Common.{
  ℕ, zero, suc, ◌+◌, ◌/◌, ◌%◌, ◌≤◌, ◌≡◌, refl, sym, Bool, true, false, ◌&&◌, List, [], ◌∷◌, ltb,
  Text, codes, arith, length, All, Bool-cases, inl, inr,
}
use attunegraph.Json.Print.{decimal_onto, number}
use attunegraph.Json.RoundTrip.{IsText}
use attunegraph.Graph.Types.{NodeKind, node_kind_text}
use attunegraph.Decision.{Head, current, exact, DecisionQuery}
use attunegraph.AttuneQl.Tokens.{
  word, integer, string, punctuation, is_digit, is_letter, is_word, is_punctuation,
}
use attunegraph.AttuneQl.Lexemes.{Lexeme, render, AllTrue, IsRun, IsLexeme}

decimal_onto-IsRun :
    (fuel n : ℕ) (rest : Text)
    → AllTrue is_digit rest
    → IsRun is_digit is_digit (decimal_onto fuel n rest)
unfolding decimal_onto is_digit
decimal_onto-IsRun zero n rest h = (ground arith, h)
decimal_onto-IsRun (suc fuel) n rest h = elim (Bool-cases (ltb n 10)) [
  | inl small ↦ rw small (ground (arith, small), h)
  | inr large ↦
      rw large (decimal_onto-IsRun fuel (n / 10) ((b'0' + n % 10) ∷ rest) (ground arith, h))
]

number-IsRun : (n : ℕ) → IsRun is_digit is_digit (number n)
unfolding number
number-IsRun n = decimal_onto-IsRun n n [] tt

-- Lexemes of the four kinds.
abbrev pub a_word : Text → Lexeme
a_word value = record { kind = word; value = value }

abbrev pub an_integer : ℕ → Lexeme
an_integer n = record { kind = integer; value = number n }

abbrev pub a_string : Text → Lexeme
a_string value = record { kind = string; value = value }

abbrev pub a_mark : ℕ → Lexeme
a_mark c = record { kind = punctuation; value = c ∷ [] }

abbrev pub head_lexemes : Head → List Lexeme → List Lexeme
head_lexemes current rest = a_word (codes "CURRENT") ∷ a_word (codes "HEAD") ∷ rest
head_lexemes (exact generation commit_id) rest =
    a_word (codes "HEAD") ∷ an_integer generation ∷ a_string commit_id ∷ rest

abbrev pub budget_lexemes : ℕ → List Lexeme
budget_lexemes n =
    a_word (codes "REQUIRE")
    ∷ a_word (codes "FRESH")
    ∷ a_word (codes "BUDGET")
    ∷ an_integer n
    ∷ a_word (codes "TOKENS")
    ∷ a_mark b';'
    ∷ []

abbrev pub query_lexemes : DecisionQuery → List Lexeme
query_lexemes q =
    a_word (codes "EVIDENCE")
    ∷ a_word (codes "FOR")
    ∷ a_word (node_kind_text q.seed.kind)
    ∷ a_mark b'('
    ∷ a_string q.seed.id
    ∷ a_mark b')'
    ∷ a_word (codes "IN")
    ∷ a_word (codes "SCOPE")
    ∷ a_mark b'('
    ∷ a_string q.source_id
    ∷ a_mark b','
    ∷ a_string q.thread_id
    ∷ a_mark b')'
    ∷ a_word (codes "AS")
    ∷ a_word (codes "OF")
    ∷ a_string q.as_of
    ∷ a_word (codes "AT")
    ∷ head_lexemes q.head (budget_lexemes q.max_estimated_tokens)

-- The text of a query.
unfoldable pub query_text : DecisionQuery → Text
query_text q = render (query_lexemes q)

abbrev pub IsHeadText : Head → Type 0
IsHeadText current = Unit
IsHeadText (exact generation commit_id) = IsText commit_id

-- The texts of a query have 16-bit units.
pub record IsQueryText (q : DecisionQuery) : Type 0 where
  pub source_id : IsText q.source_id
  pub thread_id : IsText q.thread_id
  pub seed_id : IsText q.seed.id
  pub as_of : IsText q.as_of
  pub head : IsHeadText q.head

all_true : (ℕ → Bool) → Text → Bool
all_true test [] = true
all_true test (c ∷ s) = test c && all_true test s

all_true-AllTrue : (test : ℕ → Bool) (s : Text) → all_true test s ≡ true → AllTrue test s
unfolding all_true
all_true-AllTrue test [] h = tt
all_true-AllTrue test (c ∷ s) h = (ground arith, all_true-AllTrue test s (ground arith))

is_word_text : Text → Bool
is_word_text [] = false
is_word_text (c ∷ s) = is_letter c && all_true is_word s

is_word_text-IsRun : (s : Text) → is_word_text s ≡ true → IsRun is_letter is_word s
unfolding is_word_text
is_word_text-IsRun [] h = sym h
is_word_text-IsRun (c ∷ s) h = (ground arith, all_true-AllTrue is_word s (ground arith))

kind_word : (kind : NodeKind) → is_word_text (node_kind_text kind) ≡ true
unfolding node_kind_text is_word_text all_true is_letter is_word is_digit
kind_word NodeKind.thread = refl
kind_word NodeKind.artifact = refl
kind_word NodeKind.evidence = refl
kind_word NodeKind.delivery = refl
kind_word NodeKind.outcome = refl
kind_word NodeKind.policy = refl
kind_word NodeKind.decision = refl
kind_word NodeKind.action = refl

budget_lexemes-IsLexeme : (n : ℕ) → All IsLexeme (budget_lexemes n)
unfolding is_word_text all_true is_letter is_word is_digit is_punctuation
budget_lexemes-IsLexeme n = (
  is_word_text-IsRun (codes "REQUIRE") refl,
  (
    is_word_text-IsRun (codes "FRESH") refl,
    (
      is_word_text-IsRun (codes "BUDGET") refl,
      (number-IsRun n, (is_word_text-IsRun (codes "TOKENS") refl, ((refl, refl), (tt)))),
    ),
  ),
)

head_lexemes-IsLexeme :
    (head : Head) (rest : List Lexeme)
    → IsHeadText head
    → All IsLexeme rest
    → All IsLexeme (head_lexemes head rest)
unfolding is_word_text all_true is_letter is_word is_digit
head_lexemes-IsLexeme current rest t h =
    (is_word_text-IsRun (codes "CURRENT") refl, (is_word_text-IsRun (codes "HEAD") refl, h))
head_lexemes-IsLexeme (exact generation commit_id) rest t h =
    (is_word_text-IsRun (codes "HEAD") refl, (number-IsRun generation, (t, h)))

pub query_lexemes-IsLexeme : (q : DecisionQuery) → IsQueryText q → All IsLexeme (query_lexemes q)
unfolding is_word_text all_true is_letter is_word is_digit is_punctuation
query_lexemes-IsLexeme q t = (
  is_word_text-IsRun (codes "EVIDENCE") refl,
  (
    is_word_text-IsRun (codes "FOR") refl,
    (
      is_word_text-IsRun (node_kind_text q.seed.kind) (kind_word q.seed.kind),
      (
        (refl, refl),
        (
          t.seed_id,
          (
            (refl, refl),
            (
              is_word_text-IsRun (codes "IN") refl,
              (
                is_word_text-IsRun (codes "SCOPE") refl,
                (
                  (refl, refl),
                  (
                    t.source_id,
                    (
                      (refl, refl),
                      (
                        t.thread_id,
                        (
                          (refl, refl),
                          (
                            is_word_text-IsRun (codes "AS") refl,
                            (
                              is_word_text-IsRun (codes "OF") refl,
                              (
                                t.as_of,
                                (
                                  is_word_text-IsRun (codes "AT") refl,
                                  (head_lexemes-IsLexeme q.head
                                      (budget_lexemes q.max_estimated_tokens) t.head
                                      (budget_lexemes-IsLexeme q.max_estimated_tokens)),
                                ),
                              ),
                            ),
                          ),
                        ),
                      ),
                    ),
                  ),
                ),
              ),
            ),
          ),
        ),
      ),
    ),
  ),
)

head_lexemes_few : (head : Head) (n : ℕ) → length (head_lexemes head (budget_lexemes n)) ≤ 10
head_lexemes_few current n = omega arith
head_lexemes_few (exact generation commit_id) n = omega arith

pub query_lexemes_few : (q : DecisionQuery) → 0 + length (query_lexemes q) ≤ 64
query_lexemes_few q = omega (arith, head_lexemes_few q.head q.max_estimated_tokens)
