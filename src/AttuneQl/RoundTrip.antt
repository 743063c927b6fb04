-- ===== src/AttuneQl/RoundTrip.antt =====
-- A text for each query, which the parser reads as that query.
use attunegraph.Common.{
  ℕ, zero, suc, ◌+◌, ◌/◌, ◌%◌, ◌≤◌, ◌≡◌, refl, ap, ◌∙◌, true, some, List, [], ◌∷◌, leb, ltb, Text,
  text_eq, arith, length, ok, Bool-cases, inl, inr, leb→le,
}
use attunegraph.Json.{quote}
use attunegraph.Json.Print.{decimal_onto, number}
use attunegraph.Graph.Types.{NodeKind, node_kind_text}
use attunegraph.Graph.Constants.{max_activation_estimated_tokens}
use attunegraph.Decision.{
  Head, current, exact, DecisionQuery, max_safe_integer, positive_integer, head_ok, query_ok,
  normalize_decision_query,
}
use attunegraph.AttuneQl.Tokens.{tokenize, max_attuneql_code_units}
use attunegraph.AttuneQl.Lexemes.{Lexeme, place}
use attunegraph.AttuneQl.Lexing.{tokenize_from-render}
use attunegraph.AttuneQl.QueryText.{
  head_lexemes, budget_lexemes, query_lexemes, query_text, IsQueryText, query_lexemes-IsLexeme,
  query_lexemes_few,
}
use attunegraph.AttuneQl.Lengths.{query_text_pos, length-query_text}
use attunegraph.AttuneQl.{
  node_kinds, kind_of_text, to_upper, to_lower, digits_value, take_token, expect_word,
  expect_punctuation, take_string, take_integer, take_kind, take_head, expect_end, parse_tokens,
  parse_attuneql,
}

digits_value-decimal_onto :
    (fuel n : ℕ) (rest : Text)
    → n ≤ fuel
    → digits_value 0 (decimal_onto fuel n rest) ≡ digits_value n rest
unfolding digits_value decimal_onto
digits_value-decimal_onto zero n rest h = ap (λ v. digits_value v rest) (omega (arith, h))
digits_value-decimal_onto (suc fuel) n rest h = elim (Bool-cases (ltb n 10)) [
  | inl small ↦ rw small (ap (λ v. digits_value v rest) (omega arith))
  | inr large ↦ rw large (
      digits_value-decimal_onto fuel (n / 10) ((b'0' + n % 10) ∷ rest) (omega (arith, h))
      ∙ ap (λ v. digits_value v rest) (omega arith))
]

digits_value-number : (n : ℕ) → digits_value 0 (number n) ≡ n
unfolding number digits_value
digits_value-number n = digits_value-decimal_onto n n [] (omega arith)

kind_of_text-node_kind_text :
    (kind : NodeKind) → kind_of_text (to_lower (node_kind_text kind)) node_kinds ≡ some kind
unfolding node_kind_text kind_of_text to_lower node_kinds text_eq
kind_of_text-node_kind_text NodeKind.thread = refl
kind_of_text-node_kind_text NodeKind.artifact = refl
kind_of_text-node_kind_text NodeKind.evidence = refl
kind_of_text-node_kind_text NodeKind.delivery = refl
kind_of_text-node_kind_text NodeKind.outcome = refl
kind_of_text-node_kind_text NodeKind.policy = refl
kind_of_text-node_kind_text NodeKind.decision = refl
kind_of_text-node_kind_text NodeKind.action = refl

-- Where the lexemes behind the head begin.
abbrev head_end : ℕ → Head → ℕ
head_end offset current = suc (suc (offset + 7) + 4)
head_end offset (exact generation commit_id) =
    suc (suc (suc (offset + 4) + length (number generation)) + length (quote commit_id))

take_head-place :
    (size offset : ℕ) (head : Head) (rest : List Lexeme)
    → head_ok head ≡ true
    → take_head size (place offset (head_lexemes head rest))
      ≡ ok (head, place (head_end offset head) rest)
unfolding take_head head_ok place take_token expect_word take_integer take_string to_upper text_eq
    positive_integer
take_head-place size offset current rest h = refl
take_head-place size offset (exact generation commit_id) rest h =
    let small : leb generation max_safe_integer ≡ true = ground (arith, h) in
    rw (digits_value-number generation, small) refl

-- Its tokens are read as the query.
parse_tokens-place :
    (size offset : ℕ) (q : DecisionQuery)
    → query_ok q ≡ true
    → parse_tokens size (place offset (query_lexemes q)) ≡ ok q
unfolding parse_tokens query_ok place take_token expect_word take_kind expect_punctuation
    take_integer take_string expect_end to_upper text_eq positive_integer
parse_tokens-place size offset q h =
    let within : leb q.max_estimated_tokens max_activation_estimated_tokens ≡ true =
      ground (arith, h) in
    let le = leb→le q.max_estimated_tokens max_activation_estimated_tokens within in
    let small : leb q.max_estimated_tokens max_safe_integer ≡ true = ground (arith, le) in
    let head : head_ok q.head ≡ true = ground (arith, h) in
    rw
      (
        kind_of_text-node_kind_text q.seed.kind,
        take_head-place size _ q.head (budget_lexemes q.max_estimated_tokens) head,
        digits_value-number q.max_estimated_tokens,
        small,
      )
      refl

normalize-query_ok : (q : DecisionQuery) → normalize_decision_query q ≡ ok q → query_ok q ≡ true
unfolding normalize_decision_query
normalize-query_ok q h = elim (Bool-cases (query_ok q)) [
  | inl accepted ↦ accepted
  | inr refused ↦ absurd (let e = rw refused at h in cc)
]

-- Every query that normalization accepts has a text, in which each token is followed by a space,
-- that is within the bound on sources and is read as this query, for strings of 16-bit units.
pub parse_attuneql-query_text :
    (q : DecisionQuery)
    → normalize_decision_query q ≡ ok q
    → IsQueryText q
    → parse_attuneql (query_text q) ≡ ok q
unfolding parse_attuneql tokenize query_text
parse_attuneql-query_text q n t =
    let accepted : query_ok q ≡ true = normalize-query_ok q n in
    let tokens =
      tokenize_from-render (query_lexemes q) 0 0 (query_lexemes-IsLexeme q t)
        (query_lexemes_few q) in
    let bounded : leb (length (query_text q)) max_attuneql_code_units ≡ true =
      ground (arith, length-query_text q accepted) in
    let some_text : leb 1 (length (query_text q)) ≡ true = ground (arith, query_text_pos q) in
    rw (some_text, bounded, tokens, parse_tokens-place (length (query_text q)) 0 q accepted, n) refl
