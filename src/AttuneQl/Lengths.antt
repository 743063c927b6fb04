-- ===== src/AttuneQl/Lengths.antt =====
-- The text of an accepted query is short enough to be read.
use attunegraph.Common.{
  ℕ, suc, ◌+◌, ◌≤◌, ◌<◌, ◌≡◌, refl, true, List, [], ◌∷◌, leb, arith, length, length-append, leb→le,
}
use attunegraph.Graph.Types.{NodeKind, node_kind_text}
use attunegraph.Graph.Constants.{max_activation_estimated_tokens}
use attunegraph.Decision.{
  bounded_text, Head, current, exact, DecisionQuery, max_safe_integer, positive_integer, head_ok,
  query_ok,
}
use attunegraph.AttuneQl.Tokens.{max_attuneql_code_units}
use attunegraph.AttuneQl.Sizes.{length-number, length-quote}
use attunegraph.AttuneQl.Lexemes.{lexeme_text, Lexeme, render}
use attunegraph.AttuneQl.QueryText.{head_lexemes, budget_lexemes, query_lexemes, query_text}

width : List Lexeme → ℕ
width [] = 0
width (x ∷ xs) = length (lexeme_text x) + suc (width xs)

length-render : (xs : List Lexeme) → length (render xs) ≡ width xs
unfolding render width
length-render [] = refl
length-render (x ∷ xs) =
    omega (arith, length-append (lexeme_text x) (b' ' ∷ render xs), length-render xs)

kind_short : (kind : NodeKind) → length (node_kind_text kind) ≤ 8
unfolding node_kind_text
kind_short NodeKind.thread = omega arith
kind_short NodeKind.artifact = omega arith
kind_short NodeKind.evidence = omega arith
kind_short NodeKind.delivery = omega arith
kind_short NodeKind.outcome = omega arith
kind_short NodeKind.policy = omega arith
kind_short NodeKind.decision = omega arith
kind_short NodeKind.action = omega arith

tokens_safe : (q : DecisionQuery) → query_ok q ≡ true → q.max_estimated_tokens ≤ max_safe_integer
unfolding query_ok positive_integer
tokens_safe q h =
    let within : leb q.max_estimated_tokens max_activation_estimated_tokens ≡ true =
      ground (arith, h) in
    omega (arith, leb→le q.max_estimated_tokens max_activation_estimated_tokens within)

head_short :
    (head : Head) (rest : List Lexeme)
    → head_ok head ≡ true
    → width (head_lexemes head rest) ≤ 1_050 + width rest
unfolding head_ok positive_integer width
head_short current rest h = omega arith
head_short (exact generation commit_id) rest h =
    let safe : leb generation max_safe_integer ≡ true = ground (arith, h) in
    let text : bounded_text commit_id ≡ true = ground (arith, h) in
    omega (
      arith,
      length-quote commit_id text,
      length-number generation (leb→le generation max_safe_integer safe),
    )

budget_short : (n : ℕ) → n ≤ max_safe_integer → width (budget_lexemes n) ≤ 100
unfolding width
budget_short n h = omega (arith, length-number n h)

-- The text of an accepted query is within the bound on sources.
pub length-query_text :
    (q : DecisionQuery) → query_ok q ≡ true → length (query_text q) ≤ max_attuneql_code_units
unfolding query_text query_ok width
length-query_text q h =
    let head : head_ok q.head ≡ true = ground (arith, h) in
    let source : bounded_text q.source_id ≡ true = ground (arith, h) in
    let thread : bounded_text q.thread_id ≡ true = ground (arith, h) in
    let seed : bounded_text q.seed.id ≡ true = ground (arith, h) in
    let as_of : bounded_text q.as_of ≡ true = ground (arith, h) in
    omega (
      arith,
      length-render (query_lexemes q),
      head_short q.head (budget_lexemes q.max_estimated_tokens) head,
      budget_short q.max_estimated_tokens (tokens_safe q h),
      kind_short q.seed.kind,
      length-quote q.source_id source,
      length-quote q.thread_id thread,
      length-quote q.seed.id seed,
      length-quote q.as_of as_of,
    )

pub query_text_pos : (q : DecisionQuery) → 0 < length (query_text q)
unfolding query_text render
query_text_pos q = omega arith
