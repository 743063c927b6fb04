-- ===== src/AttuneQl.antt =====
-- src/attuneql.ts: the tokens of the query language and its parser. Where the sources throw an
-- `AttuneQLSyntaxError`, the result has its offset; the message is not modelled.
pub mod Tokens
pub mod Lexemes
pub mod Lexing
pub mod Sizes
pub mod QueryText
pub mod Lengths
pub mod RoundTrip
pub mod Laws
mod Tests
use attunegraph.Common.{
  ℕ, zero, suc, ◌+◌, ◌-◌, ◌*◌, Bool, true, false, ◌&&◌, ◌||◌, not, Option, none, some, List, [],
  ◌∷◌, ◌==◌, leb, ltb, if◌then◌else◌, Text, codes, text_eq, length, Result, ok, err, ◌>>=◌, ◌>>◌,
  guard,
}
use attunegraph.Graph.Types.{NodeKind, node_kind_text}
use attunegraph.Decision.{
  GraphError, Head, current, exact, DecisionQuery, max_safe_integer, normalize_decision_query,
}
use Tokens.{
  TokenKind, word, integer, string, punctuation, Token, QueryError, syntax, semantic, tokenize,
}

-- `GRAPH_NODE_KINDS`
unfoldable pub node_kinds : List NodeKind
node_kinds =
    NodeKind.thread ∷ NodeKind.artifact ∷ NodeKind.evidence ∷ NodeKind.delivery ∷ NodeKind.outcome
    ∷ NodeKind.policy ∷ NodeKind.decision ∷ NodeKind.action ∷ []

-- The kind of a name among those of a list.
unfoldable pub kind_of_text : Text → List NodeKind → Option NodeKind
kind_of_text name [] = none
kind_of_text name (kind ∷ kinds) =
    let rest = kind_of_text name kinds in
    if text_eq name (node_kind_text kind) then some kind else rest

-- `toUpperCase` and `toLowerCase` of words, which have letters, digits, `_` and `-` only.
unfoldable pub to_upper : Text → Text
to_upper [] = []
to_upper (c ∷ s) = (if leb b'a' c && leb c b'z' then c - 32 else c) ∷ to_upper s

unfoldable pub to_lower : Text → Text
to_lower [] = []
to_lower (c ∷ s) = (if leb b'A' c && leb c b'Z' then c + 32 else c) ∷ to_lower s

-- `Number(digits)`, which is exact up to the bound and above the bound for all that is.
unfoldable pub digits_value : ℕ → Text → ℕ
digits_value value [] = value
digits_value value (c ∷ s) = digits_value (value * 10 + (c - b'0')) s

abbrev pub is_kind : TokenKind → TokenKind → Bool
is_kind word word = true
is_kind integer integer = true
is_kind string string = true
is_kind punctuation punctuation = true
is_kind _ _ = false

-- The functions that take a token give it, or what they read from it, and the tokens that are left.
-- `size` is the length of the source.
module _ (size : ℕ) where
  unfoldable pub take_token : List Token → Result QueryError (Token × List Token)
  take_token [] = err (syntax size)
  take_token (token ∷ tokens) = ok (token, tokens)

  unfoldable pub expect_word : Text → List Token → Result QueryError (List Token)
  expect_word expected tokens = do
    (token, rest) ← take_token tokens
    guard (is_kind token.kind word && text_eq (to_upper token.value) expected) (syntax token.offset)
    ok rest

  unfoldable pub expect_punctuation : ℕ → List Token → Result QueryError (List Token)
  expect_punctuation expected tokens = do
    (token, rest) ← take_token tokens
    guard (is_kind token.kind punctuation && text_eq token.value (expected ∷ []))
        (syntax token.offset)
    ok rest

  unfoldable pub take_string : List Token → Result QueryError (Text × List Token)
  take_string tokens = do
    (token, rest) ← take_token tokens
    guard (is_kind token.kind string) (syntax token.offset)
    ok (token.value, rest)

  unfoldable pub take_integer : List Token → Result QueryError (ℕ × List Token)
  take_integer tokens = do
    (token, rest) ← take_token tokens
    guard (is_kind token.kind integer && leb (digits_value 0 token.value) max_safe_integer)
        (syntax token.offset)
    ok (digits_value 0 token.value, rest)

  abbrev found_kind : ℕ → Option NodeKind → Result QueryError NodeKind
  found_kind offset none = err (syntax offset)
  found_kind offset (some kind) = ok kind

  -- `kindToken`
  unfoldable pub take_kind : List Token → Result QueryError (NodeKind × List Token)
  take_kind tokens = do
    (token, rest) ← take_token tokens
    guard (is_kind token.kind word) (syntax token.offset)
    kind ← found_kind token.offset (kind_of_text (to_lower token.value) node_kinds)
    ok (kind, rest)

  -- `headToken` and what belongs to it.
  unfoldable pub take_head : List Token → Result QueryError (Head × List Token)
  take_head tokens = do
    (token, rest) ← take_token tokens
    guard (is_kind token.kind word) (syntax token.offset)
    if text_eq (to_upper token.value) (codes "CURRENT")
        then (do rest ← expect_word (codes "HEAD") rest; ok (current, rest))
        else if text_eq (to_upper token.value) (codes "HEAD")
        then (do
          (generation, rest) ← take_integer rest
          (commit_id, rest) ← take_string rest
          ok (exact generation commit_id, rest))
        else err (syntax token.offset)

  -- The terminal, which may be missing, and nothing behind it.
  unfoldable pub expect_end : List Token → Result QueryError (Unit {0})
  expect_end [] = ok tt
  expect_end (token ∷ []) =
      guard (is_kind token.kind punctuation && text_eq token.value (b';' ∷ []))
        (syntax token.offset)
  expect_end (token ∷ next ∷ rest) = err (
      syntax (
        if is_kind token.kind punctuation && text_eq token.value (b';' ∷ [])
        then next.offset
        else token.offset))

  -- `parseAttuneQL` behind the tokens, before the normalization.
  unfoldable pub parse_tokens : List Token → Result QueryError DecisionQuery
  parse_tokens tokens = do
    tokens ← expect_word (codes "EVIDENCE") tokens
    tokens ← expect_word (codes "FOR") tokens
    (kind, tokens) ← take_kind tokens
    tokens ← expect_punctuation b'(' tokens
    (seed_id, tokens) ← take_string tokens
    tokens ← expect_punctuation b')' tokens
    tokens ← expect_word (codes "IN") tokens
    tokens ← expect_word (codes "SCOPE") tokens
    tokens ← expect_punctuation b'(' tokens
    (source_id, tokens) ← take_string tokens
    tokens ← expect_punctuation b',' tokens
    (thread_id, tokens) ← take_string tokens
    tokens ← expect_punctuation b')' tokens
    tokens ← expect_word (codes "AS") tokens
    tokens ← expect_word (codes "OF") tokens
    (as_of, tokens) ← take_string tokens
    tokens ← expect_word (codes "AT") tokens
    (head, tokens) ← take_head tokens
    tokens ← expect_word (codes "REQUIRE") tokens
    tokens ← expect_word (codes "FRESH") tokens
    tokens ← expect_word (codes "BUDGET") tokens
    (max_estimated_tokens, tokens) ← take_integer tokens
    tokens ← expect_word (codes "TOKENS") tokens
    expect_end tokens
    ok (record {
      source_id = source_id;
      thread_id = thread_id;
      seed = record { id = seed_id; kind = kind };
      as_of = as_of;
      head = head;
      max_estimated_tokens = max_estimated_tokens;
    })

-- An `AttuneGraphError` of the normalization is passed on.
abbrev pub normalized : Result GraphError DecisionQuery → Result QueryError DecisionQuery
normalized (ok q) = ok q
normalized (err e) = err (semantic e)

unfoldable pub parse_attuneql : Text → Result QueryError DecisionQuery
parse_attuneql source = do
  tokens ← tokenize source
  q ← parse_tokens (length source) tokens
  normalized (normalize_decision_query q)
