-- ===== src/AttuneQl/Laws.antt =====
-- What holds of every source that is accepted.
use attunegraph.Common.{
  ℕ, zero, suc, ◌+◌, ◌≤◌, ◌<◌, ◌≡◌, refl, sym, subst, false, ◌&&◌, Option, none, some, List, [],
  ◌∷◌, leb, ◌==◌, Text, arith, length, ok, err, >>=-eq-ok, Bool-cases, inl, inr, leb→le,
  guard-eq-ok,
}
use attunegraph.Json.{parse_literal}
use attunegraph.Validation.{is_space}
use attunegraph.Decision.{DecisionQuery, normalize_decision_query, query_ok}
use attunegraph.AttuneQl.Tokens.{
  Token, syntax, Lexed, is_punctuation, is_digit, is_letter, string_units, string_value,
  string_token, read_token, tokenize_from, tokenize, max_attuneql_tokens, max_attuneql_code_units,
}
use attunegraph.AttuneQl.{parse_tokens, normalized, parse_attuneql}

-- Tokens in the order of their offsets, from one offset up to another.
abbrev pub IsPlaced : ℕ → ℕ → List Token → Type 0
IsPlaced low high [] = Unit
IsPlaced low high (token ∷ tokens) =
    (low ≤ token.offset) × (token.offset < high) × IsPlaced (suc token.offset) high tokens

IsPlaced-weaken :
    (low low' high : ℕ) (tokens : List Token)
    → low ≤ low'
    → IsPlaced low' high tokens
    → IsPlaced low high tokens
IsPlaced-weaken low low' high [] h p = tt
IsPlaced-weaken low low' high (token ∷ tokens) h p = (omega (arith, h, p.0), p.1, p.2)

abbrev IsAt : ℕ → Lexed → Type 0
IsAt offset (err thrown) = Unit
IsAt offset (ok (token, extra)) = token.offset ≡ offset

string_value-IsAt :
    (offset extra : ℕ) (value : Option Text) → IsAt offset (string_value offset extra value)
string_value-IsAt offset extra none = tt
string_value-IsAt offset extra (some value) = refl

string_token-IsAt : (offset : ℕ) (units : Option Text) → IsAt offset (string_token offset units)
string_token-IsAt offset none = tt
string_token-IsAt offset (some units) =
    string_value-IsAt offset (length units) (parse_literal (b'"' ∷ units))

read_token-IsAt : (offset c : ℕ) (s : Text) → IsAt offset (read_token offset c s)
unfolding read_token
read_token-IsAt offset c s = elim (Bool-cases (is_punctuation c)) [
  | inl mark ↦ rw mark refl
  | inr other ↦ rw other (elim (Bool-cases (c == b'"')) [
    | inl quoted ↦ rw quoted (string_token-IsAt offset (string_units false s))
    | inr other ↦ rw other (elim (Bool-cases (is_digit c)) [
      | inl digit ↦ rw digit refl
      | inr other ↦ rw other (elim (Bool-cases (is_letter c)) [
        | inl letter ↦ rw letter refl
        | inr other ↦ rw other tt
      ])
    ])
  ])
]

read_token-offset :
    (offset c : ℕ) (s : Text) (token : Token) (extra : ℕ)
    → read_token offset c s ≡ ok (token, extra)
    → token.offset ≡ offset
read_token-offset offset c s token extra h = rw h at (read_token-IsAt offset c s)

-- A part of a source that gives tokens: they are in it, and within the bound with those before.
abbrev Placed : ℕ → ℕ → Text → List Token → Type 0
Placed offset count s tokens =
    IsPlaced offset (offset + length s) tokens × (count + length tokens ≤ max_attuneql_tokens)

Placed-cons :
    (offset count c : ℕ) (s : Text) (tokens : List Token)
    → Placed (suc offset) count s tokens
    → Placed offset count (c ∷ s) tokens
Placed-cons offset count c s tokens h =
    let e : suc offset + length s ≡ offset + suc (length s) = omega arith in
    (IsPlaced-weaken offset (suc offset) _ tokens (omega arith) (rw e at h.0), h.1)

Placed-token :
    (offset count c : ℕ) (s : Text) (token : Token) (tokens : List Token)
    → token.offset ≡ offset
    → Placed (suc offset) (suc count) s tokens
    → Placed offset count (c ∷ s) (token ∷ tokens)
Placed-token offset count c s token tokens at h =
    let e : suc offset + length s ≡ offset + suc (length s) = omega arith in
    let placed =
      subst (λ o. IsPlaced (suc o) (offset + suc (length s)) tokens) (sym at) (rw e at h.0) in
    ((omega (arith, at), omega (arith, at), placed), omega (arith, h.1))

tokenize_from-IsPlaced :
    (skip offset count : ℕ) (s : Text) (tokens : List Token)
    → tokenize_from skip offset count s ≡ ok tokens
    → count ≤ max_attuneql_tokens
    → Placed offset count s tokens
unfolding tokenize_from
tokenize_from-IsPlaced skip offset count [] tokens h few =
    let e : [] ≡ tokens = cc in rw (← e) (tt, omega (arith, few))
tokenize_from-IsPlaced (suc skip) offset count (c ∷ s) tokens h few =
    Placed-cons offset count c s tokens
      (tokenize_from-IsPlaced skip (suc offset) count s tokens h few)
tokenize_from-IsPlaced zero offset count (c ∷ s) tokens h few = elim (Bool-cases (is_space c)) [
  | inl space ↦
      let h = rw space at h in
      Placed-cons offset count c s tokens
        (tokenize_from-IsPlaced zero (suc offset) count s tokens h few)
  | inr other ↦
      let h = rw other at h in
      let (read, e, h) = >>=-eq-ok (read_token offset c s) _ h in
      let (fits, h) = guard-eq-ok (leb (suc count) max_attuneql_tokens) _ _ h in
      let (more, e', h) = >>=-eq-ok (tokenize_from read.1 (suc offset) (suc count) s) _ h in
      let at = read_token-offset offset c s read.0 read.1 e in
      let rest =
        tokenize_from-IsPlaced read.1 (suc offset) (suc count) s more e'
          (leb→le (suc count) max_attuneql_tokens fits) in
      let all : read.0 ∷ more ≡ tokens = cc in
      rw (← all) (Placed-token offset count c s read.0 more at rest)
]

-- What the parser accepts: a source of 1 to 8,192 units with 64 tokens at most, which stand in it one
-- behind the other.
pub record IsAccepted (source : Text) (q : DecisionQuery) : Type 0 where
  pub normal : normalize_decision_query q ≡ ok q
  pub not_empty : 1 ≤ length source
  pub bounded : length source ≤ max_attuneql_code_units
  pub tokens : List Token
  pub tokenized : tokenize source ≡ ok tokens
  pub few : length tokens ≤ max_attuneql_tokens
  pub placed : IsPlaced 0 (length source) tokens

normalized-eq-ok :
    (q r : DecisionQuery)
    → normalized (normalize_decision_query q) ≡ ok r
    → normalize_decision_query r ≡ ok r
unfolding normalize_decision_query
normalized-eq-ok q r h = elim (Bool-cases (query_ok q)) [
  | inl accepted ↦ let h = rw accepted at h in let same : q ≡ r = cc in rw (← same, accepted) refl
  | inr refused ↦ absurd (let e = rw refused at h in cc)
]

-- A source that is accepted is within the bounds on units and tokens, its tokens stand in it in
-- order, and the query that is read from it is one that normalization accepts as it is.
pub parse_attuneql-IsAccepted :
    (source : Text) (q : DecisionQuery) → parse_attuneql source ≡ ok q → IsAccepted source q
unfolding parse_attuneql tokenize
parse_attuneql-IsAccepted source q h =
    let (tokens, e, h) = >>=-eq-ok (tokenize source) _ h in
    let (read, e', h) = >>=-eq-ok (parse_tokens (length source) tokens) _ h in
    let (bounds, from) =
      guard-eq-ok (leb 1 (length source) && leb (length source) max_attuneql_code_units) (syntax 0)
        _ e in
    let placed = tokenize_from-IsPlaced 0 0 0 source tokens from (omega arith) in
    let whole : 0 + length source ≡ length source = omega arith in
    record {
      normal = normalized-eq-ok read q h;
      not_empty = leb→le 1 (length source) (ground (arith, bounds));
      bounded = leb→le (length source) max_attuneql_code_units (ground (arith, bounds));
      tokens = tokens;
      tokenized = e;
      few = omega (arith, placed.1);
      placed = rw whole at placed.0;
    }
