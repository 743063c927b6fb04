-- ===== src/Decision.antt =====
-- src/decision-query.ts: `normalizeDecisionQuery` on arguments of the declared types. The operator
-- and the freshness of a query have one value each, which the types fix.
use attunegraph.Common.{
  ℕ, Bool, true, false, ◌&&◌, not, [], ◌∷◌, leb, if◌then◌else◌, Text, Result, ok, err,
}
use attunegraph.Json.{is_high, is_low}
use attunegraph.Graph.Types.{GraphRef}
use attunegraph.Graph.Constants.{max_activation_estimated_tokens}
use attunegraph.Validation.{safe_text, is_canonical, max_id_characters}

-- The code of an `AttuneGraphError` that this part throws.
pub data GraphError : Type 0 where
  invalid_input : GraphError

pub data Head : Type 0 where
  current : Head
  exact : ℕ → Text → Head

-- `AttuneGraphDecisionQuery`
pub record DecisionQuery : Type 0 where
  pub source_id : Text
  pub thread_id : Text
  pub seed : GraphRef
  pub as_of : Text
  pub head : Head
  pub max_estimated_tokens : ℕ

-- `Number.MAX_SAFE_INTEGER`
abbrev pub max_safe_integer : ℕ
max_safe_integer = 9_007_199_254_740_991

-- The loop of `isWellFormedUnicode`; the first argument says that the unit before was the first of a
-- pair.
unfoldable pub is_paired : Bool → Text → Bool
is_paired pending [] = not pending
is_paired true (c ∷ s) = is_low c && is_paired false s
is_paired false (c ∷ s) =
    let rest = is_paired (is_high c) s in if is_high c then rest else not (is_low c) && rest

unfoldable pub is_well_formed_unicode : Text → Bool
is_well_formed_unicode s = is_paired false s

unfoldable pub bounded_text : Text → Bool
bounded_text s = safe_text max_id_characters s && is_well_formed_unicode s

unfoldable pub positive_integer : ℕ → ℕ → Bool
positive_integer n maximum = leb 1 n && leb n maximum

unfoldable pub head_ok : Head → Bool
head_ok current = true
head_ok (exact generation commit_id) =
    positive_integer generation max_safe_integer && bounded_text commit_id

unfoldable pub query_ok : DecisionQuery → Bool
query_ok q =
    head_ok q.head
    && bounded_text q.source_id
    && bounded_text q.thread_id
    && bounded_text q.seed.id
    && bounded_text q.as_of
    && is_canonical q.as_of
    && positive_integer q.max_estimated_tokens max_activation_estimated_tokens

-- Normalization copies the fields of what it accepts.
unfoldable pub normalize_decision_query : DecisionQuery → Result GraphError DecisionQuery
normalize_decision_query q = if query_ok q then ok q else err invalid_input
