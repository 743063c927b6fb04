-- ===== src/AttuneQl/Tests.antt =====
-- A query at an exact head, its text, and sources that are refused.
use attunegraph.Common.{
  ◌≡◌, refl, true, [], ◌∷◌, Text, codes, arith, ok, err, text_eq, ltb, ltb→lt, ◌&&◌, Bool,
}
use attunegraph.Json.RoundTrip.{IsText}
use attunegraph.Graph.Types.{NodeKind, node_kind_text}
use attunegraph.Graph.Instant.{parse_instant}
use attunegraph.Json.{is_high, is_low, parse_literal}
use attunegraph.Validation.{safe_text, is_canonical, is_space}
use attunegraph.Decision.{
  exact, DecisionQuery, query_ok, head_ok, positive_integer, bounded_text, is_well_formed_unicode,
  is_paired, normalize_decision_query,
}
use attunegraph.AttuneQl.Tokens.{
  syntax, is_digit, is_letter, is_word, is_punctuation, span, string_units, read_token,
  tokenize_from, tokenize,
}
use attunegraph.AttuneQl.{
  node_kinds, kind_of_text, to_upper, to_lower, digits_value, take_token, expect_word,
  expect_punctuation, take_string, take_integer, take_kind, take_head, expect_end, parse_tokens,
  parse_attuneql,
}
use attunegraph.AttuneQl.QueryText.{query_text, IsQueryText}
use attunegraph.AttuneQl.RoundTrip.{parse_attuneql-query_text}
use attunegraph.AttuneQl.Laws.{IsAccepted, parse_attuneql-IsAccepted}

abbrev asked : DecisionQuery
asked = record {
  source_id = codes "s";
  thread_id = codes "t \"1\"";
  seed = record { id = codes "d"; kind = NodeKind.decision };
  as_of = codes "2026-07-31T09:00:00.000Z";
  head = exact 12 (codes "c");
  max_estimated_tokens = 800;
}

asked-normal : normalize_decision_query asked ≡ ok asked
unfolding normalize_decision_query query_ok head_ok positive_integer bounded_text
    is_well_formed_unicode is_paired is_high is_low safe_text is_canonical parse_instant text_eq
asked-normal = refl

is_text : Text → Bool
is_text [] = true
is_text (c ∷ s) = ltb c 65_536 && is_text s

is_text-IsText : (s : Text) → is_text s ≡ true → IsText s
unfolding is_text
is_text-IsText [] h = tt
is_text-IsText (c ∷ s) h = (ltb→lt c 65_536 (ground arith), is_text-IsText s (ground arith))

asked-IsQueryText : IsQueryText asked
unfolding is_text
asked-IsQueryText = record {
  source_id = is_text-IsText asked.source_id refl;
  thread_id = is_text-IsText asked.thread_id refl;
  seed_id = is_text-IsText asked.seed.id refl;
  as_of = is_text-IsText asked.as_of refl;
  head = is_text-IsText (codes "c") refl;
}

abbrev lower_text : Text
lower_text =
    codes
      "evidence for Decision(\"d\") in scope(\"s\",\"t \\\"1\\\"\") as of \"2026-07-31T09:00:00.000Z\" at head 12 \"c\" require fresh budget 800 tokens"

-- Words are read in any case, and the terminal may be missing.
lower_case : parse_attuneql lower_text ≡ ok asked
unfolding parse_attuneql tokenize tokenize_from read_token string_units span is_digit is_letter
    is_word is_punctuation is_space parse_literal parse_tokens take_token expect_word
    expect_punctuation take_string take_integer take_kind take_head expect_end to_upper to_lower
    digits_value kind_of_text node_kinds node_kind_text text_eq normalize_decision_query query_ok
    head_ok positive_integer bounded_text is_well_formed_unicode is_paired is_high is_low safe_text
    is_canonical parse_instant
lower_case = refl

-- An error has the offset of its token.
refused : parse_attuneql (codes "EVIDENCE of") ≡ err (syntax 9)
unfolding parse_attuneql tokenize tokenize_from read_token span is_digit is_letter is_word
    is_punctuation is_space parse_tokens take_token expect_word to_upper text_eq
refused = refl

parse_attuneql-query_text_example : parse_attuneql (query_text asked) ≡ ok asked
parse_attuneql-query_text_example = parse_attuneql-query_text asked asked-normal asked-IsQueryText

parse_attuneql-IsAccepted_example : IsAccepted lower_text asked
parse_attuneql-IsAccepted_example = parse_attuneql-IsAccepted lower_text asked lower_case
