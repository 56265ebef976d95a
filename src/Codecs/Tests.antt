-- ===== src/Codecs/Tests.antt =====
-- The codecs of lc-lib/codecs on short inputs: a pattern is the byte that a line must begin with.
use log_courier.Common.{
  ℕ, ◌+◌, ◌≡◌, refl, Bool, true, false, List, [], ◌∷◌, Option, none, some, length, ◌==◌,
}
use log_courier.Codecs.{Text}
use log_courier.Codecs.Patterns.{Regexp, PatternCollection, MatchOption, set, match}
use log_courier.Codecs.Patterns.Result.{ok}
use log_courier.Codecs.Filter.{
  CodecFilter, new_codec, teardown, run, matching, end_of, run-matching,
}

begins_with : ℕ → Regexp
begins_with b [] = false
begins_with b (c ∷ text) = b == c

compile : Text → Option Regexp
compile [] = none
compile (b ∷ rest) = some (begins_with b)

-- The patterns "a" and "!b", of which all must hold.
abbrev collection : PatternCollection
collection = record {
  patterns =
      record { matcher = begins_with 97; negate = false }
      ∷ record { matcher = begins_with 98; negate = true }
      ∷ [];
  required_matches = 2;
}

set_run : set compile ((97 ∷ []) ∷ (33 ∷ 98 ∷ []) ∷ []) MatchOption.all ≡ ok collection
unfolding set compile
set_run = refl

abbrev starts_with_a : PatternCollection
starts_with_a = record {
  patterns = record { matcher = begins_with 97; negate = false } ∷ [];
  required_matches = 1;
}

starts_with_a-answers : (text : Text) → (matched : Bool) × (match starts_with_a text ≡ some matched)
unfolding match
starts_with_a-answers text = (_, refl)

abbrev lines : List (ℕ × Text)
lines = (3, 97 ∷ 99 ∷ []) ∷ (2, 98 ∷ []) ∷ (2, 97 ∷ []) ∷ []

matching_run :
    matching starts_with_a 10 lines
    ≡ record { start_offset = 10; end_offset = 13; text = 97 ∷ 99 ∷ [] }
      ∷ record { start_offset = 15; end_offset = 17; text = 97 ∷ [] }
      ∷ []
unfolding matching match begins_with
matching_run = refl

run-matching_example :
    (last : CodecFilter) × (run (new_codec starts_with_a 10) 10 lines
      ≡ some (last, matching starts_with_a 10 lines))
    × (last.filtered_lines + length (matching starts_with_a 10 lines) ≡ 3)
    × (teardown last ≡ end_of 10 lines)
unfolding new_codec
run-matching_example = run-matching (new_codec starts_with_a 10) 10 lines starts_with_a-answers refl
