-- ===== src/Codecs/Multiline/Tests.antt =====
-- Runs of lc-lib/codecs/multiline.go: a line that begins with a space continues the one before.
use log_courier.Common.{ℕ, ◌≡◌, refl, false, List, [], ◌∷◌, ◌++◌, Option, none, some, ◌==◌, arith}
use log_courier.Codecs.{Text, Emitted}
use log_courier.Codecs.Patterns.{Regexp, match}
use log_courier.Codecs.Multiline.{
  What, Factory, CodecMultiline, new_codec, teardown, event, deadline_tick, join, event_matched,
  cut_loop,
}
use log_courier.Codecs.Multiline.Bounds.{IsValid, Cuts, cut_loop-total}
use log_courier.Codecs.Multiline.Shipping.{Tiles, Bounded, shipped, pending, strip, IsAt}
use log_courier.Codecs.Multiline.Lines.{Line, Answers, event_matched-Ships}
use log_courier.Codecs.Multiline.Runs.{Step, line, tick, run, input, run-new_codec}

begins_with_space : Regexp
begins_with_space [] = false
begins_with_space (c ∷ text) = c == 32

-- At most 8 bytes to an event.
abbrev factory : Factory
factory = record {
  patterns = record {
    patterns = record { matcher = begins_with_space; negate = false } ∷ [];
    required_matches = 1;
  };
  what = What.previous;
  previous_timeout = 5;
  max_multiline_bytes = 8;
}

factory-Answers : Answers factory.patterns
unfolding match
factory-Answers text = (_, refl)

-- "ab", " c", a tick after the timeout, "d", " efghijklm".
abbrev steps : List Step
steps =
    line 0 3 (97 ∷ 98 ∷ [])
    ∷ line 0 3 (32 ∷ 99 ∷ [])
    ∷ tick 9
    ∷ line 9 2 (100 ∷ [])
    ∷ line 9 11 (32 ∷ 101 ∷ 102 ∷ 103 ∷ 104 ∷ 105 ∷ 106 ∷ 107 ∷ 108 ∷ 109 ∷ [])
    ∷ []

events_of : Option (CodecMultiline × ℕ × List Emitted) → List Emitted
events_of none = []
events_of (some (c, pos, es)) = es

run-steps :
    events_of (run (new_codec factory 0 0) 0 steps)
    ≡ record { start_offset = 0; end_offset = 6; text = 97 ∷ 98 ∷ 10 ∷ 32 ∷ 99 ∷ [] }
      ∷ record {
        start_offset = 6;
        end_offset = 15;
        text = 100 ∷ 10 ∷ 32 ∷ 101 ∷ 102 ∷ 103 ∷ 104 ∷ 105 ∷ [];
      }
      ∷ []
unfolding events_of run new_codec match begins_with_space event deadline_tick join
run-steps = refl

run-new_codec_example :
    (c : CodecMultiline) × (pos : ℕ) × (es : List Emitted) × (run (new_codec factory 0 0) 0 steps
      ≡ some (c, pos, es))
    × Tiles 0 (teardown c) es
    × Bounded 8 es
    × (shipped es ++ pending c ≡ strip (input steps))
run-new_codec_example = run-new_codec factory 0 0 steps (omega arith) factory-Answers

new_codec-IsValid : IsValid (new_codec factory 7 0)
unfolding new_codec
new_codec-IsValid = record { lines = refl; bytes = refl; room = omega arith }

new_codec-IsAt : IsAt 7 (new_codec factory 7 0)
unfolding new_codec
new_codec-IsAt = record { idle = λ e. refl; held = λ l ls e. cc }

event_matched-Ships_example :
    Line
      (new_codec factory 7 0)
      10
      (97 ∷ 98 ∷ [])
      []
      (event_matched (new_codec factory 7 0) false 3 7 10 (97 ∷ 98 ∷ []))
unfolding new_codec
event_matched-Ships_example =
    event_matched-Ships (new_codec factory 7 0) false 3 7 10 (97 ∷ 98 ∷ []) (omega arith)
      new_codec-IsValid new_codec-IsAt

cut_loop-total_example :
    (c' : CodecMultiline) × (text' : Text) × (es : List Emitted) × (cut_loop 4
        (new_codec factory 7 0)
        2
        10
        (97 ∷ 98 ∷ [])
      ≡ some (c', text', es))
    × Cuts (new_codec factory 7 0) (97 ∷ 98 ∷ []) es c' text'
unfolding new_codec
cut_loop-total_example =
    cut_loop-total (new_codec factory 7 0) 10 (97 ∷ 98 ∷ []) (omega arith) new_codec-IsValid
