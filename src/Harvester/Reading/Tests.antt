-- ===== src/Harvester/Reading/Tests.antt =====
-- Reads of lc-lib/harvester/harvester.go: a line with a carriage return, and a line in two parts.
use log_courier.Common.{◌≡◌, refl, false, List, [], ◌∷◌, arith}
use log_courier.Codecs.Multiline.Shipping.{Tiles}
use log_courier.Harvester.LineReader.Input.{eof}
use log_courier.Harvester.LineReader.{ReadResult, line, too_long, failed}
use log_courier.Harvester.LineReader.Calls.{AllGood, all_bytes}
use log_courier.Harvester.Reading.{Harvester, perform_read, readline, after_readline, newline}
use log_courier.Harvester.Reading.Endings.{Restores, perform_reads, perform_reads-Restores}

abbrev start : Harvester
start = record { offset = 10; split = false; line_count = 0; byte_count = 0 }

-- "a\r\n", "bcd", "e\n", the end.
abbrev results : List ReadResult
results =
    line (97 ∷ 13 ∷ 10 ∷ [])
    ∷ too_long (98 ∷ 99 ∷ 100 ∷ [])
    ∷ line (101 ∷ 10 ∷ [])
    ∷ failed eof
    ∷ []

results-AllGood : AllGood 3 results
results-AllGood = (
  (97 ∷ 13 ∷ [], refl, ((λ e. ground arith), ((λ e. ground arith), tt)), omega arith),
  (
    (refl, ((λ e. ground arith), ((λ e. ground arith), ((λ e. ground arith), tt)))),
    ((101 ∷ [], refl, ((λ e. ground arith), tt), omega arith), (tt, tt)),
  ),
)

run-results :
    (perform_reads start results).1
    ≡ record { start_offset = 10; end_offset = 13; text = 97 ∷ [] }
      ∷ record { start_offset = 13; end_offset = 16; text = 98 ∷ 99 ∷ 100 ∷ [] }
      ∷ record { start_offset = 16; end_offset = 18; text = 101 ∷ [] }
      ∷ []
unfolding perform_reads perform_read readline after_readline newline
run-results = refl

perform_reads-Restores_example :
    Restores 3 (perform_reads start results).1 (all_bytes results)
    × Tiles 10 (perform_reads start results).0.offset (perform_reads start results).1
perform_reads-Restores_example = perform_reads-Restores 3 start results results-AllGood
