-- ===== src/Harvester/Session/Resume.antt =====
-- The loop of lc-lib/harvester/harvester.go, and the offset from which the next harvester of the file
-- resumes.
use log_courier.Common.{ℕ, ◌≡◌, refl, List, [], ◌∷◌}
use log_courier.Harvester.LineReader.{ReadResult, line, too_long, failed}
use log_courier.Harvester.LineReader.Input.{eof, other}
use log_courier.Harvester.Reading.{Harvester, readline}
use log_courier.Harvester.Session.{sends}
use log_courier.Harvester.Session.Rounds.{Round}
use log_courier.Harvester.Session.Kept.{IsWhole}
use log_courier.Harvester.LineReader.{LineReader}
use log_courier.Harvester.Session.Ends.{Calls}

pub readline-offset : (g : Harvester) (res : ReadResult) → (readline g res).0.offset ≡ g.offset
unfolding readline
readline-offset g (line text) = refl
readline-offset g (too_long text) = refl
readline-offset g (failed eof) = refl
readline-offset g (failed other) = refl

-- The output takes each event at once, and `Stat` finds the file no shorter than `size`.
abbrev pub Willing : (size : ℕ) → List Round → Type 0
Willing size [] = Unit {0}
Willing size (round ∷ rounds) =
    (round.signals ≡ sends ∷ []) × IsWhole size round.moment × Willing size rounds
