-- ===== src/Spooler/Tests.antt =====
-- Runs of lc-lib/spooler/spooler.go with spools of two events and less than 20 bytes.
use log_courier.Common.{ℕ, ◌+◌, ◌≡◌, refl, List, [], ◌∷◌, ◌++◌, arith, pos}
use log_courier.Core.{EventDescriptor}
use log_courier.Spooler.{
  General, Spooler, Input, going, taken, reconfigured, event, timeout, new_spooler, reset_timer,
  send_spool, queue, run, step,
}
use log_courier.Spooler.Order.{Keeps, kept, given, run-Keeps}
use log_courier.Spooler.Limits.{AllFit, sent_by}
use log_courier.Spooler.Rounds.{run-new_spooler}
use log_courier.Spooler.Config.{send_spool-reconfigured}

-- The capacity of a slice that grows.
grow : ℕ → ℕ
grow n = n + n + 1

abbrev general : General
general = record { spool_size = 2; spool_max_bytes = 20; spool_timeout = 5 }

abbrev of_size : List ℕ → EventDescriptor
of_size bytes = record { stream = 1; offset = 0; payload = bytes }

-- An event of 12 bytes and one of 2, a third that fills the spool, and a timeout.
abbrev large : EventDescriptor
large = of_size (1 ∷ 2 ∷ 3 ∷ 4 ∷ 5 ∷ 6 ∷ 7 ∷ 8 ∷ 9 ∷ 10 ∷ 11 ∷ 12 ∷ [])

abbrev second : EventDescriptor
second = of_size (1 ∷ 2 ∷ [])

abbrev third : EventDescriptor
third = of_size []

abbrev inputs : List Input
inputs = event large 1 ∷ event second 2 ∷ event third 3 ∷ event third 4 ∷ timeout 9 ∷ []

run-inputs :
    sent_by (run grow inputs (new_spooler general 0) (taken ∷ taken ∷ taken ∷ []))
    ≡ (large ∷ []) ∷ (second ∷ third ∷ []) ∷ (third ∷ []) ∷ []
unfolding run step send_spool queue new_spooler reset_timer
run-inputs = refl

run-Keeps_example :
    Keeps
      (kept (new_spooler general 0) ++ given inputs)
      (run grow inputs (new_spooler general 0) (taken ∷ taken ∷ taken ∷ []))
run-Keeps_example = run-Keeps grow inputs (new_spooler general 0) (taken ∷ taken ∷ taken ∷ []) tt

run-new_spooler_example :
    AllFit general (sent_by (run grow inputs (new_spooler general 0) (taken ∷ taken ∷ taken ∷ [])))
run-new_spooler_example =
    run-new_spooler grow general 0 inputs (taken ∷ taken ∷ taken ∷ []) (omega arith) tt tt

-- A spooler with an event, started at the time 0.
abbrev holding : Spooler
holding = record {
  config = general;
  spool = third ∷ [];
  capacity = 2;
  spool_size = 4;
  output = [];
  timer_start = 0;
  timer = pos 5;
}

send_spool-reconfigured_example :
    (s' : Spooler) × (send_spool (reconfigured general 3 3 ∷ []) holding ≡ going s' [])
    × (s'.output ≡ [])
    × (s'.spool ≡ [])
send_spool-reconfigured_example =
    send_spool-reconfigured general 3 3 [] holding (omega arith) (omega arith)
