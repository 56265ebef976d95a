-- ===== src/Endpoint/Tests.antt =====
-- A run of lc-lib/endpoint: two endpoints start, one fails, and the other is shut down.
use log_courier.Common.{
  ℕ, ◌≡◌, refl, List, [], ◌∷◌, lookup, insert, delete, count, nat_eq, Option, none, some, arith,
}
use log_courier.Endpoint.{
  Sink, Step, adds, starts, fails, shuts_down, new_sink, run, step, add_endpoint, mark_active,
  move_failed, shutdown_endpoint, started, leave, set_status, remove, recover_failed,
}
use log_courier.Endpoint.Lists.{IsListed}
use log_courier.Endpoint.Steps.{run-new_sink}
use log_courier.Endpoint.Timeouts.{
  Timeout, Timeouts, new_timeouts, register_all, process_timeouts, process_from, fire,
  register_timeout, clear_timeout, insert_due, reset_timeout_timer, without,
}
use log_courier.Endpoint.Timeouts.Armed.{IsMatched}
use log_courier.Endpoint.Timeouts.Due.{IsSorted, Processed, process_timeouts-IsDone}
use log_courier.Endpoint.Reload.{
  reload_config, reload_loop, shutdown_server, reload_config-left_out,
}

abbrev steps : List Step
steps = adds 1 ∷ adds 2 ∷ starts 1 ∷ starts 2 ∷ fails 1 ∷ shuts_down 2 ∷ []

lists : Sink → List (List ℕ)
lists s = s.ready_list ∷ s.failed_list ∷ s.ordered_list ∷ s.shut_down ∷ []

run-steps : lists (run steps new_sink) ≡ [] ∷ (1 ∷ []) ∷ (1 ∷ 2 ∷ []) ∷ (2 ∷ []) ∷ []
unfolding lists run step new_sink add_endpoint mark_active move_failed shutdown_endpoint started
    leave set_status remove recover_failed lookup insert delete
run-steps = refl

run-new_sink_example : IsListed (run steps new_sink)
run-new_sink_example = run-new_sink steps

-- Server 2 leaves the configuration, and server 3 is shut down.
run-reload_config :
    lists (
      reload_config
        (1 ∷ 3 ∷ [])
        (run (adds 1 ∷ adds 2 ∷ adds 3 ∷ starts 1 ∷ starts 2 ∷ starts 3 ∷ []) new_sink))
    ≡ (1 ∷ 2 ∷ []) ∷ [] ∷ (1 ∷ 2 ∷ 3 ∷ []) ∷ (3 ∷ []) ∷ []
unfolding lists run step new_sink add_endpoint mark_active move_failed shutdown_endpoint started
    leave set_status remove recover_failed lookup insert delete reload_config reload_loop
    shutdown_server count
run-reload_config = refl

reload_config-left_out_example :
    lookup 2 (reload_config (1 ∷ 3 ∷ []) (run steps new_sink)).endpoints
    ≡ lookup 2 (run steps new_sink).endpoints
unfolding count
reload_config-left_out_example = reload_config-left_out (1 ∷ 3 ∷ []) 2 (run steps new_sink) refl

-- Three timeouts, of which two are due at time 5.
abbrev three : List Timeout
three = record { id = 1; due = 9 } ∷ record { id = 2; due = 3 } ∷ record { id = 3; due = 5 } ∷ []

abbrev fired_of : Option Timeouts → List ℕ
fired_of none = []
fired_of (some s) = s.fired

run-process_timeouts :
    fired_of (process_timeouts (λ id. []) (5 ∷ 5 ∷ 5 ∷ []) (register_all three new_timeouts))
    ≡ 3 ∷ 2 ∷ []
unfolding process_timeouts process_from fire register_all register_timeout clear_timeout insert_due
    reset_timeout_timer without new_timeouts
run-process_timeouts = refl

process_timeouts-IsDone_example :
    IsSorted (register_all three new_timeouts).timeout_list
    × IsMatched
        (register_all three new_timeouts).armed
        (register_all three new_timeouts).timeout_list
    × ((s : Timeouts) × (process_timeouts
            (λ id. [])
            (5 ∷ 5 ∷ 5 ∷ [])
            (register_all three new_timeouts)
          ≡ some s)
        × Processed
            (5 ∷ 5 ∷ 5 ∷ [])
            (register_all three new_timeouts).timeout_list
            (register_all three new_timeouts)
            s)
unfolding register_all register_timeout clear_timeout insert_due reset_timeout_timer without
    new_timeouts
process_timeouts-IsDone_example =
    process_timeouts-IsDone three (λ id. []) (5 ∷ 5 ∷ 5 ∷ []) (λ id. refl) (omega arith)
