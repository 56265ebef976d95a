-- ===== src/Publisher/Delivery/Tests.antt =====
-- A delivery of lc-lib/publisher whose one endpoint has a payload when its timeout passes.
use log_courier.Common.{◌≡◌, refl, true, List, [], ◌∷◌, ◌++◌, some, lookup}
use log_courier.Endpoint.{Endpoint, active, new_sink}
use log_courier.Publisher.Delivery.{Delivery, Answers, new_delivery}
use log_courier.Publisher.Delivery.Steps.{
  Step, adds, takes, times_out, fails, starts, resumes, takes_spools, run,
}
use log_courier.Core.{EventDescriptor}
use log_courier.Endpoint.Lists.{IsListed}
use log_courier.Publisher.Release.{flat, in_flight}
use log_courier.Publisher.Delivery.Sending.{held, Accepts}
use log_courier.Publisher.Delivery.Runs.{AllFair, taken_by, run-new_delivery}
use log_courier.Publisher.Delivery.Stuck.{Waits, run-times_out}

abbrev answers : Answers
answers = record {
  tries = λ id. record { failures = []; success = 0 };
  choice = 0;
  accepted = true;
}

abbrev endpoint : Endpoint
endpoint = record { status = active; num_payloads = 1 }

abbrev busy : Delivery
busy = record (new_delivery 10) {
  pending = λ e. 7 ∷ [];
  sink = record (new_sink) { endpoints = (4, endpoint) ∷ []; ready_list = 4 ∷ [] };
}

run-times_out_example :
    (d' : Delivery) × (run
        (times_out 4 ∷ fails answers (7 ∷ []) 4 ∷ starts answers 4 ∷ resumes answers 4 ∷ [])
        busy
      ≡ some d')
    × Waits 4 endpoint active busy d'
unfolding lookup
run-times_out_example = run-times_out answers (7 ∷ []) 4 endpoint busy refl refl

answers-Accepts : Accepts answers
answers-Accepts = (refl, λ id. refl)

abbrev events : List EventDescriptor
events =
    record { stream = 1; offset = 5; payload = [] }
    ∷ record { stream = 1; offset = 9; payload = [] }
    ∷ []

-- The spool is held until an endpoint starts, which then fails, recovers and gets it again.
abbrev steps : List Step
steps =
    takes answers events
    ∷ adds 4
    ∷ starts answers 4
    ∷ fails answers (0 ∷ []) 4
    ∷ starts answers 4
    ∷ resumes answers 4
    ∷ []

reads : takes_spools (new_delivery 10) ≡ true
unfolding takes_spools new_delivery
reads = refl

steps-AllFair : AllFair steps (new_delivery 10)
steps-AllFair = (
  (answers-Accepts, reads),
  λ d₁ e₁. (
    tt,
    λ d₂ e₂. (
      answers-Accepts,
      λ d₃ e₃.
          (answers-Accepts, λ d₄ e₄. (answers-Accepts, λ d₅ e₅. (answers-Accepts, λ d₆ e₆. tt))),
    ),
  ),
)

run-new_delivery_example :
    (last : Delivery) × (run steps (new_delivery 10) ≡ some last)
    × ((flat last.publisher.acks ++ in_flight last.publisher.payload_list) ++ held last.next_spool
        ≡ events)
    × IsListed last.sink
unfolding taken_by
run-new_delivery_example = run-new_delivery 10 steps steps-AllFair
