-- ===== src/Publisher/Delivery/Steps.antt =====
-- What happens to the publisher with its sink (lc-lib/publisher and lc-lib/endpoint): acknowledgements, the end of an
-- endpoint, shutdowns, and any sequence of all that.
use log_courier.Common.{
  ℕ, ◌-◌, Bool, true, false, not, ◌&&◌, List, [], ◌∷◌, Option, none, some, ◌==◌, if◌then◌else◌,
  lookup, nat_eq,
}
use log_courier.Core.{EventDescriptor}
use log_courier.Payload.{Payload, ack, complete}
use log_courier.Endpoint.{
  Endpoint, is_closing, add_endpoint, shutdown_endpoint, remove_endpoint, set_payloads, on,
}
use log_courier.Prospector.State.{mem, remove}
use log_courier.Prospector.Scan.{range}
use log_courier.Publisher.{find, process_ack, pull_back_pending}
use log_courier.Publisher.Delivery.{
  Delivery, Answers, set_pending, force_failure, try_queue_held, take_spool, failed, started,
  resumed,
}

-- `processAck` of the endpoint where a payload is done.
unfoldable pub finish_payload : (e id : ℕ) → Endpoint → Delivery → Delivery
unfolding set_pending remove
finish_payload e id ep d =
    set_pending e (remove id (d.pending e))
      (record d { sink = set_payloads (ep.num_payloads - 1) e ep d.sink })

-- The end of `processAck` of the sink: an endpoint that is closing and has no payload left.
unfoldable pub close_when_done : (e : ℕ) → Delivery → Delivery
close_when_done e d = elim (lookup e d.sink.endpoints) [
  | none ↦ d
  | some ep ↦
      if is_closing ep.status && (ep.num_payloads == 0)
      then record d { sink = record d.sink { shut_down = e ∷ d.sink.shut_down } }
      else d
]

-- An acknowledgement of a payload that the endpoint has, `value` being the payload; none is a panic.
unfoldable pub acknowledge_value :
    Answers → (e id sequence : ℕ) → (value : Payload) → Endpoint → Delivery → Option Delivery
unfolding finish_payload close_when_done process_ack try_queue_held
acknowledge_value a e id sequence value ep d =
    let (acked, lines, done) = ack value sequence in
    let d' = if done then finish_payload e id ep d else d in
    elim (process_ack id sequence d'.publisher) [
      | none ↦ none
      | some p ↦
          let d'' = record d' { publisher = p } in
          elim (complete acked) [
            | none ↦ none
            | some false ↦ some (if done then close_when_done e d'' else d'')
            | some true ↦ elim (try_queue_held a d'') [
              | none ↦ none
              | some last ↦ some (if done then close_when_done e last else last)
            ]
          ]
    ]

-- An acknowledgement from an endpoint. It is none too where the payload is in no list of the
-- publisher any more, for which the payload itself would have to be in the state.
unfoldable pub acknowledge : Answers → (e id sequence : ℕ) → Delivery → Option Delivery
unfolding acknowledge_value mem find
acknowledge a e id sequence d =
    if mem id (d.pending e)
    then elim (lookup e d.sink.endpoints) [
      | none ↦ some d
      | some ep ↦ elim (find id d.publisher.payload_list) [
        | none ↦ none
        | some value ↦ acknowledge_value a e id sequence value ep d
      ]
    ]
    else some d

-- The report that a transport finished: `configured` is that the server is still in the
-- configuration, and `again` what the method answers in `OnFinish`.
unfoldable pub finished :
    Answers → (first : List ℕ) → (configured again : Bool) → (e : ℕ) → Delivery → Option Delivery
unfolding set_pending pull_back_pending range try_queue_held
finished a first configured again e d = elim (lookup e d.sink.endpoints) [
  | none ↦ some d
  | some ep ↦
      let d' = record d { sink = remove_endpoint e ep d.sink } in
      let back = record d' {
        publisher = pull_back_pending (range first (d.pending e)) d.publisher;
      } in
      let lone = λ (r : Delivery). set_pending e [] r in
      let added =
        λ (r : Delivery). if again then record r { sink = add_endpoint e r.sink } else r in
      if configured && not d.shutting_down
      then (if ep.num_payloads == 0
          then some (added (lone d'))
          else elim (try_queue_held a (lone back)) [ none ↦ none | some r ↦ some (added r) ])
      else some (lone d')
]

unfoldable pub shut_down_all : List ℕ → Delivery → Delivery
unfolding shutdown_endpoint
shut_down_all [] d = d
shut_down_all (e ∷ endpoints) d =
    shut_down_all endpoints (record d { sink = on shutdown_endpoint e d.sink })

-- The shutdown of the publisher, `endpoints` being the range over all endpoints.
unfoldable pub shut_down : (endpoints : List ℕ) → Delivery → Delivery
unfolding shut_down_all
shut_down endpoints d =
    shut_down_all endpoints (record d { next_spool = none; shutting_down = true })

-- A round of the publisher; a spool that arrives while one is held waits in its channel.
pub data Step : Type 0 where
  adds closes times_out : (e : ℕ) → Step
  takes : Answers → List EventDescriptor → Step
  acknowledges : Answers → (e id sequence : ℕ) → Step
  fails : Answers → (first : List ℕ) → (e : ℕ) → Step
  starts resumes : Answers → (e : ℕ) → Step
  finishes : Answers → (first : List ℕ) → (configured again : Bool) → (e : ℕ) → Step
  shuts_down : (endpoints : List ℕ) → Step

unfoldable pub takes_spools : Delivery → Bool
takes_spools d = elim d.next_spool [ none ↦ not d.shutting_down | some events ↦ false ]

unfoldable pub step : Step → Delivery → Option Delivery
unfolding takes_spools take_spool acknowledge failed started resumed finished shut_down
    force_failure add_endpoint shutdown_endpoint
step (adds e) d = elim (lookup e d.sink.endpoints) [
  | none ↦ some (record d { sink = add_endpoint e d.sink })
  | some ep ↦ some d
]
step (closes e) d = some (record d { sink = on shutdown_endpoint e d.sink })
step (times_out e) d = some (force_failure e d)
step (takes a events) d = if takes_spools d then take_spool a events d else some d
step (acknowledges a e id sequence) d = acknowledge a e id sequence d
step (fails a first e) d = failed a first e d
step (starts a e) d = started a e d
step (resumes a e) d = resumed a e d
step (finishes a first configured again e) d = finished a first configured again e d
step (shuts_down endpoints) d = some (shut_down endpoints d)

unfoldable pub run : List Step → Delivery → Option Delivery
unfolding step
run [] d = some d
run (s ∷ steps) d = elim (step s d) [ none ↦ none | some next ↦ run steps next ]
