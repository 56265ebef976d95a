-- ===== src/Publisher/Delivery.antt =====
-- The publisher with its sink: which endpoint has which payload (lc-lib/publisher/publisher.go,
-- lc-lib/endpoint/endpoint.go, sink_endpoint.go and sink_process.go). The nonce of a payload is one with its
-- place in memory. What the transports answer, and which of the ready endpoints is the best, are
-- inputs; so is the order of a range over the pending payloads. What
-- a method adds when an endpoint starts or fails (onStarted, onFail) is a step of its own.
pub mod Steps
pub mod Stuck
pub mod Sending
pub mod Accounts
pub mod Order
pub mod Runs
mod Tests
use log_courier.Common.{
  ℕ, zero, suc, ◌+◌, ◌-◌, ◌%◌, Bool, true, false, not, ◌&&◌, ◌||◌, List, [], ◌∷◌, ◌++◌, Option,
  none, some, leb, ltb, ◌==◌, if◌then◌else◌, length, lookup, nat_eq, count,
}
use log_courier.Core.{EventDescriptor}
use log_courier.Payload.{Payload, ack, complete}
use log_courier.Endpoint.{
  Endpoint, Sink, is_active, is_alive, is_failed, is_idle, is_closing, new_sink, add_endpoint,
  mark_active, move_failed, recover_failed, shutdown_endpoint, remove_endpoint, set_payloads, on,
}
use log_courier.Prospector.State.{mem, remove}
use log_courier.Prospector.Scan.{range}
use log_courier.Publisher.{
  Publisher, new_publisher, find, queue_events, process_ack, pull_back_pending, resend,
}

-- `pending` are the places in the `pendingPayloads` of each endpoint. A spool is taken while none is held and
-- the publisher does not shut down.
pub record Delivery : Type 0 where
  pub publisher : Publisher
  pub sink : Sink
  pub pending : ℕ → List ℕ
  pub next_spool : Option (List EventDescriptor)
  pub shutting_down : Bool
  pub max_pending_payloads : ℕ

unfoldable pub new_delivery : (max_pending_payloads : ℕ) → Delivery
unfolding new_publisher new_sink
new_delivery max_pending_payloads = record {
  publisher = new_publisher;
  sink = new_sink;
  pending = λ e. [];
  next_spool = none;
  shutting_down = false;
  max_pending_payloads = max_pending_payloads;
}

-- How a payload is sent again: the choices of endpoints at which `Write` gives an error, and the one at
-- which it gives none.
pub record Tries : Type 0 where
  pub failures : List ℕ
  pub success : ℕ

-- The answers that a call may meet: for a payload of `resendList`, and for a new one the choice and
-- whether `Write` gives no error.
pub record Answers : Type 0 where
  pub tries : ℕ → Tries
  pub choice : ℕ
  pub accepted : Bool

unfoldable pub set_pending : ℕ → List ℕ → Delivery → Delivery
set_pending e ids d = record d { pending = λ other. if e == other then ids else d.pending other }

-- `queuePayload` up to the call of `Write`; none is the panic where the endpoint is not ready.
unfoldable pub queue_payload : (e id : ℕ) → Delivery → Option Delivery
unfolding set_pending mem
queue_payload e id d = elim (lookup e d.sink.endpoints) [
  | none ↦ none
  | some ep ↦
      if is_active ep.status
      then some (
          set_pending e (if mem id (d.pending e) then d.pending e else id ∷ d.pending e)
            (record d { sink = set_payloads (ep.num_payloads + 1) e ep d.sink }))
      else none
]

-- `ForceFailure`: the observer is not told.
unfoldable pub force_failure : ℕ → Delivery → Delivery
force_failure e d = record d { sink = on move_failed e d.sink }

unfoldable pub nth : ℕ → List ℕ → Option ℕ
nth n [] = none
nth zero (e ∷ list) = some e
nth (suc n) (e ∷ list) = nth n list

-- The best of the ready endpoints; none where there is none, which `sendPayload` does not expect.
unfoldable pub best : (choice : ℕ) → List ℕ → Option ℕ
unfolding nth
best choice list = nth (choice % length list) list

-- `sendPayload`, with the endpoint that it takes.
unfoldable pub send_payload :
    (choice : ℕ) → (accepted : Bool) → (id : ℕ) → Delivery → Option Delivery
unfolding best queue_payload force_failure
send_payload choice accepted id d = elim (best choice d.sink.ready_list) [
  | none ↦ none
  | some e ↦ elim (queue_payload e id d) [
    | none ↦ none
    | some d' ↦ some (if accepted then d' else force_failure e d')
  ]
]

-- The rounds of the loop of `tryQueueHeld` that send one payload.
unfoldable pub send_again : List ℕ → (success id : ℕ) → Delivery → Option Delivery
unfolding send_payload
send_again [] success id d = elim (send_payload success true id d) [
  | none ↦ none
  | some d' ↦ some (record d' { publisher = resend d'.publisher })
]
send_again (choice ∷ failures) success id d = elim (send_payload choice false id d) [
  | none ↦ none
  | some d' ↦ send_again failures success id d'
]

unfoldable pub resend_loop : (ℕ → Tries) → List ℕ → Delivery → Option Delivery
unfolding send_again
resend_loop tries [] d = some d
resend_loop tries (id ∷ ids) d = elim (send_again (tries id).failures (tries id).success id d) [
  | none ↦ none
  | some d' ↦ resend_loop tries ids d'
]

-- `sendEvents`.
unfoldable pub send_events : Answers → List EventDescriptor → Delivery → Option Delivery
unfolding send_payload queue_events
send_events a events d =
    send_payload a.choice a.accepted d.publisher.next_id
      (record d { publisher = queue_events events d.publisher })

-- A spool stays held if it was not sent.
unfoldable pub hold_unless : Bool → List EventDescriptor → Delivery → Delivery
hold_unless accepted events d = record d { next_spool = if accepted then none else some events }

unfoldable pub send_spool : Answers → List EventDescriptor → Delivery → Option Delivery
unfolding send_events hold_unless
send_spool a events d = elim (send_events a events d) [
  | none ↦ none
  | some d' ↦ some (hold_unless a.accepted events d')
]

unfoldable pub can_queue : Delivery → Bool
can_queue d = not (length d.sink.ready_list == 0)

unfoldable pub below_limit : Delivery → Bool
below_limit d = ltb d.publisher.num_payloads d.max_pending_payloads

-- `tryQueueHeld` behind its first condition.
unfoldable pub queue_held :
    Answers
    → (resend_list : List ℕ) → (held : Option (List EventDescriptor)) → Delivery
    → Option Delivery
unfolding resend_loop send_spool below_limit
queue_held a (id ∷ ids) held d = resend_loop a.tries (id ∷ ids) d
queue_held a [] none d = some d
queue_held a [] (some events) d = if below_limit d then send_spool a events d else some d

unfoldable pub try_queue_held : Answers → Delivery → Option Delivery
unfolding queue_held can_queue
try_queue_held a d =
    if d.shutting_down || not (can_queue d)
    then some d
    else queue_held a d.publisher.resend_list d.next_spool d

-- A spool that arrives.
unfoldable pub take_spool : Answers → List EventDescriptor → Delivery → Option Delivery
unfolding send_spool below_limit can_queue hold_unless
take_spool a events d =
    if below_limit d && (length d.publisher.resend_list == 0) && can_queue d
    then send_spool a events d
    else some (hold_unless false events d)

-- `pullBackPending`, with the order of the range over the pending payloads.
unfoldable pub pull_back : Answers → (first : List ℕ) → (e : ℕ) → Delivery → Option Delivery
unfolding try_queue_held set_pending pull_back_pending range
pull_back a first e d = try_queue_held a (
    set_pending e [] (record d {
      publisher = pull_back_pending (range first (d.pending e)) d.publisher;
      sink = on (set_payloads 0) e d.sink;
    }))

-- The report that a transport failed, and `OnFail`.
unfoldable pub failed : Answers → List ℕ → (e : ℕ) → Delivery → Option Delivery
unfolding pull_back
failed a first e d = elim (lookup e d.sink.endpoints) [
  | none ↦ some d
  | some ep ↦
      if is_alive ep.status
      then (let d' = record d { sink = move_failed e ep d.sink } in
          if ep.num_payloads == 0 then some d' else pull_back a first e d')
      else some d
]

-- `markActive` and `OnStarted`, but for the keepalive.
unfoldable pub marked_active : Answers → (e : ℕ) → Endpoint → Delivery → Option Delivery
unfolding try_queue_held
marked_active a e ep d =
    if is_idle ep.status
    then (let d' = record d { sink = mark_active e ep d.sink } in
        if ep.num_payloads == 0 then try_queue_held a d' else some d')
    else some d

-- The report that a transport started; and the timeout of a recovery.
unfoldable pub started : Answers → (e : ℕ) → Delivery → Option Delivery
unfolding marked_active
started a e d = elim (lookup e d.sink.endpoints) [
  | none ↦ some d
  | some ep ↦
      if is_failed ep.status
      then some (record d { sink = recover_failed e ep d.sink })
      else marked_active a e ep d
]

unfoldable pub resumed : Answers → (e : ℕ) → Delivery → Option Delivery
unfolding marked_active
resumed a e d = elim (lookup e d.sink.endpoints) [
  | none ↦ some d
  | some ep ↦ marked_active a e ep d
]
