-- ===== src/Publisher.antt =====
-- lc-lib/publisher/publisher.go: the payloads in flight and the order in which what the servers
-- acknowledge goes to the registrar. A payload is known by its place in memory, here `id`; both
-- `payloadList` and `resendList` hold places, and the payload is kept beside its place in the
-- first, where it stays until it is done. Here an acknowledgement may name any payload, and an endpoint may
-- give back any payloads; which endpoint has which payload stands in Delivery.
pub mod Loadbalance
pub mod Delivery
pub mod Release
pub mod Updates
pub mod Holds
pub mod Order
mod Tests
use log_courier.Common.{
  ℕ, zero, suc, ◌+◌, ◌-◌, Bool, true, false, not, ◌&&◌, List, [], ◌∷◌, ◌++◌, Option, none, some,
  length, ◌==◌, if◌then◌else◌, ℤ, pos, ◌+ℤ◌, ◌-ℤ◌,
}
use log_courier.Core.{EventDescriptor}
use log_courier.Payload.{Payload, new_payload, ack, has_ack, complete, rollup, reset_sequence}

pub record Element : Type 0 where
  pub id : ℕ
  pub value : Payload

-- `next_id` is the place of the next payload, and `acks` what was added to the registrar's spool:
-- the events of each `AckEvent`.
pub record Publisher : Type 0 where
  pub payload_list : List Element
  pub num_payloads : ℕ
  pub out_of_sync : ℤ
  pub resend_list : List ℕ
  pub line_count : ℤ
  pub next_id : ℕ
  pub acks : List (List EventDescriptor)

unfoldable pub new_publisher : Publisher
new_publisher = record {
  payload_list = [];
  num_payloads = 0;
  out_of_sync = pos 0;
  resend_list = [];
  line_count = pos 0;
  next_id = 0;
  acks = [];
}

unfoldable pub find : ℕ → List Element → Option Payload
find id [] = none
find id (e ∷ list) = if e.id == id then some e.value else find id list

unfoldable pub update : ℕ → (Payload → Payload) → List Element → List Element
update id f [] = []
update id f (e ∷ list) =
    (if e.id == id then record e { value = f e.value } else e) ∷ update id f list

-- `List.Remove`.
unfoldable pub remove : ℕ → List ℕ → List ℕ
remove id [] = []
remove id (other ∷ list) = if other == id then list else other ∷ remove id list

-- What `sendEvents` does before it calls `sendPayload`.
unfoldable pub queue_events : List EventDescriptor → Publisher → Publisher
queue_events events p = record p {
  payload_list = p.payload_list ++ record { id = p.next_id; value = new_payload events } ∷ [];
  num_payloads = p.num_payloads + 1;
  next_id = suc p.next_id;
}

-- What the loop of `OnAck` leaves: the payloads, the fields, what it adds for the registrar, and
-- the number of payloads that are done.
pub record Released : Type 0 where
  pub payload_list : List Element
  pub out_of_sync : ℤ
  pub acks : List (List EventDescriptor)
  pub num_complete : ℕ

pub then_release : List EventDescriptor → Released → Released
then_release acked r = record r { acks = acked ∷ r.acks; num_complete = suc r.num_complete }

-- The loop of `OnAck` over the payloads from the first on. `counted` is its local count `outOfSync`,
-- and `shared` the field; `none` is a panic.
unfoldable pub release : (counted shared : ℤ) → List Element → Option Released
unfolding then_release
release counted shared [] =
    some (record { payload_list = []; out_of_sync = shared; acks = []; num_complete = 0 })
release counted shared (e ∷ list) =
    let rest = release (counted -ℤ pos 1) (counted -ℤ pos 1) list in
    if has_ack e.value
    then elim (rollup e.value) [
      | none ↦ none
      | some (value, acked) ↦ elim (complete value) [
        | none ↦ none
        | some false ↦ some (record {
          payload_list = record e { value = value } ∷ list;
          out_of_sync = shared;
          acks = acked ∷ [];
          num_complete = 0;
        })
        | some true ↦ elim rest [ none ↦ none | some r ↦ some (then_release acked r) ]
      ]
    ]
    else some
        (record { payload_list = e ∷ list; out_of_sync = shared; acks = []; num_complete = 0 })

-- The first part of `OnAck`: a payload that is done needs no resending.
unfoldable pub forget_resend : ℕ → Payload → Bool → Publisher → Publisher
forget_resend id value done p =
    if value.resending && done
    then record p {
      payload_list = update id (λ v. record v { resending = false }) p.payload_list;
      resend_list = remove id p.resend_list;
    }
    else p

-- A first acknowledgement out of order.
unfoldable pub count_first : Bool → Publisher → Publisher
count_first first_ack p = if first_ack then record p { out_of_sync = p.out_of_sync +ℤ pos 1 } else p

-- The second part, given the list of payloads; `none` is the panic on an empty list, and those of
-- the loop.
unfoldable pub release_in_order :
    List Element → ℕ → (first_ack : Bool) → Publisher → Option Publisher
release_in_order [] id first_ack p = none
release_in_order (front ∷ list) id first_ack p =
    if front.id == id
    then elim (release (p.out_of_sync +ℤ pos 1) p.out_of_sync (front ∷ list)) [
      | none ↦ none
      | some r ↦ some (record p {
        payload_list = r.payload_list;
        out_of_sync = r.out_of_sync;
        acks = p.acks ++ r.acks;
        num_payloads = p.num_payloads - r.num_complete;
      })
    ]
    else some (count_first first_ack p)

unfoldable pub count_lines : ℤ → Publisher → Publisher
count_lines lines p = record p { line_count = p.line_count +ℤ lines }

-- `OnAck` but for the timeouts and for `tryQueueHeld` at its end.
unfoldable pub on_ack :
    ℕ → Payload → (first_ack : Bool) → (lines : ℤ) → Publisher → Option Publisher
unfolding forget_resend release_in_order count_lines
on_ack id value first_ack lines p = elim (complete value) [
  | none ↦ none
  | some done ↦
      let p' = forget_resend id value done p in
      elim (release_in_order p'.payload_list id first_ack p') [
        | none ↦ none
        | some next ↦ some (count_lines lines next)
      ]
]

-- `processAck` of lc-lib/endpoint/endpoint.go, for the payload that the nonce names.
unfoldable pub process_ack : ℕ → (sequence : ℕ) → Publisher → Option Publisher
process_ack id sequence p = elim (find id p.payload_list) [
  | none ↦ some p
  | some value ↦
      let (acked, lines, done) = ack value sequence in
      on_ack id acked (not (has_ack value)) lines
        (record p { payload_list = update id (λ v. (ack v sequence).0) p.payload_list })
]

-- `pullBackPending`, of the payloads that the endpoint gives back, but for `tryQueueHeld`.
unfoldable pub pull_back_pending : List ℕ → Publisher → Publisher
pull_back_pending [] p = p
pull_back_pending (id ∷ ids) p = pull_back_pending ids (record p {
  payload_list = update id (λ v. reset_sequence (record v { resending = true })) p.payload_list;
  resend_list = p.resend_list ++ id ∷ [];
})

-- A round of the loop of `tryQueueHeld`, in which an endpoint takes the first payload of
-- `resendList`.
unfoldable pub resend_first : List ℕ → Publisher → Publisher
resend_first [] p = p
resend_first (id ∷ ids) p = record p {
  payload_list = update id (λ v. reset_sequence (record v { resending = false })) p.payload_list;
  resend_list = remove id (id ∷ ids);
}

unfoldable pub resend : Publisher → Publisher
unfolding resend_first
resend p = resend_first p.resend_list p

-- What happens to the publisher.
pub data Step : Type 0 where
  queues : List EventDescriptor → Step
  acknowledges : ℕ → ℕ → Step
  pulls_back : List ℕ → Step
  resends : Step

unfoldable pub step : Step → Publisher → Option Publisher
step (queues events) p = some (queue_events events p)
step (acknowledges id sequence) p = process_ack id sequence p
step (pulls_back ids) p = some (pull_back_pending ids p)
step resends p = some (resend p)

unfoldable pub run : List Step → Publisher → Option Publisher
run [] p = some p
run (s ∷ steps) p = elim (step s p) [ none ↦ none | some next ↦ run steps next ]
