-- ===== src/Publisher/Tests.antt =====
-- A run of lc-lib/publisher/publisher.go with two payloads, of which the second is acknowledged
-- first.
use log_courier.Common.{count, ◌-ℤ◌, ◌+ℤ◌, ℕ, ◌≡◌, refl, List, [], ◌∷◌, Option, none, some, ℤ, pos}
use log_courier.Core.{EventDescriptor}
use log_courier.Payload.{new_payload, ack, has_ack, complete, rollup, unacked, reset_sequence}
use log_courier.Publisher.Holds.{IsInOrder}
use log_courier.Publisher.Order.{queued_by, run-new_publisher}
use log_courier.Publisher.{
  Publisher, Step, queues, acknowledges, pulls_back, resends, new_publisher, run, step, process_ack,
  on_ack, find, update, remove, queue_events, release, release_in_order, forget_resend, count_first,
  count_lines, pull_back_pending, resend, resend_first,
}
use log_courier.InternalList.Rings.{IsRing}
use log_courier.Publisher.Loadbalance.{
  Ordered, reload_config, new_sink, AllNew, reload_config-unlisted,
}

abbrev at_offset : ℕ → EventDescriptor
at_offset n = record { stream = 1; offset = n; payload = [] }

abbrev steps : List Step
steps =
    queues (at_offset 1 ∷ at_offset 2 ∷ [])
    ∷ queues (at_offset 3 ∷ [])
    ∷ acknowledges 1 1
    ∷ acknowledges 0 1
    ∷ pulls_back (0 ∷ [])
    ∷ resends
    ∷ acknowledges 0 1
    ∷ []

acks_of : Option Publisher → Option (List (List EventDescriptor) × ℤ × ℕ)
acks_of none = none
acks_of (some p) = some (p.acks, p.out_of_sync, p.num_payloads)

-- The count of payloads out of order was one, and is zero again once the second is released.
run-steps :
    acks_of (run steps new_publisher)
    ≡ some ((at_offset 1 ∷ []) ∷ (at_offset 2 ∷ []) ∷ (at_offset 3 ∷ []) ∷ [], pos 0, 0)
unfolding acks_of run step new_publisher process_ack on_ack find update remove queue_events release
    release_in_order forget_resend count_first count_lines pull_back_pending resend resend_first
    new_payload ack has_ack complete rollup unacked reset_sequence ◌-ℤ◌ ◌+ℤ◌
run-steps = refl

run-new_publisher_example :
    (last : Publisher) × (run steps new_publisher ≡ some last) × IsInOrder (queued_by steps) last
run-new_publisher_example = run-new_publisher steps

reload_config-unlisted_example :
    (s : Ordered) × (reload_config (1 ∷ 2 ∷ 3 ∷ []) new_sink ≡ some s)
    × IsRing s.ordered_list (1 ∷ [])
    × (s.endpoints ≡ 3 ∷ 2 ∷ 1 ∷ [])
unfolding AllNew count
reload_config-unlisted_example = reload_config-unlisted 1 (2 ∷ 3 ∷ []) (refl, (refl, (refl, tt)))
