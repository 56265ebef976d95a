-- ===== src/Payload/Tests.antt =====
-- Runs of lc-lib/payload/payload.go at concrete spools, and the theorems about it at those.
use log_courier.Common.{ℕ, ◌≡◌, refl, List, [], ◌∷◌, some}
use log_courier.Core.{EventDescriptor}
use log_courier.Payload.{Payload, new_payload, ack, reset_sequence, unacked}
use log_courier.Payload.Invariant.{
  IsValid, acks, resets, rolls, run, run-new_payload-IsValid, new_payload-IsValid, ack-IsValid,
}
use log_courier.Payload.Acks.{ack-ack, unacked-ack-reset_sequence}

abbrev event : ℕ → EventDescriptor
event n = record { stream = 1; offset = n; payload = n ∷ [] }

abbrev three : List EventDescriptor
three = event 10 ∷ event 20 ∷ event 30 ∷ []

-- Two events acknowledged, and one more after a reset.
abbrev two_acked : Payload
two_acked = (ack (new_payload three) 2).0

two_acked-IsValid : IsValid two_acked
two_acked-IsValid = ack-IsValid (new_payload three) 2 (new_payload-IsValid three)

resend_run : unacked (ack (reset_sequence two_acked) 0).0 ≡ some (event 30 ∷ [])
unfolding unacked ack reset_sequence new_payload
resend_run = refl

run-new_payload-IsValid_example :
    (last : Payload) × (run (new_payload three) (acks 2 ∷ rolls ∷ resets ∷ acks 1 ∷ rolls ∷ [])
      ≡ some last)
    × IsValid last
run-new_payload-IsValid_example =
    run-new_payload-IsValid three (acks 2 ∷ rolls ∷ resets ∷ acks 1 ∷ rolls ∷ [])

ack-ack_example : (ack (ack (new_payload three) 2).0 1).0 ≡ (ack (new_payload three) 2).0
ack-ack_example = ack-ack (new_payload three) 2 1

unacked-ack-reset_sequence_example : unacked (ack (reset_sequence two_acked) 1).0 ≡ some []
unfolding ack new_payload
unacked-ack-reset_sequence_example = unacked-ack-reset_sequence two_acked 1 two_acked-IsValid
