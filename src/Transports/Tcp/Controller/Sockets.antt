-- ===== src/Transports/Tcp/Controller/Sockets.antt =====
-- The controller of lc-lib/transports/tcp/tcp.go leaves no socket open, and says once that it is
-- finished, at its end.
use log_courier.Common.{◌≡◌, refl, Bool, true, false, List, [], ◌∷◌}
use log_courier.Transports.{started, failed, finished}
use log_courier.Transports.Tcp.Controller.{
  Round, Action, opens, closes, backoff_reset, backoff_trigger, status, connect, disconnect,
  after_failure, round, controller,
}

-- Actions in an order that holds at most one socket: it is opened when none is open, is closed when
-- it is, and is closed whenever the endpoint hears of a failure or of the end, after which nothing
-- comes. `over` tells whether the end has been.
abbrev pub IsOrderly : (is_open over : Bool) → List Action → Type 0
IsOrderly is_open over [] = is_open ≡ false
IsOrderly is_open true (a ∷ actions) = ⊥
IsOrderly is_open false (opens ∷ actions) = (is_open ≡ false) × IsOrderly true false actions
IsOrderly is_open false (closes ∷ actions) = (is_open ≡ true) × IsOrderly false false actions
IsOrderly is_open false (backoff_reset ∷ actions) =
    (is_open ≡ true) × IsOrderly is_open false actions
IsOrderly is_open false (backoff_trigger ∷ actions) =
    (is_open ≡ false) × IsOrderly is_open false actions
IsOrderly is_open false (status started ∷ actions) = IsOrderly is_open false actions
IsOrderly is_open false (status failed ∷ actions) =
    (is_open ≡ false) × IsOrderly is_open false actions
IsOrderly is_open false (status finished ∷ actions) =
    (is_open ≡ false) × IsOrderly is_open true actions

after_failure-IsOrderly :
    (finish_on_fail reported waited : Bool) (again : List Action)
    → IsOrderly false false again
    → IsOrderly false false (after_failure finish_on_fail reported waited again)
unfolding after_failure
after_failure-IsOrderly true reported waited again h = (refl, refl)
after_failure-IsOrderly false false waited again h = (refl, refl)
after_failure-IsOrderly false true true again h = (refl, (refl, h))
after_failure-IsOrderly false true false again h = (refl, (refl, (refl, refl)))

round-IsOrderly :
    (finish_on_fail connects shut_down reported waited : Bool) (again : List Action)
    → IsOrderly false false again
    → IsOrderly false false (round finish_on_fail connects shut_down reported waited again)
unfolding round connect disconnect
round-IsOrderly f false s r w again h = after_failure-IsOrderly f r w again h
round-IsOrderly f true true r w again h = (refl, (refl, (refl, (refl, refl))))
round-IsOrderly f true false r w again h =
    (refl, (refl, (refl, after_failure-IsOrderly f r w again h)))

-- However connections fail, are lost, or the transport is shut down meanwhile, the controller opens
-- a socket only when none is open and closes each before it reports a failure or the end, waits to
-- connect again only without one, resets its delay only with one, and does nothing after it has
-- reported the end.
pub controller-IsOrderly :
    (finish_on_fail : Bool) (rounds : List Round)
    → IsOrderly false false (controller finish_on_fail rounds)
unfolding controller
controller-IsOrderly finish_on_fail [] = refl
controller-IsOrderly finish_on_fail (r ∷ rounds) =
    round-IsOrderly finish_on_fail r.connects r.shut_down r.reported r.waited
      (controller finish_on_fail rounds) (controller-IsOrderly finish_on_fail rounds)
