-- ===== src/Transports/Tcp/Controller.antt =====
-- The controller of lc-lib/transports/tcp/tcp.go: it connects, waits for a failure or the shutdown,
-- and connects anew. What the network and the channels answer in a round is an input; what it does
-- is a list of actions.
pub mod Sockets
use log_courier.Common.{Bool, true, false, List, [], ◌∷◌, ◌++◌, if◌then◌else◌}
use log_courier.Transports.{StatusChange, failed, finished}

-- A round after the connection failed or not. Connected, it waits until the channel of the
-- controller is closed or a failure comes. `reported` says that the observer took the event
-- `Failed`, and `waited` that the wait for the next attempt was not cut short by a shutdown.
pub record Round : Type 0 where
  pub connects : Bool
  pub shut_down : Bool
  pub reported : Bool
  pub waited : Bool

pub data Action : Type 0 where
  opens closes backoff_reset backoff_trigger : Action
  status : StatusChange → Action

-- `connect`: it closes a socket that is still there first. With a socket come the routines of the
-- sender and the receiver.
unfoldable pub connect : (is_open ok : Bool) → List Action
connect is_open ok = (if is_open then closes ∷ [] else []) ++ (if ok then opens ∷ [] else [])

-- `disconnect`, which does nothing without a socket.
unfoldable pub disconnect : (is_open : Bool) → List Action
disconnect is_open = if is_open then closes ∷ [] else []

-- What follows a failure: the end, or the report and the wait.
unfoldable pub after_failure : (finish_on_fail reported waited : Bool) → List Action → List Action
after_failure true reported waited again = status finished ∷ []
after_failure false false waited again = status finished ∷ []
after_failure false true waited again =
    status failed ∷ backoff_trigger ∷ (if waited then again else status finished ∷ [])

-- A round, with the actions of the rounds after it. No round leaves a socket for the next, and a
-- handshake that fails closes its own.
unfoldable pub round :
    (finish_on_fail connects shut_down reported waited : Bool) → List Action → List Action
unfolding connect disconnect after_failure
round finish_on_fail false shut_down reported waited again =
    connect false false ++ (disconnect false ++ after_failure finish_on_fail reported waited again)
round finish_on_fail true true reported waited again =
    connect false true ++ backoff_reset ∷ (disconnect true ++ status finished ∷ [])
round finish_on_fail true false reported waited again =
    connect false true
    ++ backoff_reset ∷ (disconnect true ++ after_failure finish_on_fail reported waited again)

-- The loop of `controller`, with the deferred event at its end; without a round it still runs.
unfoldable pub controller : (finish_on_fail : Bool) → List Round → List Action
unfolding round
controller finish_on_fail [] = []
controller finish_on_fail (r ∷ rounds) =
    round finish_on_fail r.connects r.shut_down r.reported r.waited
      (controller finish_on_fail rounds)
