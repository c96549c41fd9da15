-- ===== src/Worker/Loop.antt =====
-- LA5/client.c: one round of the loop of main.
use cnlab_cs.Common.{ℕ, Bool, true, false, none, some, List, [], ◌∷◌, if◌then◌else◌, take, drop}
use cnlab_cs.Common.Bytes.{codes, has_prefix, c_str}
use cnlab_cs.Worker.Expression.{evaluate_expression, result_text}

-- What `recv` gives: EAGAIN, another error, the end of the connection, or bytes.
pub data Received : Type 0 where
  not_yet : Received
  recv_failed : Received
  closed : Received
  response : (bytes : List ℕ) → Received

-- How a round ends: in undefined behaviour, at the end of the loop, or in front of the next round, with
-- the value of `waiting_for_task`.
pub data Outcome : Type 0 where
  undefined : Outcome
  stops : Outcome
  continues : (waiting_for_task : Bool) → Outcome

-- What was handed to `send`, in order.
pub record Turn : Type 0 where
  pub sent : List (List ℕ)
  pub outcome : Outcome

-- The task is what stands behind "Task: ", in an array of which the rest is zero.
unfoldable pub on_task : (bytes : List ℕ) → (send_ok : Bool) → Turn
on_task bytes send_ok = elim (evaluate_expression (c_str (drop 6 bytes))) [
  | none ↦ record { sent = []; outcome = Outcome.undefined }
  | some result ↦ record {
    sent = result_text result ∷ [];
    outcome = if send_ok then Outcome.continues false else Outcome.stops;
  }
]

-- The reply, of which recv takes 255 bytes; any other text is waited behind.
unfoldable pub on_response : (bytes : List ℕ) → (send_ok : Bool) → Turn
unfolding on_task
on_response bytes send_ok =
    if has_prefix (codes "Task:") bytes
    then on_task bytes send_ok
    else if has_prefix (codes "No tasks available") bytes
    then record { sent = codes "exit" ∷ []; outcome = Outcome.stops }
    else record { sent = []; outcome = Outcome.continues true }

unfoldable pub on_received : Received → (send_ok : Bool) → Turn
unfolding on_response
on_received Received.not_yet send_ok = record { sent = []; outcome = Outcome.continues true }
on_received Received.recv_failed send_ok = record { sent = []; outcome = Outcome.stops }
on_received Received.closed send_ok = record { sent = []; outcome = Outcome.stops }
on_received (Received.response bytes) send_ok = on_response (take 255 bytes) send_ok

abbrev pub behind_request : Turn → Turn
behind_request t = record t { sent = codes "GET_TASK" ∷ t.sent }

-- One round of `while (active)`; `request_ok` and `send_ok` are what the two calls of `send` give.
unfoldable pub client_turn :
    (waiting_for_task request_ok : Bool) → Received → (send_ok : Bool) → Turn
unfolding on_received
client_turn true request_ok r send_ok = on_received r send_ok
client_turn false true r send_ok = behind_request (on_received r send_ok)
client_turn false false r send_ok = record { sent = codes "GET_TASK" ∷ []; outcome = Outcome.stops }
