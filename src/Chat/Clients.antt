-- ===== src/Chat/Clients.antt =====
-- LT1: the clients of both servers (LT1_22CS30017/chatclient.c and LT1_22CS10082_B/chatclient.c), one round
-- of the loop over select. A set has the terminal as the descriptor 0.
use cnlab_cs.Common.{
  ℕ, suc, Bool, Option, none, some, List, [], ◌∷◌, ◌++◌, if◌then◌else◌, length, take, drop,
}
use cnlab_cs.Common.Bytes.{fgets}
use cnlab_cs.Common.Scan.{scan_int, skip_spaces}
use cnlab_cs.Worker.Expression.{decimal_int, behind_number}
use cnlab_cs.Chat.Run.{Run, fault, exits, returns, sends, ◌then_do◌, fd_isset}
use cnlab_cs.Chat.Relay.{message_in}
use cnlab_cs.Chat.Rounds.{in_range, send_text}

-- What the calls of one round give: the descriptors that select leaves, the bytes from the server
-- (`none` is -1), whether send succeeds, and what stood in the two arrays before.
pub record ClientCalls : Type 0 where
  pub select_ok : Bool
  pub readfds : List ℕ
  pub recv : Option (List ℕ)
  pub send_ok : Bool
  pub old_buf : List ℕ
  pub old_msg : List ℕ

-- The array of 100 bytes behind `fgets(buf, 100, stdin)`, which all go out; at the end of the input it
-- is as it was.
abbrev pub line_message : (old_buf : List ℕ) → Option (List ℕ × List ℕ) → List ℕ
line_message old_buf none = old_buf
line_message old_buf (some (line, rest)) = line ++ 0 ∷ drop (suc (length line)) old_buf

abbrev pub rest_of : (stdin : List ℕ) → Option (List ℕ × List ℕ) → List ℕ
rest_of stdin none = stdin
rest_of stdin (some (line, rest)) = rest

unfoldable pub send_line : ClientCalls → (client_sock : ℕ) → (stdin : List ℕ) → Run (List ℕ)
unfolding fgets
send_line c client_sock stdin =
    if fd_isset 0 c.readfds
    then (if c.send_ok
        then returns (rest_of stdin (fgets 100 stdin))
            (record { fd = client_sock; text = line_message c.old_buf (fgets 100 stdin) } ∷ [])
        else exits [])
    else returns stdin []

-- What comes is only shown, but the array has to take its final zero.
unfoldable pub show_message : ClientCalls → (client_sock : ℕ) → Run {0} Unit
show_message c client_sock =
    if fd_isset client_sock c.readfds
    then elim c.recv [
      | none ↦ exits []
      | some bytes ↦ (message_in c.old_msg (take 100 bytes) then_do λ _. sends [])
    ]
    else sends []

-- One round of the client of the relay; what is left of the input.
unfoldable pub chat_round : ClientCalls → (client_sock : ℕ) → (stdin : List ℕ) → Run (List ℕ)
unfolding send_line show_message
chat_round c client_sock stdin =
    if c.select_ok
    then (send_line c client_sock stdin then_do λ rest.
        show_message c client_sock then_do λ _. returns rest [])
    else exits []

-- `scanf("%d", &val)`: without a number `val` was never set.
unfoldable pub send_number : (cfd : ℕ) → (stdin : List ℕ) → Run (List ℕ)
send_number cfd stdin = elim (scan_int stdin) [
  | none ↦ fault
  | some val ↦
      if in_range val
      then (send_text cfd (decimal_int val) then_do λ _.
          returns (behind_number (skip_spaces stdin)) [])
      else fault
]

-- One round of the client of the rounds; what the server sends is only shown.
unfoldable pub number_round : (curfds : List ℕ) → (cfd : ℕ) → (stdin : List ℕ) → Run (List ℕ)
unfolding send_number
number_round curfds cfd stdin =
    if fd_isset 0 curfds then send_number cfd stdin else returns stdin []
