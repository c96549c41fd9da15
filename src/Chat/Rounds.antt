-- ===== src/Chat/Rounds.antt =====
-- LT1_22CS10082_B/chatserver.c: rounds in which every client sends a number and the largest wins.
use cnlab_cs.Common.{
  ℕ, suc, Bool, true, false, ◌&&◌, not, Option, none, some, List, [], ◌∷◌, ◌++◌, ltb, leb, ◌==◌,
  if◌then◌else◌, length, get_or, set, take,
}
use cnlab_cs.Common.Bytes.{codes, c_str}
use cnlab_cs.Common.Int.{ℤ, pos, negsuc}
use cnlab_cs.Common.Scan.{scan_int, decimal}
use cnlab_cs.Chat.Run.{Sent, Run, fault, returns, sends, ◌then_do◌, fd_isset, fd_set}

abbrev pub max_cl : ℕ
max_cl = 5

abbrev pub int_min : ℤ
int_min = negsuc 2147483647

-- `x < y` on int, and `x == INT_MIN`.
abbrev pub lt_int : ℤ → ℤ → Bool
lt_int (pos a) (pos b) = ltb a b
lt_int (pos a) (negsuc b) = false
lt_int (negsuc a) (pos b) = true
lt_int (negsuc a) (negsuc b) = ltb b a

abbrev pub is_min : ℤ → Bool
is_min (pos n) = false
is_min (negsuc n) = n == 2147483647

-- The variables of main that live over the rounds. A slot of `clientsockfd` that is -1 is `none`.
pub record Game : Type 0 where
  pub clientsockfd : List (Option ℕ)
  pub numclient : ℕ
  pub readerfds : List ℕ
  pub maxfd : ℕ
  pub round : ℕ
  pub max_received : List ℤ

-- What the calls of one round give: the descriptors that select leaves, the new descriptor (`none` is
-- below 0), the bytes that recv stores in the cleared array, and the text "<address,port>" of a client.
pub record Calls : Type 0 where
  pub curfds : List ℕ
  pub accepted : Option ℕ
  pub recv : ℕ → List ℕ
  pub peer : ℕ → List ℕ

abbrev pub nothing_received : List ℤ
nothing_received = int_min ∷ int_min ∷ int_min ∷ int_min ∷ int_min ∷ []

abbrev pub new_game : (server_fd : ℕ) → Game
new_game server_fd = record {
  clientsockfd = none ∷ none ∷ none ∷ none ∷ none ∷ [];
  numclient = 0;
  readerfds = server_fd ∷ [];
  maxfd = server_fd;
  round = 1;
  max_received = nothing_received;
}

-- `send` of a text with its final zero.
abbrev pub send_text : ℕ → List ℕ → Run {0} Unit
send_text fd text = sends (record { fd = fd; text = text ++ 0 ∷ [] } ∷ [])

abbrev pub welcome : (round : ℕ) → List ℕ
welcome round = codes "Server:Send your number for round " ++ decimal round ++ codes "\n"

abbrev pub dropped : (text peer : List ℕ) → List ℕ
dropped text peer =
    codes "Server : Insufficient clients, "
    ++ text
    ++ codes " from client "
    ++ peer
    ++ codes " dropped\n"

abbrev pub duplicate : (round : ℕ) → List ℕ
duplicate round =
    codes "Server : Duplicae message for round "
    ++ decimal round
    ++ codes " not allowed. Please wait for the results for round "
    ++ decimal round
    ++ codes " and call for the round "
    ++ decimal (suc round)
    ++ codes "\n"

abbrev pub next_round : (round : ℕ) → List ℕ
next_round round = codes "Server : Enter number for round " ++ decimal round ++ codes "\n"

-- `sscanf(buf, "%d", &nn)` where the number is used: without one, `nn` was never set, and a number that
-- int cannot hold is undefined.
abbrev pub in_range : ℤ → Bool
in_range (pos n) = ltb n 2147483648
in_range (negsuc n) = ltb n 2147483648

abbrev pub number_in : (text : List ℕ) → Run ℤ
number_in text = elim (scan_int text) [
  | none ↦ fault
  | some nn ↦ if in_range nn then returns nn [] else fault
]

-- The same where it is not used.
abbrev pub number_ignored : (text : List ℕ) → Run {0} Unit
number_ignored text = elim (scan_int text) [
  | none ↦ sends []
  | some nn ↦ if in_range nn then sends [] else fault
]

-- A client that select reports. An array without a final zero is read behind its end.
unfoldable pub on_number : Calls → Game → (i fd : ℕ) → Run Game
on_number c g i fd =
    let text = c_str (c.recv fd) in
    if leb 1024 (length text)
    then fault
    else if ltb g.numclient 2
    then (send_text fd (dropped text (c.peer fd)) then_do λ _. returns g [])
    else if not (is_min (get_or g.max_received i int_min))
    then (number_ignored text then_do λ _.
        send_text fd (duplicate g.round) then_do λ _. returns g [])
    else (number_in text then_do λ nn.
        returns (record g { max_received = set g.max_received i nn }) [])

-- The loop over the clients; a set has no descriptor -1.
unfoldable pub number_loop : Calls → (i : ℕ) → (fds : List (Option ℕ)) → Game → Run Game
unfolding on_number
number_loop c i [] g = returns g []
number_loop c i (none ∷ fds) g = fault
number_loop c i (some fd ∷ fds) g =
    (if fd_isset fd c.curfds then on_number c g i fd else returns g []) then_do λ g'.
    number_loop c (suc i) fds g'

-- `ok`
abbrev pub all_received : List ℤ → Bool
all_received [] = true
all_received (x ∷ xs) = not (is_min x) && all_received xs

-- The largest number and where it stands first, from the index i on; -1 is `none`.
unfoldable pub best_loop : (i : ℕ) → List ℤ → (ans : ℤ) → (id : Option ℕ) → ℤ × Option ℕ
best_loop i [] ans id = (ans, id)
best_loop i (x ∷ xs) ans id =
    let better = best_loop (suc i) xs x (some i) in
    let worse = best_loop (suc i) xs ans id in if lt_int ans x then better else worse

-- The call for the next round; a `send` to the descriptor -1 fails, and nobody looks at that.
abbrev pub call_all : (text : List ℕ) → List (Option ℕ) → List Sent
call_all text [] = []
call_all text (none ∷ fds) = call_all text fds
call_all text (some fd ∷ fds) = record { fd = fd; text = text ++ 0 ∷ [] } ∷ call_all text fds

-- What is printed at the end of a round.
pub record Winner : Type 0 where
  pub ans : ℤ
  pub id : ℕ

abbrev pub best : Game → ℤ × Option ℕ
best g = best_loop 0 (take g.numclient g.max_received) int_min none

-- Without a winner, `clientsockfd[-1]` is outside of the array.
unfoldable pub conclude : Game → Run (Game × Option Winner)
unfolding best_loop
conclude g =
    if all_received (take g.numclient g.max_received)
    then elim (best g).1 [
      | none ↦ fault
      | some i ↦
          returns
            (
              record g { round = suc g.round; max_received = nothing_received },
              some (record { ans = (best g).0; id = i }),
            )
            (call_all (next_round (suc g.round)) g.clientsockfd)
    ]
    else returns (g, none) []

unfoldable pub add_player : Game → ℕ → Game
add_player g fd = record g {
  clientsockfd = set g.clientsockfd g.numclient (some fd);
  numclient = suc g.numclient;
  readerfds = fd_set fd g.readerfds;
  maxfd = if ltb g.maxfd fd then fd else g.maxfd;
}

-- The part of a round behind the connection request.
unfoldable pub play : Calls → Game → Run (Game × Option Winner)
unfolding number_loop conclude
play c g = number_loop c 0 (take g.numclient g.clientsockfd) g then_do conclude

-- One round of `while (1)`; both `continue`s leave out the rest of it.
unfoldable pub game_round : (server_fd : ℕ) → Calls → Game → Run (Game × Option Winner)
unfolding play add_player
game_round server_fd c g =
    if fd_isset server_fd c.curfds
    then (if g.numclient == max_cl then returns (g, none) [] else elim c.accepted [
      | none ↦ returns (g, none) []
      | some fd ↦ (send_text fd (welcome g.round) then_do λ _. play c (add_player g fd))
    ])
    else play c g
