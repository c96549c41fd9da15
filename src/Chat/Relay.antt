-- ===== src/Chat/Relay.antt =====
-- LT1_22CS30017/chatserver.c: every message goes to the other clients.
use cnlab_cs.Common.{
  ℕ, suc, ◌+◌, Bool, Option, none, some, List, [], ◌∷◌, ◌++◌, ltb, ◌==◌, if◌then◌else◌, length, set,
  take, drop,
}
use cnlab_cs.Chat.Run.{Run, fault, exits, returns, sends, ◌then_do◌, fd_isset, fd_set}

abbrev pub max_client : ℕ
max_client = 5

-- The two globals, and the variables of main that live over the rounds.
pub record Relay : Type 0 where
  pub clientsockfd : List ℕ
  pub numclient : ℕ
  pub masterfds : List ℕ
  pub maxfd : ℕ

-- What the calls of one round give: the descriptors that select leaves, the new descriptor, the bytes
-- for a descriptor (`none` is -1), whether getpeername and send succeed on a descriptor, and what stood in
-- the array `msg` before the call of recv.
pub record Calls : Type 0 where
  pub select_ok : Bool
  pub readfds : List ℕ
  pub accepted : Option ℕ
  pub recv : ℕ → Option (List ℕ)
  pub peer_ok : ℕ → Bool
  pub send_ok : ℕ → Bool
  pub stack : List ℕ

-- FD_ZERO and FD_SET of the listening socket, on the cleared globals.
abbrev pub new_relay : (server_sock : ℕ) → Relay
new_relay server_sock = record {
  clientsockfd = 0 ∷ 0 ∷ 0 ∷ 0 ∷ 0 ∷ 0 ∷ [];
  numclient = 0;
  masterfds = server_sock ∷ [];
  maxfd = server_sock;
}

-- `getpeername`, which ends the program when it fails.
abbrev pub get_peer : Calls → ℕ → Run {0} Unit
get_peer c fd = if c.peer_ok fd then sends [] else exits []

-- The rest of the loop of sendtoall from the index j on: `sizeof(msg)` is the size of a pointer.
unfoldable pub send_loop : Calls → (msg : List ℕ) → (i j : ℕ) → (fds : List ℕ) → Run {0} Unit
send_loop c msg i j [] = sends []
send_loop c msg i j (fd ∷ fds) =
    let rest = send_loop c msg i (suc j) fds in
    if i == j
    then rest
    else (if c.send_ok fd
        then (sends (record { fd = fd; text = take 8 msg } ∷ []) then_do λ _.
            get_peer c fd then_do λ _. rest)
        else exits [])

unfoldable pub sendtoall : Calls → Relay → (i fd : ℕ) → (msg : List ℕ) → Run {0} Unit
unfolding send_loop
sendtoall c r i fd msg =
    get_peer c fd then_do λ _. send_loop c msg i 0 (take r.numclient r.clientsockfd)

-- The array after `recv` of at most 100 bytes and `msg[n] = '\0'`, which for n = 100 is outside of it.
abbrev pub message_in : (stack bytes : List ℕ) → Run (List ℕ)
message_in stack bytes =
    if ltb (length bytes) 100
    then returns (bytes ++ 0 ∷ drop (suc (length bytes)) stack) []
    else fault

-- What is done for a client that select reports; print_insuff calls getpeername once more.
unfoldable pub on_message : Calls → Relay → (i fd : ℕ) → Run {0} Unit
unfolding sendtoall
on_message c r i fd = elim (c.recv fd) [
  | none ↦ exits []
  | some bytes ↦
      (message_in c.stack (take 100 bytes) then_do λ msg. get_peer c fd then_do λ _.
      (if ltb r.numclient 2 then get_peer c fd else sends []) then_do λ _. sendtoall c r i fd msg)
]

-- The loop over the clients.
unfoldable pub message_loop : Calls → Relay → (i : ℕ) → (fds : List ℕ) → Run {0} Unit
unfolding on_message
message_loop c r i [] = sends []
message_loop c r i (fd ∷ fds) =
    let rest = message_loop c r (suc i) fds in
    if fd_isset fd c.readfds then (on_message c r i fd then_do λ _. rest) else rest

-- A write behind the six entries of the array is undefined.
unfoldable pub add_client : Relay → ℕ → Run Relay
add_client r fd =
    if ltb r.numclient (max_client + 1)
    then returns
        (record {
          clientsockfd = set r.clientsockfd r.numclient fd;
          numclient = suc r.numclient;
          masterfds = fd_set fd r.masterfds;
          maxfd = if ltb r.maxfd fd then fd else r.maxfd;
        })
        []
    else fault

unfoldable pub on_connection : (server_sock : ℕ) → Calls → Relay → Run Relay
unfolding add_client
on_connection server_sock c r =
    if fd_isset server_sock c.readfds
    then elim c.accepted [
      | none ↦ exits []
      | some fd ↦ (add_client r fd then_do λ r'. get_peer c fd then_do λ _. returns r' [])
    ]
    else returns r []

-- One round of `while (1)`.
unfoldable pub relay_round : (server_sock : ℕ) → Calls → Relay → Run Relay
unfolding on_connection message_loop
relay_round server_sock c r =
    if c.select_ok
    then (on_connection server_sock c r then_do λ r'.
        message_loop c r' 0 (take r'.numclient r'.clientsockfd) then_do λ _. returns r' [])
    else exits []
