-- ===== src/Chat/Watching.antt =====
-- LT1_22CS30017/chatserver.c: the array of the clients and the sets of descriptors.
use mathlib.Core.Path.{subst}
use cnlab_cs.Common.{
  ℕ, suc, ◌≤◌, ◌<◌, ◌≡◌, refl, sym, ◌∙◌, Bool, true, false, some, List, [], ◌∷◌, ltb, ◌==◌,
  if◌then◌else◌, length, take, arith, All, All-append, Bool-cases, Option-cases, inl, inr,
  length-set, take_all, All-map,
}
use cnlab_cs.Common.Keys.{take-set_end}
use cnlab_cs.Chat.Run.{sends, fd_isset, fd_set}
use cnlab_cs.Chat.Safety.{Safe, Safe-after, Safe-then_do, Anything}
use cnlab_cs.Chat.Relay.{
  Relay, Calls, get_peer, send_loop, sendtoall, message_in, on_message, message_loop, add_client,
  on_connection, relay_round, new_relay,
}

-- The array has six entries, of which `numclient` are in use; select watches the listening socket
-- and every client, and nothing above `maxfd`.
pub record WellFormed (server_sock : ℕ) (r : Relay) : Type 0 where
  pub slots : length r.clientsockfd ≡ 6
  pub room : r.numclient ≤ 6
  pub listens : fd_isset server_sock r.masterfds ≡ true
  pub watched : All (λ fd. fd_isset fd r.masterfds ≡ true) (take r.numclient r.clientsockfd)
  pub below : All (λ fd. fd ≤ r.maxfd) r.masterfds

-- Messages that leave room for the final zero.
abbrev pub ShortMessages : Calls → Type 0
ShortMessages c = (fd : ℕ) (bytes : List ℕ) → c.recv fd ≡ some bytes → length bytes < 100

get_peer-Safe : (c : Calls) (fd : ℕ) → Safe Anything (get_peer c fd)
get_peer-Safe c fd = ground arith

send_loop-Safe :
    (c : Calls) (msg : List ℕ) (i j : ℕ) (fds : List ℕ) → Safe Anything (send_loop c msg i j fds)
unfolding send_loop
send_loop-Safe c msg i j [] = tt
send_loop-Safe c msg i j (fd ∷ fds) =
    let rest : Safe Anything (send_loop c msg i (suc j) fds) = send_loop-Safe c msg i (suc j) fds in
    elim (Bool-cases (i == j)) [
      | inl same ↦ rw same rest
      | inr other ↦ elim (Bool-cases (c.send_ok fd)) [
        | inr failed ↦ rw (other, failed) tt
        | inl sent ↦
            rw (other, sent)
              (Safe-after Anything Anything (record { fd = fd; text = take 8 msg } ∷ []) _ (
                Safe-then_do Anything Anything (get_peer c fd) _ (get_peer-Safe c fd)
                  (λ _ _. rest)))
      ]
    ]

sendtoall-Safe :
    (c : Calls) (r : Relay) (i fd : ℕ) (msg : List ℕ) → Safe Anything (sendtoall c r i fd msg)
unfolding sendtoall
sendtoall-Safe c r i fd msg =
    Safe-then_do Anything Anything (get_peer c fd) _ (get_peer-Safe c fd)
      (λ _ _. send_loop-Safe c msg i 0 (take r.numclient r.clientsockfd))

abbrev AnyMessage : List ℕ → Type 0
AnyMessage _ = Unit

message_in-Safe :
    (stack bytes : List ℕ)
    → length bytes < 100
    → Safe AnyMessage (message_in stack (take 100 bytes))
message_in-Safe stack bytes short =
    let room : ltb (length bytes) 100 ≡ true = ground arith in
    rw (take_all 100 bytes (omega arith), room) tt

few-Safe :
    (c : Calls) (few : Bool) (fd : ℕ) → Safe Anything (if few then get_peer c fd else sends [])
few-Safe c true fd = get_peer-Safe c fd
few-Safe c false fd = tt

on_message-Safe :
    (c : Calls) (r : Relay) (i fd : ℕ) → ShortMessages c → Safe Anything (on_message c r i fd)
unfolding on_message
on_message-Safe c r i fd short = elim (Option-cases (c.recv fd)) [
  | inl failed ↦ rw (failed, on_message) tt
  | inr (bytes, got) ↦
      rw (got, on_message)
        (Safe-then_do AnyMessage Anything (message_in c.stack (take 100 bytes)) _
          (message_in-Safe c.stack bytes (short fd bytes got))
          (λ msg _. Safe-then_do Anything Anything (get_peer c fd) _ (get_peer-Safe c fd) (λ _ _.
            Safe-then_do Anything Anything (if ltb r.numclient 2 then get_peer c fd else sends []) _
              (few-Safe c (ltb r.numclient 2) fd) (λ _ _. sendtoall-Safe c r i fd msg))))
]

message_loop-Safe :
    (c : Calls) (r : Relay) (i : ℕ) (fds : List ℕ)
    → ShortMessages c
    → Safe Anything (message_loop c r i fds)
unfolding message_loop
message_loop-Safe c r i [] short = tt
message_loop-Safe c r i (fd ∷ fds) short =
    let rest : Safe Anything (message_loop c r (suc i) fds) =
      message_loop-Safe c r (suc i) fds short in
    elim (Bool-cases (fd_isset fd c.readfds)) [
      | inr silent ↦ rw (silent, message_loop) rest
      | inl ready ↦
          rw (ready, message_loop)
            (Safe-then_do Anything Anything (on_message c r i fd) _ (on_message-Safe c r i fd short)
              (λ _ _. rest))
    ]

fd_set-isset : (fd x : ℕ) (xs : List ℕ) → fd_isset fd xs ≡ true → fd_isset fd (fd_set x xs) ≡ true
fd_set-isset fd x xs h = ground arith

fd_set_self : (x : ℕ) (xs : List ℕ) → fd_isset x (fd_set x xs) ≡ true
fd_set_self x xs = ground arith

fd_set-below :
    (x m n : ℕ) (xs : List ℕ)
    → All (λ fd. fd ≤ m) xs
    → m ≤ n
    → x ≤ n
    → All (λ fd. fd ≤ n) (fd_set x xs)
fd_set-below x m n xs h le new =
    let wider : All (λ fd. fd ≤ n) xs = All-map (λ fd p. omega arith) xs h in
    elim (Bool-cases (fd_isset x xs)) [
      | inl there ↦ rw there wider
      | inr absent ↦ rw absent (new, wider)
    ]

add_client-Safe :
    (server_sock : ℕ) (r : Relay) (fd : ℕ)
    → WellFormed server_sock r
    → r.numclient < 6
    → Safe (WellFormed server_sock) (add_client r fd)
unfolding add_client
add_client-Safe server_sock r fd w room =
    let free : ltb r.numclient 6 ≡ true = ground arith in
    rw (free, add_client)
      (record {
        slots = length-set r.clientsockfd r.numclient fd ∙ w.slots;
        room = omega arith;
        listens = fd_set-isset server_sock fd r.masterfds w.listens;
        watched =
            subst (All (λ x. fd_isset x (fd_set fd r.masterfds) ≡ true))
              (sym (take-set_end r.numclient r.clientsockfd fd (omega (arith, w.slots))))
              (All-append (λ x. fd_isset x (fd_set fd r.masterfds) ≡ true)
                (take r.numclient r.clientsockfd) (fd ∷ [])
                (All-map (λ x h. fd_set-isset x fd r.masterfds h) _ w.watched)
                (fd_set_self fd r.masterfds, tt));
        below = fd_set-below fd r.maxfd _ r.masterfds w.below (ground arith) (ground arith);
      })

on_connection-Safe :
    (server_sock : ℕ) (c : Calls) (r : Relay)
    → WellFormed server_sock r
    → r.numclient < 6
    → Safe (WellFormed server_sock) (on_connection server_sock c r)
unfolding on_connection
on_connection-Safe server_sock c r w room = elim (Bool-cases (fd_isset server_sock c.readfds)) [
  | inr silent ↦ rw (silent, on_connection) w
  | inl asked ↦ elim (Option-cases c.accepted) [
    | inl failed ↦ rw (asked, on_connection, failed) tt
    | inr (fd, got) ↦
        rw (asked, on_connection, got)
          (Safe-then_do (WellFormed server_sock) (WellFormed server_sock) (add_client r fd) _
            (add_client-Safe server_sock r fd w room)
            (λ r' w'.
              Safe-then_do Anything (WellFormed server_sock) (get_peer c fd) _ (get_peer-Safe c fd)
                (λ _ _. w')))
  ]
]

pub new_relay-WellFormed : (server_sock : ℕ) → WellFormed server_sock (new_relay server_sock)
new_relay-WellFormed server_sock = record {
  slots = refl;
  room = omega arith;
  listens = ground arith;
  watched = tt;
  below = (omega arith, tt);
}

-- With less than six clients and messages of less than 100 bytes, no round is undefined, whatever the calls
-- give; a round that goes on leaves an array of six entries, and select watches the listening socket and
-- every client and nothing above `maxfd`.
pub relay_round-Safe :
    (server_sock : ℕ) (c : Calls) (r : Relay)
    → WellFormed server_sock r
    → r.numclient < 6
    → ShortMessages c
    → Safe (WellFormed server_sock) (relay_round server_sock c r)
unfolding relay_round
relay_round-Safe server_sock c r w room short = elim (Bool-cases c.select_ok) [
  | inr failed ↦ rw (failed, relay_round) tt
  | inl selected ↦
      rw (selected, relay_round)
        (Safe-then_do (WellFormed server_sock) (WellFormed server_sock)
          (on_connection server_sock c r) _ (on_connection-Safe server_sock c r w room)
          (λ r' w'.
            Safe-then_do Anything (WellFormed server_sock)
              (message_loop c r' 0 (take r'.numclient r'.clientsockfd)) _
              (message_loop-Safe c r' 0 (take r'.numclient r'.clientsockfd) short) (λ _ _. w')))
]
