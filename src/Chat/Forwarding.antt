-- ===== src/Chat/Forwarding.antt =====
-- LT1_22CS30017/chatserver.c: who gets a message, and what main keeps true.
use cnlab_cs.Common.{
  ℕ, suc, ◌+◌, ◌<◌, ◌≡◌, ◌≢◌, refl, sym, ap, ◌∙◌, true, false, some, List, [], ◌∷◌, ◌++◌, ltb, ◌==◌,
  length, take, drop, arith, map, All, take_all, append-nil, Bool-cases, inl, inr, ==_self,
}
use cnlab_cs.Chat.Run.{Sent, returns, sends}
use cnlab_cs.Chat.Relay.{
  Relay, Calls, send_loop, sendtoall, on_message, message_loop, on_connection, relay_round,
}

-- Every call of getpeername and send succeeds.
pub record AllWell (c : Calls) : Type 0 where
  pub select_ok : c.select_ok ≡ true
  pub peer_ok : (fd : ℕ) → c.peer_ok fd ≡ true
  pub send_ok : (fd : ℕ) → c.send_ok fd ≡ true

-- One message for each descriptor, of the first eight bytes of the array.
abbrev pub to_each : (msg : List ℕ) → List ℕ → List Sent
to_each msg = map (λ fd. record { fd = fd; text = take 8 msg })

-- The clients behind the sender.
send_loop-behind :
    (c : Calls) (msg : List ℕ) (i j : ℕ) (fds : List ℕ)
    → AllWell c
    → i < j
    → send_loop c msg i j fds ≡ sends (to_each msg fds)
unfolding send_loop
send_loop-behind c msg i j [] w h = refl
send_loop-behind c msg i j (fd ∷ fds) w h =
    let other : (i == j) ≡ false = ground arith in
    rw (other, w.send_ok fd, w.peer_ok fd, send_loop-behind c msg i (suc j) fds w (omega arith))
      refl

-- The clients in front of the sender, the sender, and the clients behind it.
send_loop-others :
    (c : Calls) (msg : List ℕ) (i j : ℕ) (before : List ℕ) (fd : ℕ) (behind : List ℕ)
    → AllWell c
    → i ≡ j + length before
    → send_loop c msg i j (before ++ fd ∷ behind) ≡ sends (to_each msg (before ++ behind))
unfolding send_loop
send_loop-others c msg i j [] fd behind w h =
    let same : (i == j) ≡ true = ground arith in
    rw same (send_loop-behind c msg i (suc j) behind w (omega arith))
send_loop-others c msg i j (x ∷ before) fd behind w h =
    let other : (i == j) ≡ false = ground arith in
    rw
      (
        other,
        w.send_ok x,
        w.peer_ok x,
        send_loop-others c msg i (suc j) before fd behind w (omega arith),
      )
      refl

-- The array with the message.
abbrev pub message : Calls → List ℕ → List ℕ
message c bytes = bytes ++ 0 ∷ drop (suc (length bytes)) c.stack

on_message-forwards :
    (c : Calls) (r : Relay) (before : List ℕ) (fd : ℕ) (behind bytes : List ℕ)
    → AllWell c
    → take r.numclient r.clientsockfd ≡ before ++ fd ∷ behind
    → c.recv fd ≡ some bytes
    → length bytes < 100
    → on_message c r (length before) fd ≡ sends (to_each (message c bytes) (before ++ behind))
unfolding on_message sendtoall
on_message-forwards c r before fd behind bytes w clients got short =
    let room : ltb (length bytes) 100 ≡ true = ground arith in
    let forwarded =
      send_loop-others c (message c bytes) (length before) 0 before fd behind w (omega arith) in
    elim (Bool-cases (ltb r.numclient 2)) [
      | inl few ↦
          rw
            (
              got,
              on_message,
              take_all 100 bytes (omega arith),
              room,
              w.peer_ok fd,
              few,
              clients,
              forwarded,
            )
            refl
      | inr enough ↦
          rw
            (
              got,
              on_message,
              take_all 100 bytes (omega arith),
              room,
              w.peer_ok fd,
              enough,
              clients,
              forwarded,
            )
            refl
    ]

-- Clients that select does not report.
message_loop-silent :
    (c : Calls) (r : Relay) (i fd : ℕ) (fds : List ℕ)
    → c.readfds ≡ fd ∷ []
    → All (λ x. x ≢ fd) fds
    → message_loop c r i fds ≡ sends []
unfolding message_loop
message_loop-silent c r i fd [] only h = refl
message_loop-silent c r i fd (x ∷ fds) only h =
    let other : (x == fd) ≡ false = ground (arith, h.0) in
    rw (only, message_loop, other) (message_loop-silent c r (suc i) fd fds only h.1)

message_loop-one :
    (c : Calls) (r : Relay) (i fd : ℕ) (before behind : List ℕ) (sent : List Sent)
    → c.readfds ≡ fd ∷ []
    → All (λ x. x ≢ fd) before
    → All (λ x. x ≢ fd) behind
    → on_message c r (i + length before) fd ≡ sends sent
    → message_loop c r i (before ++ fd ∷ behind) ≡ sends sent
unfolding message_loop
message_loop-one c r i fd [] behind sent only hb hh h =
    let here : i + 0 ≡ i = omega arith in
    rw
      (
        only,
        message_loop,
        ==_self fd,
        ap (λ k. on_message c r k fd) (sym here) ∙ h,
        message_loop-silent c r (suc i) fd behind only hh,
      )
      (ap sends (append-nil sent))
message_loop-one c r i fd (x ∷ before) behind sent only hb hh h =
    let other : (x == fd) ≡ false = ground (arith, hb.0) in
    let next : suc i + length before ≡ i + length (x ∷ before) = omega arith in
    rw (only, message_loop, other)
      (message_loop-one c r (suc i) fd before behind sent only hb.1 hh
        (ap (λ k. on_message c r k fd) next ∙ h))

-- When select reports one client and every call succeeds, a message of less than 100 bytes goes to each of the
-- other clients once, in the order of the array and not back to the sender; what goes out are the first
-- eight bytes of the array that holds it, and main keeps its state.
pub relay_round-forwards :
    (server_sock : ℕ) (c : Calls) (r : Relay) (before : List ℕ) (fd : ℕ) (behind bytes : List ℕ)
    → AllWell c
    → c.readfds ≡ fd ∷ []
    → fd ≢ server_sock
    → take r.numclient r.clientsockfd ≡ before ++ fd ∷ behind
    → All (λ x. x ≢ fd) before
    → All (λ x. x ≢ fd) behind
    → c.recv fd ≡ some bytes
    → length bytes < 100
    → relay_round server_sock c r ≡ returns r (to_each (message c bytes) (before ++ behind))
unfolding relay_round on_connection
relay_round-forwards server_sock c r before fd behind bytes w only client clients hb hh got short =
    let other : (server_sock == fd) ≡ false = ground (arith, client) in
    let start : 0 + length before ≡ length before = omega arith in
    let loop : message_loop c r 0 (before ++ fd ∷ behind)
        ≡ sends (to_each (message c bytes) (before ++ behind)) =
      message_loop-one c r 0 fd before behind _ only hb hh (
        ap (λ k. on_message c r k fd) start
        ∙ on_message-forwards c r before fd behind bytes w clients got short) in
    let quiet : on_connection server_sock c r ≡ returns r [] =
      rw (only, on_connection, other) refl in
    rw (quiet, relay_round, clients, loop, w.select_ok) (ap (returns r) (append-nil _))
