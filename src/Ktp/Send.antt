-- ===== src/Ktp/Send.antt =====
-- LA4.0/ksocket.c, `k_sendto`: the packet, the retransmission loop and the call.
use cnlab_cs.Common.{
  ℕ, suc, ◌+◌, ◌%◌, Bool, true, false, ◌&&◌, not, Option, none, some, List, [], ◌∷◌, ◌++◌, ltb,
  ◌==◌, if◌then◌else◌, length, get_elem?, take, min,
}
use cnlab_cs.Ktp.Socket.{
  KtpSocket, SockAddr, Table, Errno, einval, enotsock, enotbound, sys, find_sock, update_sock,
  max_data_size, data_msg, ack_msg,
}

-- What a call returns once the loop has ended; `waiting` if it is still in the loop when the given
-- events are used up; `fault` if it does what C leaves undefined.
pub data Outcome (A : Type 0) : Type 0 where
  done : A → Outcome A
  failed : Errno → Outcome A
  waiting : Outcome A
  fault : Outcome A

-- `pkt[0] = n` keeps the low eight bits.
abbrev pub to_char : ℕ → ℕ
to_char n = n % 256

-- `c == n` for a `char` c, given by its bits, and an int n that is not negative: a char is signed,
-- so that one of the values 128 to 255 is negative and equals no such n.
abbrev pub char_eq : ℕ → ℕ → Bool
char_eq c n = ltb c 128 && c == n

-- The packet: the sequence number, the type, six header bytes that nobody writes, the data.
unfoldable pub data_packet : ℕ → (unset data_bytes : List ℕ) → List ℕ
data_packet seqno unset data_bytes = to_char seqno ∷ data_msg ∷ unset ++ data_bytes

-- What one round of the loop meets: the results of `sendto`, `select` and `recvfrom`, the first two
-- bytes of `ack_pkt` after it, and what `dropMessage` says.
pub data SendEvent : Type 0 where
  send_error select_error timeout recv_error : SendEvent
  ack_arrives : (b0 b1 : ℕ) → (dropped : Bool) → SendEvent

pub data SendRound : Type 0 where
  again : SendRound
  acked : KtpSocket → SendRound
  stop : Errno → SendRound

abbrev pub advance : KtpSocket → KtpSocket
advance s = record s { last_ackno = s.next_seqno; next_seqno = suc s.next_seqno }

-- One round of `while(1)` after the packet is sent.
unfoldable pub send_round : KtpSocket → SendEvent → SendRound
send_round s send_error = stop sys
send_round s select_error = stop sys
send_round s timeout = again
send_round s recv_error = stop sys
send_round s (ack_arrives b0 b1 true) = again
send_round s (ack_arrives b0 b1 false) =
    if char_eq b0 s.next_seqno && b1 == ack_msg then acked (advance s) else again

-- The packets that went out, and how the loop ended. A round in which `sendto` fails sends none.
abbrev pub sends : SendEvent → ℕ
sends send_error = 0
sends _ = 1

unfoldable pub send_loop : KtpSocket → List SendEvent → ℕ × Outcome KtpSocket
unfolding send_round
send_loop s [] = (0, waiting)
send_loop s (e ∷ es) =
    let rest = send_loop s es in
    elim (send_round s e) [
      | again ↦ (sends e + rest.0, rest.1)
      | acked s' ↦ (sends e, done s')
      | stop x ↦ (sends e, failed x)
    ]

-- The arguments that are not NULL, the unwritten header bytes of the packet (`malloc` gives none if
-- it fails), and the events of the rounds.
pub record SendCall : Type 0 where
  pub buf : Option (List ℕ)
  pub dest_addr : Option SockAddr
  pub packet_memory : Option (List ℕ)
  pub events : List SendEvent

-- The new table, the datagrams sent (one packet, over and over) and the result.
pub record SendResult : Type 0 where
  pub table : Table
  pub packet : List ℕ
  pub copies : ℕ
  pub result : Outcome ℕ

unfoldable pub finish_send : Table → ℕ → List ℕ → ℕ → ℕ × Outcome KtpSocket → SendResult
unfolding update_sock
finish_send t i packet data_len (n, done s) = record {
  table = update_sock t i (λ _. s);
  packet = packet;
  copies = n;
  result = done data_len;
}
finish_send t i packet data_len (n, failed x) = record {
  table = t;
  packet = packet;
  copies = n;
  result = failed x;
}
finish_send t i packet data_len (n, waiting) = record {
  table = t;
  packet = packet;
  copies = n;
  result = waiting;
}
finish_send t i packet data_len (n, fault) = record {
  table = t;
  packet = packet;
  copies = n;
  result = fault;
}

abbrev returns_early : Table → Outcome ℕ → SendResult
returns_early t r = record { table = t; packet = []; copies = 0; result = r }

-- After the socket is found: the checks, the packet and the loop.
unfoldable pub send_from : Table → ℕ → KtpSocket → (buf : List ℕ) → SendCall → SendResult
unfolding send_loop finish_send data_packet
send_from t i s buf c =
    if not s.bound
    then returns_early t (failed enotbound)
    else (if length buf == 0 then returns_early t (done 0) else elim c.packet_memory [
      | none ↦ returns_early t (failed sys)
      | some unset ↦
          finish_send t i (data_packet s.next_seqno unset (take max_data_size buf))
            (min max_data_size (length buf)) (send_loop s c.events)
    ])

abbrev pub on_sock : {A : Type 0} → Table → ℕ → A → (ℕ → KtpSocket → A) → A
on_sock t fd missing found = elim (find_sock t fd) [
  | none ↦ missing
  | some i ↦ elim (get_elem? t.ktp_sockets i) [ none ↦ missing | some s ↦ found i s ]
]

-- `len` is the length of `buf`.
unfoldable pub k_sendto : Table → ℕ → SendCall → SendResult
unfolding find_sock send_from
k_sendto t fd c = elim c.buf [
  | none ↦ returns_early t (failed einval)
  | some buf ↦ elim c.dest_addr [
    | none ↦ returns_early t (failed einval)
    | some _ ↦ on_sock t fd (returns_early t (failed enotsock)) (λ i s. send_from t i s buf c)
  ]
]
