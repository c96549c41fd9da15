-- ===== src/Ktp/Recv.antt =====
-- LA4.0/ksocket.c, `k_recvfrom`: the acknowledgement loop and the call.
use cnlab_cs.Common.{
  ℕ, suc, ◌-◌, Bool, true, false, ◌&&◌, ◌||◌, not, Option, none, some, List, [], ◌∷◌, ◌++◌, ltb,
  ◌==◌, if◌then◌else◌, length, take, drop, get_or,
}
use cnlab_cs.Ktp.Socket.{
  KtpSocket, Table, Errno, einval, enotsock, enotbound, sys, find_sock, update_sock, header_size,
  pkt_size, data_msg, ack_msg,
}
use cnlab_cs.Ktp.Send.{Outcome, done, failed, waiting, fault, char_eq, on_sock}

-- What one round meets: a datagram comes with what `dropMessage` says of it, and with whether the
-- `sendto` of its acknowledgement succeeds.
pub data RecvEvent : Type 0 where
  select_error timeout recv_error : RecvEvent
  datagram : (bytes : List ℕ) → (dropped ack_ok : Bool) → RecvEvent

-- `recvfrom` into `pkt`: at most PKT_SIZE bytes, over the old content of the memory.
abbrev pub received : List ℕ → List ℕ
received bytes = take pkt_size bytes

abbrev pub overwrite : List ℕ → List ℕ → List ℕ
overwrite old bytes = bytes ++ drop (length bytes) old

-- The first two bytes of the acknowledgement; the other six are not written.
pub record Ack : Type 0 where
  pub seqno : ℕ
  pub kind : ℕ

abbrev pub ack_for : List ℕ → Ack
ack_for pkt = record { seqno = get_or pkt 0 0; kind = ack_msg }

pub data RecvRound : Type 0 where
  again : (pkt : List ℕ) → (acks : List Ack) → RecvRound
  deliver : KtpSocket → (payload : List ℕ) → (acks : List Ack) → RecvRound
  stop : Errno → RecvRound
  undefined : RecvRound

abbrev pub accept : KtpSocket → KtpSocket
accept s = record s { exp_seqno = suc s.exp_seqno }

abbrev pub is_expected : KtpSocket → List ℕ → Bool
is_expected s pkt = char_eq (get_or pkt 0 0) s.exp_seqno && get_or pkt 1 0 == data_msg

-- A datagram that is not dropped. With fewer than HEADER_SIZE bytes `recvlen - HEADER_SIZE` is
-- negative and `memcpy` gets it as a huge length.
unfoldable pub take_datagram : KtpSocket → (pkt : List ℕ) → (recvlen : ℕ) → Bool → RecvRound
take_datagram s pkt recvlen false = stop sys
take_datagram s pkt recvlen true =
    if is_expected s pkt
    then (if ltb recvlen header_size
        then undefined
        else deliver (accept s) (take (recvlen - header_size) (drop header_size pkt))
            (ack_for pkt ∷ []))
    else again pkt (ack_for pkt ∷ [])

unfoldable pub recv_round : KtpSocket → List ℕ → RecvEvent → RecvRound
unfolding take_datagram
recv_round s pkt select_error = stop sys
recv_round s pkt timeout = again pkt []
recv_round s pkt recv_error = stop sys
recv_round s pkt (datagram bytes true ack_ok) = again (overwrite pkt (received bytes)) []
recv_round s pkt (datagram bytes false ack_ok) =
    take_datagram s (overwrite pkt (received bytes)) (length (received bytes)) ack_ok

-- The acknowledgements sent, and the socket and the payload when the loop ends.
unfoldable pub recv_loop :
    KtpSocket → List ℕ → List RecvEvent → List Ack × Outcome (KtpSocket × List ℕ)
unfolding recv_round
recv_loop s pkt [] = ([], waiting)
recv_loop s pkt (e ∷ es) = elim (recv_round s pkt e) [
  | again pkt' acks ↦ let rest = recv_loop s pkt' es in (acks ++ rest.0, rest.1)
  | deliver s' payload acks ↦ (acks, done (s', payload))
  | stop x ↦ ([], failed x)
  | undefined ↦ ([], fault)
]

-- `buf` and `src_addr` may be NULL; `memory` is what `malloc` returned, with its content.
pub record RecvCall : Type 0 where
  pub buf_given : Bool
  pub src_addr_given : Bool
  pub len : ℕ
  pub memory : Option (List ℕ)
  pub events : List RecvEvent

-- The result is the payload that was copied to `buf`; the call returns its length.
pub record RecvResult : Type 0 where
  pub table : Table
  pub acks : List Ack
  pub result : Outcome (List ℕ)

unfoldable pub finish_recv : Table → ℕ → List Ack × Outcome (KtpSocket × List ℕ) → RecvResult
unfolding update_sock
finish_recv t i (acks, done (s, payload)) = record {
  table = update_sock t i (λ _. s);
  acks = acks;
  result = done payload;
}
finish_recv t i (acks, failed x) = record { table = t; acks = acks; result = failed x }
finish_recv t i (acks, waiting) = record { table = t; acks = acks; result = waiting }
finish_recv t i (acks, fault) = record { table = t; acks = acks; result = fault }

abbrev returns_early : Table → Outcome (List ℕ) → RecvResult
returns_early t r = record { table = t; acks = []; result = r }

unfoldable pub recv_from : Table → ℕ → KtpSocket → RecvCall → RecvResult
unfolding recv_loop finish_recv
recv_from t i s c =
    if not s.bound
    then returns_early t (failed enotbound)
    else (if c.len == 0 then returns_early t (done []) else elim c.memory [
      | none ↦ returns_early t (failed sys)
      | some pkt ↦ finish_recv t i (recv_loop s pkt c.events)
    ])

unfoldable pub k_recvfrom : Table → ℕ → RecvCall → RecvResult
unfolding find_sock recv_from
k_recvfrom t fd c =
    if not c.buf_given || not c.src_addr_given
    then returns_early t (failed einval)
    else on_sock t fd (returns_early t (failed enotsock)) (λ i s. recv_from t i s c)
