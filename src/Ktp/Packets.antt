-- ===== src/Ktp/Packets.antt =====
-- LA4.0/ksocket.c: a packet that `k_sendto` builds, as `k_recvfrom` reads it.
use native.Mathlib.Nat.{mod-eq_of_lt}
use cnlab_cs.Common.{
  ℕ, ◌+◌, ◌-◌, ◌≤◌, ◌<◌, ◌≡◌, true, false, List, [], ◌∷◌, ◌++◌, arith, if◌then◌else◌, length, drop,
  take, take_all, drop-append, length-append, get_or, take-append, append_assoc,
}
use cnlab_cs.Ktp.Socket.{KtpSocket, data_msg, ack_msg, pkt_size}
use cnlab_cs.Ktp.Send.{char_eq, data_packet}
use cnlab_cs.Ktp.Recv.{datagram, overwrite, again, deliver, accept, recv_round, take_datagram}

take_datagram_lem :
    (s : KtpSocket) (pkt payload : List ℕ) (n recvlen : ℕ)
    → get_or pkt 0 0 ≡ n
    → get_or pkt 1 0 ≡ data_msg
    → recvlen ≡ 8 + length payload
    → take (length payload) (drop 8 pkt) ≡ payload
    → take_datagram s pkt recvlen true ≡ (
        if char_eq n s.exp_seqno
        then deliver (accept s) payload (record { seqno = n; kind = ack_msg } ∷ [])
        else again pkt (record { seqno = n; kind = ack_msg } ∷ []))
unfolding take_datagram
take_datagram_lem s pkt payload n recvlen e0 e1 el body =
    let size : recvlen - 8 ≡ length payload = omega arith in rw (e0, e1, size, body) (ground arith)

module _ (s : KtpSocket) (pkt unset payload : List ℕ) (n : ℕ) (header : length unset ≡ 6)
    (fits : length payload ≤ 512) (byte : n < 256) where
  data_packet_bytes : data_packet n unset payload ≡ n ∷ 0 ∷ unset ++ payload
  unfolding data_packet
  data_packet_bytes = rw (mod-eq_of_lt byte)

  data_packet-length : length (data_packet n unset payload) ≡ 8 + length payload
  data_packet-length = rw data_packet_bytes (omega (arith, length-append unset payload))

  drop-header : (rest : List ℕ) → drop 8 (n ∷ 0 ∷ (unset ++ payload) ++ rest) ≡ payload ++ rest
  drop-header rest =
      rw (append_assoc unset payload rest) (rw header at (drop-append unset (payload ++ rest)))

  -- The acknowledgement of a data packet carries its number; the payload is delivered, whole and
  -- unchanged, exactly when that number is the expected one and below 128.
  pub recv_round-data_packet :
      recv_round s pkt (datagram (data_packet n unset payload) false true) ≡ (
        if char_eq n s.exp_seqno
        then deliver (accept s) payload (record { seqno = n; kind = ack_msg } ∷ [])
        else again
            (overwrite pkt (data_packet n unset payload))
            (record { seqno = n; kind = ack_msg } ∷ []))
  unfolding recv_round
  recv_round-data_packet =
      rw (take_all pkt_size (data_packet n unset payload) (omega (arith, data_packet-length))) (
        take_datagram_lem s (overwrite pkt (data_packet n unset payload)) payload n
          (length (data_packet n unset payload)) (rw data_packet_bytes) (rw data_packet_bytes)
          data_packet-length
          (rw data_packet_bytes (
            rw (drop-header (drop (length (n ∷ 0 ∷ unset ++ payload)) pkt))
              (take-append payload _))))
