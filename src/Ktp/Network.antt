-- ===== src/Ktp/Network.antt =====
-- LA4.0: one sender and one receiver over a network that loses, repeats and reorders datagrams. The
-- two sides move by the rounds of the loops of `k_sendto` and `k_recvfrom`; the network hands over
-- anything that was ever sent, as often as it likes. A sender that gets an error from the system
-- ends, as LA4.0/user1.c does, so it has no step here.
use cnlab_cs.Common.{ℕ, ◌≡◌, Bool, Option, none, some, List, [], ◌∷◌, ◌++◌, length, take, get_elem?}
use cnlab_cs.Ktp.Socket.{KtpSocket, new_sock, max_data_size}
use cnlab_cs.Ktp.Send.{SendRound, ack_arrives, acked, send_round, data_packet}
use cnlab_cs.Ktp.Recv.{RecvRound, Ack, deliver, undefined, datagram, recv_round}

-- `sent` and `delivered` are the payloads so far, oldest first; `outstanding` is the payload of the
-- `k_sendto` that has not returned.
pub record Net : Type 0 where
  pub sender : KtpSocket
  pub receiver : KtpSocket
  pub outstanding : Option (List ℕ)
  pub sent : List (List ℕ)
  pub delivered : List (List ℕ)
  pub packets : List (List ℕ)
  pub acks : List Ack

abbrev pub start : (sender_fd receiver_fd : ℕ) → Net
start sender_fd receiver_fd = record {
  sender = new_sock sender_fd;
  receiver = new_sock receiver_fd;
  outstanding = none;
  sent = [];
  delivered = [];
  packets = [];
  acks = [];
}

unfoldable pub after_recv : Net → RecvRound → Net
after_recv c (RecvRound.again pkt acks) = record c { acks = acks ++ c.acks }
after_recv c (deliver r payload acks) = record c {
  receiver = r;
  delivered = c.delivered ++ payload ∷ [];
  acks = acks ++ c.acks;
}
after_recv c (RecvRound.stop e) = c
after_recv c undefined = c

unfoldable pub after_ack : Net → SendRound → Net
after_ack c (SendRound.again) = c
after_ack c (acked s) = record c { sender = s; outstanding = none }
after_ack c (SendRound.stop e) = c

pub data Step (c d : Net) : Type 0 where
  call :
      (buf : List ℕ)
      → c.outstanding ≡ none
      → d ≡ record c {
        outstanding = some (take max_data_size buf);
        sent = c.sent ++ take max_data_size buf ∷ [];
      }
      → Step c d
  transmit :
      (payload unset : List ℕ)
      → c.outstanding ≡ some payload
      → length unset ≡ 6
      → d ≡ record c { packets = data_packet c.sender.next_seqno unset payload ∷ c.packets }
      → Step c d
  receive :
      (i : ℕ) (pkt memory : List ℕ) (dropped ack_ok : Bool)
      → get_elem? c.packets i ≡ some pkt
      → d ≡ after_recv c (recv_round c.receiver memory (datagram pkt dropped ack_ok))
      → Step c d
  hear :
      (i : ℕ) (a : Ack) (payload : List ℕ) (dropped : Bool)
      → get_elem? c.acks i ≡ some a
      → c.outstanding ≡ some payload
      → d ≡ after_ack c (send_round c.sender (ack_arrives a.seqno a.kind dropped))
      → Step c d

pub data Reach (c : Net) : Net → Type 0 where
  here : Reach c c
  next : {d e : Net} → Reach c d → Step d e → Reach c e
