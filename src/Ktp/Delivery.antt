-- ===== src/Ktp/Delivery.antt =====
-- LA4.0/ksocket.c: `k_recvfrom` when the packet that it expects comes first.
use cnlab_cs.Common.{ℕ, ◌≤◌, ◌<◌, ◌≡◌, true, false, some, List, [], ◌∷◌, length}
use cnlab_cs.Ktp.Socket.{KtpSocket, ack_msg}
use cnlab_cs.Ktp.Send.{data_packet}
use cnlab_cs.Ktp.Recv.{RecvEvent, datagram, RecvCall, Ack}

module _ (s : KtpSocket) (memory unset payload : List ℕ) (later : List RecvEvent)
    (low : s.exp_seqno < 128) (header : length unset ≡ 6) (fits : length payload ≤ 512) where
  abbrev pub acknowledged : List Ack
  acknowledged = record { seqno = s.exp_seqno; kind = ack_msg } ∷ []

  abbrev pub expected_packet : RecvEvent
  expected_packet = datagram (data_packet s.exp_seqno unset payload) false true

  abbrev pub delivering : ℕ → RecvCall
  delivering len = record {
    buf_given = true;
    src_addr_given = true;
    len = len;
    memory = some memory;
    events = expected_packet ∷ later;
  }
