-- ===== src/Ktp/Preserved.antt =====
-- LA4.0/ksocket.c: every step of the two sockets keeps the invariant.
use cnlab_cs.Common.{
  ℕ, suc, ◌<◌, ◌≡◌, refl, ap, ◌∙◌, inl, Bool, true, false, ◌&&◌, some, List, [], ◌∷◌, ◌++◌, arith,
  ◌==◌, if◌then◌else◌, length, append_assoc, get_elem?, length-append, get_elem?-behind,
  get_elem?-lt_length, All-map, All-get_elem?,
}
use cnlab_cs.Ktp.Socket.{ack_msg}
use cnlab_cs.Ktp.Send.{ack_arrives, again, acked, send_round, advance, char_eq}
use cnlab_cs.Ktp.Recv.{RecvRound, Ack, deliver, datagram, recv_round, accept, take_datagram}
use cnlab_cs.Ktp.Packets.{recv_round-data_packet}
use cnlab_cs.Ktp.Network.{
  Net, after_recv, after_ack, Step, call, transmit, receive, hear, Reach, here, next,
}
use cnlab_cs.Ktp.Invariant.{pending, IsData, IsAck, Inv, call-Inv, transmit-Inv}

IsAck-suc : (r : ℕ) (a : Ack) → IsAck r a → IsAck (suc r) a
IsAck-suc r a h = ground arith

abbrev ack_of : ℕ → Ack
ack_of n = record { seqno = n; kind = ack_msg }

-- The packet of number `suc j`, not dropped: delivered if it is the expected one, else only
-- acknowledged.
receive_case :
    (c : Net) (j : ℕ) (payload memory : List ℕ) (expected : Bool)
    → (expected ≡ char_eq (suc j) c.receiver.exp_seqno)
    → j < 128
    → get_elem? c.sent j ≡ some payload
    → Inv c
    → Inv (
        after_recv c (
          if expected
          then deliver (accept c.receiver) payload (ack_of (suc j) ∷ [])
          else RecvRound.again memory (ack_of (suc j) ∷ [])))
unfolding after_recv
receive_case c j payload memory true e low origin v =
    let number : suc j ≡ c.receiver.exp_seqno = ground arith in
    let index : j ≡ length c.delivered = omega (arith, v.expects) in
    let found : get_elem? (c.delivered ++ v.rest) (length c.delivered) ≡ some payload =
      rw (← v.prefix, ← index) origin in
    let (rest, split) = get_elem?-behind c.delivered v.rest payload found in
    record {
      counts = v.counts;
      low = v.low;
      positive = v.positive;
      expects = omega (arith, v.expects, length-append c.delivered (payload ∷ []));
      ahead = omega (arith, v.ahead);
      rest = rest;
      prefix =
          rw (append_assoc c.delivered (payload ∷ []) rest)
            (v.prefix ∙ ap (◌++◌ c.delivered) split);
      current = v.current;
      data_ok = v.data_ok;
      acks_ok = (inl (omega arith), All-map (IsAck-suc c.receiver.exp_seqno) c.acks v.acks_ok);
    }
receive_case c j payload memory false e low origin v = record {
  counts = v.counts;
  low = v.low;
  positive = v.positive;
  expects = v.expects;
  ahead = v.ahead;
  rest = v.rest;
  prefix = v.prefix;
  current = v.current;
  data_ok = v.data_ok;
  acks_ok = (known, v.acks_ok);
}
  where
    inside : j < length c.sent
    inside = get_elem?-lt_length c.sent j origin

    known : IsAck c.receiver.exp_seqno (ack_of (suc j))
    known = ground (arith, inside, v.counts, v.ahead)

receive-Inv :
    (c : Net) (pkt memory : List ℕ) (dropped ack_ok : Bool)
    → IsData c.sent pkt
    → Inv c
    → Inv (after_recv c (recv_round c.receiver memory (datagram pkt dropped ack_ok)))
unfolding after_recv
receive-Inv c pkt memory true ack_ok d v = unfold recv_round in v
receive-Inv c pkt memory false false d v = unfold recv_round take_datagram in v
receive-Inv c pkt memory false true d v =
    rw
      (
        d.bytes,
        recv_round-data_packet c.receiver memory d.unset d.payload (suc d.index) d.header d.fits
            (omega (arith, d.low)),
      )
      (receive_case c d.index d.payload _ (char_eq (suc d.index) c.receiver.exp_seqno) refl d.low
        d.origin v)

hear_case :
    (c : Net) (matches : Bool)
    → (matches ≡ true → c.sender.next_seqno < c.receiver.exp_seqno)
    → (matches ≡ true → c.sender.next_seqno < 128)
    → pending c.outstanding ≡ 1
    → Inv c
    → Inv (after_ack c (if matches then acked (advance c.sender) else again))
unfolding after_ack
hear_case c false known low busy v = v
hear_case c true known low busy v = record {
  counts = omega (arith, v.counts);
  low = low refl;
  positive = omega arith;
  expects = v.expects;
  ahead = known refl;
  rest = v.rest;
  prefix = v.prefix;
  current = tt;
  data_ok = v.data_ok;
  acks_ok = v.acks_ok;
}

hear-Inv :
    (c : Net) (a : Ack) (payload : List ℕ) (dropped : Bool)
    → IsAck c.receiver.exp_seqno a
    → c.outstanding ≡ some payload
    → Inv c
    → Inv (after_ack c (send_round c.sender (ack_arrives a.seqno a.kind dropped)))
unfolding after_ack send_round
hear-Inv c a payload true known busy v = v
hear-Inv c a payload false known busy v =
    hear_case c (char_eq a.seqno c.sender.next_seqno && a.kind == ack_msg) (λ h. ground arith)
      (λ h. ground arith) (rw busy) v

-- Every step of the two programs and of the network keeps the invariant.
pub Step-Inv : {c d : Net} → Step c d → Inv c → Inv d
Step-Inv {c} (call buf idle e) v = rw e (call-Inv c buf idle v)
Step-Inv {c} (transmit payload unset busy header e) v =
    rw e (transmit-Inv c payload unset busy header v)
Step-Inv {c} (receive i pkt memory dropped ack_ok get e) v = rw e (
    receive-Inv c pkt memory dropped ack_ok
      (All-get_elem? (IsData c.sent) c.packets i v.data_ok get) v)
Step-Inv {c} (hear i a payload dropped get busy e) v = rw e (
    hear-Inv c a payload dropped (All-get_elem? (IsAck c.receiver.exp_seqno) c.acks i v.acks_ok get)
      busy v)

pub Reach-Inv : {c d : Net} → Reach c d → Inv c → Inv d
Reach-Inv here v = v
Reach-Inv (next r st) v = Step-Inv st (Reach-Inv r v)
