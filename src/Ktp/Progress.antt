-- ===== src/Ktp/Progress.antt =====
-- LA4.0/ksocket.c: when the loops of `k_sendto` and `k_recvfrom` end.
use cnlab_cs.Common.{
  ℕ, suc, ◌≤◌, ◌<◌, ◌≡◌, ◌≢◌, ◌⊎◌, refl, true, false, List, [], ◌∷◌, ◌++◌, arith, length, All,
}
use cnlab_cs.Ktp.Socket.{KtpSocket, ack_msg}
use cnlab_cs.Ktp.Send.{
  SendEvent, send_error, select_error, timeout, recv_error, ack_arrives, again, done, waiting,
  send_round, send_loop, sends, advance,
}

-- An event after which the loop sends the packet once more.
abbrev pub Retries : KtpSocket → SendEvent → Type 0
Retries s e = send_round s e ≡ again

-- The ways to go round again: no answer in time, a dropped acknowledgement, or one that is not for
-- the outstanding packet.
pub send_round-again :
    (s : KtpSocket) (e : SendEvent)
    → (e ≡ timeout)
      ⊎ ((b0 : ℕ) × (b1 : ℕ) × (e ≡ ack_arrives b0 b1 true))
      ⊎ ((b0 : ℕ) × (b1 : ℕ) × (e ≡ ack_arrives b0 b1 false) × (b0 ≢ s.next_seqno))
    → Retries s e
unfolding send_round
send_round-again s e h = ground arith

retry_copies : (s : KtpSocket) (e : SendEvent) → Retries s e → sends e ≡ 1
unfolding send_round
retry_copies s e h = ground arith

-- However often the network fails first, the call ends at the first acknowledgement of its packet
-- that arrives: the packet has been sent once for each round, and the sequence number moves on.
pub send_loop-completes :
    (s : KtpSocket) (before after : List SendEvent)
    → s.next_seqno < 128
    → All (Retries s) before
    → send_loop s (before ++ ack_arrives s.next_seqno ack_msg false ∷ after)
      ≡ (suc (length before), done (advance s))
unfolding send_loop send_round
send_loop-completes s [] after h r = ground arith
send_loop-completes s (e ∷ before) after h r =
    ground (arith, send_loop-completes s before after h r.1, retry_copies s e r.0)

-- The only way to end with success: the acknowledgement of the outstanding number, which is below
-- 128; then exactly that number is consumed.
pub send_loop-done :
    (s : KtpSocket) (es : List SendEvent) (s' : KtpSocket)
    → (send_loop s es).1 ≡ done s'
    → (s' ≡ advance s) × (s.next_seqno < 128)
unfolding send_loop send_round
send_loop-done s [] s' h = cc
send_loop-done s (e ∷ es) s' h = ground (arith, send_loop-done s es s')

-- Such a loop has sent the packet.
pub send_loop-sends :
    (s : KtpSocket) (es : List SendEvent) (s' : KtpSocket)
    → (send_loop s es).1 ≡ done s'
    → 1 ≤ (send_loop s es).0
unfolding send_loop send_round
send_loop-sends s [] s' h = cc
send_loop-sends s (e ∷ es) s' h = ground (arith, send_loop-sends s es s')

-- The events that are no error of the operating system.
abbrev pub IsAnswer : SendEvent → Type 0
IsAnswer timeout = Unit {0}
IsAnswer (ack_arrives b0 b1 dropped) = Unit {0}
IsAnswer _ = ⊥

-- Past 127 packets the number no longer fits a signed char: whatever arrives, the right
-- acknowledgement included, the call sends the packet once more and goes on waiting.
pub send_loop-stalls :
    (s : KtpSocket) (es : List SendEvent)
    → 128 ≤ s.next_seqno
    → All IsAnswer es
    → send_loop s es ≡ (length es, waiting)
unfolding send_loop send_round
send_loop-stalls s [] h a = refl
send_loop-stalls s (timeout ∷ es) h a = ground (arith, send_loop-stalls s es h a.1)
send_loop-stalls s (ack_arrives b0 b1 dropped ∷ es) h a =
    ground (arith, send_loop-stalls s es h a.1)
send_loop-stalls s (send_error ∷ es) h a = absurd a.0
send_loop-stalls s (select_error ∷ es) h a = absurd a.0
send_loop-stalls s (recv_error ∷ es) h a = absurd a.0
