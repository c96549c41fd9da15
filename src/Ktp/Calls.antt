-- ===== src/Ktp/Calls.antt =====
-- LA4.0/ksocket.c: `k_sendto` and `k_recvfrom` as operations on the map from descriptors.
use mathlib.Core.Option.{some-injective}
use cnlab_cs.Common.{
  ℕ, ◌≤◌, ◌∷◌, ◌++◌, ◌<◌, ◌≡◌, ◌⊎◌, refl, sym, ap, ◌∙◌, inl, inr, true, some, List, [], arith, ◌==◌,
  if◌then◌else◌, Bool-cases, Option-cases, length, take, get_elem?, min,
}
use cnlab_cs.Ktp.Socket.{
  data_msg, KtpSocket, Table, Errno, find_sock, update_sock, max_data_size, enotsock, einval,
  enotbound, sys,
}
use cnlab_cs.Ktp.Lookup.{lookup, find_sock-some, lookup-write_sock}
use cnlab_cs.Ktp.Send.{
  to_char, Outcome, done, failed, waiting, fault, SendCall, SendResult, send_loop, finish_send,
  send_from, data_packet, k_sendto, advance,
}
use cnlab_cs.Ktp.Progress.{send_loop-done, send_loop-sends}

finish_send-done :
    (t : Table) (i : ℕ) (packet : List ℕ) (data_len n : ℕ) (p : ℕ × Outcome KtpSocket)
    → (finish_send t i packet data_len p).result ≡ done n
    → (s' : KtpSocket) × (p.1 ≡ done s')
      × (n ≡ data_len)
      × ((finish_send t i packet data_len p).packet ≡ packet)
      × ((finish_send t i packet data_len p).copies ≡ p.0)
      × ((finish_send t i packet data_len p).table ≡ update_sock t i (λ _. s'))
unfolding finish_send
finish_send-done t i packet data_len n (m, done s) e = (s, refl, ground arith, refl, refl, refl)
finish_send-done t i packet data_len n (m, failed x) e = cc
finish_send-done t i packet data_len n (m, waiting) e = cc
finish_send-done t i packet data_len n (m, fault) e = cc

abbrev sent_nothing : Table → Outcome ℕ → SendResult
sent_nothing t r = record { table = t; packet = []; copies = 0; result = r }

-- With data to send, `k_sendto` either fails before the loop or goes through it.
send_from-cases :
    (t : Table) (i : ℕ) (s : KtpSocket) (b : List ℕ) (c : SendCall)
    → 0 < length b
    → ((x : Errno) × (send_from t i s b c ≡ sent_nothing t (failed x)))
      ⊎ ((unset : List ℕ) × (c.packet_memory ≡ some unset)
          × (s.bound ≡ true)
          × (send_from t i s b c
              ≡ finish_send t i
                  (data_packet s.next_seqno unset (take max_data_size b))
                  (min max_data_size (length b))
                  (send_loop s c.events)))
unfolding send_from
send_from-cases t i s b c h = elim (Option-cases c.packet_memory) [
  | inl e ↦ elim (Bool-cases s.bound) [
    | inl bound ↦ inl (sys, ground arith)
    | inr unbound ↦ inl (enotbound, ground arith)
  ]
  | inr (unset, e) ↦ elim (Bool-cases s.bound) [
    | inl bound ↦ inr (unset, e, bound, ground arith)
    | inr unbound ↦ inl (enotbound, ground arith)
  ]
]

send_from-done :
    (t : Table) (i : ℕ) (s : KtpSocket) (b : List ℕ) (c : SendCall) (n : ℕ)
    → 0 < length b
    → (send_from t i s b c).result ≡ done n
    → (s.bound ≡ true)
      × (s.next_seqno < 128)
      × (n ≡ min max_data_size (length b))
      × ((unset : List ℕ) × (c.packet_memory ≡ some unset)
          × ((send_from t i s b c).packet
              ≡ to_char s.next_seqno ∷ data_msg ∷ unset ++ take max_data_size b))
      × (1 ≤ (send_from t i s b c).copies)
      × ((send_from t i s b c).table ≡ update_sock t i (λ _. advance s))
unfolding data_packet
send_from-done t i s b c n h e = elim (send_from-cases t i s b c h) [
  | inl (x, q) ↦ absurd (early x (rw q at e))
  | inr (unset, memory, bound, q) ↦
      let packet = data_packet s.next_seqno unset (take max_data_size b) in
      let size = min max_data_size (length b) in
      let (s', p, len, whole, count, table) =
        finish_send-done t i packet size n (send_loop s c.events) (rw q at e) in
      let (moved, low) = send_loop-done s c.events s' p in
      (
        bound,
        low,
        len,
        (unset, memory, rw (q, whole, data_packet) refl),
        rw (q, count) (send_loop-sends s c.events s' p),
        rw (q, ← moved) table,
      )
]
  where
    early : (x : Errno) → (sent_nothing t (failed x)).result ≡ done n → ⊥
    early x e = cc

k_sendto-cases :
    (t : Table) (fd : ℕ) (c : SendCall) (b : List ℕ)
    → c.buf ≡ some b
    → ((x : Errno) × (k_sendto t fd c ≡ sent_nothing t (failed x)))
      ⊎ ((i : ℕ) × (s : KtpSocket) × (find_sock t fd ≡ some i)
          × (get_elem? t.ktp_sockets i ≡ some s)
          × (k_sendto t fd c ≡ send_from t i s b c))
unfolding k_sendto
k_sendto-cases t fd c b given = elim (Option-cases c.dest_addr) [
  | inl e ↦ inl (einval, ground arith)
  | inr (d, e) ↦ elim (Option-cases (find_sock t fd)) [
    | inl missing ↦ inl (enotsock, ground arith)
    | inr (i, found) ↦
        let (s, known, key, get, slot, below) = find_sock-some t fd i found in
        inr (i, s, found, slot, ground arith)
  ]
]

-- A `k_sendto` of data that returns a length was called for a bound socket whose number is below 128. It
-- has sent a packet once at least: the number, the mark of data, the header bytes that were in the memory
-- of the packet, and the first 512 bytes of the data, or all if there are fewer. It returns how many
-- bytes of the data that is, advances the two sequence numbers of the socket, and changes no other.
pub k_sendto-done :
    (t : Table) (fd : ℕ) (c : SendCall) (b : List ℕ) (n : ℕ)
    → c.buf ≡ some b
    → 0 < length b
    → (k_sendto t fd c).result ≡ done n
    → (s : KtpSocket) × (lookup t fd ≡ some s)
      × (s.bound ≡ true)
      × (s.next_seqno < 128)
      × (n ≡ min max_data_size (length b))
      × ((unset : List ℕ) × (c.packet_memory ≡ some unset)
          × ((k_sendto t fd c).packet
              ≡ to_char s.next_seqno ∷ data_msg ∷ unset ++ take max_data_size b))
      × (1 ≤ (k_sendto t fd c).copies)
      × ((j : ℕ)
          → lookup (k_sendto t fd c).table j ≡ (if fd == j then some (advance s) else lookup t j))
unfolding k_sendto
k_sendto-done t fd c b n given h e = elim (k_sendto-cases t fd c b given) [
  | inl (x, q) ↦ absurd (early x (rw q at e))
  | inr (i, s, found, slot, q) ↦
      let (bound, low, len, sent, copies, table) = send_from-done t i s b c n h (rw q at e) in
      let (s', known, key, get, slot', below) = find_sock-some t fd i found in
      let same : s' ≡ s = some-injective s' s (sym slot' ∙ slot) in
      (
        s,
        known ∙ ap some same,
        bound,
        low,
        len,
        rw q sent,
        rw q copies,
        λ j.
            rw (q, table)
              (lookup-write_sock t fd i (advance s) found
                (ap (λ (x : KtpSocket). x.sockfd) (sym same) ∙ key) j),
      )
]
  where
    early : (x : Errno) → (sent_nothing t (failed x)).result ≡ done n → ⊥
    early x e = cc
