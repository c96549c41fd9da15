-- ===== src/Ktp/Totals.antt =====
-- LA4.0/user1.c: the count that it prints.
use cnlab_cs.Common.{
  ℕ, zero, suc, ◌+◌, ◌≤◌, ◌<◌, ◌≡◌, ◌⊎◌, inl, inr, refl, ap, Bool, Option, some, List, [], ◌∷◌,
  ◌++◌, arith, length, take, drop, All, append-take-drop, length-append, length-take-le,
  length-drop-le, Option-cases,
}
use cnlab_cs.Ktp.Socket.{Table, SockAddr, Errno}
use cnlab_cs.Ktp.Send.{Outcome, done, failed, waiting, fault, k_sendto}
use cnlab_cs.Ktp.Calls.{k_sendto-done}
use cnlab_cs.Ktp.Transfer.{chunk_loop, end_byte}
use cnlab_cs.Ktp.Users.{
  UserEnd, Meets, send_call, send_all, send_input, user1, open_socket, ◌and_then◌,
}

abbrev pub total_length : List (List ℕ) → ℕ
total_length [] = 0
total_length (b ∷ bs) = length b + total_length bs

abbrev IsChunk : List ℕ → Type 0
IsChunk b = (0 < length b) × (length b ≤ 512)

chunk_loop-IsChunk : (fuel : ℕ) (file : List ℕ) → All IsChunk (chunk_loop fuel file)
unfolding chunk_loop
chunk_loop-IsChunk zero file = tt
chunk_loop-IsChunk (suc fuel) [] = tt
chunk_loop-IsChunk (suc fuel) (c ∷ file) =
    ((omega arith, length-take-le 512 (c ∷ file)), chunk_loop-IsChunk fuel (drop 511 file))

total_length-chunk_loop :
    (fuel : ℕ) (file : List ℕ)
    → length file ≤ fuel
    → total_length (chunk_loop fuel file) ≡ length file
unfolding chunk_loop
total_length-chunk_loop zero [] h = refl
total_length-chunk_loop zero (c ∷ file) h = absurd (omega arith)
total_length-chunk_loop (suc fuel) [] h = refl
total_length-chunk_loop (suc fuel) (c ∷ file) h =
    let later : total_length (chunk_loop fuel (drop 511 file)) ≡ length (drop 511 file) =
      total_length-chunk_loop fuel (drop 511 file) (omega (arith, length-drop-le 511 file)) in
    let both : length (take 511 file ++ drop 511 file)
        ≡ length (take 511 file) + length (drop 511 file) =
      length-append (take 511 file) (drop 511 file) in
    let whole : length (take 511 file ++ drop 511 file) ≡ length file =
      ap length (append-take-drop 511 file) in
    omega arith

Outcome-cases :
    (o : Outcome ℕ)
    → ((n : ℕ) × (o ≡ done n)) ⊎ ((x : Errno) × (o ≡ failed x)) ⊎ (o ≡ waiting) ⊎ (o ≡ fault)
Outcome-cases (done n) = inl (n, refl)
Outcome-cases (failed x) = inr (inl (x, refl))
Outcome-cases waiting = inr (inr (inl refl))
Outcome-cases fault = inr (inr (inr refl))

send_all-total :
    (t : Table) (fd : ℕ) (dest : SockAddr) (bufs : List (List ℕ)) (ms : List Meets) (total n : ℕ)
    → All IsChunk bufs
    → (send_all t fd dest bufs ms total).1 ≡ UserEnd.returns n
    → n ≡ total + total_length bufs
unfolding send_all
send_all-total t fd dest [] ms total n a e = ground arith
send_all-total t fd dest (b ∷ bs) [] total n a e = cc
send_all-total t fd dest (b ∷ bs) (m ∷ ms) total n a e =
    elim (Outcome-cases (k_sendto t fd (send_call dest b m)).result) [
      | inl (k, sent) ↦
          let (s, known, bound, low, size, packet, copies, others) =
            k_sendto-done t fd (send_call dest b m) b k refl a.0.0 sent in
          let later =
            send_all-total (k_sendto t fd (send_call dest b m)).table fd dest bs ms (total + k) n
              a.1 (rw (sent, send_all) at e) in
          omega (arith, a.0.1)
      | inr (inl (x, wrong)) ↦
          let e' : UserEnd.gives_up ≡ UserEnd.returns n = rw (wrong, send_all) at e in cc
      | inr (inr (inl wrong)) ↦
          let e' : UserEnd.blocked ≡ UserEnd.returns n = rw (wrong, send_all) at e in cc
      | inr (inr (inr wrong)) ↦
          let e' : UserEnd.undefined ≡ UserEnd.returns n = rw (wrong, send_all) at e in cc
    ]

and_then-returns :
    (r : Table × UserEnd) (f : Table → ℕ → Table × UserEnd) (n : ℕ)
    → (r and_then f).1 ≡ UserEnd.returns n
    → (k : ℕ) × (r.1 ≡ UserEnd.returns k) × ((f r.0 k).1 ≡ UserEnd.returns n)
and_then-returns (t, UserEnd.blocked) f n e = cc
and_then-returns (t, UserEnd.undefined) f n e = cc
and_then-returns (t, UserEnd.gives_up) f n e = cc
and_then-returns (t, UserEnd.returns k) f n e = (k, refl, e)

abbrev count : UserEnd → ℕ
count (UserEnd.returns n) = n
count _ = 0

send_input-total :
    (t : Table) (fd : ℕ) (dest : SockAddr) (file : List ℕ) (ms : List Meets) (last : Meets)
    (close_ok : Bool) (n : ℕ)
    → (send_input t fd dest (some file) ms last close_ok).1 ≡ UserEnd.returns n
    → n ≡ length file
unfolding send_input
send_input-total t fd dest file ms last close_ok n e =
    let sent = send_all t fd dest (chunk_loop (length file) file) ms 0 in
    let (k, first, e') = and_then-returns sent _ n e in
    let (j, second, e'') =
      and_then-returns (send_all sent.0 fd dest ((end_byte ∷ []) ∷ []) (last ∷ []) 0) _ n e' in
    let counted : k ≡ 0 + total_length (chunk_loop (length file) file) =
      send_all-total t fd dest (chunk_loop (length file) file) ms 0 k
        (chunk_loop-IsChunk (length file) file) first in
    let same : k ≡ n = ap count e'' in
    omega (arith, total_length-chunk_loop (length file) file (omega arith))

-- When user1 ends with 0, the count that it prints is the length of the file.
pub user1-total :
    (os : Option ℕ) (bind_ok : Bool) (src dest : SockAddr) (file : List ℕ) (ms : List Meets)
    (last : Meets) (close_ok : Bool) (t : Table) (n : ℕ)
    → (user1 os bind_ok src dest (some file) ms last close_ok t).1 ≡ UserEnd.returns n
    → n ≡ length file
unfolding user1
user1-total os bind_ok src dest file ms last close_ok t n e =
    elim (Option-cases (open_socket t os bind_ok src dest).1) [
      | inl missing ↦ let e' : UserEnd.gives_up ≡ UserEnd.returns n = rw (missing, user1) at e in cc
      | inr (fd, made) ↦
          send_input-total (open_socket t os bind_ok src dest).0 fd dest file ms last close_ok n
            (rw (made, user1) at e)
    ]
