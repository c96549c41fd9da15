-- ===== src/Ktp/Tests.antt =====
-- LA4.0: runs of the protocol and of the calls at concrete inputs.
use mathlib.Core.Option
use cnlab_cs.Common.{
  ℕ, suc, min, ◌≤◌, ◌≡◌, refl, true, false, some, none, List, [], ◌∷◌, ◌++◌, arith, ◌==◌,
  if◌then◌else◌,
}
use cnlab_cs.Ktp.Socket.{
  Table, data_msg, KtpSocket, SockAddr, ok, new_sock, k_socket, k_bind, k_close, af_inet, sock_ktp,
  find_sock,
}
use cnlab_cs.Ktp.Lookup.{WellFormed, lookup}
use cnlab_cs.Ktp.Table.{opened, closed, bind_entry, k_socket-lookup, k_close-lookup, k_bind-lookup}
use cnlab_cs.Ktp.Send.{
  to_char, timeout, ack_arrives, send_round, send_loop, advance, done, waiting, k_sendto, SendCall,
}
use cnlab_cs.Ktp.Progress.{send_loop-completes, send_loop-stalls}
use cnlab_cs.Ktp.Calls.{k_sendto-done}
use cnlab_cs.Ktp.Transfer.{chunk_loop}
use cnlab_cs.Ktp.Users.{Meets, UserEnd, user1, open_socket, send_input, send_all}

abbrev blank : KtpSocket
blank = record {
  sockfd = 0;
  src = none;
  dest = none;
  bound = false;
  next_seqno = 0;
  last_ackno = 0;
  exp_seqno = 0;
}

-- The zeroed globals at the start of the program.
abbrev empty_table : Table
empty_table = record {
  ktp_sockets = blank ∷ blank ∷ blank ∷ blank ∷ blank ∷ blank ∷ blank ∷ blank ∷ blank ∷ blank ∷ [];
  sock_count = 0;
}

empty_table-WellFormed : WellFormed empty_table
empty_table-WellFormed = record { slots = refl; room = omega arith; distinct = tt }

k_socket-lookup_example :
    (k_socket empty_table af_inet sock_ktp 0 (some 3) ≡ (opened empty_table 3, ok 3))
    × WellFormed (opened empty_table 3)
    × ((j : ℕ)
        → lookup (opened empty_table 3) j
          ≡ (if 3 == j then some (new_sock 3) else lookup empty_table j))
k_socket-lookup_example = k_socket-lookup empty_table 3 empty_table-WellFormed (omega arith) refl

abbrev one_open : Table
one_open = opened empty_table 3

one_open-WellFormed : WellFormed one_open
unfolding new_sock
one_open-WellFormed = record { slots = refl; room = omega arith; distinct = (refl, tt) }

one_open-find : find_sock one_open 3 ≡ some 0
unfolding find_sock new_sock
one_open-find = refl

k_close-lookup_example :
    (k_close one_open 3 true ≡ (closed one_open 0, ok 0))
    × WellFormed (closed one_open 0)
    × ((j : ℕ) → lookup (closed one_open 0) j ≡ (if 3 == j then none else lookup one_open j))
k_close-lookup_example = k_close-lookup one_open 3 0 one_open-WellFormed one_open-find

abbrev home : ℕ → SockAddr
home port = record { family = 2; port = port; addr = 0 }

k_bind-lookup_example :
    let (u, r) = k_bind one_open 3 (some (home 8081)) (some (home 8080)) true in
    (r ≡ ok 0)
    × ((j : ℕ)
        → lookup u j ≡ (
            if 3 == j
            then Option.map (λ s. bind_entry (home 8081) (home 8080) true s) (lookup one_open 3)
            else lookup one_open j))
k_bind-lookup_example =
    k_bind-lookup one_open 3 0 (home 8081) (home 8080) true refl refl one_open-find

abbrev ready : KtpSocket
ready = record blank { sockfd = 3; bound = true; next_seqno = 1; exp_seqno = 1 }

abbrev bound_table : Table
bound_table = record empty_table {
  ktp_sockets = ready ∷ blank ∷ blank ∷ blank ∷ blank ∷ blank ∷ blank ∷ blank ∷ blank ∷ blank ∷ [];
  sock_count = 1;
}

-- Two losses, then the acknowledgement.
send_loop-completes_example :
    send_loop ready (timeout ∷ ack_arrives 1 1 true ∷ ack_arrives 1 1 false ∷ [])
    ≡ (3, done (advance ready))
send_loop-completes_example =
    send_loop-completes ready (timeout ∷ ack_arrives 1 1 true ∷ []) [] (omega arith)
      (unfold send_round in (refl, (refl, tt)))

abbrev worn : KtpSocket
worn = record ready { next_seqno = 128 }

-- Even the very bytes of its packet's acknowledgement do not end the call.
send_loop-stalls_example : send_loop worn (ack_arrives 128 1 false ∷ timeout ∷ []) ≡ (2, waiting)
send_loop-stalls_example =
    send_loop-stalls worn (ack_arrives 128 1 false ∷ timeout ∷ []) (omega arith) (tt, (tt, tt))

abbrev one_byte : SendCall
one_byte = record {
  buf = some (65 ∷ []);
  dest_addr = some (home 8080);
  packet_memory = some (0 ∷ 0 ∷ 0 ∷ 0 ∷ 0 ∷ 0 ∷ []);
  events = timeout ∷ ack_arrives 1 1 false ∷ [];
}

one_byte_sent : (k_sendto bound_table 3 one_byte).result ≡ done 1
unfolding k_sendto
one_byte_sent = refl

k_sendto-done_example :
    (s : KtpSocket) × (lookup bound_table 3 ≡ some s)
    × (s.bound ≡ true)
    × (suc s.next_seqno ≤ 128)
    × (◌≡◌ {A = ℕ} 1 (min 512 1))
    × ((unset : List ℕ) × (one_byte.packet_memory ≡ some unset)
        × ((k_sendto bound_table 3 one_byte).packet
            ≡ to_char s.next_seqno ∷ data_msg ∷ unset ++ 65 ∷ []))
    × (1 ≤ (k_sendto bound_table 3 one_byte).copies)
    × ((j : ℕ)
        → lookup (k_sendto bound_table 3 one_byte).table j
          ≡ (if 3 == j then some (advance s) else lookup bound_table j))
k_sendto-done_example =
    k_sendto-done bound_table 3 one_byte (65 ∷ []) 1 refl (omega arith) one_byte_sent

abbrev unset_bytes : List ℕ
unset_bytes = 7 ∷ 7 ∷ 7 ∷ 7 ∷ 7 ∷ 7 ∷ []

abbrev acked_once : ℕ → Meets
acked_once n = record { packet_memory = some unset_bytes; events = ack_arrives n 1 false ∷ [] }

abbrev one_byte_file : Table × UserEnd
one_byte_file =
    user1 (some 3) true (home 8081) (home 8080) (some (65 ∷ [])) (acked_once 1 ∷ []) (acked_once 2)
      true empty_table

-- A file of one byte, from the creation of the socket to its end.
one_byte_file_sent : one_byte_file.1 ≡ UserEnd.returns 1
unfolding user1 open_socket send_input send_all chunk_loop k_socket k_bind k_sendto k_close
one_byte_file_sent = refl
