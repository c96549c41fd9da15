-- ===== src/Ktp/Users.antt =====
-- LA4.0/user1.c and LA4.0/user2.c: main of both programs, over the calls of the library.
use cnlab_cs.Common.{
  ℕ, ◌+◌, Bool, true, Option, none, some, List, [], ◌∷◌, ◌++◌, if◌then◌else◌, length, take,
}
use cnlab_cs.Ktp.Socket.{
  Table, SockAddr, ok, fail, af_inet, sock_ktp, max_data_size, k_socket, k_bind, k_close,
}
use cnlab_cs.Ktp.Send.{SendEvent, SendCall, done, failed, waiting, fault, k_sendto}
use cnlab_cs.Ktp.Recv.{RecvEvent, overwrite, k_recvfrom}
use cnlab_cs.Ktp.Transfer.{chunk_loop, end_byte, find_end}

-- Where a program is: inside a call, undefined, ended with an error, or ended with 0 behind the count of
-- the bytes that it prints.
pub data UserEnd : Type 0 where
  blocked : UserEnd
  undefined : UserEnd
  gives_up : UserEnd
  returns : (total : ℕ) → UserEnd

-- k_socket and k_bind; `none`: the program returns -1.
unfoldable pub open_socket :
    Table → (os : Option ℕ) → (bind_ok : Bool) → (src dest : SockAddr) → Table × Option ℕ
unfolding k_socket k_bind
open_socket t os bind_ok src dest =
    let (t', made) = k_socket t af_inet sock_ktp 0 os in
    elim made [
      | fail x ↦ (t', none)
      | ok fd ↦
          let (t'', bound) = k_bind t' fd (some src) (some dest) bind_ok in
          elim bound [ fail x ↦ (t'', none) | ok _ ↦ (t'', some fd) ]
    ]

-- What a call of k_sendto meets.
pub record Meets : Type 0 where
  pub packet_memory : Option (List ℕ)
  pub events : List SendEvent

abbrev pub send_call : SockAddr → List ℕ → Meets → SendCall
send_call dest buf m = record {
  buf = some buf;
  dest_addr = some dest;
  packet_memory = m.packet_memory;
  events = m.events;
}

-- The calls of k_sendto one after the other, with the count of the bytes; without anything that a call
-- meets it waits.
unfoldable pub send_all :
    Table → (fd : ℕ) → SockAddr → List (List ℕ) → List Meets → (total : ℕ) → (Table × UserEnd)
unfolding k_sendto
send_all t fd dest [] ms total = (t, UserEnd.returns total)
send_all t fd dest (buf ∷ bufs) [] total = (t, UserEnd.blocked)
send_all t fd dest (buf ∷ bufs) (m ∷ ms) total =
    let r = k_sendto t fd (send_call dest buf m) in
    elim r.result [
      | done n ↦ send_all r.table fd dest bufs ms (total + n)
      | failed x ↦ (r.table, UserEnd.gives_up)
      | waiting ↦ (r.table, UserEnd.blocked)
      | fault ↦ (r.table, UserEnd.undefined)
    ]

-- What comes behind a part that has not ended the program.
infixl 1 ◌and_then◌
abbrev pub ◌and_then◌ : Table × UserEnd → (Table → ℕ → Table × UserEnd) → Table × UserEnd
(t, UserEnd.blocked) and_then f = (t, UserEnd.blocked)
(t, UserEnd.undefined) and_then f = (t, UserEnd.undefined)
(t, UserEnd.gives_up) and_then f = (t, UserEnd.gives_up)
(t, UserEnd.returns n) and_then f = f t n

-- main of user1 behind k_bind: the file, the packet "#" and k_close. `input` is what fopen opens.
unfoldable pub send_input :
    Table
    → (fd : ℕ) → SockAddr
    → (input : Option (List ℕ)) → List Meets
    → (last : Meets) → (close_ok : Bool) → Table × UserEnd
send_input t fd dest none ms last close_ok = (t, UserEnd.gives_up)
send_input t fd dest (some file) ms last close_ok =
    (send_all t fd dest (chunk_loop (length file) file) ms 0 and_then λ t' total.
    send_all t' fd dest ((end_byte ∷ []) ∷ []) (last ∷ []) 0 and_then λ t'' _.
    ((k_close t'' fd close_ok).0, UserEnd.returns total))

unfoldable pub user1 :
    (os : Option ℕ) (bind_ok : Bool) (src dest : SockAddr) (input : Option (List ℕ))
    → List Meets
    → (last : Meets) → (close_ok : Bool) → Table
    → Table × UserEnd
user1 os bind_ok src dest input ms last close_ok t =
    let (t', made) = open_socket t os bind_ok src dest in
    elim made [
      | none ↦ (t', UserEnd.gives_up)
      | some fd ↦ send_input t' fd dest input ms last close_ok
    ]

-- The loop of user2 over what each call of k_recvfrom meets; what is written, and the count of the bytes.
unfoldable pub receive_all :
    Table
    → (fd : ℕ) → (buf beyond : List ℕ) → List (Option (List ℕ) × List RecvEvent)
    → (total : ℕ) → (Table × UserEnd) × List ℕ
unfolding k_recvfrom find_end
receive_all t fd buf beyond [] total = ((t, UserEnd.blocked), [])
receive_all t fd buf beyond ((memory, events) ∷ ms) total =
    let r = k_recvfrom t fd (record {
      buf_given = true;
      src_addr_given = true;
      len = max_data_size;
      memory = memory;
      events = events;
    }) in
    elim r.result [
      | failed x ↦ ((r.table, UserEnd.gives_up), [])
      | waiting ↦ ((r.table, UserEnd.blocked), [])
      | fault ↦ ((r.table, UserEnd.undefined), [])
      | done payload ↦
          let filled = overwrite buf payload in
          let stored = take (length payload) filled in
          let rest = receive_all r.table fd filled beyond ms (total + length payload) in
          elim payload [
            | [] ↦ ((r.table, UserEnd.returns total), [])
            | c ∷ p ↦ elim (find_end filled beyond) [
              | some len ↦ ((r.table, UserEnd.returns (total + len)), take len (filled ++ beyond))
              | none ↦ (rest.0, stored ++ rest.1)
            ]
          ]
    ]

-- main of user2; `opens` is whether the output file can be written.
unfoldable pub user2 :
    (os : Option ℕ) (bind_ok : Bool) (src dest : SockAddr) (opens : Bool) (buf beyond : List ℕ)
    → List (Option (List ℕ) × List RecvEvent)
    → (close_ok : Bool) → Table
    → (Table × UserEnd) × List ℕ
user2 os bind_ok src dest opens buf beyond ms close_ok t =
    let (t', made) = open_socket t os bind_ok src dest in
    elim made [
      | none ↦ ((t', UserEnd.gives_up), [])
      | some fd ↦
          let (run, written) = receive_all t' fd buf beyond ms 0 in
          if opens
          then (
            (run and_then λ t'' total. ((k_close t'' fd close_ok).0, UserEnd.returns total)),
            written,
          )
          else ((t', UserEnd.gives_up), [])
    ]
