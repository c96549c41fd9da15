-- ===== src/Ktp/Lookup.antt =====
-- LA4.0/ksocket.c: the table as a finite map from descriptors to sockets.
use mathlib.Core.Option
use cnlab_cs.Common.{
  ℕ, ◌≤◌, ◌<◌, ◌≡◌, sym, ◌∙◌, Option, none, some, arith, ◌==◌, if◌then◌else◌, length, get_elem?,
  length-set, length-take, ==→eq,
}
use cnlab_cs.Common.Arrays.{find?, index_of-some, find?-eq_none, take-set}
use cnlab_cs.Common.Keys.{Distinct, Distinct-set, find?-set_key, get_elem?-take}
use cnlab_cs.Ktp.Socket.{KtpSocket, Table, live, has_fd, find_sock, update_sock, max_sockets}

abbrev pub fd_of : KtpSocket → ℕ
fd_of s = s.sockfd

-- The map that the table stands for.
abbrev pub lookup : Table → ℕ → Option KtpSocket
lookup t fd = find? (has_fd fd) (live t)

pub record WellFormed (t : Table) : Type 0 where
  pub slots : length t.ktp_sockets ≡ max_sockets
  pub room : t.sock_count ≤ max_sockets
  pub distinct : Distinct fd_of (live t)

-- The pointer that `find_sock` returns is in the live part of the array, to the map's entry.
pub find_sock-some :
    (t : Table) (fd i : ℕ)
    → find_sock t fd ≡ some i
    → (s : KtpSocket) × (lookup t fd ≡ some s)
      × (s.sockfd ≡ fd)
      × (get_elem? (live t) i ≡ some s)
      × (get_elem? t.ktp_sockets i ≡ some s)
      × (i < t.sock_count)
unfolding find_sock
find_sock-some t fd i e =
    let (s, get, test, found, lt) = index_of-some (has_fd fd) (live t) i e in
    let below : i < t.sock_count = omega (arith, lt, length-take t.sock_count t.ktp_sockets) in
    (
      s,
      found,
      ==→eq s.sockfd fd test,
      get,
      sym (get_elem?-take t.sock_count t.ktp_sockets i below) ∙ get,
      below,
    )

pub find_sock-none : (t : Table) (fd : ℕ) → find_sock t fd ≡ none → lookup t fd ≡ none
unfolding find_sock
find_sock-none t fd e = find?-eq_none (has_fd fd) (live t) e

-- A write through the pointer changes the map at that descriptor only.
module _ (t : Table) (fd i : ℕ) (f : KtpSocket → KtpSocket)
    (same : (s : KtpSocket) → (f s).sockfd ≡ s.sockfd) (e : find_sock t fd ≡ some i) where
  pub lookup-update_sock :
      (j : ℕ)
      → lookup (update_sock t i f) j ≡ (if fd == j then Option.map f (lookup t fd) else lookup t j)
  unfolding update_sock find_sock
  lookup-update_sock j =
      let (s, found, key, get, slot, below) = find_sock-some t fd i e in
      rw (slot, update_sock, take-set t.sock_count t.ktp_sockets i (f s), found)
        (find?-set_key fd_of (live t) i fd j s (f s) e get key (same s ∙ key))

  pub update_sock-WellFormed : WellFormed t → WellFormed (update_sock t i f)
  unfolding update_sock
  update_sock-WellFormed w =
      let (s, found, key, get, slot, below) = find_sock-some t fd i e in
      rw (slot, update_sock)
        (record {
          slots = length-set t.ktp_sockets i (f s) ∙ w.slots;
          room = w.room;
          distinct =
              rw (take-set t.sock_count t.ktp_sockets i (f s))
                (Distinct-set fd_of (live t) i s (f s) get (same s) w.distinct);
        })

-- The same for a write of a whole entry.
module _ (t : Table) (fd i : ℕ) (v : KtpSocket) (e : find_sock t fd ≡ some i)
    (same : v.sockfd ≡ fd) where
  pub lookup-write_sock :
      (j : ℕ) → lookup (update_sock t i (λ _. v)) j ≡ (if fd == j then some v else lookup t j)
  unfolding update_sock find_sock
  lookup-write_sock j =
      let (s, found, key, get, slot, below) = find_sock-some t fd i e in
      rw (slot, update_sock, take-set t.sock_count t.ktp_sockets i v)
        (find?-set_key fd_of (live t) i fd j s v e get key same)

  pub write_sock-WellFormed : WellFormed t → WellFormed (update_sock t i (λ _. v))
  unfolding update_sock
  write_sock-WellFormed w =
      let (s, found, key, get, slot, below) = find_sock-some t fd i e in
      rw (slot, update_sock)
        (record {
          slots = length-set t.ktp_sockets i v ∙ w.slots;
          room = w.room;
          distinct =
              rw (take-set t.sock_count t.ktp_sockets i v)
                (Distinct-set fd_of (live t) i s v get (same ∙ sym key) w.distinct);
        })
