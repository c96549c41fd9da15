-- ===== src/Ktp/Table.antt =====
-- LA4.0/ksocket.c: `k_socket`, `k_bind` and `k_close` as operations on the map from descriptors.
use mathlib.Core.Option
use cnlab_cs.Common.{
  ℕ, suc, ◌-◌, ◌<◌, ◌≡◌, refl, sym, ap, ◌∙◌, inl, inr, Bool, true, false, ◌||◌, Option, none, some,
  [], ◌∷◌, ◌++◌, arith, ◌==◌, if◌then◌else◌, Option-cases, get_elem?, set, length-set, ==→eq,
}
use cnlab_cs.Common.Arrays.{
  erase_idx, close_gap, find?-append, take-close_gap_count, length-close_gap,
}
use cnlab_cs.Common.Keys.{
  Distinct-append_one, find?-erase_key, Distinct-erase_idx, take-set_end, get_elem?-set_self,
  set-set,
}
use cnlab_cs.Ktp.Socket.{
  KtpSocket, SockAddr, Table, Errno, ok, fail, sys, live, has_fd, new_sock, k_socket, find_sock,
  update_sock, set_addrs, set_bound, k_bind, k_close, max_sockets, af_inet, sock_ktp,
}
use cnlab_cs.Ktp.Lookup.{fd_of, lookup, WellFormed, find_sock-some, lookup-update_sock}

abbrev pub opened : Table → ℕ → Table
opened t fd = record t {
  ktp_sockets = set t.ktp_sockets t.sock_count (new_sock fd);
  sock_count = suc t.sock_count;
}

-- The descriptor that the system returns is open nowhere else, so it is new to the table.
module _ (t : Table) (fd : ℕ) (w : WellFormed t) (free : t.sock_count < max_sockets)
    (fresh : lookup t fd ≡ none) where
  live-opened : live (opened t fd) ≡ live t ++ new_sock fd ∷ []
  live-opened = take-set_end t.sock_count t.ktp_sockets (new_sock fd) (omega (arith, w.slots))

  -- `k_socket` with the only arguments that it accepts adds one unbound socket, with the sequence
  -- numbers 1, 0 and 1, and changes no other entry.
  pub k_socket-lookup :
      (k_socket t af_inet sock_ktp 0 (some fd) ≡ (opened t fd, ok fd))
      × WellFormed (opened t fd)
      × ((j : ℕ) → lookup (opened t fd) j ≡ (if fd == j then some (new_sock fd) else lookup t j))
  unfolding k_socket new_sock
  k_socket-lookup = (ground arith, opened-WellFormed, lookup-opened)
    where
      opened-WellFormed : WellFormed (opened t fd)
      opened-WellFormed = record {
        slots = length-set t.ktp_sockets t.sock_count (new_sock fd) ∙ w.slots;
        room = free;
        distinct =
            rw live-opened (Distinct-append_one fd_of (live t) (new_sock fd) w.distinct fresh);
      }

      lookup-opened :
          (j : ℕ) → lookup (opened t fd) j ≡ (if fd == j then some (new_sock fd) else lookup t j)
      lookup-opened j =
          rw (live-opened, find?-append (has_fd j) (live t) (new_sock fd ∷ []))
            (ground (arith, ==→eq fd j))

-- Every refusal of `k_socket` leaves the table as it was.
pub k_socket-refuses :
    (t : Table) (domain type protocol : ℕ) (os : Option ℕ) {e : Errno}
    → (k_socket t domain type protocol os).1 ≡ fail e
    → (k_socket t domain type protocol os).0 ≡ t
unfolding k_socket
k_socket-refuses t domain type protocol os h = ground arith

abbrev pub closed : Table → ℕ → Table
closed t i = record t {
  ktp_sockets = close_gap (t.sock_count - 1 - i) i t.ktp_sockets;
  sock_count = t.sock_count - 1;
}

module _ (t : Table) (fd i : ℕ) (w : WellFormed t) (found : find_sock t fd ≡ some i) where
  live-closed : live (closed t i) ≡ erase_idx (live t) i
  live-closed =
      let (s, e, key, get, slot, below) = find_sock-some t fd i found in
      take-close_gap_count t.sock_count i t.ktp_sockets below (omega (arith, w.slots, w.room))

  -- `k_close` removes the descriptor that it is given and keeps the map at every other one.
  pub k_close-lookup :
      (k_close t fd true ≡ (closed t i, ok 0))
      × WellFormed (closed t i)
      × ((j : ℕ) → lookup (closed t i) j ≡ (if fd == j then none else lookup t j))
  unfolding k_close
  k_close-lookup = (rw (found, k_close), closed-WellFormed, lookup-closed)
    where
      closed-WellFormed : WellFormed (closed t i)
      closed-WellFormed = record {
        slots = length-close_gap (t.sock_count - 1 - i) i t.ktp_sockets ∙ w.slots;
        room = omega (arith, w.room);
        distinct = rw live-closed (Distinct-erase_idx fd_of (live t) i w.distinct);
      }

      lookup-closed : (j : ℕ) → lookup (closed t i) j ≡ (if fd == j then none else lookup t j)
      lookup-closed j =
          let (s, e, key, get, slot, below) = find_sock-some t fd i found in
          rw live-closed (find?-erase_key fd_of (live t) i fd j s w.distinct get key)

update_sock-missing :
    (t : Table) (i : ℕ) (f : KtpSocket → KtpSocket)
    → get_elem? t.ktp_sockets i ≡ none
    → update_sock t i f ≡ t
unfolding update_sock
update_sock-missing t i f e = rw (e, update_sock)

update_sock-found :
    (t : Table) (i : ℕ) (f : KtpSocket → KtpSocket) (s : KtpSocket)
    → get_elem? t.ktp_sockets i ≡ some s
    → update_sock t i f ≡ record t { ktp_sockets = set t.ktp_sockets i (f s) }
unfolding update_sock
update_sock-found t i f s e = rw (e, update_sock)

update_sock-update_sock :
    (t : Table) (i : ℕ) (f g : KtpSocket → KtpSocket)
    → update_sock (update_sock t i f) i g ≡ update_sock t i (λ s. g (f s))
unfolding update_sock
update_sock-update_sock t i f g = elim (Option-cases (get_elem? t.ktp_sockets i)) [
  | inl missing ↦
      rw (update_sock-missing t i f missing)
        (update_sock-missing t i g missing ∙ sym (update_sock-missing t i (λ s. g (f s)) missing))
  | inr (s, e) ↦ rw (update_sock-found t i f s e) (
      update_sock-found (stored s) i g (f s) (get_elem?-set_self t.ktp_sockets i s (f s) e)
      ∙ ap (λ xs. record t { ktp_sockets = xs }) (set-set t.ktp_sockets i (f s) (g (f s)))
      ∙ sym (update_sock-found t i (λ s. g (f s)) s e))
]
  where
    stored : KtpSocket → Table
    stored s = record t { ktp_sockets = set t.ktp_sockets i (f s) }

abbrev pub bind_entry : SockAddr → SockAddr → Bool → KtpSocket → KtpSocket
bind_entry src dest bind_ok s = record s {
  src = some src;
  dest = some dest;
  bound = bind_ok || s.bound;
}

-- Binding: on success both addresses are stored and the socket is bound; when `bind` fails the
-- addresses are stored all the same. No other entry changes.
pub k_bind-lookup :
    (t : Table) (fd i : ℕ) (src dest : SockAddr) (bind_ok : Bool)
    → src.family ≡ af_inet
    → dest.family ≡ af_inet
    → find_sock t fd ≡ some i
    → let (u, r) = k_bind t fd (some src) (some dest) bind_ok in
      (r ≡ (if bind_ok then ok 0 else fail sys))
      × ((j : ℕ)
          → lookup u j ≡ (
              if fd == j
              then Option.map (λ s. bind_entry src dest bind_ok s) (lookup t fd)
              else lookup t j))
unfolding k_bind
k_bind-lookup t fd i src dest true a b e =
    let u : Table = update_sock (update_sock t i (set_addrs src dest)) i set_bound in
    let bound : k_bind t fd (some src) (some dest) true ≡ (u, ok 0) = ground arith in
    rw bound (
      refl,
      λ j.
          rw (update_sock-update_sock t i (set_addrs src dest) set_bound)
            (lookup-update_sock t fd i (bind_entry src dest true) (λ s. refl) e j),
    )
k_bind-lookup t fd i src dest false a b e =
    let u : Table = update_sock t i (set_addrs src dest) in
    let unbound : k_bind t fd (some src) (some dest) false ≡ (u, fail sys) = ground arith in
    rw unbound (refl, λ j. lookup-update_sock t fd i (bind_entry src dest false) (λ s. refl) e j)
