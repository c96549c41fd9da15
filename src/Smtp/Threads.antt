-- ===== src/Smtp/Threads.antt =====
-- LA6/mysmtp_server.c: the accept loop of main and the threads that it starts, which read the variable of main
-- that their argument points to. Connections are numbered in the order in which they were accepted.
use cnlab_cs.Common.{
  ℕ, zero, suc, ◌+◌, ◌≡◌, refl, sym, ap, arith, ◌∙◌, Bool, true, false, Option, none, some, List,
  [], ◌∷◌, ◌++◌, append_assoc, append-nil, if◌then◌else◌,
}

-- `client_socket`, of which `none` is below 0; whether main stands between accept and pthread_create;
-- how many threads have not read yet; and which connection each of the others has, in the order in which they
-- read.
pub record Host : Type 0 where
  pub client_socket : Option ℕ
  pub creating : Bool
  pub starting : ℕ
  pub served : List (Option ℕ)
  pub next : ℕ

abbrev pub new_host : Host
new_host = record { client_socket = none; creating = false; starting = 0; served = []; next = 0 }

-- What main and the threads do next, one after the other in any order.
pub data Event : Type 0 where
  accepts accept_fails creates create_fails reads : Event

-- The first line of handle_client.
abbrev pub read_socket : Host → (starting : ℕ) → Option Host
read_socket h zero = none
read_socket h (suc n) = some (record h { starting = n; served = h.served ++ h.client_socket ∷ [] })

-- `none`: the event cannot happen now.
unfoldable pub host_step : Host → Event → Option Host
host_step h Event.accepts =
    if h.creating
    then none
    else some (record h { client_socket = some h.next; creating = true; next = suc h.next })
host_step h Event.accept_fails =
    if h.creating then none else some (record h { client_socket = none })
host_step h Event.creates =
    if h.creating then some (record h { creating = false; starting = suc h.starting }) else none
host_step h Event.create_fails = if h.creating then some (record h { creating = false }) else none
host_step h Event.reads = read_socket h h.starting

unfoldable pub run_events : List Event → Host → Option Host
unfolding host_step
run_events [] h = some h
run_events (e ∷ es) h = elim (host_step h e) [ none ↦ none | some h' ↦ run_events es h' ]

-- k connections that main accepts and gives to threads, and k threads that read.
abbrev pub starts : (k : ℕ) → List Event
starts zero = []
starts (suc k) = Event.accepts ∷ Event.creates ∷ starts k

abbrev pub reading : (k : ℕ) → List Event
reading zero = []
reading (suc k) = Event.reads ∷ reading k

-- For each number k one turn in which main accepts k + 1 connections before the k + 1 threads read.
abbrev pub bursts : List ℕ → List Event
bursts [] = []
bursts (k ∷ ks) = starts (suc k) ++ (reading (suc k) ++ bursts ks)

abbrev pub copies : (k : ℕ) → Option ℕ → List (Option ℕ)
copies zero x = []
copies (suc k) x = x ∷ copies k x

-- In each turn, the last connection of it k + 1 times; they are counted from n on.
abbrev pub last_ones : (n : ℕ) → List ℕ → List (Option ℕ)
last_ones n [] = []
last_ones n (k ∷ ks) = copies (suc k) (some (n + k)) ++ last_ones (suc (n + k)) ks

-- Main after it has started s threads in all, the last for the connection n.
abbrev started : Host → (n s : ℕ) → Host
started h n s = record h { client_socket = some n; creating = false; starting = s; next = suc n }

run_events-started :
    (rest : List Event) (h : Host) {n m s t : ℕ}
    → n ≡ m
    → s ≡ t
    → run_events rest (started h n s) ≡ run_events rest (started h m t)
run_events-started rest h {n} {m} {s} {t} e d =
    ap (λ x. run_events rest (started h x s)) e ∙ ap (λ x. run_events rest (started h m x)) d

run_events-starts :
    (k : ℕ) (h : Host) (rest : List Event)
    → h.creating ≡ false
    → run_events (starts (suc k) ++ rest) h
      ≡ run_events rest (started h (h.next + k) (suc k + h.starting))
unfolding run_events
run_events-starts zero h rest idle =
    rw (idle, run_events) (run_events-started rest h (omega arith) (omega arith))
run_events-starts (suc k) h rest idle =
    rw (idle, run_events)
      (run_events-starts k (started h h.next (suc h.starting)) rest refl
        ∙ run_events-started rest h (omega arith) (omega arith))

run_events-reading :
    (k : ℕ) (h : Host) (rest : List Event)
    → h.starting ≡ k
    → run_events (reading k ++ rest) h
      ≡ run_events rest (record h { starting = 0; served = h.served ++ copies k h.client_socket })
unfolding run_events
run_events-reading zero h rest left =
    ap (λ n. run_events rest (record h { starting = n })) left
    ∙ ap (λ s. run_events rest (record h { starting = 0; served = s })) (sym (append-nil h.served))
run_events-reading (suc k) h rest left =
    rw (left, run_events)
      (run_events-reading k (record h { starting = k; served = h.served ++ h.client_socket ∷ [] })
          rest refl
        ∙ ap (λ s. run_events rest (record h { starting = 0; served = s }))
            (append_assoc h.served (h.client_socket ∷ []) (copies k h.client_socket)))

-- Between two turns, with no thread that still has to read.
pub record Settled (h : Host) : Type 0 where
  pub creating : h.creating ≡ false
  pub starting : h.starting ≡ 0

-- In turns in each of which main accepts some connections, one at least, and gives each a thread before the
-- first of these threads reads: all threads of a turn serve its last connection, and the others are
-- served by none. So only in a turn of one connection does each connection have its own thread.
pub run_events-bursts :
    (ks : List ℕ) (h : Host)
    → Settled h
    → (after : Host) × (run_events (bursts ks) h ≡ some after)
      × Settled after
      × (after.served ≡ h.served ++ last_ones h.next ks)
unfolding run_events
run_events-bursts [] h q = (h, refl, q, sym (append-nil h.served))
run_events-bursts (k ∷ ks) h q =
    let ready = started h (h.next + k) (suc k) in
    let settled = record ready {
      starting = 0;
      served = h.served ++ copies (suc k) (some (h.next + k));
    } in
    let count : suc k + h.starting ≡ suc k = omega (arith, q.starting) in
    let (after, run, still, served) =
      run_events-bursts ks settled (record { creating = refl; starting = refl }) in
    (
      after,
      run_events-starts k h (reading (suc k) ++ bursts ks) q.creating
          ∙ run_events-started (reading (suc k) ++ bursts ks) h refl count
          ∙ run_events-reading (suc k) ready (bursts ks) refl
          ∙ run,
      still,
      served
          ∙ append_assoc h.served (copies (suc k) (some (h.next + k)))
              (last_ones (suc (h.next + k)) ks),
    )
