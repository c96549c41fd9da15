-- ===== src/Chat/Numbers.antt =====
-- LT1_22CS10082_B/chatserver.c: the numbers that come in during a round.
use cnlab_cs.Common.{
  ℕ, zero, suc, ◌≤◌, ◌<◌, ◌≡◌, refl, ap, ◌∙◌, true, false, Option, none, some, List, [], ◌∷◌, ltb,
  leb, if◌then◌else◌, length, take, set, get_or, arith, All, Bool-cases, inl, inr, length-set,
}
use cnlab_cs.Common.Bytes.{c_str}
use cnlab_cs.Common.Int.{ℤ}
use cnlab_cs.Common.Scan.{scan_int}
use cnlab_cs.Chat.Run.{returns, fd_isset}
use cnlab_cs.Chat.Rounds.{
  Game, Calls, int_min, is_min, in_range, number_in, number_ignored, on_number, number_loop,
}
use cnlab_cs.Chat.Safety.{Safe, Safe-then_do, Safe-weaken}

abbrev pub IsClient : Option ℕ → Type 0
IsClient none = ⊥
IsClient (some fd) = Unit

-- Five entries in both arrays, of which the first `numclient` are clients, and numbers that int can hold.
pub record WellFormed (g : Game) : Type 0 where
  pub slots : length g.clientsockfd ≡ 5
  pub room : g.numclient ≤ 5
  pub clients : All IsClient (take g.numclient g.clientsockfd)
  pub numbers : length g.max_received ≡ 5
  pub held : All (λ x. in_range x ≡ true) g.max_received

-- Every client that select reports has sent a number that int can hold.
abbrev pub Readable : Calls → Type 0
Readable c =
    (fd : ℕ)
    → fd_isset fd c.curfds ≡ true
    → (length (c_str (c.recv fd)) < 1024)
      × ((nn : ℤ) × (scan_int (c_str (c.recv fd)) ≡ some nn) × (in_range nn ≡ true))

-- What was received before stays.
abbrev pub Kept : List ℤ → List ℤ → Type 0
Kept xs ys =
    (i : ℕ) → is_min (get_or xs i int_min) ≡ false → get_or ys i int_min ≡ get_or xs i int_min

Kept-trans : (xs ys zs : List ℤ) → Kept xs ys → Kept ys zs → Kept xs zs
Kept-trans xs ys zs h k i sent =
    let same : get_or ys i int_min ≡ get_or xs i int_min = h i sent in
    k i (ap is_min same ∙ sent) ∙ same

Kept-set :
    (xs : List ℤ) (i : ℕ) (v : ℤ) → is_min (get_or xs i int_min) ≡ true → Kept xs (set xs i v)
Kept-set [] i v h j sent = refl
Kept-set (x ∷ xs) zero v h zero sent = absurd (ground arith)
Kept-set (x ∷ xs) zero v h (suc j) sent = refl
Kept-set (x ∷ xs) (suc i) v h zero sent = refl
Kept-set (x ∷ xs) (suc i) v h (suc j) sent = Kept-set xs i v h j sent

All-set : (P : ℤ → Type 0) (xs : List ℤ) (i : ℕ) (v : ℤ) → All P xs → P v → All P (set xs i v)
All-set P [] i v h p = tt
All-set P (x ∷ xs) zero v h p = (p, h.1)
All-set P (x ∷ xs) (suc i) v h p = (h.0, All-set P xs i v h.1 p)

-- A game in which only numbers have come in.
pub record Advances (g h : Game) : Type 0 where
  pub well : WellFormed h
  pub clientsockfd : h.clientsockfd ≡ g.clientsockfd
  pub numclient : h.numclient ≡ g.numclient
  pub round : h.round ≡ g.round
  pub kept : Kept g.max_received h.max_received

Advances-refl : (g : Game) → WellFormed g → Advances g g
Advances-refl g w = record {
  well = w;
  clientsockfd = refl;
  numclient = refl;
  round = refl;
  kept = λ i sent. refl;
}

Advances-trans : (g h k : Game) → Advances g h → Advances h k → Advances g k
Advances-trans g h k a b = record {
  well = b.well;
  clientsockfd = b.clientsockfd ∙ a.clientsockfd;
  numclient = b.numclient ∙ a.numclient;
  round = b.round ∙ a.round;
  kept = Kept-trans g.max_received h.max_received k.max_received a.kept b.kept;
}

-- The first number of a client in a round.
Advances-set :
    (g : Game) (i : ℕ) (nn : ℤ)
    → WellFormed g
    → in_range nn ≡ true
    → is_min (get_or g.max_received i int_min) ≡ true
    → Advances g (record g { max_received = set g.max_received i nn })
Advances-set g i nn w fits unsent = record {
  well = record {
    slots = w.slots;
    room = w.room;
    clients = w.clients;
    numbers = length-set g.max_received i nn ∙ w.numbers;
    held = All-set (λ x. in_range x ≡ true) g.max_received i nn w.held fits;
  };
  clientsockfd = refl;
  numclient = refl;
  round = refl;
  kept = Kept-set g.max_received i nn unsent;
}

on_number-Advances :
    (c : Calls) (g : Game) (i fd : ℕ)
    → WellFormed g
    → Readable c
    → fd_isset fd c.curfds ≡ true
    → Safe (Advances g) (on_number c g i fd)
unfolding on_number
on_number-Advances c g i fd w readable ready =
    let (short, number) = readable fd ready in
    let (nn, read, fits) = number in
    let room : leb 1024 (length (c_str (c.recv fd))) ≡ false = ground arith in
    elim (Bool-cases (ltb g.numclient 2)) [
      | inl few ↦ rw (room, on_number, few) (Advances-refl g w)
      | inr enough ↦ elim (Bool-cases (is_min (get_or g.max_received i int_min))) [
        | inr sent ↦
            rw (room, on_number, enough, sent, read, number_ignored, fits) (Advances-refl g w)
        | inl unsent ↦
            rw (room, on_number, enough, unsent, read, number_in, fits)
              (Advances-set g i nn w fits unsent)
      ]
    ]

pub number_loop-Advances :
    (c : Calls) (i : ℕ) (fds : List (Option ℕ)) (g : Game)
    → WellFormed g
    → Readable c
    → All IsClient fds
    → Safe (Advances g) (number_loop c i fds g)
unfolding number_loop
number_loop-Advances c i [] g w readable h = Advances-refl g w
number_loop-Advances c i (none ∷ fds) g w readable h = absurd h.0
number_loop-Advances c i (some fd ∷ fds) g w readable h =
    let one : Safe (Advances g)
        (if fd_isset fd c.curfds then on_number c g i fd else returns g []) =
      elim (Bool-cases (fd_isset fd c.curfds)) [
        | inl ready ↦ rw ready (on_number-Advances c g i fd w readable ready)
        | inr silent ↦ rw silent (Advances-refl g w)
      ] in
    Safe-then_do (Advances g) (Advances g) _ _ one (λ g' a.
      Safe-weaken (Advances g') (Advances g) _ (λ k b. Advances-trans g g' k a b)
        (number_loop-Advances c (suc i) fds g' a.well readable h.1))
