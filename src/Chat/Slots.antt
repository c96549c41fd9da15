-- ===== src/Chat/Slots.antt =====
-- LT1_22CS10082_B/chatserver.c: which number each client has after the loop over the clients.
use cnlab_cs.Common.{
  ℕ, suc, ◌≤◌, ◌≡◌, refl, sym, ap, ◌∙◌, true, false, ◌&&◌, not, Option, none, some, List, [], ◌∷◌,
  ◌++◌, append_assoc, ltb, leb, if◌then◌else◌, length, length-append, set, get_or, arith, All,
  Bool-cases, inl, inr,
}
use cnlab_cs.Common.Bytes.{c_str}
use cnlab_cs.Common.Int.{ℤ}
use cnlab_cs.Common.Scan.{scan_int}
use cnlab_cs.Chat.Run.{returns, fd_isset}
use cnlab_cs.Chat.Rounds.{
  Game, Calls, int_min, is_min, number_in, number_ignored, on_number, number_loop,
}
use cnlab_cs.Chat.Safety.{Safe, Safe-then_do, Safe-weaken}
use cnlab_cs.Chat.Numbers.{IsClient, Readable}

-- The number that a client sent, if its text has one.
abbrev pub number_from : Calls → (fd : ℕ) → ℤ
number_from c fd = elim (scan_int (c_str (c.recv fd))) [ none ↦ int_min | some nn ↦ nn ]

-- The number of a client after the round, from the one before it: a number that is there stays, a missing
-- one is what the client sent, if select reports it and there are two clients at least.
abbrev pub slot_after : Calls → (numclient : ℕ) → Option ℕ → ℤ → ℤ
slot_after c numclient none x = x
slot_after c numclient (some fd) x =
    if is_min x && (fd_isset fd c.curfds && not (ltb numclient 2)) then number_from c fd else x

abbrev pub slots_after : Calls → (numclient : ℕ) → List (Option ℕ) → List ℤ → List ℤ
slots_after c numclient [] xs = xs
slots_after c numclient (fd ∷ fds) [] = []
slots_after c numclient (fd ∷ fds) (x ∷ xs) =
    slot_after c numclient fd x ∷ slots_after c numclient fds xs

get_or_at : (pre xs : List ℤ) (x : ℤ) → get_or (pre ++ x ∷ xs) (length pre) int_min ≡ x
get_or_at [] xs x = refl
get_or_at (y ∷ pre) xs x = get_or_at pre xs x

set_at : (pre xs : List ℤ) (x v : ℤ) → set (pre ++ x ∷ xs) (length pre) v ≡ pre ++ v ∷ xs
set_at [] xs x v = refl
set_at (y ∷ pre) xs x v = ap (◌∷◌ y) (set_at pre xs x v)

-- The numbers after one client, of those before it, its own and those behind.
abbrev Stored : Calls → (pre xs : List ℤ) → (numclient fd : ℕ) → (x : ℤ) → Game → Type 0
Stored c pre xs numclient fd x h =
    (h.max_received ≡ pre ++ slot_after c numclient (some fd) x ∷ xs) × (h.numclient ≡ numclient)

on_number-Stored :
    (c : Calls) (g : Game) (fd : ℕ) (pre xs : List ℤ) (x : ℤ)
    → Readable c
    → fd_isset fd c.curfds ≡ true
    → g.max_received ≡ pre ++ x ∷ xs
    → Safe (Stored c pre xs g.numclient fd x) (on_number c g (length pre) fd)
unfolding on_number
on_number-Stored c g fd pre xs x readable ready here =
    let (short, number) = readable fd ready in
    let (nn, read, fits) = number in
    let room : leb 1024 (length (c_str (c.recv fd))) ≡ false = ground arith in
    let own : get_or g.max_received (length pre) int_min ≡ x =
      ap (λ l. get_or l (length pre) int_min) here ∙ get_or_at pre xs x in
    elim (Bool-cases (ltb g.numclient 2)) [
      | inl few ↦
          let same : slot_after c g.numclient (some fd) x ≡ x = ground arith in
          rw (room, on_number, few, same) (here, refl)
      | inr enough ↦ elim (Bool-cases (is_min x)) [
        | inr sent ↦
            let same : slot_after c g.numclient (some fd) x ≡ x = ground arith in
            rw (room, on_number, enough, own, sent, read, number_ignored, fits, same) (here, refl)
        | inl unsent ↦
            let new : slot_after c g.numclient (some fd) x ≡ nn =
              rw (unsent, ready, enough)
                (ap (λ (o : Option ℤ). elim o [ none ↦ int_min | some n ↦ n ]) read) in
            rw (room, on_number, enough, own, unsent, read, number_in, fits, new)
              (ap (λ l. set l (length pre) nn) here ∙ set_at pre xs x nn, refl)
      ]
    ]

number_loop-slots_from :
    (c : Calls) (fds : List (Option ℕ)) (g : Game) (pre xs : List ℤ)
    → Readable c
    → All IsClient fds
    → length fds ≤ length xs
    → g.max_received ≡ pre ++ xs
    → Safe
        (λ h. h.max_received ≡ pre ++ slots_after c g.numclient fds xs)
        (number_loop c (length pre) fds g)
unfolding number_loop
number_loop-slots_from c [] g pre xs readable h size here = here
number_loop-slots_from c (none ∷ fds) g pre xs readable h size here = absurd h.0
number_loop-slots_from c (some fd ∷ fds) g pre [] readable h size here =
    absurd (omega (arith, size))
number_loop-slots_from c (some fd ∷ fds) g pre (x ∷ xs) readable h size here =
    let after_one = pre ++ slot_after c g.numclient (some fd) x ∷ [] in
    let one : Safe (Stored c pre xs g.numclient fd x)
        (if fd_isset fd c.curfds then on_number c g (length pre) fd else returns g []) =
      elim (Bool-cases (fd_isset fd c.curfds)) [
        | inl ready ↦ rw ready (on_number-Stored c g fd pre xs x readable ready here)
        | inr silent ↦
            let same : slot_after c g.numclient (some fd) x ≡ x = ground arith in
            rw (silent, same) (here, refl)
      ] in
    let place : length after_one ≡ suc (length pre) =
      length-append pre (slot_after c g.numclient (some fd) x ∷ []) ∙ omega arith in
    Safe-then_do (Stored c pre xs g.numclient fd x) _ _ _ one (λ g' a. rw (← place) (
      Safe-weaken (λ k. k.max_received ≡ after_one ++ slots_after c g'.numclient fds xs)
        (λ k. k.max_received ≡ pre ++ slots_after c g.numclient (some fd ∷ fds) (x ∷ xs))
        (number_loop c (length after_one) fds g')
        (λ k b.
          b
          ∙ ap (λ n. after_one ++ slots_after c n fds xs) a.1
          ∙ append_assoc pre (slot_after c g.numclient (some fd) x ∷ [])
              (slots_after c g.numclient fds xs))
        (number_loop-slots_from c fds g' after_one xs readable h.1 (omega arith)
          (a.0 ∙ sym (append_assoc pre (slot_after c g.numclient (some fd) x ∷ []) xs)))))

pub number_loop-slots :
    (c : Calls) (fds : List (Option ℕ)) (g : Game)
    → Readable c
    → All IsClient fds
    → length fds ≤ length g.max_received
    → Safe
        (λ h. h.max_received ≡ slots_after c g.numclient fds g.max_received)
        (number_loop c 0 fds g)
number_loop-slots c fds g readable h size =
    number_loop-slots_from c fds g [] g.max_received readable h size refl
