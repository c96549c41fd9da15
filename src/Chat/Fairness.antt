-- ===== src/Chat/Fairness.antt =====
-- LT1_22CS10082_B/chatserver.c: what a round of main does.
use cnlab_cs.Common.{
  ℕ, suc, false, if◌then◌else◌, ◌≡◌, ◌⊎◌, refl, true, Option, none, some, List, take, arith, All,
}
use cnlab_cs.Common.Int.{ℤ}
use cnlab_cs.Chat.Run.{fd_isset}
use cnlab_cs.Chat.Rounds.{
  Game, Calls, Winner, in_range, nothing_received, all_received, add_player, new_game,
}
use cnlab_cs.Chat.Numbers.{WellFormed}
use cnlab_cs.Chat.Slots.{slots_after}
use cnlab_cs.Chat.Winner.{Wins}

-- The game when the loop over the clients starts: a client that main accepts is in it.
abbrev pub joined : (server_fd : ℕ) → Calls → Game → Game
joined server_fd c g =
    if fd_isset server_fd c.curfds
    then elim c.accepted [ none ↦ g | some fd ↦ add_player g fd ]
    else g

-- The numbers of the clients after the loop.
abbrev pub numbers : Calls → Game → List ℤ
numbers c j =
    take j.numclient (slots_after c j.numclient (take j.numclient j.clientsockfd) j.max_received)

-- What the loop over the clients j leads to: each has the number that it had or, if it had none, the one
-- that it sent. If all have one, the first of the largest wins and the next round starts with nothing
-- received.
abbrev pub Played : Calls → Game → Game × Option Winner → Type 0
Played c j (h, none) =
    WellFormed h
    × (h.clientsockfd ≡ j.clientsockfd)
    × (h.numclient ≡ j.numclient)
    × (h.round ≡ j.round)
    × (take j.numclient h.max_received ≡ numbers c j)
    × (all_received (numbers c j) ≡ false)
Played c j (h, some w) =
    WellFormed h
    × (h.clientsockfd ≡ j.clientsockfd)
    × (h.numclient ≡ j.numclient)
    × (h.round ≡ suc j.round)
    × (h.max_received ≡ nothing_received)
    × (all_received (numbers c j) ≡ true)
    × Wins (numbers c j) w.ans w.id

-- A round ends at once when there is no room for a new client or accept fails.
abbrev pub Result : (server_fd : ℕ) → Calls → Game → Game × Option Winner → Type 0
Result server_fd c g r =
    ((fd_isset server_fd c.curfds ≡ true)
      × ((g.numclient ≡ 5) ⊎ (c.accepted ≡ none))
      × (r ≡ (g, none)))
    ⊎ Played c (joined server_fd c g) r

nothing_received-held : All (λ x. in_range x ≡ true) nothing_received
nothing_received-held = ground arith

pub new_game-WellFormed : (server_fd : ℕ) → WellFormed (new_game server_fd)
new_game-WellFormed server_fd = record {
  slots = refl;
  room = omega arith;
  clients = tt;
  numbers = refl;
  held = nothing_received-held;
}
