-- ===== src/Chat/Tests.antt =====
-- LT1: runs of both servers at concrete inputs.
use cnlab_cs.Common.{◌≡◌, refl, true, none, some, [], ◌∷◌, ◌++◌, arith, set, ◌==◌, if◌then◌else◌}
use cnlab_cs.Common.Bytes.{codes}
use cnlab_cs.Common.Int.{pos, negsuc}
use cnlab_cs.Common.Scan.{decimal}
use cnlab_cs.Chat.Run.{Run, returns}
use cnlab_cs.Chat.Relay.{Relay, relay_round, new_relay, on_connection, add_client}
use cnlab_cs.Chat.Relay
use cnlab_cs.Chat.Forwarding.{AllWell, relay_round-forwards}
use cnlab_cs.Chat.Watching.{WellFormed, ShortMessages, relay_round-Safe}
use cnlab_cs.Chat.Safety.{Safe}
use cnlab_cs.Chat.Rounds.{
  Game, game_round, new_game, max_cl, Winner, conclude, play, on_number, number_loop, best_loop,
  add_player,
}
use cnlab_cs.Chat.Rounds
use cnlab_cs.Chat.Clients.{number_round}
use cnlab_cs.Chat.Pairs.{number_round-received}
use cnlab_cs.Chat.Numbers

-- Three clients, of which the second says something longer than eight bytes.
abbrev three : Relay
three = record {
  clientsockfd = 4 ∷ 5 ∷ 6 ∷ 0 ∷ 0 ∷ 0 ∷ [];
  numclient = 3;
  masterfds = 6 ∷ 5 ∷ 4 ∷ 3 ∷ [];
  maxfd = 6;
}

abbrev speaks : Relay.Calls
speaks = record {
  select_ok = true;
  readfds = 5 ∷ [];
  accepted = none;
  recv = λ _. some (codes "good morning");
  peer_ok = λ _. true;
  send_ok = λ _. true;
  stack = [];
}

speaks-AllWell : AllWell speaks
speaks-AllWell = record { select_ok = refl; peer_ok = λ _. refl; send_ok = λ _. refl }

relay_round-forwards_example :
    relay_round 3 speaks three
    ≡ returns three (
        record { fd = 4; text = codes "good mor" }
        ∷ record { fd = 6; text = codes "good mor" }
        ∷ [])
relay_round-forwards_example =
    relay_round-forwards 3 speaks three (4 ∷ []) 5 (6 ∷ []) (codes "good morning") speaks-AllWell
      refl (ground arith) refl (ground arith) (ground arith) refl (omega arith)

three-WellFormed : WellFormed 3 three
three-WellFormed = record {
  slots = refl;
  room = omega arith;
  listens = refl;
  watched = ground arith;
  below = ground arith;
}

speaks-ShortMessages : ShortMessages speaks
speaks-ShortMessages fd bytes got = ground arith

relay_round-Safe_example : Safe (WellFormed 3) (relay_round 3 speaks three)
relay_round-Safe_example =
    relay_round-Safe 3 speaks three three-WellFormed (omega arith) speaks-ShortMessages

-- A seventh client is written behind the array.
abbrev six : Relay
six = record {
  clientsockfd = 4 ∷ 5 ∷ 6 ∷ 7 ∷ 8 ∷ 9 ∷ [];
  numclient = 6;
  masterfds = 9 ∷ 8 ∷ 7 ∷ 6 ∷ 5 ∷ 4 ∷ 3 ∷ [];
  maxfd = 9;
}

seventh_client :
    relay_round 3 (record speaks { readfds = 3 ∷ []; accepted = some 10 }) six ≡ Run.fault
unfolding relay_round on_connection add_client
seventh_client = refl

-- Two clients, which send 7 and 9 in one round.
abbrev pair_of_clients : Game
pair_of_clients = record {
  clientsockfd = some 4 ∷ some 5 ∷ none ∷ none ∷ none ∷ [];
  numclient = 2;
  readerfds = 5 ∷ 4 ∷ 3 ∷ [];
  maxfd = 5;
  round = 1;
  max_received = Rounds.nothing_received;
}

abbrev both_send : Rounds.Calls
both_send = record {
  curfds = 4 ∷ 5 ∷ [];
  accepted = none;
  recv = λ fd. if fd == 4 then codes "7" else codes "9";
  peer = λ _. codes "<127.0.0.1,9>";
}

second_wins :
    game_round 3 both_send pair_of_clients
    ≡ returns
        (record pair_of_clients { round = 2 }, some (record { ans = pos 9; id = 1 }))
        (record { fd = 4; text = Rounds.next_round 2 ++ 0 ∷ [] }
          ∷ record { fd = 5; text = Rounds.next_round 2 ++ 0 ∷ [] }
          ∷ [])
unfolding game_round play number_loop on_number conclude best_loop add_player
second_wins = refl

-- While a sixth client waits to be accepted nobody is heard.
abbrev full_game : Game
full_game = record pair_of_clients {
  clientsockfd = some 4 ∷ some 5 ∷ some 6 ∷ some 7 ∷ some 8 ∷ [];
  numclient = 5;
}

nobody_heard :
    game_round 3 (record both_send { curfds = 3 ∷ 4 ∷ 5 ∷ [] }) full_game
    ≡ returns (full_game, none) []
unfolding game_round play
nobody_heard = refl

number_round-received_example :
    (number_round (0 ∷ []) 3 (codes "-12\n")
      ≡ returns (codes "\n") (record { fd = 3; text = codes "-12" ++ 0 ∷ [] } ∷ []))
    × (on_number (record both_send { recv = λ _. codes "-12" ++ 0 ∷ [] }) pair_of_clients 1 5
        ≡ returns
            (record pair_of_clients { max_received = set Rounds.nothing_received 1 (negsuc 11) })
            [])
unfolding decimal
number_round-received_example =
    number_round-received (record both_send { recv = λ _. codes "-12" ++ 0 ∷ [] }) pair_of_clients 1
      5 3 (negsuc 11) [] refl (omega arith) refl refl
