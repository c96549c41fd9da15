-- ===== src/Words/Exchange.antt =====
-- LA2: both programs, over a network that loses nothing.
use cnlab_cs.Common.{ℕ, zero, suc, Bool, Option, none, some, List, []}
use cnlab_cs.Words.Server.{fault, waits, replies, finishes, word_round, server_start}
use cnlab_cs.Words.Client.{
  Receiver, crash, exits, requests, leaves, client_round, client_start, new_receiver,
}

-- Each reply is stored and the next word is asked for, until the client leaves; the file that it has
-- then. `opens` is whether the client can open its output file. `none`: more rounds than the fuel, a round
-- that does not answer, or a client that exits.
unfoldable pub transfer :
    (fuel : ℕ) (opens : Bool) → Receiver → (file datagram : List ℕ) → Option (List ℕ)
unfolding client_round word_round
transfer zero opens r file datagram = none
transfer (suc fuel) opens r file datagram = elim (client_round opens r datagram) [
  | crash ↦ none
  | exits ↦ none
  | leaves r' ↦ r'.output_file
  | requests r' request ↦ elim (word_round file (some request)) [
    | fault ↦ none
    | waits ↦ none
    | replies line rest ↦ transfer fuel opens r' rest line
    | finishes line ↦ transfer fuel opens r' [] line
  ]
]

-- `opens` tells of a name whether `fopen` for writing succeeds.
unfoldable pub fetch :
    (fuel : ℕ) (files : List ℕ → Option (List ℕ)) (opens : List ℕ → Bool)
    → (stdin : List ℕ) → Option (List ℕ)
unfolding client_start server_start transfer
fetch fuel files opens stdin = elim (client_start stdin) [
  | none ↦ none
  | some (name, output_name) ↦ elim (server_start files (some name)) [
    | fault ↦ none
    | waits ↦ none
    | replies line rest ↦ transfer fuel (opens output_name) new_receiver rest line
    | finishes line ↦ transfer fuel (opens output_name) new_receiver [] line
  ]
]
