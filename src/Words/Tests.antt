-- ===== src/Words/Tests.antt =====
-- LA2: runs of the definitions at concrete inputs.
use cnlab_cs.Common.{ℕ, ◌≡◌, refl, Bool, true, Option, none, some, List, [], ◌∷◌, if◌then◌else◌}
use cnlab_cs.Common.Bytes.{codes, newline, unlines, fgets, read_line}
use cnlab_cs.Common.Scan.{str_eq, decimal, decimal_loop}
use cnlab_cs.Words.Server.{ServerStep, word_round, strtok_line}
use cnlab_cs.Words.Client.{ClientStep, client_round, new_receiver, ask}
use cnlab_cs.Words.Lines.{finish, hello}

abbrev stored : List ℕ
stored = unlines (hello [] ∷ codes "word" ∷ finish ∷ codes "more" ∷ [])

-- The client can write a file of this name only.
abbrev writable : List ℕ → Bool
writable name = str_eq name (codes "received_a.txt")

-- One file, of this name.
abbrev files : List ℕ → Option (List ℕ)
files name = if str_eq name (codes "a.txt") then some stored else none

-- An empty line of the file is sent as a newline.
empty_line_sent :
    word_round (newline ∷ newline ∷ []) (some (codes "WORD1"))
    ≡ ServerStep.replies (newline ∷ []) (newline ∷ [])
unfolding word_round fgets read_line strtok_line
empty_line_sent = refl

-- A word that starts with HELLO opens the file anew: what was stored before is gone.
stored_words_lost :
    client_round true
      (record { output_file = some (codes "HELLO\nword\n"); word_count = 2 })
      (codes "HELLOS")
    ≡ ClientStep.requests
        (record { output_file = some (codes "HELLOS\n"); word_count = 3 })
        (codes "WORD3")
unfolding client_round ask decimal decimal_loop
stored_words_lost = refl

-- A first line that is no HELLO is written to a file that was never opened.
never_opened : client_round true new_receiver (codes "word") ≡ ClientStep.crash
unfolding client_round ask
never_opened = refl
