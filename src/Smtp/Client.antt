-- ===== src/Smtp/Client.antt =====
-- LA6: mysmtp_client.c, what the user types and what is sent of it.
use cnlab_cs.Common.{
  ℕ, zero, suc, ◌+◌, Bool, true, false, Option, none, some, List, [], ◌∷◌, ◌++◌, leb, ◌==◌, ◌||◌,
  if◌then◌else◌, length,
}
use cnlab_cs.Common.Bytes.{codes, c_str, newline, fgets}
use cnlab_cs.Common.Scan.{str_eq}
use cnlab_cs.Smtp.Mailbox.{max_email_size}

abbrev pub line_size : ℕ
line_size = 1024

-- `buffer[strcspn(buffer, "\n")] = 0`, on the string.
abbrev pub up_to_newline : List ℕ → List ℕ
up_to_newline [] = []
up_to_newline (c ∷ s) = if c == newline then [] else c ∷ up_to_newline s

-- The lines of a message, up to a dot on a line, to the end of the input or to a line that does not fit,
-- which is lost; with what is left of the input. A line takes a byte at least, so that the length of the
-- input is enough fuel.
unfoldable pub body_loop : (fuel : ℕ) → (stdin email_body : List ℕ) → List ℕ × List ℕ
unfolding fgets
body_loop zero stdin email_body = (email_body, stdin)
body_loop (suc fuel) stdin email_body = elim (fgets line_size stdin) [
  | none ↦ (email_body, stdin)
  | some (line, rest) ↦
      let text = c_str line in
      let more = body_loop fuel rest (email_body ++ text) in
      if str_eq text (codes ".\n")
      then (email_body, rest)
      else (if leb max_email_size (length email_body + length text)
          then (email_body, rest)
          else more)
]

abbrev pub read_body : List ℕ → List ℕ × List ℕ
read_body stdin = body_loop (length stdin) stdin []

-- What one round of the main loop makes of the input: the end, nothing for an empty line, the last
-- command, or a command; with the rest of the input.
pub data Command : Type 0 where
  input_ends : Command
  skips : (rest : List ℕ) → Command
  quits : (command : List ℕ) → Command
  sends : (command rest : List ℕ) → Command

unfoldable pub typed_command : (buffer rest : List ℕ) → Command
unfolding body_loop
typed_command [] rest = Command.skips rest
typed_command (c ∷ s) rest =
    if str_eq (c ∷ s) (codes "quit") || str_eq (c ∷ s) (codes "QUIT")
    then Command.quits (codes "QUIT")
    else if str_eq (c ∷ s) (codes "DATA")
    then Command.sends (codes "DATA\n" ++ (read_body rest).0) (read_body rest).1
    else Command.sends (c ∷ s) rest

unfoldable pub next_command : (stdin : List ℕ) → Command
unfolding fgets typed_command
next_command stdin = elim (fgets line_size stdin) [
  | none ↦ Command.input_ends
  | some (line, rest) ↦ typed_command (up_to_newline (c_str line)) rest
]

-- The end of a round: the program ends with a failure, the loop ends, or it goes on with the rest of the
-- input. A failed `send`, an error of `recv` and the end of the connection are failures; of a response
-- 1023 bytes are taken and shown, and nothing is decided by them.
pub data Ending : Type 0 where
  fails : Ending
  breaks : Ending
  goes_on : (rest : List ℕ) → Ending

pub record Talk : Type 0 where
  pub sent : List (List ℕ)
  pub ending : Ending

abbrev pub exchange :
    (command : List ℕ) → (send_ok : Bool) → (response : Option (List ℕ)) → Ending → Talk
exchange command false response ending = record { sent = []; ending = Ending.fails }
exchange command true none ending = record { sent = command ∷ []; ending = Ending.fails }
exchange command true (some []) ending = record { sent = command ∷ []; ending = Ending.fails }
exchange command true (some (c ∷ s)) ending = record { sent = command ∷ []; ending = ending }

-- One round of `while (1)` of main.
unfoldable pub talk_round :
    (stdin : List ℕ) → (send_ok : Bool) → (response : Option (List ℕ)) → Talk
unfolding next_command
talk_round stdin send_ok response = elim (next_command stdin) [
  | input_ends ↦ record { sent = []; ending = Ending.breaks }
  | skips rest ↦ record { sent = []; ending = Ending.goes_on rest }
  | quits command ↦ exchange command send_ok response Ending.breaks
  | sends command rest ↦ exchange command send_ok response (Ending.goes_on rest)
]
