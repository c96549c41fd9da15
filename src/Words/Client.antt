-- ===== src/Words/Client.antt =====
-- LA2/wordclient.c: the request for a file, and the loop that stores its words.
use cnlab_cs.Common.{
  ℕ, suc, Bool, ◌&&◌, not, Option, none, some, List, [], ◌∷◌, ◌++◌, ◌-◌, ltb, if◌then◌else◌, length,
  take,
}
use cnlab_cs.Common.Bytes.{codes, has_prefix, c_str, newline, fgets}
use cnlab_cs.Common.Scan.{str_eq, decimal}
use cnlab_cs.Words.Server.{buffer_size, before_newline}

-- What was written to the output file, if it is open, as if `fprintf` wrote at once; and how many words
-- were asked for.
pub record Receiver : Type 0 where
  pub output_file : Option (List ℕ)
  pub word_count : ℕ

abbrev pub new_receiver : Receiver
new_receiver = record { output_file = none; word_count = 0 }

-- The name that is sent, and that of the output file; `none`: nothing was read from the terminal, and
-- the array is used all the same.
unfoldable pub client_start : (stdin : List ℕ) → Option (List ℕ × List ℕ)
unfolding fgets
client_start stdin = elim (fgets buffer_size stdin) [
  | none ↦ none
  | some (line, rest) ↦
      let name = before_newline (c_str line) in
      some (name, take (buffer_size - 1) (codes "received_" ++ name))
]

-- `crash` is undefined behaviour: a write to a file that was never opened, or a string with no end.
pub data ClientStep : Type 0 where
  crash : ClientStep
  exits : ClientStep
  requests : Receiver → (request : List ℕ) → ClientStep
  leaves : Receiver → ClientStep

-- The string in the cleared array after `recvfrom`; a failed one leaves the array cleared, as an empty
-- datagram does.
abbrev pub text_in : List ℕ → Option (List ℕ)
text_in datagram = if ltb (length (c_str datagram)) buffer_size then some (c_str datagram) else none

-- `fprintf(output_file, "%s\n", buffer)`
abbrev pub write_line : Option (List ℕ) → List ℕ → Option (List ℕ)
write_line none text = none
write_line (some file) text = some (file ++ text ++ newline ∷ [])

-- The request for the next word; the count overflows `int` behind 2147483647.
unfoldable pub ask : Receiver → Option (List ℕ) → ClientStep
unfolding decimal
ask r none = ClientStep.crash
ask r (some file) =
    if ltb (suc r.word_count) 2147483648
    then ClientStep.requests (record { output_file = some file; word_count = suc r.word_count })
        (codes "WORD" ++ decimal (suc r.word_count))
    else ClientStep.crash

abbrev pub leave : Receiver → Option (List ℕ) → ClientStep
leave r none = ClientStep.crash
leave r (some file) = ClientStep.leaves (record r { output_file = some file })

-- One round of `while (1)`; `opens` is whether `fopen` of the output file succeeds.
unfoldable pub client_round : (opens : Bool) → Receiver → (datagram : List ℕ) → ClientStep
unfolding ask
client_round opens r datagram = elim (text_in datagram) [
  | none ↦
      if has_prefix (codes "HELLO") datagram && not opens
      then ClientStep.exits
      else ClientStep.crash
  | some text ↦
      if has_prefix (codes "NOTFOUND") text
      then ClientStep.leaves r
      else if has_prefix (codes "HELLO") text
      then (if opens then ask r (some (text ++ newline ∷ [])) else ClientStep.exits)
      else if str_eq text (codes "FINISH")
      then leave r (write_line r.output_file text)
      else ask r (write_line r.output_file text)
]
