-- ===== src/Crypt/Dialogue.antt =====
-- LA3/retrieveencfileclient.c: one turn of main, with what the user types. Input that ends is not modelled:
-- a read that finds nothing waits.
use cnlab_cs.Common.{
  ℕ, zero, suc, Bool, false, ◌&&◌, ◌||◌, not, Option, none, some, List, [], ◌∷◌, ◌++◌, ◌==◌, leb,
  length, take, if◌then◌else◌,
}
use cnlab_cs.Common.Bytes.{codes, c_str, newline, fgets}
use cnlab_cs.Common.Scan.{scan_word}
use cnlab_cs.Crypt.Framing.{send_pieces, receive_pieces}

abbrev pub max_filename : ℕ
max_filename = 256

-- What a dialogue comes to: a write behind an array, a read without input, or an answer with the
-- rest of the input.
pub data Typed (A : Type 0) : Type 0 where
  overflow : Typed A
  waits : Typed A
  typed : A → (stdin : List ℕ) → Typed A

-- The names that the user types, up to one of a file that opens. Each takes a byte at least, so that the
-- length of the input is enough fuel.
unfoldable pub ask_file :
    (fuel : ℕ) (files : List ℕ → Option (List ℕ)) → (stdin : List ℕ) → Typed (List ℕ × List ℕ)
ask_file zero files stdin = Typed.waits
ask_file (suc fuel) files stdin = elim (scan_word stdin) [
  | none ↦ Typed.waits
  | some (filename, rest) ↦
      let again = ask_file fuel files rest in
      if leb max_filename (length filename) then Typed.overflow else elim (files filename) [
        | none ↦ again
        | some content ↦ Typed.typed (filename, content) rest
      ]
]

-- The keys that the user types, up to one of 26 characters.
unfoldable pub ask_key : (fuel : ℕ) → (stdin : List ℕ) → Typed (List ℕ)
ask_key zero stdin = Typed.waits
ask_key (suc fuel) stdin = elim (scan_word stdin) [
  | none ↦ Typed.waits
  | some (enc_key, rest) ↦
      let again = ask_key fuel rest in
      if leb 27 (length enc_key)
      then Typed.overflow
      else if length enc_key == 26
      then Typed.typed enc_key rest
      else again
]

-- `while ((c = getchar()) != '\n' && c != EOF)`
abbrev pub flush_stdin : List ℕ → List ℕ
flush_stdin [] = []
flush_stdin (c ∷ s) = if c == newline then s else flush_stdin s

-- `buffer[strcspn(buffer, "\n")] = 0`
abbrev pub without_newline : List ℕ → List ℕ
without_newline [] = []
without_newline (c ∷ s) = if c == newline then [] else c ∷ without_newline s

-- The line behind the one in which the key stands, 9 characters of it at most.
unfoldable pub ask_more : (stdin : List ℕ) → Typed (List ℕ)
unfolding fgets
ask_more stdin = elim (fgets 10 (flush_stdin stdin)) [
  | none ↦ Typed.waits
  | some (line, rest) ↦ Typed.typed (without_newline (c_str line)) rest
]

-- `strcasecmp(s, "No") == 0`
abbrev pub is_no : List ℕ → Bool
is_no (a ∷ b ∷ []) = (a == 78 || a == 110) && (b == 79 || b == 111)
is_no _ = false

-- `send` of no bytes sends nothing.
abbrev pub send_choice : List ℕ → List (List ℕ)
send_choice [] = []
send_choice (c ∷ s) = (c ∷ s) ∷ []

-- A turn: what was sent, the name of the file that was written and what was written, whether the loop
-- goes on, and what is left of the input and of the calls of recv.
pub record ClientTurn : Type 0 where
  pub sent : List (List ℕ)
  pub enc_filename : List ℕ
  pub stored : Option (List ℕ)
  pub goes_on : Bool
  pub rest : List (List ℕ)

-- The part of a turn behind the key; `opens` is whether the file for the encryption can be written.
unfoldable pub transfer_file :
    (opens : Bool) (filename content enc_key stdin : List ℕ) (incoming : List (List ℕ))
    → Typed ClientTurn
unfolding receive_pieces send_pieces ask_more
transfer_file opens filename content enc_key stdin incoming =
    let upload = enc_key ∷ send_pieces 69 content in
    let enc_filename = take 260 (filename ++ codes ".enc") in
    let (stored, later) = receive_pieces incoming in
    if not opens
    then Typed.typed
        (record {
          sent = upload;
          enc_filename = enc_filename;
          stored = none;
          goes_on = false;
          rest = incoming;
        })
        stdin
    else elim (ask_more stdin) [
      | overflow ↦ Typed.overflow
      | waits ↦ Typed.waits
      | typed choice stdin' ↦
          Typed.typed
            (record {
              sent = upload ++ send_choice choice;
              enc_filename = enc_filename;
              stored = some stored;
              goes_on = not (is_no choice);
              rest = later;
            })
            stdin'
    ]

-- One turn of the outer `while (1)`.
unfoldable pub client_file :
    (opens : Bool) (files : List ℕ → Option (List ℕ)) (stdin : List ℕ) (incoming : List (List ℕ))
    → Typed ClientTurn
unfolding ask_file ask_key transfer_file
client_file opens files stdin incoming = elim (ask_file (length stdin) files stdin) [
  | overflow ↦ Typed.overflow
  | waits ↦ Typed.waits
  | typed (filename, content) rest ↦ elim (ask_key (length rest) rest) [
    | overflow ↦ Typed.overflow
    | waits ↦ Typed.waits
    | typed enc_key rest' ↦ transfer_file opens filename content enc_key rest' incoming
  ]
]
