-- ===== src/Words/Server.antt =====
-- LA2/wordserver.c: the first reply, and the loop that answers the requests for words.
use cnlab_cs.Common.{
  ℕ, ◌+◌, Option, none, some, List, [], ◌∷◌, ◌++◌, ltb, leb, ◌==◌, if◌then◌else◌, length,
}
use cnlab_cs.Common.Bytes.{codes, has_prefix, c_str, newline, fgets}
use cnlab_cs.Common.Scan.{str_eq}

abbrev pub buffer_size : ℕ
buffer_size = 1024

abbrev pub before_newline : List ℕ → List ℕ
before_newline [] = []
before_newline (c ∷ s) = if c == newline then [] else c ∷ before_newline s

-- `strtok(line, "\n")`, seen through `line`: the newlines at the front stay, the first one behind
-- another character becomes the end.
unfoldable pub strtok_line : List ℕ → List ℕ
strtok_line [] = []
strtok_line (c ∷ s) = if c == newline then c ∷ strtok_line s else c ∷ before_newline s

-- What the server does with a datagram: undefined behaviour, nothing, an answer with the file's rest, or
-- the last answer.
pub data ServerStep : Type 0 where
  fault : ServerStep
  waits : ServerStep
  replies : (line : List ℕ) → (file : List ℕ) → ServerStep
  finishes : (line : List ℕ) → ServerStep

-- `buffer[n] = '\0'` with n = -1 (`none`) or n = 1024 is outside of the array.
abbrev pub terminated : Option (List ℕ) → Option (List ℕ)
terminated none = none
terminated (some bytes) = if leb buffer_size (length bytes) then none else some (c_str bytes)

abbrev pub answer : List ℕ → List ℕ → ServerStep
answer line file =
    if str_eq line (codes "FINISH") then ServerStep.finishes line else ServerStep.replies line file

-- One round of `while (1)`; `file` is what is left to read. At its end nothing is sent.
unfoldable pub word_round : (file : List ℕ) → (received : Option (List ℕ)) → ServerStep
unfolding strtok_line fgets
word_round file received = elim (terminated received) [
  | none ↦ ServerStep.fault
  | some request ↦
      if has_prefix (codes "WORD") request
      then elim (fgets buffer_size file) [
        | none ↦ ServerStep.waits
        | some (line, rest) ↦ answer (strtok_line (c_str line)) rest
      ]
      else ServerStep.waits
]

-- The datagram with the file's name: its first line is sent, or that there is no such file; `sprintf` into
-- 1024 bytes. The first line of an empty file is an array that nobody has written.
unfoldable pub server_start :
    (files : List ℕ → Option (List ℕ)) → (received : Option (List ℕ)) → ServerStep
unfolding strtok_line fgets
server_start files received = elim (terminated received) [
  | none ↦ ServerStep.fault
  | some name ↦ elim (files name) [
    | none ↦
        if ltb (9 + length name) buffer_size
        then ServerStep.finishes (codes "NOTFOUND " ++ name)
        else ServerStep.fault
    | some file ↦ elim (fgets buffer_size file) [
      | none ↦ ServerStep.fault
      | some (line, rest) ↦ ServerStep.replies (strtok_line (c_str line)) rest
    ]
  ]
]
