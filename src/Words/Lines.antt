-- ===== src/Words/Lines.antt =====
-- LA2: single rounds on lines that fit.
use cnlab_cs.Common.{
  ℕ, suc, ◌≤◌, ◌<◌, ◌≡◌, refl, ap, ◌∙◌, true, false, Option, some, List, [], ◌∷◌, ◌++◌,
  append_assoc, arith, ltb, length, take,
}
use cnlab_cs.Common.Bytes.{
  codes, has_prefix, c_str, newline, fgets, unlines, IsPlain, read_line-newline, c_str-newline,
  fgets-cons,
}
use cnlab_cs.Common.Decimal.{length-decimal}
use cnlab_cs.Common.Scan.{str_eq, decimal}
use cnlab_cs.Words.Server.{
  ServerStep, word_round, server_start, terminated, answer, strtok_line, buffer_size,
  before_newline,
}
use cnlab_cs.Words.Client.{ClientStep, client_round, client_start, new_receiver, text_in, ask}

-- A line that fits into the arrays, is not empty, and means nothing to the client.
pub record IsOrdinary (l : List ℕ) : Type 0 where
  pub plain : IsPlain l
  pub some_text : 1 ≤ length l
  pub room : length l < 1023
  pub no_hello : has_prefix (codes "HELLO") l ≡ false
  pub no_refusal : has_prefix (codes "NOTFOUND") l ≡ false
  pub no_end : str_eq l (codes "FINISH") ≡ false

abbrev pub finish : List ℕ
finish = codes "FINISH"

pub finish-IsPlain : IsPlain finish
finish-IsPlain = ground arith

pub append_word :
    (file w : List ℕ) (ls : List (List ℕ))
    → (file ++ w ++ newline ∷ []) ++ unlines ls ≡ file ++ unlines (w ∷ ls)
append_word file w ls =
    append_assoc (file ++ w) (newline ∷ []) (unlines ls)
    ∙ append_assoc file w (newline ∷ unlines ls)

before_newline-end : (l : List ℕ) → IsPlain l → before_newline (l ++ newline ∷ []) ≡ l
before_newline-end [] a = refl
before_newline-end (c ∷ l) a = ground (arith, a.0.1, before_newline-end l a.1)

strtok_line-end : (l : List ℕ) → IsPlain l → 1 ≤ length l → strtok_line (l ++ newline ∷ []) ≡ l
unfolding strtok_line
strtok_line-end [] a h = absurd (omega arith)
strtok_line-end (c ∷ l) a h = ground (arith, a.0.1, before_newline-end l a.1)

pub c_str-plain : (l : List ℕ) → IsPlain l → c_str l ≡ l
c_str-plain [] a = refl
c_str-plain (c ∷ l) a = ground (arith, a.0.0, c_str-plain l a.1)

-- What the server reads of one line.
pub fgets-line :
    (l s : List ℕ)
    → IsPlain l
    → length l < 1023
    → fgets buffer_size (l ++ newline ∷ s) ≡ some (l ++ newline ∷ [], s)
fgets-line l s a h = fgets-cons buffer_size l s ∙ ap some (read_line-newline 1023 l s h a)

pub line-text :
    (l : List ℕ) → IsPlain l → 1 ≤ length l → strtok_line (c_str (l ++ newline ∷ [])) ≡ l
line-text l a h = ap strtok_line (c_str-newline l a) ∙ strtok_line-end l a h

-- A request for a word takes the next line of the file.
pub word_round-line :
    (n : ℕ) (l s : List ℕ)
    → n < 2147483648
    → IsPlain l
    → 1 ≤ length l
    → length l < 1023
    → word_round (l ++ newline ∷ s) (some (codes "WORD" ++ decimal n)) ≡ answer l s
unfolding word_round
word_round-line n l s small a h room =
    let digits : length (decimal n) ≤ 10 = length-decimal 9 n (omega arith) in
    let text : terminated (some (codes "WORD" ++ decimal n))
        ≡ some (codes "WORD" ++ c_str (decimal n)) =
      ground arith in
    rw (text, word_round, fgets-line l s a room, word_round, line-text l a h) refl

-- The client stores a word and asks for the next.
pub client_round-word :
    (file w : List ℕ) (n : ℕ)
    → IsOrdinary w
    → suc n < 2147483648
    → client_round true (record { output_file = some file; word_count = n }) w
      ≡ ClientStep.requests
          (record { output_file = some (file ++ w ++ newline ∷ []); word_count = suc n })
          (codes "WORD" ++ decimal (suc n))
unfolding client_round ask
client_round-word file w n i small =
    let fits : ltb (length w) buffer_size ≡ true = ground (arith, i.room) in
    let counted : ltb (suc n) 2147483648 ≡ true = ground arith in
    rw (c_str-plain w i.plain, client_round, fits, i.no_refusal, i.no_hello, i.no_end, counted) refl

abbrev pub hello : List ℕ → List ℕ
hello tail = codes "HELLO" ++ tail

pub client_round-hello :
    (tail : List ℕ)
    → IsPlain tail
    → length tail < 1018
    → client_round true new_receiver (hello tail)
      ≡ ClientStep.requests
          (record { output_file = some (hello tail ++ newline ∷ []); word_count = 1 })
          (codes "WORD" ++ decimal 1)
unfolding client_round ask
client_round-hello tail a room =
    let text : text_in (hello tail) ≡ some (hello tail) = ground (arith, c_str-plain tail a) in
    rw (text, client_round) refl

pub client_start-line :
    (name more : List ℕ)
    → IsPlain name
    → length name < 1023
    → client_start (name ++ newline ∷ more) ≡ some (name, take 1023 (codes "received_" ++ name))
unfolding client_start
client_start-line name more a room =
    let text : before_newline (c_str (name ++ newline ∷ [])) ≡ name =
      ap before_newline (c_str-newline name a) ∙ before_newline-end name a in
    rw (fgets-line name more a room, client_start, text) refl

pub server_start-line :
    (files : List ℕ → Option (List ℕ)) (name l s : List ℕ)
    → IsPlain name
    → length name < 1023
    → files name ≡ some (l ++ newline ∷ s)
    → IsPlain l
    → 1 ≤ length l
    → length l < 1023
    → server_start files (some name) ≡ ServerStep.replies l s
unfolding server_start
server_start-line files name l s plain short found a h room =
    let text : terminated (some name) ≡ some name = ground (arith, c_str-plain name plain) in
    rw (text, server_start, found, fgets-line l s a room, server_start, line-text l a h) refl
