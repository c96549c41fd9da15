-- ===== src/Smtp/Box.antt =====
-- LA6: messages, and the lines of a mailbox file that holds them.
use cnlab_cs.Common.{
  ℕ, zero, suc, ◌≤◌, ◌<◌, ◌≡◌, refl, sym, ap, ◌∙◌, false, List, [], ◌∷◌, ◌++◌, map, append_assoc,
  arith, length, length-append, All,
}
use cnlab_cs.Common.Bytes.{
  codes, has_prefix, newline, fgets, unlines, IsPlain, read_line-newline, fgets-cons,
}
use cnlab_cs.Smtp.Mailbox.{start_mark, end_mark, lines_loop, file_lines}

-- A message: its sender, its date and the lines of its text.
pub record Mail : Type 0 where
  pub sender : List ℕ
  pub date : List ℕ
  pub body : List (List ℕ)

-- A line as it is in the file.
abbrev pub ended : List ℕ → List ℕ
ended l = l ++ newline ∷ []

-- The lines of the answer to GET_MAIL, and those of the file.
abbrev pub shown_lines : Mail → List (List ℕ)
shown_lines m = (codes "From: " ++ m.sender) ∷ (codes "Date: " ++ m.date) ∷ m.body

abbrev pub mail_lines : Mail → List (List ℕ)
mail_lines m = start_mark ∷ (shown_lines m ++ end_mark ∷ [] ∷ [])

abbrev pub box_lines : List Mail → List (List ℕ)
box_lines [] = []
box_lines (m ∷ ms) = mail_lines m ++ box_lines ms

-- A line that one `fgets` reads whole.
abbrev pub IsFileLine : List ℕ → Type 0
IsFileLine l = (length l < 4095) × IsPlain l

-- A text line that is not taken for a mark.
abbrev pub IsBodyLine : List ℕ → Type 0
IsBodyLine l =
    IsFileLine l
    × (has_prefix start_mark (ended l) ≡ false)
    × (has_prefix end_mark (ended l) ≡ false)

-- A message that the response to GET_MAIL has room for, and with no mark in its text.
pub record IsMail (m : Mail) : Type 0 where
  pub from : IsFileLine (codes "From: " ++ m.sender)
  pub dated : IsFileLine (codes "Date: " ++ m.date)
  pub lines : All IsBodyLine m.body
  pub short : length (unlines (shown_lines m)) < 4090

pub unlines-append : (xs ys : List (List ℕ)) → unlines (xs ++ ys) ≡ unlines xs ++ unlines ys
unlines-append [] ys = refl
unlines-append (x ∷ xs) ys =
    ap (λ s. x ++ newline ∷ s) (unlines-append xs ys)
    ∙ sym (append_assoc x (newline ∷ unlines xs) (unlines ys))

pub map-append : (xs ys : List (List ℕ)) → map ended (xs ++ ys) ≡ map ended xs ++ map ended ys
map-append [] ys = refl
map-append (x ∷ xs) ys = ap (◌∷◌ (ended x)) (map-append xs ys)

lines_loop-unlines :
    (fuel : ℕ) (ls : List (List ℕ))
    → length ls ≤ fuel
    → All IsFileLine ls
    → lines_loop fuel (unlines ls) ≡ map ended ls
unfolding lines_loop fgets
lines_loop-unlines zero [] h a = refl
lines_loop-unlines zero (l ∷ ls) h a = absurd (omega arith)
lines_loop-unlines (suc fuel) [] h a = refl
lines_loop-unlines (suc fuel) (l ∷ ls) h a =
    rw
      (
        fgets-cons 4096 l (unlines ls),
        read_line-newline 4095 l (unlines ls) a.0.0 a.0.1,
        lines_loop,
      )
      (ap (◌∷◌ (ended l)) (lines_loop-unlines fuel ls (omega arith) a.1))

length-unlines : (ls : List (List ℕ)) → length ls ≤ length (unlines ls)
length-unlines [] = omega arith
length-unlines (l ∷ ls) = omega (arith, length-unlines ls, length-append l (newline ∷ unlines ls))

-- The lines that the reading loops see.
pub file_lines-unlines :
    (ls : List (List ℕ)) → All IsFileLine ls → file_lines (unlines ls) ≡ map ended ls
unfolding file_lines
file_lines-unlines ls a = lines_loop-unlines (length (unlines ls)) ls (length-unlines ls) a
