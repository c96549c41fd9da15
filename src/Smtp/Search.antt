-- ===== src/Smtp/Search.antt =====
-- LA6: how the loops of `get_email` find a message in the lines of a mailbox file.
use mathlib.Core.Option
use mathlib.Core.Option.{some-injective}
use mathlib.Core.Path.{subst}
use cnlab_cs.Common.{
  ℕ, zero, suc, ◌+◌, ◌<◌, ◌≡◌, ◌≢◌, refl, sym, ap, ◌∙◌, true, false, some, List, [], ◌∷◌, ◌++◌, map,
  append_assoc, append-nil, arith, ◌==◌, ltb, length, length-append, get_elem?, All, All-append,
  ==_self,
}
use cnlab_cs.Common.Int.{ℤ, pos}
use cnlab_cs.Common.Bytes.{codes, has_prefix, newline, unlines, IsPlain, c_str-newline}
use cnlab_cs.Common.Scan.{◌>>=◌, fits_in}
use cnlab_cs.Smtp.Mailbox.{start_mark, end_mark, strcat, copy_body, copy_email, find_email}
use cnlab_cs.Smtp.Box.{Mail, ended, shown_lines, box_lines, IsBodyLine, IsMail, map-append}

strcat-line :
    (content l : List ℕ)
    → IsPlain l
    → length (content ++ ended l) < 4096
    → strcat content (ended l) ≡ some (content ++ ended l)
strcat-line content l plain h =
    let test : ltb (length (content ++ ended l)) 4096 ≡ true = ground arith in
    rw (c_str-newline l plain, fits_in, test) refl

copy_body-stops :
    (content : List ℕ) (ls : List (List ℕ)) (rest : List (List ℕ))
    → All IsBodyLine ls
    → length (content ++ unlines ls) < 4096
    → copy_body content (map ended ls ++ ended end_mark ∷ rest) ≡ some (content ++ unlines ls)
unfolding copy_body
copy_body-stops content [] rest a h = ap some (sym (append-nil content))
copy_body-stops content (l ∷ ls) rest a h =
    let whole : content ++ unlines (l ∷ ls) ≡ (content ++ ended l) ++ unlines ls =
      ap (content ++◌) (sym (append_assoc l (newline ∷ []) (unlines ls)))
      ∙ sym (append_assoc content (ended l) (unlines ls)) in
    let size : length ((content ++ ended l) ++ unlines ls) < 4096 = rw (← whole) h in
    let text : strcat content (ended l) ≡ some (content ++ ended l) =
      strcat-line content l a.0.0.1
        (omega (arith, size, length-append (content ++ ended l) (unlines ls))) in
    rw (a.0.2, copy_body, text)
      (copy_body-stops (content ++ ended l) ls rest a.1 size ∙ ap some (sym whole))

copy_email-lines :
    (line from date : List ℕ) (body rest : List (List ℕ))
    → IsPlain from
    → IsPlain date
    → All IsBodyLine body
    → length (unlines (from ∷ date ∷ body)) < 4096
    → copy_email line (ended from ∷ ended date ∷ (map ended body ++ ended end_mark ∷ rest))
      ≡ some (unlines (from ∷ date ∷ body))
unfolding copy_email
copy_email-lines line from date body rest pf pd a h =
    let start = ended from ++ ended date in
    let whole : unlines (from ∷ date ∷ body) ≡ start ++ unlines body =
      sym (append_assoc from (newline ∷ []) (date ++ newline ∷ unlines body))
      ∙ ap (ended from ++◌) (sym (append_assoc date (newline ∷ []) (unlines body)))
      ∙ sym (append_assoc (ended from) (ended date) (unlines body)) in
    let size : length (start ++ unlines body) < 4096 = subst (λ s. length s < 4096) whole h in
    let two : length start < 4096 = omega (arith, size, length-append start (unlines body)) in
    let first : strcat [] (ended from) ≡ some (ended from) =
      strcat-line [] from pf (omega (arith, two, length-append (ended from) (ended date))) in
    let second : strcat (ended from) (ended date) ≡ some start =
      strcat-line (ended from) date pd two in
    ap
      (λ o. o >>= λ c.
        strcat c (ended date) >>= λ d. copy_body d (map ended body ++ ended end_mark ∷ rest))
      first
    ∙ ap (λ o. o >>= λ d. copy_body d (map ended body ++ ended end_mark ∷ rest)) second
    ∙ copy_body-stops start body rest a size
    ∙ ap some (sym whole)

box_lines-cons :
    (n : Mail) (ms : List Mail)
    → map ended (box_lines (n ∷ ms))
      ≡ ended start_mark
        ∷ (map ended (shown_lines n) ++ ended end_mark ∷ ended [] ∷ map ended (box_lines ms))
box_lines-cons n ms = ap (◌∷◌ (ended start_mark)) (
    ap (map ended) (append_assoc (shown_lines n) (end_mark ∷ [] ∷ []) (box_lines ms))
    ∙ map-append (shown_lines n) (end_mark ∷ [] ∷ box_lines ms))

find_email-skip :
    (id : ℤ) (c : ℕ) (xs ys : List (List ℕ))
    → All (λ l. has_prefix start_mark l ≡ false) xs
    → find_email id c (xs ++ ys) ≡ find_email id c ys
unfolding find_email
find_email-skip id c [] ys a = refl
find_email-skip id c (x ∷ xs) ys a = rw (a.0, find_email) (find_email-skip id c xs ys a.1)

unmarked :
    (ls : List (List ℕ))
    → All IsBodyLine ls
    → All (λ l. has_prefix start_mark l ≡ false) (map ended ls)
unmarked [] a = tt
unmarked (l ∷ ls) a = (a.0.1, unmarked ls a.1)

-- The mark of a message: the count goes up, and the message is copied or passed over.
find_email-here :
    (c : ℕ) (l : List ℕ) (ls : List (List ℕ))
    → has_prefix start_mark l ≡ true
    → find_email (pos (suc c)) c (l ∷ ls) ≡ Option.map some (copy_email l ls)
unfolding find_email
find_email-here c l ls h = rw (h, find_email, ==_self (suc c)) refl

find_email-later :
    (id c : ℕ) (l : List ℕ) (ls : List (List ℕ))
    → has_prefix start_mark l ≡ true
    → id ≢ suc c
    → find_email (pos id) c (l ∷ ls) ≡ find_email (pos id) (suc c) ls
unfolding find_email
find_email-later id c l ls h n =
    let test : (suc c == id) ≡ false = ground arith in rw (h, find_email, test) refl

passed_lines-unmarked :
    (n : Mail)
    → IsMail n
    → All
        (λ l. has_prefix start_mark l ≡ false)
        (map ended (shown_lines n) ++ ended end_mark ∷ ended [] ∷ [])
passed_lines-unmarked n i =
    All-append _ (map ended (shown_lines n)) (ended end_mark ∷ ended [] ∷ [])
      (refl, (refl, unmarked n.body i.lines)) (refl, (refl, tt))

pub find_email-box :
    (ms : List Mail) (k c : ℕ) (m : Mail)
    → All IsMail ms
    → get_elem? ms k ≡ some m
    → find_email (pos (suc (c + k))) c (map ended (box_lines ms))
      ≡ some (some (unlines (shown_lines m)))
find_email-box [] k c m a e = cc
find_email-box (n ∷ ms) zero c m a e =
    let same : n ≡ m = some-injective n m e in
    let id : suc (c + 0) ≡ suc c = omega arith in
    ap (λ i. find_email (pos i) c (map ended (box_lines (n ∷ ms)))) id
    ∙ ap (find_email (pos (suc c)) c) (box_lines-cons n ms)
    ∙ find_email-here c (ended start_mark) _ refl
    ∙ ap (Option.map some) (
        copy_email-lines (ended start_mark) (codes "From: " ++ n.sender) (codes "Date: " ++ n.date)
          n.body (ended [] ∷ map ended (box_lines ms)) a.0.from.1 a.0.dated.1 a.0.lines
          (omega (arith, a.0.short)))
    ∙ ap (λ x. some (some (unlines (shown_lines x)))) same
find_email-box (n ∷ ms) (suc k) c m a e =
    let id : suc (c + suc k) ≡ suc (suc c + k) = omega arith in
    ap (find_email (pos (suc (c + suc k))) c) (box_lines-cons n ms)
    ∙ find_email-later (suc (c + suc k)) c (ended start_mark) _ refl
        (λ q. absurd (omega (arith, q)))
    ∙ ap (find_email (pos (suc (c + suc k))) (suc c)) (
        sym (
          append_assoc (map ended (shown_lines n)) (ended end_mark ∷ ended [] ∷ [])
            (map ended (box_lines ms))))
    ∙ find_email-skip (pos (suc (c + suc k))) (suc c)
        (map ended (shown_lines n) ++ ended end_mark ∷ ended [] ∷ []) (map ended (box_lines ms))
        (passed_lines-unmarked n a.0)
    ∙ ap (λ i. find_email (pos i) (suc c) (map ended (box_lines ms))) id
    ∙ find_email-box ms k (suc c) m a.1 e
