-- ===== src/Smtp/Stored.antt =====
-- LA6: a mailbox file as a list of messages: `store_email` adds one, and `get_email` reads each of them.
use mathlib.Core.Option
use mathlib.Core.Option.{some-injective}
use cnlab_cs.Common.{
  ℕ, suc, ◌≤◌, ◌<◌, take_all, length, length-append, All-get_elem?, ◌+◌, ◌≡◌, ◌≢◌, refl, sym, ap,
  ◌∙◌, inl, inr, Bool, true, false, ◌&&◌, not, Option, none, some, List, [], ◌∷◌, ◌++◌, map,
  append_assoc, append-nil, arith, ◌==◌, get_elem?, All, All-append, All-map, Bool-cases,
  Option-cases, ==_self,
}
use cnlab_cs.Common.Int.{pos}
use cnlab_cs.Common.Bytes.{codes, newline, unlines, IsPlain}
use cnlab_cs.Common.Scan.{str_eq, decimal, decimal_loop}
use cnlab_cs.Smtp.Mailbox.{
  response_bytes, send_reply, Files, mailbox_name, append_to, start_mark, end_mark, email_text,
  store_email, file_lines, find_email, chop, get_email,
}
use cnlab_cs.Smtp.Search.{find_email-box}
use cnlab_cs.Smtp.Box.{
  Mail, ended, shown_lines, mail_lines, box_lines, IsFileLine, IsMail, unlines-append,
  file_lines-unlines,
}

unlines-ends : (l : List ℕ) (ls : List (List ℕ)) → (t : List ℕ) × (unlines (l ∷ ls) ≡ ended t)
unlines-ends l [] = (l, refl)
unlines-ends l (k ∷ ls) =
    let (t, e) = unlines-ends k ls in
    (
      l ++ newline ∷ t,
      ap (λ s. l ++ newline ∷ s) e ∙ sym (append_assoc l (newline ∷ t) (newline ∷ [])),
    )

chop-ended : (t : List ℕ) → chop (ended t) ≡ some t
chop-ended [] = refl
chop-ended (c ∷ []) = refl
chop-ended (c ∷ d ∷ t) = ap (Option.map (◌∷◌ c)) (chop-ended (d ∷ t))

abbrev pub is_plain : List ℕ → Bool
is_plain [] = true
is_plain (c ∷ l) = not (c == 0) && (not (c == newline) && is_plain l)

pub IsPlain-is_plain : (l : List ℕ) → is_plain l ≡ true → IsPlain l
IsPlain-is_plain [] h = tt
IsPlain-is_plain (c ∷ l) h = elim (Bool-cases (c == 0)) [
  | inl zero_byte ↦ absurd (ground arith)
  | inr some_byte ↦ elim (Bool-cases (c == newline)) [
    | inl end ↦ absurd (ground arith)
    | inr inside ↦ (
      (λ e. ==-miss c 0 some_byte e, λ e. ==-miss c newline inside e),
      IsPlain-is_plain l (ground arith),
    )
  ]
]
  where
    ==-miss : (c d : ℕ) → (c == d) ≡ false → c ≢ d
    ==-miss c d miss e = absurd (ground arith)

IsFileLine-box : (ms : List Mail) → All IsMail ms → All IsFileLine (box_lines ms)
IsFileLine-box [] a = tt
IsFileLine-box (m ∷ ms) a =
    All-append IsFileLine (mail_lines m) (box_lines ms)
      (
        (omega arith, IsPlain-is_plain start_mark refl),
        All-append IsFileLine (shown_lines m) (end_mark ∷ [] ∷ [])
            (a.0.from, (a.0.dated, All-map (λ l h. h.0) m.body a.0.lines))
            ((omega arith, IsPlain-is_plain end_mark refl), ((omega arith, tt), tt)),
      )
      (IsFileLine-box ms a.1)

-- The file of a recipient holds these messages; no file is an empty mailbox.
abbrev pub text_of : Option (List ℕ) → List ℕ
text_of none = []
text_of (some file) = file

pub record Holds (files : Files) (recipient : List ℕ) (ms : List Mail) : Type 0 where
  pub text : text_of (files (mailbox_name recipient)) ≡ unlines (box_lines ms)
  pub mails : All IsMail ms

email_text-mail : (m : Mail) → email_text m.sender m.date (unlines m.body) ≡ unlines (mail_lines m)
email_text-mail m =
    ap
      (λ x.
        start_mark
        ++ newline
          ∷ (codes "From: " ++ m.sender ++ newline ∷ (codes "Date: " ++ m.date ++ newline ∷ x)))
      (append_assoc (unlines m.body) end_mark (newline ∷ newline ∷ [])
        ∙ sym (unlines-append m.body (end_mark ∷ [] ∷ [])))

box_lines-snoc :
    (ms : List Mail) (m : Mail) → box_lines (ms ++ m ∷ []) ≡ box_lines ms ++ mail_lines m
box_lines-snoc [] m = append-nil (mail_lines m)
box_lines-snoc (n ∷ ms) m =
    ap (mail_lines n ++◌) (box_lines-snoc ms m)
    ∙ sym (append_assoc (mail_lines n) (box_lines ms) (mail_lines m))

str_eq_self : (s : List ℕ) → str_eq s s ≡ true
str_eq_self [] = refl
str_eq_self (c ∷ s) = ground (arith, ==_self c, str_eq_self s)

append_to_self :
    (files : Files) (name text : List ℕ)
    → append_to files name text name ≡ some (text_of (files name) ++ text)
append_to_self files name text = elim (Option-cases (files name)) [
  | inl missing ↦ rw (str_eq_self name, missing) refl
  | inr (old, found) ↦ rw (str_eq_self name, found) refl
]

-- A response of 4095 bytes or less goes out whole.
response_bytes-whole :
    (t : List ℕ)
    → length t ≤ 4088
    → response_bytes 200 (codes "OK" ++ newline ∷ t) ≡ codes "200 OK\n" ++ t
unfolding response_bytes decimal decimal_loop
response_bytes-whole t small = take_all 4095 (codes "200 OK\n" ++ t) (omega arith)

-- What a mailbox with at least one message answers.
get_email-Holds :
    (files : Files) (recipient : List ℕ) (ms : List Mail) (k : ℕ) (m : Mail)
    → files (mailbox_name recipient) ≡ some (unlines (box_lines ms))
    → All IsMail ms
    → get_elem? ms k ≡ some m
    → (t : List ℕ) × (unlines (shown_lines m) ≡ ended t)
      × (send_reply (get_email files recipient (pos (suc k))) ≡ some (codes "200 OK\n" ++ t))
unfolding get_email
get_email-Holds files recipient ms k m file a e =
    let (t, shown) =
      unlines-ends (codes "From: " ++ m.sender) ((codes "Date: " ++ m.date) ∷ m.body) in
    let id : suc k ≡ suc (0 + k) = omega arith in
    let found : find_email (pos (suc k)) 0 (file_lines (unlines (box_lines ms)))
        ≡ some (some (ended t)) =
      ap (find_email (pos (suc k)) 0) (file_lines-unlines (box_lines ms) (IsFileLine-box ms a))
      ∙ ap (λ i. find_email (pos i) 0 (map ended (box_lines ms))) id
      ∙ find_email-box ms k 0 m a e
      ∙ ap (λ s. some (some s)) shown in
    let size : length (unlines (shown_lines m)) < 4090 =
      All-get_elem? (λ (n : Mail). length (unlines (shown_lines n)) < 4090) ms k
        (All-map (λ (n : Mail) (i : IsMail n). i.short) ms a) e in
    let small : length t ≤ 4088 =
      omega (arith, size, ap length shown, length-append t (newline ∷ [])) in
    (t, shown, rw (file, get_email, found, chop-ended t) (ap some (response_bytes-whole t small)))

-- When its file opens, a mailbox that holds messages takes one more. GET_MAIL then sends "200 OK", a newline
-- and the text of the message it is asked for, counted from 1, an old one or the new one: the lines From
-- and Date and the lines of the message, without the last newline. Mailboxes whose file has another name
-- are as they were. In each message the lines From and Date and those of the text have no zero byte and
-- are shorter than 4095 bytes, no line of the text starts like a mark, and all of them together have
-- at most 4089 bytes: more do not fit into the response.
pub store_email-get_email :
    (files : Files) (recipient : List ℕ) (ms : List Mail) (m : Mail)
    → Holds files recipient ms
    → IsMail m
    → (after : Files) × (store_email true m.date files recipient m.sender (unlines m.body)
        ≡ some after)
      × Holds after recipient (ms ++ m ∷ [])
      × ((other : List ℕ)
          → str_eq (mailbox_name other) (mailbox_name recipient) ≡ false
          → after (mailbox_name other) ≡ files (mailbox_name other))
      × ((k : ℕ) (n : Mail)
          → get_elem? (ms ++ m ∷ []) k ≡ some n
          → (t : List ℕ) × (unlines (shown_lines n) ≡ ended t)
            × (send_reply (get_email after recipient (pos (suc k))) ≡ some (codes "200 OK\n" ++ t)))
unfolding store_email
store_email-get_email files recipient ms m held i =
    let name = mailbox_name recipient in
    let text = email_text m.sender m.date (unlines m.body) in
    let after = append_to files name text in
    let all : All IsMail (ms ++ m ∷ []) = All-append IsMail ms (m ∷ []) held.mails (i, tt) in
    let content : text_of (files name) ++ text ≡ unlines (box_lines (ms ++ m ∷ [])) =
      ap (◌++ text) held.text
      ∙ ap (unlines (box_lines ms) ++◌) (email_text-mail m)
      ∙ sym (unlines-append (box_lines ms) (mail_lines m))
      ∙ ap unlines (sym (box_lines-snoc ms m)) in
    let file : after name ≡ some (unlines (box_lines (ms ++ m ∷ []))) =
      append_to_self files name text ∙ ap some content in
    (
      after,
      refl,
      record { text = ap text_of file; mails = all },
      λ other apart. rw apart refl,
      λ k n e. get_email-Holds after recipient (ms ++ m ∷ []) k n file all e,
    )
