-- ===== src/Smtp/Typed.antt =====
-- LA6: a message that the user types, from the client to the mailbox.
use mathlib.Core.Option.{some-injective}
use cnlab_cs.Common.{
  ℕ, zero, suc, ◌+◌, ◌≤◌, ◌<◌, ◌≡◌, refl, sym, ap, ◌∙◌, true, false, some, List, [], ◌∷◌, ◌++◌, leb,
  ltb, length, length-append, drop, arith, All, append-nil, append_assoc, get_elem?-append_end,
  All-map,
}
use cnlab_cs.Common.Int.{pos}
use cnlab_cs.Common.Bytes.{
  codes, c_str, newline, fgets, fgets-cons, read_line, read_line-newline, c_str-newline, unlines,
  IsPlain,
}
use cnlab_cs.Common.Scan.{str_eq}
use cnlab_cs.Smtp.Mailbox.{Files, store_email, get_email, send_reply}
use cnlab_cs.Smtp.Session.{Session, Step, received_into, on_data, run_command, handle_client_round}
use cnlab_cs.Smtp.Box.{Mail, IsMail, shown_lines, ended}
use cnlab_cs.Smtp.Stored.{Holds, store_email-get_email}
use cnlab_cs.Smtp.Client.{
  body_loop, read_body, line_size, typed_command, next_command, Ending, talk_round,
}

-- A line that is typed in one go and does not end the message.
abbrev pub IsTyped : List ℕ → Type 0
IsTyped l = IsPlain l × (length l < 1023) × (str_eq (l ++ newline ∷ []) (codes ".\n") ≡ false)

abbrev pub dot : List ℕ
dot = codes "."

fgets-line :
    (l s : List ℕ)
    → IsPlain l
    → length l < 1023
    → fgets line_size (l ++ newline ∷ s) ≡ some (l ++ newline ∷ [], s)
fgets-line l s a h = fgets-cons line_size l s ∙ ap some (read_line-newline 1023 l s h a)

body_loop-dot :
    (fuel : ℕ) (more email_body : List ℕ)
    → body_loop (suc fuel) (unlines (dot ∷ []) ++ more) email_body ≡ (email_body ++ [], more)
unfolding body_loop fgets read_line
body_loop-dot fuel more email_body = ap (λ b. (b, more)) (sym (append-nil email_body))

body_loop-line :
    (fuel : ℕ) (l s email_body : List ℕ)
    → IsTyped l
    → length email_body + length (l ++ newline ∷ []) < 4096
    → body_loop (suc fuel) (l ++ newline ∷ s) email_body
      ≡ body_loop fuel s (email_body ++ l ++ newline ∷ [])
unfolding body_loop
body_loop-line fuel l s email_body (plain, short, no_dot) small =
    let room : leb 4096 (length email_body + length (l ++ newline ∷ [])) ≡ false = ground arith in
    rw (fgets-line l s plain short, body_loop, c_str-newline l plain, no_dot, room)
      (ap (body_loop fuel s) (sym (append_assoc email_body l (newline ∷ []))))

body_loop-lines :
    (fuel : ℕ) (ls : List (List ℕ)) (more email_body : List ℕ)
    → length ls < fuel
    → All IsTyped ls
    → length email_body + length (unlines ls) < 4096
    → body_loop fuel (unlines (ls ++ dot ∷ []) ++ more) email_body
      ≡ (email_body ++ unlines ls, more)
body_loop-lines zero ls more email_body h a small = absurd (omega arith)
body_loop-lines (suc fuel) [] more email_body h a small = body_loop-dot fuel more email_body
body_loop-lines (suc fuel) (l ∷ ls) more email_body h a small =
    let line : length (l ++ newline ∷ []) ≡ length l + 1 = length-append l (newline ∷ []) in
    let all : length (l ++ newline ∷ unlines ls) ≡ length l + suc (length (unlines ls)) =
      length-append l (newline ∷ unlines ls) in
    let before : length (email_body ++ l ++ newline ∷ []) ≡ length email_body + length l + 1 =
      length-append (email_body ++ l) (newline ∷ [])
      ∙ ap (λ n. n + 1) (length-append email_body l) in
    ap (λ s. body_loop (suc fuel) s email_body)
      (append_assoc l (newline ∷ unlines (ls ++ dot ∷ [])) more)
    ∙ body_loop-line fuel l (unlines (ls ++ dot ∷ []) ++ more) email_body a.0
        (omega (arith, line, all))
    ∙ body_loop-lines fuel ls more (email_body ++ l ++ newline ∷ []) (omega arith) a.1
        (omega (arith, line, all, before))
    ∙ ap (λ b. (b, more))
        (append_assoc (email_body ++ l) (newline ∷ []) (unlines ls)
          ∙ append_assoc email_body l (newline ∷ unlines ls))

length-unlines-le : (ls : List (List ℕ)) → length ls ≤ length (unlines ls)
length-unlines-le [] = omega arith
length-unlines-le (l ∷ ls) =
    omega (arith, length-append l (newline ∷ unlines ls), length-unlines-le ls)

-- The lines of a message, from the terminal.
pub read_body-lines :
    (ls : List (List ℕ)) (more : List ℕ)
    → All IsTyped ls
    → length (unlines ls) < 4096
    → read_body (unlines (ls ++ dot ∷ []) ++ more) ≡ (unlines ls, more)
read_body-lines ls more a small =
    body_loop-lines (length (unlines (ls ++ dot ∷ []) ++ more)) ls more []
      (omega (
        arith,
        length-append (unlines (ls ++ dot ∷ [])) more,
        length-unlines-le (ls ++ dot ∷ []),
        length-append ls (dot ∷ []),
      ))
      a (omega arith)

talk_round-data :
    (ls : List (List ℕ)) (more : List ℕ) (c : ℕ) (response : List ℕ)
    → All IsTyped ls
    → length (unlines ls) < 4096
    → talk_round (unlines (codes "DATA" ∷ ls ++ dot ∷ []) ++ more) true (some (c ∷ response))
      ≡ record { sent = (codes "DATA\n" ++ unlines ls) ∷ []; ending = Ending.goes_on more }
unfolding talk_round next_command typed_command
talk_round-data ls more c response a small =
    ap (λ b. record { sent = (codes "DATA\n" ++ b.0) ∷ []; ending = Ending.goes_on b.1 })
      (read_body-lines ls more a small)

c_str-line : (l s : List ℕ) → IsPlain l → c_str (l ++ newline ∷ s) ≡ l ++ newline ∷ c_str s
c_str-line [] s a = refl
c_str-line (c ∷ l) s a = ground (arith, a.0.0, c_str-line l s a.1)

c_str-unlines :
    (ls : List (List ℕ)) (rest : List ℕ)
    → All IsPlain ls
    → c_str (unlines ls ++ 0 ∷ rest) ≡ unlines ls
c_str-unlines [] rest a = refl
c_str-unlines (l ∷ ls) rest a =
    ap c_str (append_assoc l (newline ∷ unlines ls) (0 ∷ rest))
    ∙ c_str-line l (unlines ls ++ 0 ∷ rest) a.0
    ∙ ap (λ s. l ++ newline ∷ s) (c_str-unlines ls rest a.1)

-- The command, when recv gives it whole.
handle_client_round-data :
    (date : List ℕ) (ls : List (List ℕ)) (s : Session) (files after : Files)
    → 3 ≤ s.state
    → All IsPlain ls
    → store_email true date files s.recipient s.sender (unlines ls) ≡ some after
    → handle_client_round true date (codes "DATA\n" ++ unlines ls) s files
      ≡ Step.continues
          (record s { buffer = received_into s.buffer (codes "DATA\n" ++ unlines ls); state = 0 })
          after
          200
          (codes "Message stored successfully")
unfolding handle_client_round run_command on_data
handle_client_round-data date ls s files after ready plain stored =
    let allowed : ltb s.state 3 ≡ false = ground arith in
    rw
      (
        allowed,
        c_str-unlines ls (drop (suc (length (codes "DATA\n" ++ unlines ls))) s.buffer) plain,
      )
      (ap
        (λ f.
          Step.continues
            (record s { buffer = received_into s.buffer (codes "DATA\n" ++ unlines ls); state = 0 })
            f 200 (codes "Message stored successfully"))
        (some-injective _ after stored))

-- When the server has a sender and a recipient, the user types DATA and the lines of a message, and then a dot,
-- the client sends one command with these lines and goes on behind the dot. The server, if recv gives
-- it that command whole, stores the message behind those of the mailbox, and GET_MAIL with its number sends
-- it back, behind "200 OK" and a newline. The mailbox opens and holds messages of this kind: with the lines
-- From and Date a message has 4089 bytes at most, so that the response has room for it, and no line of it has
-- a zero byte or starts like a mark. No line that the user types is a dot or has more than 1022
-- characters, and the connection does not fail.
pub typed-stored :
    (s : Session) (files : Files) (ms : List Mail) (m : Mail) (more : List ℕ) (c : ℕ)
    (response : List ℕ)
    → Holds files s.recipient ms
    → IsMail m
    → s.sender ≡ m.sender
    → 3 ≤ s.state
    → All IsTyped m.body
    → (talk_round (unlines (codes "DATA" ∷ m.body ++ dot ∷ []) ++ more) true (some (c ∷ response))
        ≡ record { sent = (codes "DATA\n" ++ unlines m.body) ∷ []; ending = Ending.goes_on more })
      × ((after : Files) × (handle_client_round true m.date
              (codes "DATA\n" ++ unlines m.body)
              s
              files
            ≡ Step.continues
                (record s {
                  buffer = received_into s.buffer (codes "DATA\n" ++ unlines m.body);
                  state = 0;
                })
                after
                200
                (codes "Message stored successfully"))
          × Holds after s.recipient (ms ++ m ∷ [])
          × ((t : List ℕ) × (unlines (shown_lines m) ≡ ended t)
              × (send_reply (get_email after s.recipient (pos (suc (length ms))))
                  ≡ some (codes "200 OK\n" ++ t))))
typed-stored s files ms m more c response held mail from ready typed =
    let (after, stored, holds, others, gives) =
      store_email-get_email files s.recipient ms m held mail in
    let small : length (unlines m.body) < 4096 = omega (
      arith,
      mail.short,
      length-append (codes "From: " ++ m.sender)
          (newline ∷ unlines ((codes "Date: " ++ m.date) ∷ m.body)),
      length-append (codes "Date: " ++ m.date) (newline ∷ unlines m.body),
    ) in
    (
      talk_round-data m.body more c response typed small,
      (
        after,
        handle_client_round-data m.date m.body s files after ready
            (All-map (λ l h. h.0) m.body typed)
            (ap (λ x. store_email true m.date files s.recipient x (unlines m.body)) from ∙ stored),
        holds,
        gives (length ms) m (get_elem?-append_end ms m),
      ),
    )
