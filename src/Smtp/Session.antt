-- ===== src/Smtp/Session.antt =====
-- LA6: one connection, `handle_client` of mysmtp_server.c: one step for each `recv`.
use cnlab_cs.Common.{
  ℕ, suc, Bool, none, some, List, [], ◌∷◌, ◌++◌, ◌==◌, ltb, if◌then◌else◌, length, drop,
}
use cnlab_cs.Common.Bytes.{codes, has_prefix, c_str, newline}
use cnlab_cs.Common.Scan.{scan_word, scan_int, str_eq, behind}
use cnlab_cs.Smtp.Mailbox.{Files, Response, store_email, list_emails, get_email}

-- The variables of `handle_client`; the strings are what the arrays hold up to the zero, and `buffer` is
-- the whole array, which keeps behind a short message what longer ones left there.
pub record Session : Type 0 where
  pub buffer : List ℕ
  pub sender : List ℕ
  pub recipient : List ℕ
  pub email_domain : List ℕ
  pub state : ℕ

unfoldable pub new_session : List ℕ → Session
new_session buffer = record {
  buffer = buffer;
  sender = [];
  recipient = [];
  email_domain = [];
  state = 0;
}

-- `strchr(buffer, '\n')`, and the zero in its place.
abbrev pub cut_newline : List ℕ → List ℕ
cut_newline [] = []
cut_newline (c ∷ s) = if c == 0 then c ∷ s else if c == newline then 0 ∷ s else c ∷ cut_newline s

-- The buffer after `recv` gave `bytes`, less than the array has, and the two writes behind it.
abbrev pub received_into : List ℕ → List ℕ → List ℕ
received_into buffer bytes = cut_newline (bytes ++ 0 ∷ drop (suc (length bytes)) buffer)

-- What one round does: a write behind an array, the next round after a response, or the end.
pub data Step : Type 0 where
  crash : Step
  continues : Session → Files → (code : ℕ) → (message : List ℕ) → Step
  closes : (code : ℕ) → (message : List ℕ) → Step

-- The string behind a command of n characters, as `sscanf` reads it.
abbrev pub argument : ℕ → Session → List ℕ
argument n s = c_str (drop n s.buffer)

unfoldable pub on_helo : Session → Files → Step
on_helo s files = elim (scan_word (argument 5 s)) [
  | none ↦ Step.continues s files 400 (codes "Invalid syntax")
  | some (word, rest) ↦
      if ltb (length word) 100
      then Step.continues (record s { email_domain = word; state = 1 }) files 200 (codes "OK")
      else Step.crash
]

abbrev pub wrong_domain : List ℕ
wrong_domain =
    codes "Sender domain does not match HELO domain, you may set the sender domain again with HELO"

-- The domain is compared after `sscanf` has stored the address.
abbrev pub check_sender : Session → Files → Step
check_sender s files = elim (behind 64 s.sender) [
  | none ↦ Step.continues s files 400 (codes "Invalid email format, missing @")
  | some sender_domain ↦
      if str_eq sender_domain s.email_domain
      then Step.continues (record s { state = 2 }) files 200 (codes "OK")
      else Step.continues s files 400 wrong_domain
]

unfoldable pub on_mail_from : Session → Files → Step
on_mail_from s files =
    if ltb s.state 1
    then Step.continues s files 403 (codes "Send HELO first")
    else elim (scan_word (argument 11 s)) [
      | none ↦ Step.continues s files 400 (codes "Invalid syntax")
      | some (word, rest) ↦
          if ltb (length word) 100
          then check_sender (record s { sender = word }) files
          else Step.crash
    ]

unfoldable pub on_rcpt_to : Session → Files → Step
on_rcpt_to s files =
    if ltb s.state 2
    then Step.continues s files 403 (codes "Send MAIL FROM first")
    else elim (scan_word (argument 9 s)) [
      | none ↦ Step.continues s files 400 (codes "Invalid syntax")
      | some (word, rest) ↦
          if ltb (length word) 100
          then Step.continues (record s { recipient = word; state = 3 }) files 200 (codes "OK")
          else Step.crash
    ]

-- The message is the string at `buffer + 5`, behind the zero that took the place of a newline.
unfoldable pub on_data : (opens : Bool) (date : List ℕ) → Session → Files → Step
unfolding store_email
on_data opens date s files =
    if ltb s.state 3
    then Step.continues s files 403 (codes "Send RCPT TO first")
    else elim (store_email opens date files s.recipient s.sender (argument 5 s)) [
      | none ↦ Step.continues (record s { state = 0 }) files 500 (codes "Failed to store message")
      | some after ↦
          Step.continues (record s { state = 0 }) after 200 (codes "Message stored successfully")
    ]

abbrev pub answer_with : Session → Files → Response → Step
answer_with s files none = Step.crash
answer_with s files (some (code, message)) = Step.continues s files code message

unfoldable pub on_list : Session → Files → Step
unfolding list_emails
on_list s files = elim (scan_word (argument 5 s)) [
  | none ↦ Step.continues s files 400 (codes "Invalid syntax")
  | some (email, rest) ↦
      if ltb (length email) 100 then answer_with s files (list_emails files email) else Step.crash
]

unfoldable pub on_get_mail : Session → Files → Step
unfolding get_email
on_get_mail s files = elim (scan_word (argument 9 s)) [
  | none ↦ Step.continues s files 400 (codes "Invalid syntax")
  | some (email, rest) ↦
      if ltb (length email) 100
      then elim (scan_int rest) [
        | none ↦ Step.continues s files 400 (codes "Invalid syntax")
        | some id ↦ answer_with s files (get_email files email id)
      ]
      else Step.crash
]

-- The chain of `strncmp` on the buffer.
unfoldable pub run_command : (opens : Bool) (date : List ℕ) → Session → Files → Step
unfolding on_helo on_mail_from on_rcpt_to on_data on_list on_get_mail
run_command opens date s files =
    if has_prefix (codes "HELO ") s.buffer
    then on_helo s files
    else if has_prefix (codes "MAIL FROM: ") s.buffer
    then on_mail_from s files
    else if has_prefix (codes "RCPT TO: ") s.buffer
    then on_rcpt_to s files
    else if has_prefix (codes "DATA") s.buffer
    then on_data opens date s files
    else if has_prefix (codes "LIST ") s.buffer
    then on_list s files
    else if has_prefix (codes "GET_MAIL ") s.buffer
    then on_get_mail s files
    else if str_eq (c_str s.buffer) (codes "QUIT")
    then Step.closes 200 (codes "Goodbye")
    else Step.continues s files 400 (codes "Unknown command")

-- One round of the loop for the bytes that `recv` gave.
unfoldable pub handle_client_round : (opens : Bool) (date bytes : List ℕ) → Session → Files → Step
unfolding run_command
handle_client_round opens date bytes s files =
    run_command opens date (record s { buffer = received_into s.buffer bytes }) files
