-- ===== src/Smtp/Protocol.antt =====
-- LA6: what the order of the commands of a connection guarantees, and what it does not.
use cnlab_cs.Common.{
  ℕ, ◌≤◌, ◌≡◌, ◌⊎◌, refl, inl, inr, Bool, true, false, none, some, List, arith, ltb, if◌then◌else◌,
  length, Bool-cases, Option-cases,
}
use cnlab_cs.Common.Bytes.{codes, has_prefix, c_str}
use cnlab_cs.Common.Scan.{scan_word, scan_int, str_eq, behind}
use cnlab_cs.Smtp.Mailbox.{Files, Response, store_email, list_emails, get_email}
use cnlab_cs.Smtp.Session.{
  Session, Step, argument, on_helo, check_sender, on_mail_from, on_rcpt_to, on_data, answer_with,
  on_list, on_get_mail, run_command,
}

-- What a round leaves: the same files, or, after DATA in state 3, the files with the message stored for
-- the recipient under the sender, and the state 0.
abbrev pub Keeps : (date : List ℕ) → Session → Files → Step → Type 0
Keeps date s files Step.crash = Unit
Keeps date s files (Step.closes code message) = Unit
Keeps date s files (Step.continues t after code message) =
    (after ≡ files)
    ⊎ ((3 ≤ s.state)
        × (has_prefix (codes "DATA") s.buffer ≡ true)
        × (store_email true date files s.recipient s.sender (argument 5 s) ≡ some after)
        × (t.state ≡ 0)
        × (code ≡ 200))

on_helo-Keeps : (date : List ℕ) (s : Session) (files : Files) → Keeps date s files (on_helo s files)
unfolding on_helo
on_helo-Keeps date s files = elim (Option-cases (scan_word (argument 5 s))) [
  | inl silent ↦ rw (silent, on_helo) (inl refl)
  | inr (r, word) ↦ elim (Bool-cases (ltb (length r.0) 100)) [
    | inl short ↦ rw (word, on_helo, short) (inl refl)
    | inr long ↦ rw (word, on_helo, long) tt
  ]
]

on_data-Keeps :
    (opens : Bool) (date : List ℕ) (s : Session) (files : Files)
    → has_prefix (codes "DATA") s.buffer ≡ true
    → Keeps date s files (on_data opens date s files)
unfolding on_data store_email
on_data-Keeps opens date s files h = elim (Bool-cases (ltb s.state 3)) [
  | inl early ↦ rw (early, on_data) (inl refl)
  | inr late ↦ data_stored opens late
]
  where
    data_stored :
        (opens : Bool) → ltb s.state 3 ≡ false → Keeps date s files (on_data opens date s files)
    data_stored true late = rw (late, on_data) (inr (ground arith, h, refl, refl, refl))
    data_stored false late = rw (late, on_data) (inl refl)

answer_with-Keeps :
    (date : List ℕ) (s : Session) (files : Files) (r : Response)
    → Keeps date s files (answer_with s files r)
answer_with-Keeps date s files none = tt
answer_with-Keeps date s files (some (code, message)) = inl refl

on_mail_from-Keeps :
    (date : List ℕ) (s : Session) (files : Files) → Keeps date s files (on_mail_from s files)
unfolding on_mail_from
on_mail_from-Keeps date s files = elim (Bool-cases (ltb s.state 1)) [
  | inl early ↦ rw (early, on_mail_from) (inl refl)
  | inr late ↦ elim (Option-cases (scan_word (argument 11 s))) [
    | inl silent ↦ rw (late, on_mail_from, silent) (inl refl)
    | inr (r, word) ↦ elim (Bool-cases (ltb (length r.0) 100)) [
      | inl short ↦ rw (late, on_mail_from, word, short) (checked (record s { sender = r.0 }))
      | inr long ↦ rw (late, on_mail_from, word, long) tt
    ]
  ]
]
  where
    checked : (u : Session) → Keeps date s files (check_sender u files)
    checked u = elim (Option-cases (behind 64 u.sender)) [
      | inl bare ↦ rw (bare, check_sender) (inl refl)
      | inr (d, at) ↦ elim (Bool-cases (str_eq d u.email_domain)) [
        | inl same ↦ rw (at, check_sender, same) (inl refl)
        | inr other ↦ rw (at, check_sender, other) (inl refl)
      ]
    ]

on_rcpt_to-Keeps :
    (date : List ℕ) (s : Session) (files : Files) → Keeps date s files (on_rcpt_to s files)
unfolding on_rcpt_to
on_rcpt_to-Keeps date s files = elim (Bool-cases (ltb s.state 2)) [
  | inl early ↦ rw (early, on_rcpt_to) (inl refl)
  | inr late ↦ elim (Option-cases (scan_word (argument 9 s))) [
    | inl silent ↦ rw (late, on_rcpt_to, silent) (inl refl)
    | inr (r, word) ↦ elim (Bool-cases (ltb (length r.0) 100)) [
      | inl short ↦ rw (late, on_rcpt_to, word, short) (inl refl)
      | inr long ↦ rw (late, on_rcpt_to, word, long) tt
    ]
  ]
]

on_list-Keeps : (date : List ℕ) (s : Session) (files : Files) → Keeps date s files (on_list s files)
unfolding on_list
on_list-Keeps date s files = elim (Option-cases (scan_word (argument 5 s))) [
  | inl silent ↦ rw (silent, on_list) (inl refl)
  | inr (r, word) ↦ elim (Bool-cases (ltb (length r.0) 100)) [
    | inl short ↦ rw (word, on_list, short) (answer_with-Keeps date s files (list_emails files r.0))
    | inr long ↦ rw (word, on_list, long) tt
  ]
]

on_get_mail-Keeps :
    (date : List ℕ) (s : Session) (files : Files) → Keeps date s files (on_get_mail s files)
unfolding on_get_mail
on_get_mail-Keeps date s files = elim (Option-cases (scan_word (argument 9 s))) [
  | inl silent ↦ rw (silent, on_get_mail) (inl refl)
  | inr (r, word) ↦ elim (Bool-cases (ltb (length r.0) 100)) [
    | inl short ↦ elim (Option-cases (scan_int r.1)) [
      | inl no_id ↦ rw (word, on_get_mail, short, no_id) (inl refl)
      | inr (id, number) ↦
          rw (word, on_get_mail, short, number)
            (answer_with-Keeps date s files (get_email files r.0 id))
    ]
    | inr long ↦ rw (word, on_get_mail, long) tt
  ]
]

branch :
    (date : List ℕ) (s : Session) (files : Files) (b : Bool) (x y : Step)
    → (b ≡ true → Keeps date s files x)
    → (b ≡ false → Keeps date s files y)
    → Keeps date s files (if b then x else y)
branch date s files true x y then_ else_ = then_ refl
branch date s files false x y then_ else_ = else_ refl

-- One command changes the mailbox files only if it is DATA in state 3: then exactly the message behind
-- the command is stored, for the recipient and under the sender that the connection holds, the answer
-- is 200, and the state is 0 again.
pub run_command-Keeps :
    (opens : Bool) (date : List ℕ) (s : Session) (files : Files)
    → Keeps date s files (run_command opens date s files)
unfolding run_command
run_command-Keeps opens date s files =
    branch date s files (has_prefix (codes "HELO ") s.buffer) _ _ (λ _. on_helo-Keeps date s files)
      (λ _.
        branch date s files (has_prefix (codes "MAIL FROM: ") s.buffer) _ _
          (λ _. on_mail_from-Keeps date s files)
          (λ _.
            branch date s files (has_prefix (codes "RCPT TO: ") s.buffer) _ _
              (λ _. on_rcpt_to-Keeps date s files)
              (λ _.
                branch date s files (has_prefix (codes "DATA") s.buffer) _ _
                  (λ h. on_data-Keeps opens date s files h)
                  (λ _.
                    branch date s files (has_prefix (codes "LIST ") s.buffer) _ _
                      (λ _. on_list-Keeps date s files)
                      (λ _.
                        branch date s files (has_prefix (codes "GET_MAIL ") s.buffer) _ _
                          (λ _. on_get_mail-Keeps date s files)
                          (λ _.
                            branch date s files (str_eq (c_str s.buffer) (codes "QUIT")) _ _
                              (λ _. tt) (λ _. inl refl)))))))
