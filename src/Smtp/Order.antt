-- ===== src/Smtp/Order.antt =====
-- LA6: the state of a connection and what its variables hold.
use mathlib.Core.Option.{some-injective}
use mathlib.Core.Path.{subst}
use cnlab_cs.Common.{
  ℕ, ◌≤◌, ◌<◌, ◌≡◌, inl, inr, Bool, true, false, none, some, List, [], ◌∷◌, arith, ltb, length,
  Bool-cases, Option-cases,
}
use cnlab_cs.Common.Scan.{scan_word, scan_int, str_eq, behind, skip_spaces, word_of}
use cnlab_cs.Smtp.Mailbox.{Files, Response, store_email, list_emails, get_email}
use cnlab_cs.Smtp.Session.{
  Session, Step, argument, on_helo, check_sender, on_mail_from, on_rcpt_to, on_data, answer_with,
  on_list, on_get_mail,
}

-- A state needs its variables: a domain from 1 on, a sender from 2 on, a recipient in 3.
pub record Ordered (s : Session) : Type 0 where
  pub state : s.state ≤ 3
  pub domain : 1 ≤ s.state → 0 < length s.email_domain
  pub sender : 2 ≤ s.state → 0 < length s.sender
  pub recipient : 3 ≤ s.state → 0 < length s.recipient

abbrev pub KeepsOrder : Step → Type 0
KeepsOrder Step.crash = Unit
KeepsOrder (Step.closes code message) = Unit
KeepsOrder (Step.continues t files code message) = Ordered t

scan_word-positive : (x : List ℕ) (r : List ℕ × List ℕ) → scan_word x ≡ some r → 0 < length r.0
scan_word-positive x r e = first (word_of (skip_spaces x)) e
  where
    first :
        (w : List ℕ × List ℕ)
        → elim w.0 [ [] ↦ none | c ∷ w' ↦ some (c ∷ w', w.1) ] ≡ some r
        → 0 < length r.0
    first ([], rest) e = cc
    first (c ∷ w, rest) e =
        subst (λ q. 0 < length q.0) (some-injective (c ∷ w, rest) r e) (omega arith)

pub on_helo-keeps : (s : Session) (files : Files) → Ordered s → KeepsOrder (on_helo s files)
unfolding on_helo
on_helo-keeps s files o = elim (Option-cases (scan_word (argument 5 s))) [
  | inl silent ↦ rw (silent, on_helo) o
  | inr (r, word) ↦ elim (Bool-cases (ltb (length r.0) 100)) [
    | inr long ↦ rw (word, on_helo, long) tt
    | inl short ↦
        rw (word, on_helo, short)
          (record {
            state = omega arith;
            domain = λ _. scan_word-positive (argument 5 s) r word;
            sender = λ h. absurd (omega (arith, h));
            recipient = λ h. absurd (omega (arith, h));
          })
  ]
]

check_sender-keeps :
    (s : Session) (files : Files)
    → Ordered s
    → 1 ≤ s.state
    → 0 < length s.sender
    → KeepsOrder (check_sender s files)
check_sender-keeps s files o late some_sender = elim (Option-cases (behind 64 s.sender)) [
  | inl bare ↦ rw (bare, check_sender) o
  | inr (d, at) ↦ elim (Bool-cases (str_eq d s.email_domain)) [
    | inr other ↦ rw (at, check_sender, other) o
    | inl same ↦
        rw (at, check_sender, same)
          (record {
            state = omega arith;
            domain = λ _. o.domain late;
            sender = λ _. some_sender;
            recipient = λ h. absurd (omega (arith, h));
          })
  ]
]

pub on_mail_from-keeps :
    (s : Session) (files : Files) → Ordered s → KeepsOrder (on_mail_from s files)
unfolding on_mail_from
on_mail_from-keeps s files o = elim (Bool-cases (ltb s.state 1)) [
  | inl early ↦ rw (early, on_mail_from) o
  | inr late ↦ elim (Option-cases (scan_word (argument 11 s))) [
    | inl silent ↦ rw (late, on_mail_from, silent) o
    | inr (r, word) ↦ elim (Bool-cases (ltb (length r.0) 100)) [
      | inr long ↦ rw (late, on_mail_from, word, long) tt
      | inl short ↦
          let positive : 0 < length r.0 = scan_word-positive (argument 11 s) r word in
          rw (late, on_mail_from, word, short)
            (check_sender-keeps (record s { sender = r.0 }) files
              (record {
                state = o.state;
                domain = o.domain;
                sender = λ _. positive;
                recipient = o.recipient;
              })
              (ground arith) positive)
    ]
  ]
]

pub on_rcpt_to-keeps : (s : Session) (files : Files) → Ordered s → KeepsOrder (on_rcpt_to s files)
unfolding on_rcpt_to
on_rcpt_to-keeps s files o = elim (Bool-cases (ltb s.state 2)) [
  | inl early ↦ rw (early, on_rcpt_to) o
  | inr late ↦ elim (Option-cases (scan_word (argument 9 s))) [
    | inl silent ↦ rw (late, on_rcpt_to, silent) o
    | inr (r, word) ↦ elim (Bool-cases (ltb (length r.0) 100)) [
      | inr long ↦ rw (late, on_rcpt_to, word, long) tt
      | inl short ↦
          rw (late, on_rcpt_to, word, short)
            (record {
              state = omega arith;
              domain = λ _. o.domain (ground arith);
              sender = λ _. o.sender (ground arith);
              recipient = λ _. scan_word-positive (argument 9 s) r word;
            })
    ]
  ]
]

reset : (s : Session) → Ordered s → Ordered (record s { state = 0 })
reset s o = record {
  state = omega arith;
  domain = λ h. absurd (omega (arith, h));
  sender = λ h. absurd (omega (arith, h));
  recipient = λ h. absurd (omega (arith, h));
}

pub on_data-keeps :
    (opens : Bool) (date : List ℕ) (s : Session) (files : Files)
    → Ordered s
    → KeepsOrder (on_data opens date s files)
unfolding on_data store_email
on_data-keeps opens date s files o = elim (Bool-cases (ltb s.state 3)) [
  | inl early ↦ rw (early, on_data) o
  | inr late ↦ after opens late
]
  where
    after : (opens : Bool) → ltb s.state 3 ≡ false → KeepsOrder (on_data opens date s files)
    after true late = rw (late, on_data) (reset s o)
    after false late = rw (late, on_data) (reset s o)

answer_with-keeps :
    (s : Session) (files : Files) (r : Response) → Ordered s → KeepsOrder (answer_with s files r)
answer_with-keeps s files none o = tt
answer_with-keeps s files (some (code, message)) o = o

pub on_list-keeps : (s : Session) (files : Files) → Ordered s → KeepsOrder (on_list s files)
unfolding on_list
on_list-keeps s files o = elim (Option-cases (scan_word (argument 5 s))) [
  | inl silent ↦ rw (silent, on_list) o
  | inr (r, word) ↦ elim (Bool-cases (ltb (length r.0) 100)) [
    | inl short ↦ rw (word, on_list, short) (answer_with-keeps s files (list_emails files r.0) o)
    | inr long ↦ rw (word, on_list, long) tt
  ]
]

pub on_get_mail-keeps : (s : Session) (files : Files) → Ordered s → KeepsOrder (on_get_mail s files)
unfolding on_get_mail
on_get_mail-keeps s files o = elim (Option-cases (scan_word (argument 9 s))) [
  | inl silent ↦ rw (silent, on_get_mail) o
  | inr (r, word) ↦ elim (Bool-cases (ltb (length r.0) 100)) [
    | inl short ↦ elim (Option-cases (scan_int r.1)) [
      | inl no_id ↦ rw (word, on_get_mail, short, no_id) o
      | inr (id, number) ↦
          rw (word, on_get_mail, short, number)
            (answer_with-keeps s files (get_email files r.0 id) o)
    ]
    | inr long ↦ rw (word, on_get_mail, long) tt
  ]
]
