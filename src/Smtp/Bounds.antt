-- ===== src/Smtp/Bounds.antt =====
-- LA6/mysmtp_server.c: which rounds of a connection stay inside of the arrays.
use cnlab_cs.Common.{ℕ, ◌≢◌, none, List}
use cnlab_cs.Common.Int.{ℤ}
use cnlab_cs.Smtp.Mailbox.{Files, list_emails, get_email}
use cnlab_cs.Smtp.Session.{Session, Step}

abbrev IsDefined : Step → Type 0
IsDefined Step.crash = ⊥
IsDefined (Step.closes code message) = Unit
IsDefined (Step.continues t files code message) = Unit

-- Every mailbox can be listed, and every message fetched.
pub record Answers (files : Files) : Type 0 where
  pub lists : (recipient : List ℕ) → list_emails files recipient ≢ none
  pub gives : (recipient : List ℕ) (id : ℤ) → get_email files recipient id ≢ none
