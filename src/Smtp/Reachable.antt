-- ===== src/Smtp/Reachable.antt =====
-- LA6: the sessions that a connection can be in.
use mathlib.Core.Path.{subst}
use cnlab_cs.Common.{ℕ, ◌≡◌, Bool, true, false, List, arith, if◌then◌else◌}
use cnlab_cs.Common.Bytes.{codes, has_prefix, c_str}
use cnlab_cs.Common.Scan.{str_eq}
use cnlab_cs.Smtp.Mailbox.{Files}
use cnlab_cs.Smtp.Session.{
  Session, new_session, received_into, Step, run_command, handle_client_round,
}
use cnlab_cs.Smtp.Order.{
  Ordered, KeepsOrder, on_helo-keeps, on_mail_from-keeps, on_rcpt_to-keeps, on_data-keeps,
  on_list-keeps, on_get_mail-keeps,
}

-- A new connection, and one more round of it. A round that writes behind an array (`crash`) leads nowhere:
-- what the program does after it is undefined. Other connections may change the files between two rounds.
pub data Serves : Session → Type 0 where
  accepted : (buffer : List ℕ) → Serves (new_session buffer)
  round :
      {s t : Session}
      → Serves s
      → (opens : Bool) (date bytes : List ℕ) (files after : Files) (code : ℕ) (message : List ℕ)
      → handle_client_round opens date bytes s files ≡ Step.continues t after code message
      → Serves t

branch : (b : Bool) (x y : Step) → KeepsOrder x → KeepsOrder y → KeepsOrder (if b then x else y)
branch true x y then_ else_ = then_
branch false x y then_ else_ = else_

run_command-keeps :
    (opens : Bool) (date : List ℕ) (s : Session) (files : Files)
    → Ordered s
    → KeepsOrder (run_command opens date s files)
unfolding run_command
run_command-keeps opens date s files o =
    branch (has_prefix (codes "HELO ") s.buffer) _ _ (on_helo-keeps s files o) (
      branch (has_prefix (codes "MAIL FROM: ") s.buffer) _ _ (on_mail_from-keeps s files o) (
        branch (has_prefix (codes "RCPT TO: ") s.buffer) _ _ (on_rcpt_to-keeps s files o) (
          branch (has_prefix (codes "DATA") s.buffer) _ _ (on_data-keeps opens date s files o) (
            branch (has_prefix (codes "LIST ") s.buffer) _ _ (on_list-keeps s files o) (
              branch (has_prefix (codes "GET_MAIL ") s.buffer) _ _ (on_get_mail-keeps s files o)
                (branch (str_eq (c_str s.buffer) (codes "QUIT")) _ _ tt o))))))

handle_client_round-keeps :
    (opens : Bool) (date bytes : List ℕ) (s : Session) (files : Files)
    → Ordered s
    → KeepsOrder (handle_client_round opens date bytes s files)
unfolding handle_client_round
handle_client_round-keeps opens date bytes s files o =
    run_command-keeps opens date (record s { buffer = received_into s.buffer bytes }) files
      (record { state = o.state; domain = o.domain; sender = o.sender; recipient = o.recipient })

-- As long as no round of a connection has written behind an array, as an address or a domain of 100
-- bytes does, the connection is in no state without the variables of that state, in whatever order and
-- pieces the client sends: after HELO there is a domain, after MAIL FROM a sender, and in state 3, the one
-- in which DATA is taken, a recipient; and the state is at most 3.
pub Serves-Ordered : (s : Session) → Serves s → Ordered s
unfolding new_session
Serves-Ordered s (accepted buffer) = record {
  state = omega arith;
  domain = λ h. absurd (omega (arith, h));
  sender = λ h. absurd (omega (arith, h));
  recipient = λ h. absurd (omega (arith, h));
}
Serves-Ordered s (round {s = u} before opens date bytes files after code message e) =
    subst KeepsOrder e
      (handle_client_round-keeps opens date bytes u files (Serves-Ordered u before))
