-- ===== src/Smtp/Tests.antt =====
-- LA6: runs of the definitions at concrete inputs.
use cnlab_cs.Common.{
  ℕ, zero, suc, take, ◌≡◌, refl, true, false, none, some, List, [], ◌∷◌, ◌++◌, arith, get_elem?,
}
use cnlab_cs.Common.Int.{pos}
use cnlab_cs.Common.Bytes.{codes, newline, unlines, fgets, read_line}
use cnlab_cs.Common.Scan.{str_eq, decimal, decimal_loop}
use cnlab_cs.Smtp.Mailbox.{Files, mailbox_name, store_email, get_email, response_bytes, send_reply}
use cnlab_cs.Smtp.Client.{talk_round, Ending, read_body, body_loop}
use cnlab_cs.Smtp.Threads.{Host, new_host, run_events, bursts, Settled, run_events-bursts}
use cnlab_cs.Smtp.Typed.{typed-stored}
use cnlab_cs.Smtp.Box.{Mail, IsMail, shown_lines, ended}
use cnlab_cs.Smtp.Stored.{Holds, store_email-get_email, IsPlain-is_plain}
use cnlab_cs.Smtp.Session.{
  Session, Step, received_into, new_session, on_helo, run_command, handle_client_round,
}
use cnlab_cs.Smtp.Protocol.{Keeps, run_command-Keeps}
use cnlab_cs.Smtp.Order.{Ordered}
use cnlab_cs.Smtp.Reachable.{Serves, accepted, round, Serves-Ordered}

ok_bytes : response_bytes 200 (codes "OK") ≡ codes "200 OK"
unfolding response_bytes decimal decimal_loop
ok_bytes = refl

abbrev no_files : Files
no_files name = none

abbrev short_mail : Mail
short_mail = record { sender = codes "a@b"; date = codes "01-04-2025"; body = codes "Hi" ∷ [] }

short_mail-IsMail : IsMail short_mail
short_mail-IsMail = record {
  from = (omega arith, IsPlain-is_plain (codes "From: a@b") refl);
  dated = (omega arith, IsPlain-is_plain (codes "Date: 01-04-2025") refl);
  lines = (((omega arith, IsPlain-is_plain (codes "Hi") refl), refl, refl), tt);
  short = omega arith;
}

no_files-Holds : Holds no_files (codes "x@y") []
no_files-Holds = record { text = refl; mails = tt }

store_email-get_email_example :
    (after : Files) × (store_email true short_mail.date no_files
        (codes "x@y")
        short_mail.sender
        (unlines short_mail.body)
      ≡ some after)
    × Holds after (codes "x@y") (short_mail ∷ [])
    × ((other : List ℕ)
        → str_eq (mailbox_name other) (mailbox_name (codes "x@y")) ≡ false
        → after (mailbox_name other) ≡ no_files (mailbox_name other))
    × ((k : ℕ) (n : Mail)
        → get_elem? (short_mail ∷ []) k ≡ some n
        → (t : List ℕ) × (unlines (shown_lines n) ≡ ended t)
          × (send_reply (get_email after (codes "x@y") (pos (suc k)))
              ≡ some (codes "200 OK\n" ++ t)))
store_email-get_email_example =
    store_email-get_email no_files (codes "x@y") [] short_mail no_files-Holds short_mail-IsMail

-- A connection after HELO b, MAIL FROM: a@b and RCPT TO: x@y, whose buffer ends in zeros.
abbrev ready : Session
ready = record {
  buffer = codes "RCPT TO: x@y" ++ 0 ∷ 0 ∷ [];
  sender = codes "a@b";
  recipient = codes "x@y";
  email_domain = codes "b";
  state = 3;
}

abbrev with_data : Session
with_data = record ready { buffer = codes "DATA" ++ 0 ∷ codes "Hi" ++ newline ∷ 0 ∷ [] }

run_command-Keeps_example :
    Keeps
      (codes "01-04-2025")
      with_data
      no_files
      (run_command true (codes "01-04-2025") with_data no_files)
run_command-Keeps_example = run_command-Keeps true (codes "01-04-2025") with_data no_files

abbrev data_bytes : List ℕ
data_bytes = codes "DATA" ++ newline ∷ codes "Hi" ++ newline ∷ []

-- A new connection that has sent HELO b.
abbrev greeted : Session
greeted = record {
  buffer = codes "HELO b" ++ 0 ∷ 0 ∷ [];
  sender = [];
  recipient = [];
  email_domain = codes "b";
  state = 1;
}

greeted-Serves : Serves greeted
unfolding handle_client_round run_command on_helo new_session
greeted-Serves =
    round (accepted []) true [] (codes "HELO b" ++ newline ∷ []) no_files no_files 200 (codes "OK")
      refl

Serves-Ordered_example : Ordered greeted
Serves-Ordered_example = Serves-Ordered greeted greeted-Serves

-- After HELO, MAIL FROM and RCPT TO.
abbrev ready_session : Session
ready_session = record {
  buffer = [];
  sender = codes "a@b";
  recipient = codes "x@y";
  email_domain = codes "b";
  state = 3;
}

typed-stored_example :
    (talk_round (codes "DATA\nHi\n.\nQUIT\n") true (some (codes "200 OK"))
      ≡ record { sent = codes "DATA\nHi\n" ∷ []; ending = Ending.goes_on (codes "QUIT\n") })
    × ((after : Files) × (handle_client_round true
            (codes "01-04-2025")
            (codes "DATA\nHi\n")
            ready_session
            no_files
          ≡ Step.continues
              (record ready_session { buffer = received_into [] (codes "DATA\nHi\n"); state = 0 })
              after
              200
              (codes "Message stored successfully"))
        × Holds after (codes "x@y") (short_mail ∷ [])
        × ((t : List ℕ) × (unlines (shown_lines short_mail) ≡ ended t)
            × (send_reply (get_email after (codes "x@y") (pos 1)) ≡ some (codes "200 OK\n" ++ t))))
typed-stored_example =
    typed-stored ready_session no_files [] short_mail (codes "QUIT\n") 50 (codes "00 OK")
      no_files-Holds short_mail-IsMail refl (omega arith)
      ((IsPlain-is_plain (codes "Hi") refl, omega arith, refl), tt)

-- A line that a dot ends and that fills the array ends the message.
abbrev long_line : ℕ → List ℕ
long_line zero = codes ".\nmore\n.\n"
long_line (suc n) = 97 ∷ long_line n

ended_early : read_body (long_line 1023) ≡ (take 1023 (long_line 1023), codes "more\n.\n")
unfolding body_loop fgets read_line
ended_early = refl

-- One connection, then two at once.
run_events-bursts_example :
    (after : Host) × (run_events (bursts (0 ∷ 1 ∷ [])) new_host ≡ some after)
    × Settled after
    × (after.served ≡ some 0 ∷ some 2 ∷ some 2 ∷ [])
run_events-bursts_example =
    run_events-bursts (0 ∷ 1 ∷ []) new_host (record { creating = refl; starting = refl })
