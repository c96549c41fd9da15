-- ===== src/Chat/Pairs.antt =====
-- LT1: each server with the messages of its client.
use cnlab_cs.Common.{
  ℕ, zero, suc, ◌+◌, ◌-◌, ◌/◌, ◌%◌, ltb→lt, ◌≤◌, ◌<◌, ◌≡◌, refl, sym, ap, ◌∙◌, true, false, some,
  List, [], ◌∷◌, ◌++◌, ltb, leb, length, drop, set, get_or, arith, append-nil, take_all,
  length-append,
}
use cnlab_cs.Common.Bytes.{c_str, newline}
use cnlab_cs.Common.Decimal.{length-decimal}
use cnlab_cs.Common.Int.{ℤ, pos, negsuc}
use cnlab_cs.Common.Scan.{scan_int, decimal, decimal_loop}
use cnlab_cs.Worker.Expression.{decimal_int}
use cnlab_cs.Worker.Numerals.{decimal_loop-append, scan_int-decimal_int, behind_number-decimal_int}
use cnlab_cs.Chat.Run.{fault, returns}
use cnlab_cs.Chat.Relay
use cnlab_cs.Chat.Relay.{Relay, on_message, message_in}
use cnlab_cs.Chat.Rounds.{Game, in_range, is_min, int_min, on_number, send_text, number_in}
use cnlab_cs.Chat.Rounds
use cnlab_cs.Chat.Clients.{line_message, send_number, number_round}

c_str-decimal_loop :
    (fuel n : ℕ) (acc : List ℕ) → c_str (decimal_loop fuel n acc) ≡ decimal_loop fuel n (c_str acc)
unfolding decimal_loop
c_str-decimal_loop zero n acc = refl
c_str-decimal_loop (suc fuel) n acc =
    ground (arith, c_str-decimal_loop fuel (n / 10) ((48 + n % 10) ∷ acc))

c_str-decimal : (n : ℕ) → c_str (decimal n ++ 0 ∷ []) ≡ decimal n
unfolding decimal
c_str-decimal n =
    ap c_str (decimal_loop-append (suc n) n [] (0 ∷ [])) ∙ c_str-decimal_loop (suc n) n (0 ∷ [])

c_str-decimal_int : (z : ℤ) → c_str (decimal_int z ++ 0 ∷ []) ≡ decimal_int z
c_str-decimal_int (pos n) = c_str-decimal n
c_str-decimal_int (negsuc n) = ap (◌∷◌ 45) (c_str-decimal (suc n))

scan_int-whole : (z : ℤ) → scan_int (decimal_int z) ≡ some z
scan_int-whole z = ap scan_int (sym (append-nil (decimal_int z))) ∙ scan_int-decimal_int z [] refl

length-decimal_int-le : (z : ℤ) → in_range z ≡ true → length (decimal_int z) ≤ 11
length-decimal_int-le (pos n) h =
    let small : n < 2147483648 = ltb→lt n 2147483648 h in
    omega (arith, length-decimal 9 n (omega arith))
length-decimal_int-le (negsuc n) h =
    let small : n < 2147483648 = ltb→lt n 2147483648 h in
    omega (arith, length-decimal 9 (suc n) (omega arith))

-- A number that the user types, if int can hold it, reaches the server: the client sends it as a text with its
-- final zero, and the server, if it has two clients at least and recv gives it that text, stores exactly this
-- number as the first one of the client in the round.
pub number_round-received :
    (c : Rounds.Calls) (g : Game) (i fd cfd : ℕ) (z : ℤ) (more : List ℕ)
    → in_range z ≡ true
    → 2 ≤ g.numclient
    → is_min (get_or g.max_received i int_min) ≡ true
    → c.recv fd ≡ decimal_int z ++ 0 ∷ []
    → (number_round (0 ∷ []) cfd (decimal_int z ++ newline ∷ more)
        ≡ returns (newline ∷ more) (record { fd = cfd; text = decimal_int z ++ 0 ∷ [] } ∷ []))
      × (on_number c g i fd ≡ returns (record g { max_received = set g.max_received i z }) [])
unfolding number_round send_number on_number
number_round-received c g i fd cfd z more fits pair unsent arrived =
    let text : c_str (c.recv fd) ≡ decimal_int z = ap c_str arrived ∙ c_str-decimal_int z in
    let room : leb 1024 (length (decimal_int z)) ≡ false =
      ground (arith, length-decimal_int-le z fits) in
    let enough : ltb g.numclient 2 ≡ false = ground arith in
    (
      rw
          (
            scan_int-decimal_int z (newline ∷ more) refl,
            send_number,
            fits,
            behind_number-decimal_int z (newline ∷ more) refl,
          )
          refl,
      rw (text, on_number, room, enough, unsent, scan_int-whole z, number_in, fits) refl,
    )

length-drop : (n : ℕ) (xs : List ℕ) → length (drop n xs) ≡ length xs - n
length-drop zero xs = omega arith
length-drop (suc n) [] = omega arith
length-drop (suc n) (x ∷ xs) = omega (arith, length-drop n xs)

-- Every line that the client of the relay sends is undefined in the server when one recv takes it whole, since
-- it has 100 bytes.
pub line_message-fault :
    (c : Relay.Calls) (r : Relay) (i fd : ℕ) (old_buf line rest : List ℕ)
    → length old_buf ≡ 100
    → length line < 100
    → c.recv fd ≡ some (line_message old_buf (some (line, rest)))
    → on_message c r i fd ≡ fault
unfolding on_message
line_message-fault c r i fd old_buf line rest full short arrived =
    let all : length (line ++ 0 ∷ drop (suc (length line)) old_buf) ≡ 100 = omega (
      arith,
      length-append line (0 ∷ drop (suc (length line)) old_buf),
      length-drop (suc (length line)) old_buf,
    ) in
    rw
      (
        arrived,
        on_message,
        take_all 100 (line_message old_buf (some (line, rest))) (omega arith),
        all,
      )
      refl
