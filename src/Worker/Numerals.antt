-- ===== src/Worker/Numerals.antt =====
-- LA5: `%d` reads back what `%d` writes.
use cnlab_cs.Common.{
  ℕ, zero, suc, ◌+◌, ◌*◌, ◌/◌, ◌%◌, ◌<◌, ◌≡◌, refl, ap, ◌∙◌, true, false, some, List, [], ◌∷◌, ◌++◌,
  arith, ltb, Bool-cases, ltb→lt, inl, inr,
}
use cnlab_cs.Common.Int.{ℤ, pos, negsuc}
use cnlab_cs.Common.Scan.{
  skip_spaces, digits_value, starts_with_digit, negate, scan_int, decimal, decimal_loop,
}
use cnlab_cs.Worker.Expression.{drop_digits, behind_number, decimal_int}

pub decimal_loop-append :
    (fuel n : ℕ) (acc rest : List ℕ)
    → decimal_loop fuel n acc ++ rest ≡ decimal_loop fuel n (acc ++ rest)
unfolding decimal_loop
decimal_loop-append zero n acc rest = refl
decimal_loop-append (suc fuel) n acc rest =
    ground (arith, decimal_loop-append fuel (n / 10) ((48 + n % 10) ∷ acc) rest)

-- One more digit at the end of a number.
digits_value-digit :
    (m d : ℕ) (acc : List ℕ)
    → d < 10
    → digits_value m ((48 + d) ∷ acc) ≡ digits_value (m * 10 + d) acc
digits_value-digit m d acc h = ground arith

digits_value-loop :
    (fuel n : ℕ) (acc : List ℕ)
    → n < fuel
    → digits_value 0 (decimal_loop fuel n acc) ≡ digits_value n acc
unfolding decimal_loop
digits_value-loop zero n acc h = absurd (omega arith)
digits_value-loop (suc fuel) n acc h = elim (Bool-cases (ltb n 10)) [
  | inl small ↦ ground (arith, digits_value-digit 0 n acc (ltb→lt n 10 small))
  | inr large ↦ rw large (
      digits_value-loop fuel (n / 10) ((48 + n % 10) ∷ acc) (ground arith)
      ∙ digits_value-digit (n / 10) (n % 10) acc (omega arith)
      ∙ ap (λ m. digits_value m acc) (omega arith))
]

drop_digits-loop :
    (fuel n : ℕ) (acc : List ℕ) → n < fuel → drop_digits (decimal_loop fuel n acc) ≡ drop_digits acc
unfolding decimal_loop
drop_digits-loop zero n acc h = absurd (omega arith)
drop_digits-loop (suc fuel) n acc h = elim (Bool-cases (ltb n 10)) [
  | inl small ↦ ground arith
  | inr large ↦
      rw large (drop_digits-loop fuel (n / 10) ((48 + n % 10) ∷ acc) (ground arith) ∙ ground arith)
]

starts_with_digit-loop :
    (fuel n : ℕ) (acc : List ℕ) → n < fuel → starts_with_digit (decimal_loop fuel n acc) ≡ true
unfolding decimal_loop
starts_with_digit-loop zero n acc h = absurd (omega arith)
starts_with_digit-loop (suc fuel) n acc h =
    ground (arith, starts_with_digit-loop fuel (n / 10) ((48 + n % 10) ∷ acc))

digits_value-stop : (n : ℕ) (s : List ℕ) → starts_with_digit s ≡ false → digits_value n s ≡ n
digits_value-stop n [] h = refl
digits_value-stop n (c ∷ s) h = rw h refl

drop_digits-stop : (s : List ℕ) → starts_with_digit s ≡ false → drop_digits s ≡ s
drop_digits-stop [] h = refl
drop_digits-stop (c ∷ s) h = rw h refl

-- `%d` on digits, and behind a minus.
scan_int-digits :
    (s : List ℕ) → starts_with_digit s ≡ true → scan_int s ≡ some (pos (digits_value 0 s))
scan_int-digits [] h = cc
scan_int-digits (c ∷ s) h = ground arith

behind_number-digits :
    (s : List ℕ) → starts_with_digit s ≡ true → behind_number (skip_spaces s) ≡ drop_digits s
behind_number-digits [] h = cc
behind_number-digits (c ∷ s) h = ground arith

scan_int-minus :
    (s : List ℕ) → starts_with_digit s ≡ true → scan_int (45 ∷ s) ≡ some (negate (digits_value 0 s))
scan_int-minus s h = rw h refl

-- A number in front of something that is no digit.
module _ (n : ℕ) (rest : List ℕ) (stops : starts_with_digit rest ≡ false) where
  decimal-loop : decimal n ++ rest ≡ decimal_loop (suc n) n rest
  unfolding decimal
  decimal-loop = decimal_loop-append (suc n) n [] rest

  digits_value-decimal : digits_value 0 (decimal n ++ rest) ≡ n
  digits_value-decimal =
      ap (digits_value 0) decimal-loop
      ∙ digits_value-loop (suc n) n rest (omega arith)
      ∙ digits_value-stop n rest stops

  drop_digits-decimal : drop_digits (decimal n ++ rest) ≡ rest
  drop_digits-decimal =
      ap drop_digits decimal-loop
      ∙ drop_digits-loop (suc n) n rest (omega arith)
      ∙ drop_digits-stop rest stops

  starts_with_digit-decimal : starts_with_digit (decimal n ++ rest) ≡ true
  starts_with_digit-decimal =
      ap starts_with_digit decimal-loop ∙ starts_with_digit-loop (suc n) n rest (omega arith)

pub scan_int-decimal_int :
    (z : ℤ) (rest : List ℕ)
    → starts_with_digit rest ≡ false
    → scan_int (decimal_int z ++ rest) ≡ some z
scan_int-decimal_int (pos n) rest stops =
    scan_int-digits (decimal n ++ rest) (starts_with_digit-decimal n rest stops)
    ∙ ap (λ m. some (pos m)) (digits_value-decimal n rest stops)
scan_int-decimal_int (negsuc n) rest stops =
    scan_int-minus (decimal (suc n) ++ rest) (starts_with_digit-decimal (suc n) rest stops)
    ∙ ap (λ m. some (negate m)) (digits_value-decimal (suc n) rest stops)

pub behind_number-decimal_int :
    (z : ℤ) (rest : List ℕ)
    → starts_with_digit rest ≡ false
    → behind_number (skip_spaces (decimal_int z ++ rest)) ≡ rest
behind_number-decimal_int (pos n) rest stops =
    behind_number-digits (decimal n ++ rest) (starts_with_digit-decimal n rest stops)
    ∙ drop_digits-decimal n rest stops
behind_number-decimal_int (negsuc n) rest stops = drop_digits-decimal (suc n) rest stops
