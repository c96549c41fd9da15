-- ===== src/Common/Decimal.antt =====
-- How long the decimal spelling of a number is.
use cnlab_cs.Common.{ℕ, zero, suc, ◌+◌, ◌*◌, ◌/◌, ◌%◌, ◌≤◌, ◌<◌, List, [], ◌∷◌, length, arith}
use cnlab_cs.Common.Scan.{decimal, decimal_loop}

abbrev pub power_of_ten : ℕ → ℕ
power_of_ten zero = 1
power_of_ten (suc k) = power_of_ten k * 10

pub length-decimal_loop :
    (k fuel n : ℕ) (acc : List ℕ)
    → n < power_of_ten (suc k)
    → length (decimal_loop fuel n acc) ≤ suc k + length acc
unfolding decimal_loop
length-decimal_loop k zero n acc h = omega arith
length-decimal_loop zero (suc fuel) n acc h = ground arith
length-decimal_loop (suc k) (suc fuel) n acc h =
    let rec : length (decimal_loop fuel (n / 10) ((48 + n % 10) ∷ acc)) ≤ suc k + suc (length acc) =
      length-decimal_loop k fuel (n / 10) ((48 + n % 10) ∷ acc) (omega arith) in
    ground arith

pub length-decimal : (k n : ℕ) → n < power_of_ten (suc k) → length (decimal n) ≤ suc k
unfolding decimal
length-decimal k n h =
    let bound : length (decimal_loop (suc n) n []) ≤ suc k + 0 =
      length-decimal_loop k (suc n) n [] h in
    omega arith
