-- ===== src/Worker/Expression.antt =====
-- LA5/client.c: evaluate_expression, on C's int of 32 bits.
use cnlab_cs.Common.{
  ℕ, zero, suc, ◌+◌, ◌-◌, ◌*◌, ◌/◌, Bool, Option, none, some, List, [], ◌∷◌, ◌++◌, ◌==◌, ltb,
  if◌then◌else◌,
}
use cnlab_cs.Common.Bytes.{codes}
use cnlab_cs.Common.Int.{ℤ, pos, negsuc}
use cnlab_cs.Common.Scan.{skip_spaces, is_digit, negate, scan_int, decimal, ◌>>=◌}

-- The difference of two numbers that are not negative.
abbrev pub difference : ℕ → ℕ → ℤ
difference a b = if ltb a b then negate (b - a) else pos (a - b)

infixl 6 ◌+ℤ◌
abbrev pub ◌+ℤ◌ : ℤ → ℤ → ℤ
pos a +ℤ pos b = pos (a + b)
pos a +ℤ negsuc b = difference a (suc b)
negsuc a +ℤ pos b = difference b (suc a)
negsuc a +ℤ negsuc b = negsuc (suc (a + b))

abbrev pub opposite : ℤ → ℤ
opposite (pos n) = negate n
opposite (negsuc n) = pos (suc n)

infixl 7 ◌*ℤ◌
abbrev pub ◌*ℤ◌ : ℤ → ℤ → ℤ
pos a *ℤ pos b = pos (a * b)
pos a *ℤ negsuc b = negate (a * suc b)
negsuc a *ℤ pos b = negate (suc a * b)
negsuc a *ℤ negsuc b = pos (suc a * suc b)

-- C's division, towards zero; the divisor is not zero where it is used.
abbrev pub quotient : ℤ → ℤ → ℤ
quotient (pos a) (pos b) = pos (a / b)
quotient (pos a) (negsuc b) = negate (a / suc b)
quotient (negsuc a) (pos b) = negate (suc a / b)
quotient (negsuc a) (negsuc b) = pos (suc a / suc b)

-- Whether int can hold a number.
abbrev pub in_int : ℤ → Bool
in_int (pos n) = ltb n 2147483648
in_int (negsuc n) = ltb n 2147483648

-- A result that int cannot hold is undefined, as is the division of the smallest number by -1.
abbrev pub as_int : ℤ → Option ℤ
as_int z = if in_int z then some z else none

abbrev pub drop_digits : List ℕ → List ℕ
drop_digits [] = []
drop_digits (c ∷ s) = if is_digit c then drop_digits s else c ∷ s

-- What `%d` leaves, which starts with a sign or a digit.
abbrev pub behind_number : List ℕ → List ℕ
behind_number [] = []
behind_number (c ∷ s) = drop_digits s

-- The case '/' of the switch.
abbrev pub divide : ℤ → ℤ → Option ℤ
divide a (pos zero) = some (pos 0)
divide a (pos (suc n)) = as_int (quotient a (pos (suc n)))
divide a (negsuc n) = as_int (quotient a (negsuc n))

-- The switch. `b` is `none` when nothing was stored in it: its use is undefined.
abbrev pub operate : (op : ℕ) → (a : ℤ) → (b : Option ℤ) → Option ℤ
operate op a b =
    if op == 43
    then (b >>= λ y. as_int (a +ℤ y))
    else if op == 45
    then (b >>= λ y. as_int (a +ℤ opposite y))
    else if op == 42
    then (b >>= λ y. as_int (a *ℤ y))
    else if op == 47
    then (b >>= λ y. divide a y)
    else some (pos 0)

-- The second `%d`, into b.
abbrev pub second_operand : (op : ℕ) → (a : ℤ) → List ℕ → Option ℤ
second_operand op a s = elim (scan_int s) [
  | none ↦ operate op a none
  | some b ↦ (as_int b >>= λ y. operate op a (some y))
]

-- `%c` behind spaces; without a character `op` is used as it was never set.
abbrev pub operator : (a : ℤ) → List ℕ → Option ℤ
operator a s = elim (skip_spaces s) [ [] ↦ none | op ∷ rest ↦ second_operand op a rest ]

-- `none` is undefined behaviour.
unfoldable pub evaluate_expression : (expression : List ℕ) → Option ℤ
evaluate_expression expression = elim (scan_int expression) [
  | none ↦ none
  | some a ↦ (as_int a >>= λ x. operator x (behind_number (skip_spaces expression)))
]

-- `%d` of sprintf.
abbrev pub decimal_int : ℤ → List ℕ
decimal_int (pos n) = decimal n
decimal_int (negsuc n) = 45 ∷ decimal (suc n)

abbrev pub result_text : ℤ → List ℕ
result_text z = codes "RESULT " ++ decimal_int z
