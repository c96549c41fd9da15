-- ===== src/Common/Scan.antt =====
-- What the programs use of `sscanf`, `sprintf` and of the comparisons of C strings.
use cnlab_cs.Common.{
  ℕ, zero, suc, ◌+◌, ◌-◌, ◌*◌, ◌/◌, ◌%◌, Bool, true, false, ◌&&◌, ◌||◌, Option, none, some, List,
  [], ◌∷◌, ◌==◌, ltb, leb, if◌then◌else◌, length,
}
use cnlab_cs.Common.Int.{ℤ, pos, negsuc}

-- `isspace` in the C locale.
abbrev pub is_space : ℕ → Bool
is_space c = (c == 32) || (leb 9 c && leb c 13)

abbrev pub skip_spaces : List ℕ → List ℕ
skip_spaces [] = []
skip_spaces (c ∷ s) = if is_space c then skip_spaces s else c ∷ s

-- The characters up to the next space, and the rest.
abbrev pub word_of : List ℕ → List ℕ × List ℕ
word_of [] = ([], [])
word_of (c ∷ s) = let (w, rest) = word_of s in if is_space c then ([], c ∷ s) else (c ∷ w, rest)

-- `%s`: `none` when no character is left.
abbrev pub scan_word : List ℕ → Option (List ℕ × List ℕ)
scan_word s =
    let (w, rest) = word_of (skip_spaces s) in elim w [ [] ↦ none | c ∷ w' ↦ some (c ∷ w', rest) ]

abbrev pub is_digit : ℕ → Bool
is_digit c = leb 48 c && leb c 57

-- The value of the digits at the front, behind what was read before.
abbrev pub digits_value : ℕ → List ℕ → ℕ
digits_value n [] = n
digits_value n (c ∷ s) = if is_digit c then digits_value (n * 10 + (c - 48)) s else n

abbrev pub starts_with_digit : List ℕ → Bool
starts_with_digit [] = false
starts_with_digit (c ∷ s) = is_digit c

abbrev pub negate : ℕ → ℤ
negate zero = pos 0
negate (suc n) = negsuc n

-- `%d`. A number that `int` cannot hold is undefined in C; here it is the number.
abbrev pub scan_int : List ℕ → Option ℤ
scan_int s = elim (skip_spaces s) [
  | [] ↦ none
  | c ∷ rest ↦
      if (c == 45) && starts_with_digit rest
      then some (negate (digits_value 0 rest))
      else if (c == 43) && starts_with_digit rest
      then some (pos (digits_value 0 rest))
      else if is_digit c
      then some (pos (digits_value 0 (c ∷ rest)))
      else none
]

-- `strcmp(a, b) == 0`
abbrev pub str_eq : List ℕ → List ℕ → Bool
str_eq [] [] = true
str_eq [] (d ∷ t) = false
str_eq (c ∷ s) [] = false
str_eq (c ∷ s) (d ∷ t) = (c == d) && str_eq s t

-- The string behind the first `c`, `strchr(s, c) + 1`.
abbrev pub behind : ℕ → List ℕ → Option (List ℕ)
behind c [] = none
behind c (d ∷ s) = if d == c then some s else behind c s

-- `%d` of a number that is not negative; a number n has at most n + 1 digits.
unfoldable pub decimal_loop : (fuel n : ℕ) → List ℕ → List ℕ
decimal_loop zero n acc = acc
decimal_loop (suc fuel) n acc =
    let rest = decimal_loop fuel (n / 10) ((48 + n % 10) ∷ acc) in
    if ltb n 10 then (48 + n) ∷ acc else rest

unfoldable pub decimal : ℕ → List ℕ
unfolding decimal_loop
decimal n = decimal_loop (suc n) n []

-- A string in an array of `size` bytes with its final zero; `none` is a write behind the array.
abbrev pub fits_in : (size : ℕ) → List ℕ → Option (List ℕ)
fits_in size s = if ltb (length s) size then some s else none

-- The parts of a call in turn; the first write outside of an array ends it.
infixl 1 ◌>>=◌
abbrev pub ◌>>=◌ {ℓ ℓ'} : {A : Type ℓ} {B : Type ℓ'} → Option A → (A → Option B) → Option B
none >>= f = none
some a >>= f = f a
