-- ===== src/Common/Bytes.antt =====
-- C strings and streams as lists of bytes: text literals, `strncmp` with a literal, `fgets`.
use Prim.Native.Nat.{ℕ, zero, suc, ◌-◌, ◌≤◌, ◌<◌}
use Prim.Native.Char.{code}
use Prim.Native.String.{String}
use mathlib.Core.Path.{◌≡◌, refl}
use mathlib.Core.Logic.{◌≢◌}
use mathlib.Core.Bool.{Bool, true, false, ◌&&◌}
use mathlib.Core.Option.{Option, none, some}
use mathlib.Core.List.{List, [], ◌∷◌, ◌++◌}
use native.Mathlib.Omega.{arith}
use cnlab_cs.Common.Tests.{◌==◌, if◌then◌else◌}
use cnlab_cs.Common.Lists.{length, All}

-- The bytes of an ASCII literal.
abbrev pub codes : String → List ℕ
codes String.[] = []
codes (String.◌∷◌ c s) = code c ∷ codes s

-- `strncmp(s, p, strlen(p)) == 0` for a literal p. A string ends at its first zero byte, which is in
-- no literal, so that the bytes behind it are never compared.
abbrev pub has_prefix : List ℕ → List ℕ → Bool
has_prefix [] s = true
has_prefix (c ∷ p) [] = false
has_prefix (c ∷ p) (d ∷ s) = c == d && has_prefix p s

-- The string that a buffer holds: the bytes before the first zero.
abbrev pub c_str : List ℕ → List ℕ
c_str [] = []
c_str (c ∷ s) = if c == 0 then [] else c ∷ c_str s

abbrev pub newline : ℕ
newline = 10

-- At most n bytes, up to and with the first newline, and the rest of the stream.
unfoldable pub read_line : ℕ → List ℕ → List ℕ × List ℕ
read_line zero s = ([], s)
read_line (suc n) [] = ([], [])
read_line (suc n) (c ∷ s) =
    let (line, rest) = read_line n s in if c == newline then (c ∷ [], s) else (c ∷ line, rest)

-- `fgets(line, size, file)`; `none` is NULL, at the end of the file.
unfoldable pub fgets : ℕ → List ℕ → Option (List ℕ × List ℕ)
unfolding read_line
fgets size [] = none
fgets size (c ∷ s) = some (read_line (size - 1) (c ∷ s))

pub read_line-append : (n : ℕ) (s : List ℕ) → (read_line n s).0 ++ (read_line n s).1 ≡ s
unfolding read_line
read_line-append zero s = refl
read_line-append (suc n) [] = refl
read_line-append (suc n) (c ∷ s) = ground (arith, read_line-append n s)

pub length-read_line : (n : ℕ) (s : List ℕ) → length (read_line n s).0 ≤ n
unfolding read_line
length-read_line zero s = omega arith
length-read_line (suc n) [] = omega arith
length-read_line (suc n) (c ∷ s) = ground (arith, length-read_line n s)

-- Lines, each ended by a newline.
abbrev pub unlines : List (List ℕ) → List ℕ
unlines [] = []
unlines (l ∷ ls) = l ++ newline ∷ unlines ls

-- No end of a line or of a string inside.
abbrev pub IsPlain : List ℕ → Type 0
IsPlain l = All (λ c. (c ≢ 0) × (c ≢ newline)) l

pub read_line-newline :
    (n : ℕ) (l s : List ℕ)
    → length l < n
    → IsPlain l
    → read_line n (l ++ newline ∷ s) ≡ (l ++ newline ∷ [], s)
unfolding read_line
read_line-newline zero l s h a = elim h [ ]
read_line-newline (suc n) [] s h a = refl
read_line-newline (suc n) (c ∷ l) s h a =
    ground (arith, a.0.1, read_line-newline n l s (omega arith) a.1)

pub c_str-newline : (l : List ℕ) → IsPlain l → c_str (l ++ newline ∷ []) ≡ l ++ newline ∷ []
c_str-newline [] a = refl
c_str-newline (c ∷ l) a = ground (arith, a.0.0, c_str-newline l a.1)

pub fgets-cons :
    (size : ℕ) (l s : List ℕ)
    → fgets size (l ++ newline ∷ s) ≡ some (read_line (size - 1) (l ++ newline ∷ s))
unfolding fgets
fgets-cons size [] s = refl
fgets-cons size (c ∷ l) s = refl
