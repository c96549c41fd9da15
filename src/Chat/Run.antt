-- ===== src/Chat/Run.antt =====
-- LT1: pieces of code that send, and that may end the program.
use cnlab_cs.Common.{ℕ, Bool, true, false, List, [], ◌∷◌, ◌++◌, ◌==◌, if◌then◌else◌}

pub record Sent : Type 0 where
  pub fd : ℕ
  pub text : List ℕ

-- Undefined behaviour, an `exit`, or a value; with what was sent before.
pub data Run {ℓ} (A : Type ℓ) : Type ℓ where
  fault : Run A
  exits : List Sent → Run A
  returns : A → List Sent → Run A

-- A call that only sends.
abbrev pub sends : List Sent → Run {0} Unit
sends sent = returns tt sent

abbrev pub after {ℓ} : {A : Type ℓ} → List Sent → Run A → Run A
after sent fault = fault
after sent (exits later) = exits (sent ++ later)
after sent (returns a later) = returns a (sent ++ later)

infixl 1 ◌then_do◌
abbrev pub ◌then_do◌ {ℓ ℓ'} : {A : Type ℓ} {B : Type ℓ'} → Run A → (A → Run B) → Run B
fault then_do f = fault
exits sent then_do f = exits sent
returns a sent then_do f = after sent (f a)

-- FD_ISSET and FD_SET
abbrev pub fd_isset : ℕ → List ℕ → Bool
fd_isset fd [] = false
fd_isset fd (x ∷ xs) = if fd == x then true else fd_isset fd xs

abbrev pub fd_set : ℕ → List ℕ → List ℕ
fd_set fd xs = if fd_isset fd xs then xs else fd ∷ xs
