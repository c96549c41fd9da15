-- ===== src/Chat/Safety.antt =====
-- LT1: code that is never undefined.
use cnlab_cs.Common.{List}
use cnlab_cs.Chat.Run.{Sent, Run, fault, exits, returns, after, ◌then_do◌}

-- No undefined behaviour, and a property of the value that is returned.
abbrev pub Safe : {A : Type 0} → (A → Type 0) → Run A → Type 0
Safe P fault = ⊥
Safe P (exits sent) = Unit
Safe P (returns a sent) = P a

module _ {A B : Type 0} (P : A → Type 0) (Q : B → Type 0) where
  pub Safe-after : (sent : List Sent) (m : Run B) → Safe Q m → Safe Q (after sent m)
  Safe-after sent fault h = h
  Safe-after sent (exits later) h = tt
  Safe-after sent (returns b later) h = h

  pub Safe-then_do :
      (m : Run A) (f : A → Run B) → Safe P m → ((a : A) → P a → Safe Q (f a)) → Safe Q (m then_do f)
  Safe-then_do fault f h k = absurd h
  Safe-then_do (exits sent) f h k = tt
  Safe-then_do (returns a sent) f h k = Safe-after sent (f a) (k a h)

pub Safe-weaken :
    {A : Type 0} (P Q : A → Type 0) (m : Run A) → ((a : A) → P a → Q a) → Safe P m → Safe Q m
Safe-weaken P Q fault f h = h
Safe-weaken P Q (exits sent) f h = tt
Safe-weaken P Q (returns a sent) f h = f a h

pub Safe-both :
    {A : Type 0} (P Q : A → Type 0) (m : Run A) → Safe P m → Safe Q m → Safe (λ a. P a × Q a) m
Safe-both P Q fault h k = h
Safe-both P Q (exits sent) h k = tt
Safe-both P Q (returns a sent) h k = (h, k)

abbrev pub Anything : Unit {0} → Type 0
Anything _ = Unit
