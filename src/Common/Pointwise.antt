-- ===== src/Common/Pointwise.antt =====
-- Two lists of one length, related entry by entry.
use Prim.Native.Nat.{ℕ, zero, suc}
use mathlib.Core.Path.{◌≡◌, sym, subst}
use mathlib.Core.Option.{some, some-injective}
use mathlib.Core.List.{List, [], ◌∷◌, map}
use cnlab_cs.Common.Lists.{get_elem?, set}

module _ {A : Type 0} (R : A → A → Type 0) where
  abbrev pub Pointwise : List A → List A → Type 0
  Pointwise [] [] = Unit
  Pointwise (x ∷ xs) (y ∷ ys) = R x y × Pointwise xs ys
  Pointwise _ _ = ⊥

module _ {A : Type 0} (R : A → A → Type 0) where
  pub Pointwise-map :
      (f : A → A) → ((x : A) → R x (f x)) → (xs : List A) → Pointwise R xs (map f xs)
  Pointwise-map f h [] = tt
  Pointwise-map f h (x ∷ xs) = (h x, Pointwise-map f h xs)

  pub Pointwise-refl : ((x : A) → R x x) → (xs : List A) → Pointwise R xs xs
  Pointwise-refl h [] = tt
  Pointwise-refl h (x ∷ xs) = (h x, Pointwise-refl h xs)

  pub Pointwise-trans :
      ((x y z : A) → R x y → R y z → R x z)
      → (xs ys zs : List A) → Pointwise R xs ys
      → Pointwise R ys zs
      → Pointwise R xs zs
  Pointwise-trans h [] [] [] p q = tt
  Pointwise-trans h [] [] (z ∷ zs) p q = q
  Pointwise-trans h [] (y ∷ ys) zs p q = absurd p
  Pointwise-trans h (x ∷ xs) [] zs p q = absurd p
  Pointwise-trans h (x ∷ xs) (y ∷ ys) [] p q = q
  Pointwise-trans h (x ∷ xs) (y ∷ ys) (z ∷ zs) p q =
      (h x y z p.0 q.0, Pointwise-trans h xs ys zs p.1 q.1)

  pub Pointwise-set :
      ((x : A) → R x x)
      → (xs : List A) (i : ℕ) (a v : A) → get_elem? xs i ≡ some a
      → R a v
      → Pointwise R xs (set xs i v)
  Pointwise-set h [] i a v e r = tt
  Pointwise-set h (x ∷ xs) zero a v e r =
      (subst (λ y. R y v) (sym (some-injective x a e)) r, Pointwise-refl h xs)
  Pointwise-set h (x ∷ xs) (suc i) a v e r = (h x, Pointwise-set h xs i a v e r)
