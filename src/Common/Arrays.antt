-- ===== src/Common/Arrays.antt =====
-- The searches and the shifts that the programs make in arrays of records: the loop that stops at
-- the first entry that passes a test, and the loop that closes the gap at an index.
use Prim.Native.Nat.{ℕ, zero, suc, ◌+◌, ◌-◌, ◌≤◌, ◌<◌}
use mathlib.Core.Path.{◌≡◌, refl, ap, ◌∙◌}
use mathlib.Core.Logic.{inl, inr}
use mathlib.Core.Bool.{Bool, true, false}
use mathlib.Core.Option
use mathlib.Core.Option.{Option, none, some}
use mathlib.Core.List.{List, [], ◌∷◌, ◌++◌}
use native.Mathlib.Omega.{arith}
use native.Mathlib.Nat.{zero-add, suc-add}
use cnlab_cs.Common.Tests.{if◌then◌else◌, Bool-cases}
use cnlab_cs.Common.Lists.{length, get_elem?, set, take, All, length-set}

module _ {ℓ} {A : Type ℓ} where
  -- `for (i = 0; i < n; i++) if (test(a[i])) break;`: the index at which the loop stops.
  unfoldable pub index_of : (A → Bool) → List A → Option ℕ
  index_of p [] = none
  index_of p (x ∷ xs) = if p x then some 0 else Option.map suc (index_of p xs)

  -- The entry itself, which the code reaches through that index.
  abbrev pub find? : (A → Bool) → List A → Option A
  find? p [] = none
  find? p (x ∷ xs) = if p x then some x else find? p xs

  abbrev pub erase_idx : List A → ℕ → List A
  erase_idx [] i = []
  erase_idx (x ∷ xs) zero = xs
  erase_idx (x ∷ xs) (suc i) = x ∷ erase_idx xs i

  -- `a[i] = a[i + 1]`
  abbrev pub move_down : List A → ℕ → List A
  move_down xs i = elim (get_elem? xs (suc i)) [ none ↦ xs | some v ↦ set xs i v ]

  -- `for (; i < n - 1; i++) a[i] = a[i + 1];` with n - 1 - i rounds left
  unfoldable pub close_gap : ℕ → ℕ → List A → List A
  close_gap zero i xs = xs
  close_gap (suc k) i xs = close_gap k (suc i) (move_down xs i)

module _ {ℓ} {A : Type ℓ} (p : A → Bool) where
  pub index_of-some :
      (xs : List A) (i : ℕ)
      → index_of p xs ≡ some i
      → (a : A) × (get_elem? xs i ≡ some a) × (p a ≡ true) × (find? p xs ≡ some a) × (i < length xs)
  unfolding index_of
  index_of-some [] i e = cc
  index_of-some (x ∷ xs) zero e = elim (Bool-cases (p x)) [
    | inl hit ↦ (x, refl, hit, rw hit, omega arith)
    | inr miss ↦ absurd (ground arith)
  ]
  index_of-some (x ∷ xs) (suc i) e = elim (Bool-cases (p x)) [
    | inl hit ↦ absurd (ground arith)
    | inr miss ↦
        let (a, get, test, found, lt) = index_of-some xs i (ground arith) in
        (a, get, test, rw miss found, omega arith)
  ]

  pub find?-eq_none : (xs : List A) → index_of p xs ≡ none → find? p xs ≡ none
  unfolding index_of
  find?-eq_none [] e = refl
  find?-eq_none (x ∷ xs) e = ground (arith, find?-eq_none xs)

  pub index_of-eq_none : (xs : List A) → find? p xs ≡ none → index_of p xs ≡ none
  unfolding index_of
  index_of-eq_none [] e = refl
  index_of-eq_none (x ∷ xs) e = ground (arith, index_of-eq_none xs)

  pub All-of-find? : (xs : List A) → find? p xs ≡ none → All (λ a. p a ≡ false) xs
  All-of-find? [] e = tt
  All-of-find? (x ∷ xs) e = ground (arith, All-of-find? xs)

  pub find?-of-All : (xs : List A) → All (λ a. p a ≡ false) xs → find? p xs ≡ none
  find?-of-All [] h = refl
  find?-of-All (x ∷ xs) h = rw h.0 (find?-of-All xs h.1)

  pub find?-append :
      (xs ys : List A)
      → find? p (xs ++ ys) ≡ elim (find? p xs) [ none ↦ find? p ys | some a ↦ some a ]
  find?-append [] ys = refl
  find?-append (x ∷ xs) ys = ground (arith, find?-append xs ys)

  -- A write through the index that the search returned.
  pub find?-set_self :
      (xs : List A) (i : ℕ) (v : A)
      → index_of p xs ≡ some i
      → p v ≡ true
      → find? p (set xs i v) ≡ some v
  unfolding index_of
  find?-set_self [] i v e h = cc
  find?-set_self (x ∷ xs) zero v e h = rw h
  find?-set_self (x ∷ xs) (suc i) v e h = ground (arith, find?-set_self xs i v)

  -- A write to an entry of another key changes no search for this key.
  pub find?-set_other :
      (xs : List A) (i : ℕ) (a v : A)
      → get_elem? xs i ≡ some a
      → p a ≡ false
      → p v ≡ false
      → find? p (set xs i v) ≡ find? p xs
  find?-set_other [] i a v e h k = cc
  find?-set_other (x ∷ xs) zero a v e h k = ground arith
  find?-set_other (x ∷ xs) (suc i) a v e h k = ground (arith, find?-set_other xs i a v)

  pub find?-erase_idx :
      (xs : List A) (i : ℕ) (a : A)
      → get_elem? xs i ≡ some a
      → p a ≡ false
      → find? p (erase_idx xs i) ≡ find? p xs
  find?-erase_idx [] i a e h = cc
  find?-erase_idx (x ∷ xs) zero a e h = ground arith
  find?-erase_idx (x ∷ xs) (suc i) a e h = ground (arith, find?-erase_idx xs i a)

module _ {ℓ} {A : Type ℓ} where
  pub take-set : (n : ℕ) (xs : List A) (i : ℕ) (v : A) → take n (set xs i v) ≡ set (take n xs) i v
  take-set zero xs i v = refl
  take-set (suc n) [] i v = refl
  take-set (suc n) (x ∷ xs) zero v = refl
  take-set (suc n) (x ∷ xs) (suc i) v = ap (◌∷◌ x) (take-set n xs i v)

  close_gap-cons :
      (k i : ℕ) (x : A) (xs : List A) → close_gap k (suc i) (x ∷ xs) ≡ x ∷ close_gap k i xs
  unfolding close_gap
  close_gap-cons zero i x xs = refl
  close_gap-cons (suc k) i x xs =
      elim (get_elem? xs (suc i))
        as (λ o.
          close_gap k (suc (suc i)) (elim o [ none ↦ x ∷ xs | some v ↦ x ∷ set xs i v ])
          ≡ x ∷ close_gap k (suc i) (elim o [ none ↦ xs | some v ↦ set xs i v ])) [
            | none ↦ close_gap-cons k (suc i) x xs
            | some v ↦ close_gap-cons k (suc i) x (set xs i v)
          ]

  take-close_gap_front :
      (k : ℕ) (x : A) (xs : List A) → k ≤ length xs → take k (close_gap k 0 (x ∷ xs)) ≡ take k xs
  unfolding close_gap
  take-close_gap_front zero x xs h = refl
  take-close_gap_front (suc k) x [] h = absurd (omega arith)
  take-close_gap_front (suc k) x (y ∷ ys) h =
      rw (close_gap-cons k 0 y (y ∷ ys)) (ap (◌∷◌ y) (take-close_gap_front k y ys (omega arith)))

  -- The loop removes the entry at `i` from the first `i + k + 1` entries and keeps the others.
  pub take-close_gap :
      (i k : ℕ) (xs : List A)
      → i + suc k ≤ length xs
      → take (i + k) (close_gap k i xs) ≡ erase_idx (take (suc (i + k)) xs) i
  take-close_gap zero k [] h = absurd (omega arith)
  take-close_gap zero k (x ∷ xs) h = rw zero-add (take-close_gap_front k x xs (omega arith))
  take-close_gap (suc i) k [] h = absurd (omega arith)
  take-close_gap (suc i) k (x ∷ xs) h =
      rw (close_gap-cons k i x xs, suc-add) (ap (◌∷◌ x) (take-close_gap i k xs (omega arith)))

  length-move_down : (xs : List A) (i : ℕ) → length (move_down xs i) ≡ length xs
  length-move_down xs i =
      elim (get_elem? xs (suc i))
        as (λ o. length (elim o [ none ↦ xs | some v ↦ set xs i v ]) ≡ length xs) [
          | none ↦ refl
          | some v ↦ length-set xs i v
        ]

  pub length-close_gap : (k i : ℕ) (xs : List A) → length (close_gap k i xs) ≡ length xs
  unfolding close_gap
  length-close_gap zero i xs = refl
  length-close_gap (suc k) i xs =
      length-close_gap k (suc i) (move_down xs i) ∙ length-move_down xs i

  gap_closed :
      (m i k : ℕ) (xs : List A)
      → m ≡ i + k
      → suc m ≤ length xs
      → take m (close_gap k i xs) ≡ erase_idx (take (suc m) xs) i
  gap_closed m i k xs e h = rw e (take-close_gap i k xs (omega arith))

  -- The same in terms of the count `n` of live entries, as the programs write the loop.
  pub take-close_gap_count :
      (n i : ℕ) (xs : List A)
      → i < n
      → n ≤ length xs
      → take (n - 1) (close_gap (n - 1 - i) i xs) ≡ erase_idx (take n xs) i
  take-close_gap_count zero i xs h l = elim h [ ]
  take-close_gap_count (suc m) i xs h l =
      let e : suc m - 1 ≡ m = omega arith in rw e (gap_closed m i (m - i) xs (omega arith) l)
