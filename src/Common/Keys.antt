-- ===== src/Common/Keys.antt =====
-- Arrays whose entries carry a key (a file descriptor, an address) that a search compares.
use Prim.Native.Nat.{ℕ, zero, suc, ◌<◌}
use mathlib.Core.Path.{◌≡◌, refl, ap, ◌∙◌}
use mathlib.Core.Logic.{◌≢◌, inl, inr}
use mathlib.Core.Bool.{Bool, true, false}
use mathlib.Core.Option.{none, some}
use mathlib.Core.List.{List, [], ◌∷◌, ◌++◌}
use native.Mathlib.Omega.{arith}
use cnlab_cs.Common.Tests.{◌==◌, if◌then◌else◌, Bool-cases, ==→eq, ==_self}
use cnlab_cs.Common.Lists.{length, get_elem?, set, take, All-get_elem?}
use cnlab_cs.Common.Arrays.{
  index_of, find?, erase_idx, All-of-find?, find?-append, find?-set_self, find?-set_other,
  find?-erase_idx,
}

module _ {ℓ} {A : Type ℓ} where
  pub take-set_end :
      (n : ℕ) (xs : List A) (v : A)
      → n < length xs
      → take (suc n) (set xs n v) ≡ take n xs ++ v ∷ []
  take-set_end zero [] v h = absurd (omega arith)
  take-set_end zero (x ∷ xs) v h = refl
  take-set_end (suc n) [] v h = absurd (omega arith)
  take-set_end (suc n) (x ∷ xs) v h = ap (◌∷◌ x) (take-set_end n xs v (omega arith))

  pub find?-erase_idx-none :
      (p : A → Bool) (xs : List A) (i : ℕ) → find? p xs ≡ none → find? p (erase_idx xs i) ≡ none
  find?-erase_idx-none p [] i e = refl
  find?-erase_idx-none p (x ∷ xs) zero e = ground arith
  find?-erase_idx-none p (x ∷ xs) (suc i) e = ground (arith, find?-erase_idx-none p xs i)

module _ {ℓ} {A : Type ℓ} (key : A → ℕ) where
  -- The test `a[i].key == k`.
  abbrev pub has_key : ℕ → A → Bool
  has_key k a = key a == k

  -- No two entries have the same key.
  abbrev pub Distinct : List A → Type ℓ
  Distinct [] = Unit
  Distinct (x ∷ xs) = (find? (has_key (key x)) xs ≡ none) × Distinct xs

module _ {ℓ} {A : Type ℓ} (key : A → ℕ) where
  pub Distinct-append_one :
      (xs : List A) (v : A)
      → Distinct key xs
      → find? (has_key key (key v)) xs ≡ none
      → Distinct key (xs ++ v ∷ [])
  Distinct-append_one [] v d h = (refl, tt)
  Distinct-append_one (x ∷ xs) v d h = elim (Bool-cases (key x == key v)) [
    | inl hit ↦ absurd (ground arith)
    | inr miss ↦ (
      rw (find?-append (has_key key (key x)) xs (v ∷ []), d.0) (ground arith),
      Distinct-append_one xs v d.1 (ground arith),
    )
  ]

  other_key :
      (x a : A) (xs : List A) (i : ℕ)
      → find? (has_key key (key x)) xs ≡ none
      → get_elem? xs i ≡ some a
      → (key a == key x) ≡ false
  other_key x a xs i n e =
      All-get_elem? (λ b. has_key key (key x) b ≡ false) xs i
        (All-of-find? (has_key key (key x)) xs n) e

  pub Distinct-set :
      (xs : List A) (i : ℕ) (a v : A)
      → get_elem? xs i ≡ some a
      → key v ≡ key a
      → Distinct key xs
      → Distinct key (set xs i v)
  Distinct-set [] i a v e k d = d
  Distinct-set (x ∷ xs) zero a v e k d = let kx : key v ≡ key x = cc in (rw kx d.0, d.1)
  Distinct-set (x ∷ xs) (suc i) a v e k d =
      let apart : (key a == key x) ≡ false = other_key x a xs i d.0 e in
      (
        find?-set_other (has_key key (key x)) xs i a v e apart (rw k apart) ∙ d.0,
        Distinct-set xs i a v e k d.1,
      )

  -- The entry that a search for `k` stops at, found again after a write that keeps its key; a
  -- search for another key sees no change.
  pub find?-set_key :
      (xs : List A) (i k j : ℕ) (a v : A)
      → index_of (has_key key k) xs ≡ some i
      → get_elem? xs i ≡ some a
      → key a ≡ k
      → key v ≡ k
      → find? (has_key key j) (set xs i v) ≡ (if k == j then some v else find? (has_key key j) xs)
  find?-set_key xs i k j a v e g ka kv = elim (Bool-cases (k == j)) [
    | inl same ↦
        rw same
          (rw (← (==→eq k j same)) (find?-set_self (has_key key k) xs i v e (rw kv (==_self k))))
    | inr other ↦
        rw other (find?-set_other (has_key key j) xs i a v g (ground arith) (ground arith))
  ]

  find?-erase_idx_self :
      (xs : List A) (i k : ℕ) (a : A)
      → Distinct key xs
      → get_elem? xs i ≡ some a
      → key a ≡ k
      → find? (has_key key k) (erase_idx xs i) ≡ none
  find?-erase_idx_self [] i k a d e h = refl
  find?-erase_idx_self (x ∷ xs) zero k a d e h = let kx : key x ≡ k = cc in rw (← kx) d.0
  find?-erase_idx_self (x ∷ xs) (suc i) k a d e h =
      ground (arith, other_key x a xs i d.0 e, find?-erase_idx_self xs i k a d.1 e h)

  pub find?-erase_key :
      (xs : List A) (i k j : ℕ) (a : A)
      → Distinct key xs
      → get_elem? xs i ≡ some a
      → key a ≡ k
      → find? (has_key key j) (erase_idx xs i) ≡ (if k == j then none else find? (has_key key j) xs)
  find?-erase_key xs i k j a d g ka = elim (Bool-cases (k == j)) [
    | inl same ↦ rw same (find?-erase_idx_self xs i j a d g (ground arith))
    | inr other ↦ rw other (find?-erase_idx (has_key key j) xs i a g (ground arith))
  ]

  pub Distinct-erase_idx : (xs : List A) (i : ℕ) → Distinct key xs → Distinct key (erase_idx xs i)
  Distinct-erase_idx [] i d = d
  Distinct-erase_idx (x ∷ xs) zero d = d.1
  Distinct-erase_idx (x ∷ xs) (suc i) d =
      (find?-erase_idx-none (has_key key (key x)) xs i d.0, Distinct-erase_idx xs i d.1)

module _ {ℓ} {A : Type ℓ} where
  pub get_elem?-take :
      (n : ℕ) (xs : List A) (i : ℕ) → i < n → get_elem? (take n xs) i ≡ get_elem? xs i
  get_elem?-take zero xs i h = elim h [ ]
  get_elem?-take (suc n) [] i h = refl
  get_elem?-take (suc n) (x ∷ xs) zero h = refl
  get_elem?-take (suc n) (x ∷ xs) (suc i) h = get_elem?-take n xs i (omega arith)

  pub set-of-none : (xs : List A) (i : ℕ) (v : A) → get_elem? xs i ≡ none → set xs i v ≡ xs
  set-of-none [] i v e = refl
  set-of-none (x ∷ xs) zero v e = cc
  set-of-none (x ∷ xs) (suc i) v e = ap (◌∷◌ x) (set-of-none xs i v e)

  pub get_elem?-set_self :
      (xs : List A) (i : ℕ) (a v : A) → get_elem? xs i ≡ some a → get_elem? (set xs i v) i ≡ some v
  get_elem?-set_self [] i a v e = cc
  get_elem?-set_self (x ∷ xs) zero a v e = refl
  get_elem?-set_self (x ∷ xs) (suc i) a v e = get_elem?-set_self xs i a v e

  pub get_elem?-set_other :
      (xs : List A) (i j : ℕ) (v : A) → j ≢ i → get_elem? (set xs i v) j ≡ get_elem? xs j
  get_elem?-set_other [] i j v h = refl
  get_elem?-set_other (x ∷ xs) zero zero v h = absurd (h refl)
  get_elem?-set_other (x ∷ xs) zero (suc j) v h = refl
  get_elem?-set_other (x ∷ xs) (suc i) zero v h = refl
  get_elem?-set_other (x ∷ xs) (suc i) (suc j) v h =
      get_elem?-set_other xs i j v (λ e. h (ap suc e))

  pub set-set : (xs : List A) (i : ℕ) (v w : A) → set (set xs i v) i w ≡ set xs i w
  set-set [] i v w = refl
  set-set (x ∷ xs) zero v w = refl
  set-set (x ∷ xs) (suc i) v w = ap (◌∷◌ x) (set-set xs i v w)

  pub length-erase_idx :
      (xs : List A) (i : ℕ) (a : A)
      → get_elem? xs i ≡ some a
      → length xs ≡ suc (length (erase_idx xs i))
  length-erase_idx [] i a e = cc
  length-erase_idx (x ∷ xs) zero a e = refl
  length-erase_idx (x ∷ xs) (suc i) a e = ap suc (length-erase_idx xs i a e)

  -- A write of the first entry that passes the test.
  pub find?-set_new :
      (p : A → Bool) (xs : List A) (i : ℕ) (a v : A)
      → find? p xs ≡ none
      → get_elem? xs i ≡ some a
      → p v ≡ true
      → find? p (set xs i v) ≡ some v
  find?-set_new p [] i a v n e h = cc
  find?-set_new p (x ∷ xs) zero a v n e h = rw h
  find?-set_new p (x ∷ xs) (suc i) a v n e h = ground (arith, find?-set_new p xs i a v)

  pub index_of-set_new :
      (p : A → Bool) (xs : List A) (i : ℕ) (a v : A)
      → index_of p xs ≡ none
      → get_elem? xs i ≡ some a
      → p v ≡ true
      → index_of p (set xs i v) ≡ some i
  unfolding index_of
  index_of-set_new p [] i a v n e h = cc
  index_of-set_new p (x ∷ xs) zero a v n e h = rw h refl
  index_of-set_new p (x ∷ xs) (suc i) a v n e h = ground (arith, index_of-set_new p xs i a v)
