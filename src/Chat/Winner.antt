-- ===== src/Chat/Winner.antt =====
-- LT1_22CS10082_B/chatserver.c: who wins a round.
use cnlab_cs.Common.{
  ℕ, suc, ◌+◌, ◌≡◌, refl, ap, ◌∙◌, true, false, Option, none, some, List, [], ◌∷◌, take, arith, All,
  Bool-cases, inl, inr, get_elem?,
}
use cnlab_cs.Common.Int.{ℤ, pos, negsuc}
use cnlab_cs.Chat.Rounds.{lt_int, is_min, in_range, int_min, best_loop, all_received}

lt_int_trans : (x y z : ℤ) → lt_int x y ≡ true → lt_int y z ≡ true → lt_int x z ≡ true
lt_int_trans (pos a) (pos b) (pos c) h k = ground arith
lt_int_trans (pos a) (pos b) (negsuc c) h k = cc
lt_int_trans (pos a) (negsuc b) z h k = cc
lt_int_trans (negsuc a) (pos b) (pos c) h k = refl
lt_int_trans (negsuc a) (pos b) (negsuc c) h k = cc
lt_int_trans (negsuc a) (negsuc b) (pos c) h k = refl
lt_int_trans (negsuc a) (negsuc b) (negsuc c) h k = ground arith

-- x is at most y, and y is less than z.
lt_int_le : (x y z : ℤ) → lt_int y x ≡ false → lt_int y z ≡ true → lt_int x z ≡ true
lt_int_le (pos a) (pos b) (pos c) h k = ground arith
lt_int_le (pos a) (pos b) (negsuc c) h k = cc
lt_int_le (pos a) (negsuc b) z h k = cc
lt_int_le (negsuc a) (pos b) (pos c) h k = refl
lt_int_le (negsuc a) (pos b) (negsuc c) h k = cc
lt_int_le (negsuc a) (negsuc b) (pos c) h k = refl
lt_int_le (negsuc a) (negsuc b) (negsuc c) h k = ground arith

lt_int_asym : (x y : ℤ) → lt_int x y ≡ true → lt_int y x ≡ false
lt_int_asym (pos a) (pos b) h = ground arith
lt_int_asym (pos a) (negsuc b) h = cc
lt_int_asym (negsuc a) (pos b) h = refl
lt_int_asym (negsuc a) (negsuc b) h = ground arith

lt_int_self : (x : ℤ) → lt_int x x ≡ false
lt_int_self (pos a) = ground arith
lt_int_self (negsuc a) = ground arith

-- The number at the index is the largest, and the first of that size.
pub record Wins (xs : List ℤ) (ans : ℤ) (id : ℕ) : Type 0 where
  pub sent : get_elem? xs id ≡ some ans
  pub largest : All (λ x. lt_int ans x ≡ false) xs
  pub first : All (λ x. lt_int x ans ≡ true) (take id xs)

-- The loop from the index i on: nothing is larger than what it started with, or something wins.
data Best (i : ℕ) (xs : List ℤ) (ans : ℤ) (id : Option ℕ) (r : ℤ × Option ℕ) : Type 0 where
  kept : r ≡ (ans, id) → All (λ x. lt_int ans x ≡ false) xs → Best i xs ans id r
  found :
      (k : ℕ) (a : ℤ)
      → r ≡ (a, some (i + k))
      → lt_int ans a ≡ true
      → Wins xs a k
      → Best i xs ans id r

best_loop-Best :
    (i : ℕ) (xs : List ℤ) (ans : ℤ) (id : Option ℕ) → Best i xs ans id (best_loop i xs ans id)
unfolding best_loop
best_loop-Best i [] ans id = kept refl tt
best_loop-Best i (x ∷ xs) ans id = elim (Bool-cases (lt_int ans x)) [
  | inl better ↦ rw better (elim (best_loop-Best (suc i) xs x (some i)) [
    | kept same least ↦
        found 0 x (same ∙ ap (λ j. (x, some j)) (omega arith)) better
          (record { sent = refl; largest = (lt_int_self x, least); first = tt })
    | found k a same more w ↦
        found (suc k) a (same ∙ ap (λ j. (a, some j)) (omega arith))
          (lt_int_trans ans x a better more)
          (record {
            sent = w.sent;
            largest = (lt_int_asym x a more, w.largest);
            first = (more, w.first);
          })
  ])
  | inr worse ↦ rw worse (elim (best_loop-Best (suc i) xs ans id) [
    | kept same least ↦ kept same (worse, least)
    | found k a same more w ↦
        let above : lt_int x a ≡ true = lt_int_le x ans a worse more in
        found (suc k) a (same ∙ ap (λ j. (a, some j)) (omega arith)) more (record {
          sent = w.sent;
          largest = (lt_int_asym x a above, w.largest);
          first = (above, w.first);
        })
  ])
]

lt_int_min : (x : ℤ) → in_range x ≡ true → is_min x ≡ false → lt_int int_min x ≡ true
lt_int_min (pos n) h m = refl
lt_int_min (negsuc n) h m = ground arith

-- Some client has sent, and every number can be held.
pub best_loop-Wins :
    (x : ℤ) (xs : List ℤ)
    → All (λ y. in_range y ≡ true) (x ∷ xs)
    → all_received (x ∷ xs) ≡ true
    → (a : ℤ) × (k : ℕ) × (best_loop 0 (x ∷ xs) int_min none ≡ (a, some k)) × Wins (x ∷ xs) a k
best_loop-Wins x xs held sent = elim (best_loop-Best 0 (x ∷ xs) int_min none) [
  | kept same least ↦
      let above : lt_int int_min x ≡ true = lt_int_min x held.0 (ground arith) in
      absurd (ground (arith, least.0))
  | found k a same more w ↦ (a, k, same ∙ ap (λ j. (a, some j)) (omega arith), w)
]
