-- ===== src/Cldp/Integrity.antt =====
-- LA7: a header that carries its checksum has the checksum 0.
use mathlib.Core.Logic.{dif_pos, dif_neg}
use mathlib.Core.WellFounded.{Acc}
use native.Mathlib.Decide.{dec_lt}
use native.Mathlib.Bridge.{le_prop}
use cnlab_cs.Common.{
  ℕ, ◌+◌, ◌-◌, ◌*◌, ◌/◌, ◌%◌, ◌≤◌, ◌<◌, ◌≡◌, refl, ◌∙◌, List, [], ◌∷◌, ◌++◌, arith, All, length,
  length-append, All-append,
}
use cnlab_cs.Common.Order.{lt_wf}
use cnlab_cs.Cldp.Checksum.{u64_mod, sum_words, fold_once, fold_acc, fold_carries, checksum}

-- The mathematical sum.
abbrev pub sum : List ℕ → ℕ
sum [] = 0
sum (w ∷ ws) = w + sum ws

abbrev pub AreWords : List ℕ → Type 0
AreWords ws = All (λ w. w < 65536) ws

sum-lt : (ws : List ℕ) → AreWords ws → sum ws ≤ 65535 * length ws
sum-lt [] h = omega arith
sum-lt (w ∷ ws) h = omega (arith, h.0, sum-lt ws h.1)

sum_words-eq : (acc : ℕ) (ws : List ℕ) → acc + sum ws < u64_mod → sum_words acc ws ≡ acc + sum ws
unfolding sum_words
sum_words-eq acc [] h = omega arith
sum_words-eq acc (w ∷ ws) h = omega (arith, sum_words-eq ((acc + w) % u64_mod) ws)

sum-middle : (xs ys : List ℕ) (c : ℕ) → sum (xs ++ c ∷ ys) ≡ c + sum (xs ++ 0 ∷ ys)
sum-middle [] ys c = omega arith
sum-middle (x ∷ xs) ys c = omega (arith, sum-middle xs ys c)

-- One addition of the carries keeps the value modulo 65535, and what is not 0.
fold_once_keeps : (s : ℕ) → (fold_once s % 65535 ≡ s % 65535) × (0 < s → 0 < fold_once s)
fold_once_keeps s = (omega arith, λ h. omega arith)

pub record Folded (s r : ℕ) : Type 0 where
  pub short : r < 65536
  pub congruent : r % 65535 ≡ s % 65535
  pub positive : 0 < s → 0 < r
  pub nothing : s ≡ 0 → r ≡ 0

Folded-step : (s r : ℕ) → Folded (fold_once s) r → Folded s r
Folded-step s r f = record {
  short = f.short;
  congruent = f.congruent ∙ (fold_once_keeps s).0;
  positive = λ h. f.positive ((fold_once_keeps s).1 h);
  nothing = λ h. f.nothing (omega arith);
}

fold_acc-Folded : (s : ℕ) (w : Acc ◌<◌ s) → Folded s (fold_acc s w)
unfolding fold_acc
fold_acc-Folded s (Acc.intro _ smaller) = elim (dec_lt 0 (s / 65536)) [
  | yes h ↦
      rw (dif_pos (dec_lt 0 (s / 65536)) le_prop h)
        (Folded-step s _ (fold_acc-Folded (fold_once s) (smaller (fold_once s) (omega arith))))
  | no h ↦
      rw (dif_neg (dec_lt 0 (s / 65536)) h)
        (record { short = omega arith; congruent = refl; positive = λ p. p; nothing = λ p. p })
]

fold_carries-Folded : (s : ℕ) → Folded s (fold_carries s)
unfolding fold_carries
fold_carries-Folded s = fold_acc-Folded s (lt_wf.apply s)

-- 65535 minus the folded sum.
checksum-eq : (ws : List ℕ) → sum ws < u64_mod → checksum ws ≡ 65535 - fold_carries (sum ws)
unfolding checksum
checksum-eq ws h =
    let plain : sum_words 0 ws ≡ sum ws = sum_words-eq 0 ws (omega arith) ∙ omega arith in
    rw plain (omega (arith, (fold_carries-Folded (sum ws)).short))

full_sum : (s r c t : ℕ) → Folded s r → c ≡ 65535 - r → Folded (c + s) t → t ≡ 65535
full_sum s r c t f e g = grind arith

-- The checksum of a packet's words with 0 in the place of the checksum, put in that place, makes the
-- checksum of the whole 0, as a receiver checks it.
pub checksum_verifies :
    (before after : List ℕ)
    → AreWords before
    → AreWords after
    → length before + length after < 65536
    → checksum (before ++ checksum (before ++ 0 ∷ after) ∷ after) ≡ 0
checksum_verifies before after hb ha short =
    let whole = before ++ 0 ∷ after in
    let s = sum whole in
    let small : s ≤ 65535 * length whole =
      sum-lt whole (All-append _ before (0 ∷ after) hb (omega arith, ha)) in
    let bound : s < 4295032833 = omega (arith, small, length-append before (0 ∷ after)) in
    let c : ℕ = checksum whole in
    let folded : Folded s (fold_carries s) = fold_carries-Folded s in
    let value : c ≡ 65535 - fold_carries s = checksum-eq whole (omega arith) in
    let total : sum (before ++ c ∷ after) ≡ c + s = sum-middle before after c in
    let again : Folded (c + s) (fold_carries (c + s)) = fold_carries-Folded (c + s) in
    let full : fold_carries (c + s) ≡ 65535 =
      full_sum s (fold_carries s) c (fold_carries (c + s)) folded value again in
    checksum-eq (before ++ c ∷ after) (omega arith) ∙ rw (total, full)

pub checksum-short : (ws : List ℕ) → checksum ws < 65536
unfolding checksum
checksum-short ws = omega arith
