-- ===== src/Crypt/Cipher.antt =====
-- LA3/doencfileserver.c: the substitution of letters, and that a permutation of the letters undoes it.
use cnlab_cs.Common.{
  ℕ, zero, suc, ◌+◌, ◌-◌, ◌%◌, ◌<◌, ◌≡◌, refl, sym, ap, ◌∙◌, inl, inr, Bool, true, false, ◌&&◌,
  some, List, [], ◌∷◌, arith, ◌==◌, leb, if◌then◌else◌, length, get_elem?, All, Bool-cases, ==→eq,
  ==_self, All-get_elem?, get_or,
}
use cnlab_cs.Common.Arrays.{All-of-find?}
use cnlab_cs.Common.Keys.{Distinct, has_key}

abbrev pub is_upper : ℕ → Bool
is_upper c = leb 65 c && leb c 90

abbrev pub is_lower : ℕ → Bool
is_lower c = leb 97 c && leb c 122

-- Characters are bytes; those from 128 on are negative in C and no letters. `key` has 26 entries.
unfoldable pub encrypt_ch : (input : ℕ) (key : List ℕ) → ℕ
encrypt_ch input key =
    if is_upper input
    then get_or key (input - 65) 0
    else if is_lower input
    then (get_or key (input - 97) 0 + 32) % 256
    else input

-- The letter that a key maps to the upper-case letter `c`, counted from 0.
abbrev pub position : List ℕ → ℕ → ℕ
position [] c = 0
position (k ∷ key) c = if k == c then 0 else suc (position key c)

-- The inverse of the substitution, which the programs do not have.
abbrev pub decrypt_ch : (input : ℕ) (key : List ℕ) → ℕ
decrypt_ch input key =
    if is_upper input
    then 65 + position key input
    else if is_lower input
    then 97 + position key (input - 32)
    else input

abbrev pub itself : ℕ → ℕ
itself c = c

-- A permutation of the upper-case letters.
pub record IsKey (key : List ℕ) : Type 0 where
  pub full : length key ≡ 26
  pub letters : All (λ k. is_upper k ≡ true) key
  pub distinct : Distinct itself key

-- The entry at `i`, and that it is found there.
entry_at :
    (key : List ℕ) (i : ℕ)
    → i < length key
    → All (λ k. is_upper k ≡ true) key
    → Distinct itself key
    → (k : ℕ) × (get_elem? key i ≡ some k)
      × (get_or key i 0 ≡ k)
      × (is_upper k ≡ true)
      × (position key k ≡ i)
entry_at [] i h l d = absurd (omega arith)
entry_at (k ∷ key) zero h l d = (k, refl, refl, l.0, rw (==_self k) refl)
entry_at (k ∷ key) (suc i) h l d =
    let (j, get, value, upper, at) = entry_at key i (omega arith) l.1 d.1 in
    let other : (j == k) ≡ false =
      All-get_elem? (λ b. (b == k) ≡ false) key i (All-of-find? (has_key itself k) key d.0) get in
    let apart : (k == j) ≡ false = ground arith in (j, get, value, upper, rw apart (ap suc at))

-- With a permutation of the letters as its key the substitution can be undone: every character comes
-- back.
pub decrypt_ch-encrypt_ch :
    (c : ℕ) (key : List ℕ) → IsKey key → decrypt_ch (encrypt_ch c key) key ≡ c
unfolding encrypt_ch
decrypt_ch-encrypt_ch c key i = elim (Bool-cases (is_upper c)) [
  | inl upper ↦
      let (k, get, value, letter, at) =
        entry_at key (c - 65) (ground (arith, i.full)) i.letters i.distinct in
      let code : encrypt_ch c key ≡ k = rw (upper, encrypt_ch) value in
      ap (λ x. decrypt_ch x key) code ∙ rw (letter, decrypt_ch, at) (ground arith)
  | inr not_upper ↦ elim (Bool-cases (is_lower c)) [
    | inl lower ↦
        let (k, get, value, letter, at) =
          entry_at key (c - 97) (ground (arith, i.full)) i.letters i.distinct in
        let code : encrypt_ch c key ≡ k + 32 =
          rw (not_upper, encrypt_ch, lower, value) (ground arith) in
        let up : is_upper (k + 32) ≡ false = ground arith in
        let low : is_lower (k + 32) ≡ true = ground arith in
        let back : k + 32 - 32 ≡ k = omega arith in
        ap (λ x. decrypt_ch x key) code ∙ rw (up, decrypt_ch, low, back, at) (ground arith)
    | inr not_lower ↦
        let code : encrypt_ch c key ≡ c = rw (not_upper, encrypt_ch, not_lower) refl in
        ap (λ x. decrypt_ch x key) code ∙ rw (not_upper, decrypt_ch, not_lower) refl
  ]
]

pub encrypt_ch-nonzero :
    (c : ℕ) (key : List ℕ) → IsKey key → (c == 0) ≡ false → (encrypt_ch c key == 0) ≡ false
unfolding encrypt_ch
encrypt_ch-nonzero c key i h = elim (Bool-cases (encrypt_ch c key == 0)) [
  | inr other ↦ other
  | inl zero_code ↦
      let same : encrypt_ch c key ≡ 0 = ==→eq (encrypt_ch c key) 0 zero_code in
      let back : 0 ≡ c = ap (λ x. decrypt_ch x key) (sym same) ∙ decrypt_ch-encrypt_ch c key i in
      absurd (ground arith)
]
