-- ===== src/Ktp/Files.antt =====
-- LA4.0/user1.c and LA4.0/user2.c: what arrives of a file.
use cnlab_cs.Common.{
  ℕ, zero, suc, ◌≤◌, ◌≡◌, refl, ap, ◌∙◌, inl, inr, true, false, none, List, [], ◌∷◌, ◌++◌, arith,
  ◌==◌, length, take, drop, All, All-append, All-take, All-drop, append-take-drop, length-drop-le,
  Bool-cases, take-append,
}
use cnlab_cs.Common.Arrays.{index_of, index_of-eq_none, find?-of-All}
use cnlab_cs.Common.Bytes.{c_str}
use cnlab_cs.Ktp.Recv.{overwrite}
use cnlab_cs.Ktp.Network.{Net, start, Reach}
use cnlab_cs.Ktp.Reliable.{delivered-eq-sent}
use cnlab_cs.Ktp.Transfer.{chunk_loop, end_byte, send_file, is_end, find_end, receive_file}

abbrev pub HasNoEnd : List ℕ → Type 0
HasNoEnd s = All (λ c. is_end c ≡ false) s

HasNoEnd-c_str : (xs : List ℕ) → HasNoEnd xs → HasNoEnd (c_str xs)
HasNoEnd-c_str [] h = tt
HasNoEnd-c_str (x ∷ xs) h = elim (Bool-cases (x == 0)) [
  | inl end ↦ rw (end, c_str) tt
  | inr inside ↦ rw (inside, c_str) (h.0, HasNoEnd-c_str xs h.1)
]

find_end-none : (buf beyond : List ℕ) → HasNoEnd buf → HasNoEnd beyond → find_end buf beyond ≡ none
unfolding find_end
find_end-none buf beyond h k = index_of-eq_none is_end (c_str (buf ++ beyond)) (
    find?-of-All is_end (c_str (buf ++ beyond))
      (HasNoEnd-c_str (buf ++ beyond) (All-append (λ c. is_end c ≡ false) buf beyond h k)))

HasNoEnd-overwrite : (buf p : List ℕ) → HasNoEnd buf → HasNoEnd p → HasNoEnd (overwrite buf p)
HasNoEnd-overwrite buf p h k =
    All-append (λ c. is_end c ≡ false) p (drop (length p) buf) k
      (All-drop (λ x. is_end x ≡ false) (length p) buf h)

receive_file-chunk :
    (buf beyond : List ℕ) (c : ℕ) (p : List ℕ) (ps : List (List ℕ))
    → HasNoEnd buf
    → HasNoEnd beyond
    → HasNoEnd (c ∷ p)
    → receive_file buf beyond ((c ∷ p) ∷ ps) ≡ (
      (c ∷ p) ++ (receive_file (overwrite buf (c ∷ p)) beyond ps).0,
      (receive_file (overwrite buf (c ∷ p)) beyond ps).1,
    )
unfolding receive_file
receive_file-chunk buf beyond c p ps h k e =
    let filled = overwrite buf (c ∷ p) in
    let none_here : find_end filled beyond ≡ none =
      find_end-none filled beyond (HasNoEnd-overwrite buf (c ∷ p) h e) k in
    let whole : take (length (c ∷ p)) filled ≡ c ∷ p =
      take-append (c ∷ p) (drop (length (c ∷ p)) buf) in
    rw (none_here, receive_file)
      (ap (λ s. (s ++ (receive_file filled beyond ps).0, (receive_file filled beyond ps).1)) whole)

receive_file-end :
    (buf beyond : List ℕ) (ps : List (List ℕ))
    → receive_file buf beyond ((end_byte ∷ []) ∷ ps) ≡ ([], true)
unfolding receive_file find_end index_of
receive_file-end buf beyond ps = refl

receive_file-chunks :
    (fuel : ℕ) (file buf beyond : List ℕ)
    → length file ≤ fuel
    → HasNoEnd file
    → HasNoEnd buf
    → HasNoEnd beyond
    → receive_file buf beyond (chunk_loop fuel file ++ (end_byte ∷ []) ∷ []) ≡ (file, true)
unfolding chunk_loop
receive_file-chunks zero (c ∷ file) buf beyond size e h k = absurd (omega arith)
receive_file-chunks zero [] buf beyond size e h k = receive_file-end buf beyond []
receive_file-chunks (suc fuel) [] buf beyond size e h k = receive_file-end buf beyond []
receive_file-chunks (suc fuel) (c ∷ file) buf beyond size e h k =
    let p = take 511 file in
    let filled = overwrite buf (c ∷ p) in
    let plain : HasNoEnd (c ∷ p) = (e.0, All-take (λ x. is_end x ≡ false) 511 file e.1) in
    let later : receive_file filled beyond (chunk_loop fuel (drop 511 file) ++ (end_byte ∷ []) ∷ [])
        ≡ (drop 511 file, true) =
      receive_file-chunks fuel (drop 511 file) filled beyond
        (omega (arith, length-drop-le 511 file)) (All-drop (λ x. is_end x ≡ false) 511 file e.1)
        (HasNoEnd-overwrite buf (c ∷ p) h plain) k in
    receive_file-chunk buf beyond c p (chunk_loop fuel (drop 511 file) ++ (end_byte ∷ []) ∷ []) h k
      plain
    ∙ ap (λ r. ((c ∷ p) ++ r.0, r.1)) later
    ∙ ap (λ s. (c ∷ s, true)) (append-take-drop 511 file)

-- A file with no "#" in it that user1 has handed to k_sendto and whose last call has returned: user2,
-- with what the network delivered until then, has written the file, whole and nothing else, and its loop
-- has ended, when there is no "#" in its array before the first packet or in the memory behind it.
pub receive_file-delivered :
    (a b : ℕ) (c : Net) (file buf beyond : List ℕ)
    → Reach (start a b) c
    → c.outstanding ≡ none
    → c.sent ≡ send_file file
    → HasNoEnd file
    → HasNoEnd buf
    → HasNoEnd beyond
    → receive_file buf beyond c.delivered ≡ (file, true)
unfolding send_file
receive_file-delivered a b c file buf beyond r idle sent e h k =
    ap (receive_file buf beyond) (delivered-eq-sent a b c r idle ∙ sent)
    ∙ receive_file-chunks (length file) file buf beyond (omega arith) e h k
