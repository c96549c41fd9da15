-- ===== src/Crypt/Roundtrip.antt =====
-- LA3: what the client stores of a file that the server encrypts.
use cnlab_cs.Common.{
  All-take, All-drop, append-take-drop, length-drop-le, ℕ, zero, suc, ◌≤◌, ◌≡◌, refl, sym, ap, ◌∙◌,
  true, false, List, [], ◌∷◌, ◌++◌, append_assoc, append-nil, arith, ◌==◌, length, take, drop, All,
  take-append,
}
use cnlab_cs.Common.Bytes.{has_prefix, c_str}
use cnlab_cs.Crypt.Cipher.{encrypt_ch, decrypt_ch, IsKey, decrypt_ch-encrypt_ch, encrypt_ch-nonzero}
use cnlab_cs.Crypt.Framing.{
  pieces_loop, end_of_file, send_pieces, receive_pieces, encrypt_file, received_key, Turn,
  wants_more, serve_file,
}

-- Text without zero bytes.
abbrev pub IsText : List ℕ → Type 0
IsText s = All (λ c. (c == 0) ≡ false) s

-- A file of which no piece starts like the mark of the end.
abbrev pub HasNoMark : (size : ℕ) → List ℕ → Type 0
HasNoMark size file =
    All (λ p. has_prefix end_of_file p ≡ false) (pieces_loop (length file) size file)

c_str-text : (s : List ℕ) → IsText s → c_str s ≡ s
c_str-text [] a = refl
c_str-text (c ∷ s) a = rw a.0 (ap (◌∷◌ c) (c_str-text s a.1))

-- The pieces of a file, the mark, and what comes behind.
receive_pieces-loop :
    (fuel n : ℕ) (file : List ℕ) (rest : List (List ℕ))
    → length file ≤ fuel
    → IsText file
    → All (λ p. has_prefix end_of_file p ≡ false) (pieces_loop fuel (suc n) file)
    → receive_pieces (pieces_loop fuel (suc n) file ++ end_of_file ∷ rest) ≡ (file, rest)
unfolding receive_pieces pieces_loop
receive_pieces-loop zero n [] rest size a h = refl
receive_pieces-loop zero n (c ∷ file) rest size a h = absurd (omega arith)
receive_pieces-loop (suc fuel) n [] rest size a h = refl
receive_pieces-loop (suc fuel) n (c ∷ file) rest size a h =
    let later : receive_pieces (pieces_loop fuel (suc n) (drop n file) ++ end_of_file ∷ rest)
        ≡ (drop n file, rest) =
      receive_pieces-loop fuel n (drop n file) rest (omega (arith, length-drop-le n file))
        (All-drop (λ x. (x == 0) ≡ false) n file a.1) h.1 in
    let text : c_str (c ∷ take n file) ≡ c ∷ take n file =
      c_str-text (c ∷ take n file) (a.0, All-take (λ x. (x == 0) ≡ false) n file a.1) in
    rw (h.0, receive_pieces)
      (ap
          (λ s. (
            s ++ (receive_pieces (pieces_loop fuel (suc n) (drop n file) ++ end_of_file ∷ rest)).0,
            (receive_pieces (pieces_loop fuel (suc n) (drop n file) ++ end_of_file ∷ rest)).1,
          ))
          text
        ∙ ap (λ r. ((c ∷ take n file) ++ r.0, r.1)) later
        ∙ ap (λ s. (c ∷ s, rest)) (append-take-drop n file))

receive_pieces-send_pieces :
    (n : ℕ) (file : List ℕ) (rest : List (List ℕ))
    → IsText file
    → HasNoMark (suc n) file
    → receive_pieces (send_pieces (suc n) file ++ rest) ≡ (file, rest)
unfolding send_pieces
receive_pieces-send_pieces n file rest a h =
    ap receive_pieces
      (append_assoc (pieces_loop (length file) (suc n) file) (end_of_file ∷ []) rest)
    ∙ receive_pieces-loop (length file) n file rest (omega arith) a h

IsText-encrypt_file : (key file : List ℕ) → IsKey key → IsText file → IsText (encrypt_file key file)
IsText-encrypt_file key [] i a = tt
IsText-encrypt_file key (c ∷ file) i a =
    (encrypt_ch-nonzero c key i a.0, IsText-encrypt_file key file i a.1)

abbrev pub decrypt_file : (key : List ℕ) → List ℕ → List ℕ
decrypt_file key [] = []
decrypt_file key (c ∷ file) = decrypt_ch c key ∷ decrypt_file key file

decrypt_file-encrypt_file :
    (key file : List ℕ) → IsKey key → decrypt_file key (encrypt_file key file) ≡ file
decrypt_file-encrypt_file key [] i = refl
decrypt_file-encrypt_file key (c ∷ file) i =
    ap (◌∷◌ (decrypt_ch (encrypt_ch c key) key)) (decrypt_file-encrypt_file key file i)
    ∙ ap (λ x. x ∷ file) (decrypt_ch-encrypt_ch c key i)

received_key-whole : (old key : List ℕ) → length key ≡ 26 → received_key old key ≡ key
received_key-whole old key full =
    ap (λ n. take n (key ++ drop (length key) old)) (sym full)
    ∙ take-append key (drop (length key) old)

-- A turn in which all files open, in terms of what the loop stored.
abbrev whole_turn : (key : List ℕ) → List ℕ × List (List ℕ) → Turn
whole_turn key r = record {
  sent = send_pieces 79 (encrypt_file key r.0);
  key = key;
  rest = (wants_more r.1).1;
  goes_on = (wants_more r.1).0;
}

serve_file-whole :
    (old : List ℕ) (c : ℕ) (bytes : List ℕ) (incoming : List (List ℕ))
    → serve_file true true true old ((c ∷ bytes) ∷ incoming)
      ≡ whole_turn (received_key old (c ∷ bytes)) (receive_pieces incoming)
unfolding serve_file
serve_file-whole old c bytes incoming = refl

-- A text file that the client sends behind a permutation of the letters as its key, and then an answer:
-- when each `send` arrives as one `recv` and no piece of the file or of its encryption starts like the
-- mark of the end, the server holds that key, encrypts the whole file, and goes on unless the answer is
-- "No"; the client stores exactly the encryption, and undoing the substitution gives the file.
pub serve_file-roundtrip :
    (old key file answer : List ℕ) (k : ℕ) (ks : List ℕ)
    → key ≡ k ∷ ks
    → IsKey key
    → IsText file
    → HasNoMark 69 file
    → HasNoMark 79 (encrypt_file key file)
    → let t = serve_file true true true old (key ∷ (send_pieces 69 file ++ answer ∷ [])) in
      (t.key ≡ key)
      × (t.goes_on ≡ (wants_more (answer ∷ [])).0)
      × ((receive_pieces t.sent).0 ≡ encrypt_file key file)
      × (decrypt_file key (receive_pieces t.sent).0 ≡ file)
unfolding serve_file
serve_file-roundtrip old key file answer k ks shape i text clean clean' =
    let arrived : receive_pieces (send_pieces 69 file ++ answer ∷ []) ≡ (file, answer ∷ []) =
      receive_pieces-send_pieces 68 file (answer ∷ []) text clean in
    let held : received_key old key ≡ key = received_key-whole old key i.full in
    let secret = encrypt_file key file in
    let back : receive_pieces (send_pieces 79 secret) ≡ (secret, []) =
      ap receive_pieces (sym (append-nil (send_pieces 79 secret)))
      ∙ receive_pieces-send_pieces 78 secret [] (IsText-encrypt_file key file i text) clean' in
    let turn : serve_file true true true old (key ∷ (send_pieces 69 file ++ answer ∷ [])) ≡ record {
      sent = send_pieces 79 secret;
      key = key;
      rest = (wants_more (answer ∷ [])).1;
      goes_on = (wants_more (answer ∷ [])).0;
    } =
      ap (λ x. serve_file true true true old (x ∷ (send_pieces 69 file ++ answer ∷ []))) shape
      ∙ serve_file-whole old k ks (send_pieces 69 file ++ answer ∷ [])
      ∙ ap
          (λ x.
            whole_turn (received_key old x) (receive_pieces (send_pieces 69 file ++ answer ∷ [])))
          (sym shape)
      ∙ ap (λ x. whole_turn x (receive_pieces (send_pieces 69 file ++ answer ∷ []))) held
      ∙ ap (whole_turn key) arrived in
    (
      ap (λ t. t.key) turn,
      ap (λ t. t.goes_on) turn,
      ap (λ t. (receive_pieces t.sent).0) turn ∙ ap (λ r. r.0) back,
      ap (λ t. decrypt_file key (receive_pieces t.sent).0) turn
          ∙ ap (λ r. decrypt_file key r.0) back
          ∙ decrypt_file-encrypt_file key file i,
    )
