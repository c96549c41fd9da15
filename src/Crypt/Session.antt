-- ===== src/Crypt/Session.antt =====
-- LA3: one turn of both programs.
use cnlab_cs.Common.{
  ℕ, ◌≤◌, ◌<◌, ◌≡◌, refl, sym, ap, ◌∙◌, true, false, not, Option, none, some, List, [], ◌∷◌, ◌++◌,
  arith, leb, length, take, All, All-map,
}
use cnlab_cs.Common.Bytes.{
  codes, newline, fgets, fgets-cons, read_line-newline, c_str-newline, IsPlain,
}
use cnlab_cs.Common.Scan.{scan_word, word_of, skip_spaces, is_space}
use cnlab_cs.Crypt.Cipher.{IsKey, is_upper}
use cnlab_cs.Crypt.Framing.{send_pieces, receive_pieces, encrypt_file, wants_more, serve_file}
use cnlab_cs.Crypt.Roundtrip.{IsText, HasNoMark, decrypt_file, serve_file-roundtrip}
use cnlab_cs.Crypt.Dialogue.{
  Typed, ask_file, ask_key, ask_more, without_newline, is_no, send_choice, transfer_file,
  client_file,
}

-- Characters that scanf("%s") takes.
abbrev pub IsWord : List ℕ → Type 0
IsWord w = All (λ c. is_space c ≡ false) w

word_of-line : (w s : List ℕ) → IsWord w → word_of (w ++ newline ∷ s) ≡ (w, newline ∷ s)
word_of-line [] s h = refl
word_of-line (c ∷ w) s h = rw (h.0, word_of-line w s h.1) refl

scan_word-line :
    (w s : List ℕ) → IsWord w → 1 ≤ length w → scan_word (w ++ newline ∷ s) ≡ some (w, newline ∷ s)
scan_word-line [] s h some_text = absurd (omega arith)
scan_word-line (c ∷ w) s h some_text =
    let visible : skip_spaces (c ∷ w ++ newline ∷ s) ≡ c ∷ w ++ newline ∷ s = rw h.0 refl in
    ap (λ r. elim r.0 [ [] ↦ none | d ∷ v ↦ some (d ∷ v, r.1) ])
      (ap word_of visible ∙ word_of-line (c ∷ w) s h)

ask_file-line :
    (files : List ℕ → Option (List ℕ)) (filename content s : List ℕ)
    → IsWord filename
    → 1 ≤ length filename
    → length filename < 256
    → files filename ≡ some content
    → ask_file (length (filename ++ newline ∷ s)) files (filename ++ newline ∷ s)
      ≡ Typed.typed (filename, content) (newline ∷ s)
unfolding ask_file
ask_file-line files [] content s h some_text short found = absurd (omega arith)
ask_file-line files (c ∷ w) content s h some_text short found =
    let room : leb 256 (length (c ∷ w)) ≡ false = ground arith in
    rw (scan_word-line (c ∷ w) s h some_text, ask_file, room, found) refl

ask_key-line :
    (enc_key s : List ℕ)
    → IsWord enc_key
    → length enc_key ≡ 26
    → ask_key (length (newline ∷ enc_key ++ newline ∷ s)) (newline ∷ enc_key ++ newline ∷ s)
      ≡ Typed.typed enc_key (newline ∷ s)
unfolding ask_key
ask_key-line enc_key s h full =
    rw (scan_word-line enc_key s h (omega (arith, full)), ask_key, full) refl

without_newline-end : (l : List ℕ) → IsPlain l → without_newline (l ++ newline ∷ []) ≡ l
without_newline-end [] a = refl
without_newline-end (c ∷ l) a = ground (arith, a.0.1, without_newline-end l a.1)

ask_more-line :
    (choice s : List ℕ)
    → IsPlain choice
    → length choice < 9
    → ask_more (newline ∷ choice ++ newline ∷ s) ≡ Typed.typed choice s
unfolding ask_more
ask_more-line choice s plain short =
    let line : fgets 10 (choice ++ newline ∷ s) ≡ some (choice ++ newline ∷ [], s) =
      fgets-cons 10 choice s ∙ ap some (read_line-newline 9 choice s short plain) in
    rw (line, ask_more, c_str-newline choice plain, without_newline-end choice plain) refl

-- What the user types for one file.
abbrev pub typed_lines : (filename enc_key choice more : List ℕ) → List ℕ
typed_lines filename enc_key choice more =
    filename ++ newline ∷ (enc_key ++ newline ∷ (choice ++ newline ∷ more))

client_file-lines :
    (files : List ℕ → Option (List ℕ)) (filename content enc_key choice more : List ℕ)
    (incoming : List (List ℕ))
    → IsWord filename
    → 1 ≤ length filename
    → length filename < 256
    → files filename ≡ some content
    → IsWord enc_key
    → length enc_key ≡ 26
    → IsPlain choice
    → length choice < 9
    → client_file true files (typed_lines filename enc_key choice more) incoming
      ≡ Typed.typed
          (record {
            sent = (enc_key ∷ send_pieces 69 content) ++ send_choice choice;
            enc_filename = take 260 (filename ++ codes ".enc");
            stored = some (receive_pieces incoming).0;
            goes_on = not (is_no choice);
            rest = (receive_pieces incoming).1;
          })
          more
unfolding client_file transfer_file
client_file-lines files filename content enc_key choice more incoming named some_text short found
      keyed full plain brief =
    rw
      (
        ask_file-line files filename content _ named some_text short found,
        client_file,
        ask_key-line enc_key _ keyed full,
        client_file,
        ask_more-line choice more plain brief,
        transfer_file,
      )
      refl

is_upper-visible : (c : ℕ) → is_upper c ≡ true → is_space c ≡ false
is_upper-visible c h = ground arith

split_first : (key : List ℕ) → length key ≡ 26 → (k : ℕ) × (ks : List ℕ) × (key ≡ k ∷ ks)
split_first [] full = absurd (omega arith)
split_first (k ∷ ks) full = (k, ks, refl)

send_choice-some : (choice : List ℕ) → 1 ≤ length choice → send_choice choice ≡ choice ∷ []
send_choice-some [] h = absurd (omega arith)
send_choice-some (c ∷ s) h = refl

-- What the client sends for a file.
abbrev pub upload : (enc_key content choice : List ℕ) → List (List ℕ)
upload enc_key content choice = (enc_key ∷ send_pieces 69 content) ++ choice ∷ []

-- The user types the name of a text file that opens, a permutation of the upper-case letters as the key, and an
-- answer of one to eight characters. When each `send` arrives as one `recv` and no piece of the file or of its
-- encryption starts like the mark of the end, the server takes that key and encrypts the whole file, and goes on
-- unless the answer is "No"; the client stores exactly the encryption, and undoing the substitution gives the
-- file.
pub client_file-serve_file :
    (files : List ℕ → Option (List ℕ)) (old filename file key choice more : List ℕ)
    → IsWord filename
    → 1 ≤ length filename
    → length filename < 256
    → files filename ≡ some file
    → IsKey key
    → IsPlain choice
    → 1 ≤ length choice
    → length choice < 9
    → IsText file
    → HasNoMark 69 file
    → HasNoMark 79 (encrypt_file key file)
    → let t = serve_file true true true old (upload key file choice) in
      (client_file true files (typed_lines filename key choice more) t.sent
        ≡ Typed.typed
            (record {
              sent = upload key file choice;
              enc_filename = take 260 (filename ++ codes ".enc");
              stored = some (encrypt_file key file);
              goes_on = not (is_no choice);
              rest = (receive_pieces t.sent).1;
            })
            more)
      × (t.key ≡ key)
      × (t.goes_on ≡ (wants_more (choice ∷ [])).0)
      × (decrypt_file key (encrypt_file key file) ≡ file)
client_file-serve_file files old filename file key choice more named some_text short found i plain
      answered brief text clean clean' =
    let (k, ks, shape) = split_first key i.full in
    let (same_key, goes_on, stored, back) =
      serve_file-roundtrip old key file choice k ks shape i text clean clean' in
    let t = serve_file true true true old (upload key file choice) in
    (
      client_file-lines files filename file key choice more t.sent named some_text short found
            (All-map is_upper-visible key i.letters) i.full plain brief
          ∙ ap
              (λ a.
                Typed.typed
                  (record {
                    sent = (key ∷ send_pieces 69 file) ++ a;
                    enc_filename = take 260 (filename ++ codes ".enc");
                    stored = some (receive_pieces t.sent).0;
                    goes_on = not (is_no choice);
                    rest = (receive_pieces t.sent).1;
                  })
                  more)
              (send_choice-some choice answered)
          ∙ ap
              (λ b.
                Typed.typed
                  (record {
                    sent = upload key file choice;
                    enc_filename = take 260 (filename ++ codes ".enc");
                    stored = some b;
                    goes_on = not (is_no choice);
                    rest = (receive_pieces t.sent).1;
                  })
                  more)
              stored,
      same_key,
      goes_on,
      ap (decrypt_file key) (sym stored) ∙ back,
    )
