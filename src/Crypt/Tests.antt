-- ===== src/Crypt/Tests.antt =====
-- LA3: runs of the definitions at concrete inputs.
use cnlab_cs.Common.{
  ℕ, ◌≡◌, refl, true, false, Option, some, none, arith, if◌then◌else◌, List, [], ◌∷◌, All,
}
use cnlab_cs.Common.Keys.{Distinct}
use cnlab_cs.Common.Bytes.{codes, fgets, read_line}
use cnlab_cs.Crypt.Cipher.{is_upper, itself, encrypt_ch, IsKey}
use cnlab_cs.Crypt.Framing.{
  send_pieces, receive_pieces, encrypt_file, wants_more, serve_file, pieces_loop,
}
use cnlab_cs.Crypt.Roundtrip.{HasNoMark, decrypt_file}
use cnlab_cs.Crypt.Dialogue.{Typed, client_file, ask_file, ask_key, ask_more, transfer_file}
use cnlab_cs.Crypt.Session.{upload, typed_lines, client_file-serve_file}
use cnlab_cs.Common.Scan.{str_eq}

abbrev reversed : List ℕ
reversed = codes "ZYXWVUTSRQPONMLKJIHGFEDCBA"

reversed-letters : All (λ k. is_upper k ≡ true) reversed
reversed-letters = (
  refl,
  (
    refl,
    (
      refl,
      (
        refl,
        (
          refl,
          (
            refl,
            (
              refl,
              (
                refl,
                (
                  refl,
                  (
                    refl,
                    (
                      refl,
                      (
                        refl,
                        (
                          refl,
                          (
                            refl,
                            (
                              refl,
                              (
                                refl,
                                (
                                  refl,
                                  (
                                    refl,
                                    (
                                      refl,
                                      (refl, (refl, (refl, (refl, (refl, (refl, (refl, tt))))))),
                                    ),
                                  ),
                                ),
                              ),
                            ),
                          ),
                        ),
                      ),
                    ),
                  ),
                ),
              ),
            ),
          ),
        ),
      ),
    ),
  ),
)

reversed-Distinct : Distinct itself reversed
reversed-Distinct = (
  refl,
  (
    refl,
    (
      refl,
      (
        refl,
        (
          refl,
          (
            refl,
            (
              refl,
              (
                refl,
                (
                  refl,
                  (
                    refl,
                    (
                      refl,
                      (
                        refl,
                        (
                          refl,
                          (
                            refl,
                            (
                              refl,
                              (
                                refl,
                                (
                                  refl,
                                  (
                                    refl,
                                    (
                                      refl,
                                      (refl, (refl, (refl, (refl, (refl, (refl, (refl, tt))))))),
                                    ),
                                  ),
                                ),
                              ),
                            ),
                          ),
                        ),
                      ),
                    ),
                  ),
                ),
              ),
            ),
          ),
        ),
      ),
    ),
  ),
)

reversed-IsKey : IsKey reversed
reversed-IsKey = record { full = refl; letters = reversed-letters; distinct = reversed-Distinct }

small_letter : encrypt_ch 98 reversed ≡ 121
unfolding encrypt_ch
small_letter = refl

abbrev word : List ℕ
word = codes "Ab 1"

word-HasNoMark : HasNoMark 69 word
unfolding pieces_loop
word-HasNoMark = (refl, tt)

secret-HasNoMark : HasNoMark 79 (encrypt_file reversed word)
unfolding pieces_loop encrypt_ch
secret-HasNoMark = (refl, tt)

-- One file, of this name.
abbrev one_file : List ℕ → Option (List ℕ)
one_file name = if str_eq name (codes "a.txt") then some word else none

client_file-serve_file_example :
    let t = serve_file true true true [] (upload reversed word (codes "No")) in
    (client_file true one_file (typed_lines (codes "a.txt") reversed (codes "No") []) t.sent
      ≡ Typed.typed
          (record {
            sent = upload reversed word (codes "No");
            enc_filename = codes "a.txt.enc";
            stored = some (encrypt_file reversed word);
            goes_on = false;
            rest = (receive_pieces t.sent).1;
          })
          [])
    × (t.key ≡ reversed)
    × (t.goes_on ≡ (wants_more (codes "No" ∷ [])).0)
    × (decrypt_file reversed (encrypt_file reversed word) ≡ word)
client_file-serve_file_example =
    client_file-serve_file one_file [] (codes "a.txt") word reversed (codes "No") [] (ground arith)
      (omega arith) (omega arith) refl reversed-IsKey (ground arith) (omega arith) (omega arith)
      (refl, (refl, (refl, (refl, tt)))) word-HasNoMark secret-HasNoMark

-- Without an answer nothing is sent, and the server waits for one.
no_answer_sent :
    client_file true one_file (typed_lines (codes "a.txt") reversed [] []) []
    ≡ Typed.typed
        (record {
          sent = reversed ∷ send_pieces 69 word;
          enc_filename = codes "a.txt.enc";
          stored = some [];
          goes_on = true;
          rest = [];
        })
        []
unfolding client_file ask_file ask_key transfer_file ask_more fgets read_line receive_pieces
no_answer_sent = refl
