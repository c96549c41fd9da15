-- ===== src/Crypt/Framing.antt =====
-- LA3: files as chunks on a TCP connection, as doencfileserver.c and retrieveencfileclient.c send and
-- receive them.
use cnlab_cs.Common.{
  ℕ, zero, suc, Bool, true, false, ◌&&◌, not, List, [], ◌∷◌, ◌++◌, ◌==◌, length, take, drop,
  if◌then◌else◌,
}
use cnlab_cs.Common.Bytes.{codes, has_prefix, c_str}
use cnlab_cs.Crypt.Cipher.{encrypt_ch}

-- `fread(buffer, 1, size, file)` until it gives nothing. A call takes a byte at least, so that the length
-- of the file is enough fuel.
unfoldable pub pieces_loop : (fuel size : ℕ) → List ℕ → List (List ℕ)
pieces_loop zero size file = []
pieces_loop (suc fuel) size [] = []
pieces_loop (suc fuel) size (c ∷ file) =
    take size (c ∷ file) ∷ pieces_loop fuel size (drop size (c ∷ file))

abbrev pub end_of_file : List ℕ
end_of_file = codes "END_OF_FILE"

-- The calls of `send` for a file, with `size` = MAX_CHUNK - 1: 79 in the server, 69 in the client.
unfoldable pub send_pieces : (size : ℕ) → List ℕ → List (List ℕ)
unfolding pieces_loop
send_pieces size file = pieces_loop (length file) size file ++ end_of_file ∷ []

-- The loop that stores a file, over what the calls of `recv` give, at most 99 bytes each, and nothing at
-- the end of the connection or on an error: what is written, and the calls that are left.
unfoldable pub receive_pieces : List (List ℕ) → List ℕ × List (List ℕ)
receive_pieces [] = ([], [])
receive_pieces ([] ∷ rest) = ([], rest)
receive_pieces ((c ∷ bytes) ∷ rest) =
    let later = receive_pieces rest in
    if has_prefix end_of_file (c ∷ bytes)
    then ([], rest)
    else (c_str (c ∷ bytes) ++ later.0, later.1)

abbrev pub encrypt_file : (key : List ℕ) → List ℕ → List ℕ
encrypt_file key [] = []
encrypt_file key (c ∷ file) = encrypt_ch c key ∷ encrypt_file key file

-- The key after `recv` of at most 26 bytes, into an array that may hold an older key.
abbrev pub received_key : (old bytes : List ℕ) → List ℕ
received_key old bytes = take 26 (bytes ++ drop (length bytes) old)

-- What one turn of the server's loop sends, with its key, the calls of `recv` that are left, and whether
-- the loop goes on. `store_ok`, `read_ok` and `send_ok` are whether its three `fopen`s succeed.
pub record Turn : Type 0 where
  pub sent : List (List ℕ)
  pub key : List ℕ
  pub rest : List (List ℕ)
  pub goes_on : Bool

-- The answer to whether there is another file: "No" or nothing ends the loop.
abbrev pub wants_more : List (List ℕ) → Bool × List (List ℕ)
wants_more [] = (false, [])
wants_more ([] ∷ rest) = (false, rest)
wants_more ((c ∷ bytes) ∷ rest) = (not (is_no (c_str (c ∷ bytes))), rest)
  where
    is_no : List ℕ → Bool
    is_no (a ∷ b ∷ []) = (a == 78) && (b == 111)
    is_no _ = false

unfoldable pub serve_file : (store_ok read_ok send_ok : Bool) (key : List ℕ) → List (List ℕ) → Turn
unfolding receive_pieces send_pieces encrypt_ch
serve_file store_ok read_ok send_ok key [] = record {
  sent = [];
  key = key;
  rest = [];
  goes_on = false;
}
serve_file store_ok read_ok send_ok key ([] ∷ rest) = record {
  sent = [];
  key = key;
  rest = rest;
  goes_on = false;
}
serve_file store_ok read_ok send_ok key ((c ∷ bytes) ∷ incoming) =
    let new_key = received_key key (c ∷ bytes) in
    let (content, rest) = receive_pieces incoming in
    let (more, rest') = wants_more rest in
    if not store_ok
    then record { sent = []; key = new_key; rest = incoming; goes_on = true }
    else if not (read_ok && send_ok)
    then record { sent = []; key = new_key; rest = rest; goes_on = true }
    else record {
      sent = send_pieces 79 (encrypt_file new_key content);
      key = new_key;
      rest = rest';
      goes_on = more;
    }
