-- ===== src/Ktp/Transfer.antt =====
-- LA4.0/user1.c and LA4.0/user2.c: a file sent over KTP.
use cnlab_cs.Common.{
  ℕ, zero, suc, Bool, true, false, Option, none, some, List, [], ◌∷◌, ◌++◌, ◌==◌, length, take,
  drop,
}
use cnlab_cs.Common.Arrays.{index_of}
use cnlab_cs.Common.Bytes.{c_str}
use cnlab_cs.Ktp.Socket.{max_data_size}
use cnlab_cs.Ktp.Recv.{overwrite}

-- `while((len = fread(buf, 1, BUF_SIZE, fp)) > 0)`: what each call of k_sendto is given. A call of
-- `fread` takes a byte at least, so that the length of the file is enough fuel.
unfoldable pub chunk_loop : (fuel : ℕ) → List ℕ → List (List ℕ)
chunk_loop zero file = []
chunk_loop (suc fuel) [] = []
chunk_loop (suc fuel) (c ∷ file) =
    take max_data_size (c ∷ file) ∷ chunk_loop fuel (drop max_data_size (c ∷ file))

abbrev pub end_byte : ℕ
end_byte = 35

-- The payloads of user1 when every call succeeds: the file, and the packet of one "#".
unfoldable pub send_file : List ℕ → List (List ℕ)
unfolding chunk_loop
send_file file = chunk_loop (length file) file ++ (end_byte ∷ []) ∷ []

abbrev pub is_end : ℕ → Bool
is_end c = c == end_byte

-- `strstr(buf, "#")`: the array has no zero of its own, so that the search goes on into the memory
-- behind it, which C leaves undefined; `beyond` is that memory.
unfoldable pub find_end : (buf beyond : List ℕ) → Option ℕ
unfolding index_of
find_end buf beyond = index_of is_end (c_str (buf ++ beyond))

-- The loop of user2 over the payloads that k_recvfrom gives: what is written to the file, and whether
-- the loop has ended.
unfoldable pub receive_file : (buf beyond : List ℕ) → List (List ℕ) → List ℕ × Bool
unfolding find_end
receive_file buf beyond [] = ([], false)
receive_file buf beyond ([] ∷ ps) = ([], true)
receive_file buf beyond ((c ∷ p) ∷ ps) =
    let filled = overwrite buf (c ∷ p) in
    let rest = receive_file filled beyond ps in
    elim (find_end filled beyond) [
      | some len ↦ (take len (filled ++ beyond), true)
      | none ↦ (take (length (c ∷ p)) filled ++ rest.0, rest.1)
    ]
