-- ===== src/Cldp/Packet.antt =====
-- LA7: the packets of CLDP behind a hand-made IP header, as the programs build and read them.
-- `send_packet` is the same in cldp_server.c and cldp_client.c.
use cnlab_cs.Common.{
  ℕ, zero, suc, ◌+◌, ◌*◌, ◌/◌, ◌%◌, Option, none, some, List, [], ◌∷◌, ◌++◌, get_elem?, take, drop,
}
use cnlab_cs.Cldp.Checksum.{checksum}

abbrev pub protocol_num : ℕ
protocol_num = 253

abbrev pub msg_hello : ℕ
msg_hello = 1

abbrev pub msg_query : ℕ
msg_query = 2

abbrev pub msg_response : ℕ
msg_response = 3

-- The bytes of a 16-bit value in network order, as `htons` stores it.
abbrev pub big16 : ℕ → List ℕ
big16 v = (v / 256 % 256) ∷ (v % 256) ∷ []

-- The bytes of a 16-bit and of a 32-bit value in the order of the machine.
abbrev pub little16 : ℕ → List ℕ
little16 v = (v % 256) ∷ (v / 256 % 256) ∷ []

abbrev pub little32 : ℕ → List ℕ
little32 v = (v % 256) ∷ (v / 256 % 256) ∷ (v / 65536 % 256) ∷ (v / 16777216 % 256) ∷ []

-- The memory at `(unsigned short *)p`, as words.
unfoldable pub words : List ℕ → List ℕ
words [] = []
words (a ∷ []) = []
words (a ∷ b ∷ bs) = (a + 256 * b) ∷ words bs

-- The IP header up to `check`, and from `saddr` on.
abbrev pub header_start : (total_len id : ℕ) → List ℕ
header_start total_len id = 69 ∷ 0 ∷ (big16 total_len ++ big16 id ++ 0 ∷ 0 ∷ 64 ∷ protocol_num ∷ [])

abbrev pub header_end : (daddr : ℕ) → List ℕ
header_end daddr = little32 0 ++ little32 daddr

abbrev pub ip_header : (check total_len id daddr : ℕ) → List ℕ
ip_header check total_len id daddr = header_start total_len id ++ little16 check ++ header_end daddr

abbrev pub header_check : (total_len id daddr : ℕ) → ℕ
header_check total_len id daddr = checksum (words (ip_header 0 total_len id daddr))

-- The packed struct of 8 bytes.
abbrev pub cldp_header : (msg_type payload_len trans_id : ℕ) → List ℕ
cldp_header msg_type payload_len trans_id =
    msg_type ∷ payload_len ∷ (big16 trans_id ++ 0 ∷ 0 ∷ 0 ∷ 0 ∷ [])

-- What `sendto` is given: the first `total_len` bytes of the buffer. `payload` is the memory at the
-- argument `payload`, of at least `payload_len` bytes, and `none` is NULL, for which the bytes are the
-- zeros of the buffer; `id` is what `rand` gave.
unfoldable pub send_packet :
    (id daddr msg_type trans_id : ℕ) (payload : Option (List ℕ)) (payload_len : ℕ) → List ℕ
unfolding words checksum
send_packet id daddr msg_type trans_id payload payload_len =
    let total_len = 28 + payload_len in
    let check = header_check total_len (id % 65535) daddr in
    ip_header check total_len (id % 65535) daddr
    ++ cldp_header msg_type payload_len trans_id
    ++ elim payload [ none ↦ zeros payload_len | some bytes ↦ take payload_len bytes ]
  where
    zeros : ℕ → List ℕ
    zeros zero = []
    zeros (suc n) = 0 ∷ zeros n

-- The fields that the receivers read through the two struct pointers. The buffer has 1024 bytes, and
-- what a short packet does not fill is what was there before.
abbrev pub byte_at : List ℕ → ℕ → ℕ
byte_at buffer i = elim (get_elem? buffer i) [ none ↦ 0 | some b ↦ b ]

abbrev pub protocol_of : List ℕ → ℕ
protocol_of buffer = byte_at buffer 9

abbrev pub saddr_of : List ℕ → ℕ
saddr_of buffer =
    byte_at buffer 12
    + 256 * byte_at buffer 13
    + 65536 * byte_at buffer 14
    + 16777216 * byte_at buffer 15

abbrev pub msg_type_of : List ℕ → ℕ
msg_type_of buffer = byte_at buffer 20

abbrev pub payload_len_of : List ℕ → ℕ
payload_len_of buffer = byte_at buffer 21

-- `ntohs(cldp_hdr->trans_id)`
abbrev pub trans_id_of : List ℕ → ℕ
trans_id_of buffer = 256 * byte_at buffer 22 + byte_at buffer 23

abbrev pub payload_of : List ℕ → List ℕ
payload_of buffer = take (payload_len_of buffer) (drop 28 buffer)
