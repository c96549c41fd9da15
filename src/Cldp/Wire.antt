-- ===== src/Cldp/Wire.antt =====
-- LA7: what a receiver reads of the packets that `send_packet` builds, and that their headers verify.
use cnlab_cs.Common.{
  ℕ, ◌+◌, ◌*◌, ◌/◌, ◌%◌, ◌<◌, ◌≡◌, refl, ap, ◌∙◌, Option, some, List, [], ◌∷◌, ◌++◌, arith, length,
  take, take_all,
}
use cnlab_cs.Cldp.Checksum.{checksum}
use cnlab_cs.Cldp.Integrity.{checksum_verifies, checksum-short}
use cnlab_cs.Cldp.Packet.{
  protocol_num, words, ip_header, header_check, send_packet, protocol_of, msg_type_of,
  payload_len_of, trans_id_of, payload_of,
}

-- A receiver reads back the message type, the payload's length, the transaction id and the payload
-- that the sender gave, for a type and a length of one byte and an id of two, and the protocol number
-- is CLDP's.
pub send_packet-reads :
    (id daddr msg_type trans_id : ℕ) (payload : List ℕ)
    → msg_type < 256
    → length payload < 256
    → trans_id < 65536
    → let p = send_packet id daddr msg_type trans_id (some payload) (length payload) in
      (protocol_of p ≡ protocol_num)
      × (msg_type_of p ≡ msg_type)
      × (payload_len_of p ≡ length payload)
      × (trans_id_of p ≡ trans_id)
      × (payload_of p ≡ payload)
      × (length p ≡ 28 + length payload)
unfolding send_packet
send_packet-reads id daddr msg_type trans_id payload ht hl hi =
    let whole : take (length payload) payload ≡ payload =
      take_all (length payload) payload (omega arith) in
    rw (whole, send_packet) (refl, refl, refl, omega arith, whole, omega arith)

-- The words before and behind the checksum.
abbrev words_before : (total_len id : ℕ) → List ℕ
words_before total_len id =
    69
    ∷ (total_len / 256 % 256 + 256 * (total_len % 256))
    ∷ (id / 256 % 256 + 256 * (id % 256))
    ∷ 0
    ∷ (64 + 256 * protocol_num)
    ∷ []

abbrev words_behind : (daddr : ℕ) → List ℕ
words_behind daddr =
    0
    ∷ 0
    ∷ (daddr % 256 + 256 * (daddr / 256 % 256))
    ∷ (daddr / 65536 % 256 + 256 * (daddr / 16777216 % 256))
    ∷ []

words-ip_header :
    (c total_len id daddr : ℕ)
    → c < 65536
    → words (ip_header c total_len id daddr) ≡ words_before total_len id ++ c ∷ words_behind daddr
unfolding words
words-ip_header c total_len id daddr h =
    let value : c % 256 + 256 * (c / 256 % 256) ≡ c = omega arith in rw value refl

-- The header of every packet that is sent, of a payload of less than 256 bytes, verifies: the checksum over its ten words, the checksum field
-- included, is 0.
pub send_packet-verifies :
    (id daddr msg_type trans_id : ℕ) (payload : Option (List ℕ)) (payload_len : ℕ)
    → payload_len < 256
    → checksum (words (take 20 (send_packet id daddr msg_type trans_id payload payload_len))) ≡ 0
unfolding send_packet
send_packet-verifies id daddr msg_type trans_id payload payload_len h =
    let total_len = 28 + payload_len in
    let i = id % 65535 in
    let start = words_before total_len i in
    let rest = words_behind daddr in
    let zeroed : words (ip_header 0 total_len i daddr) ≡ start ++ 0 ∷ rest =
      words-ip_header 0 total_len i daddr (omega arith) in
    let c = header_check total_len i daddr in
    let short : c < 65536 = checksum-short (words (ip_header 0 total_len i daddr)) in
    ap checksum (words-ip_header c total_len i daddr short)
    ∙ ap (λ ws. checksum (start ++ checksum ws ∷ rest)) zeroed
    ∙ checksum_verifies start rest
        (omega arith, (omega arith, (omega arith, (omega arith, (omega arith, tt)))))
        (omega arith, (omega arith, (omega arith, (omega arith, tt)))) (omega arith)
