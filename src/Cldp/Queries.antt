-- ===== src/Cldp/Queries.antt =====
-- LA7: what the loops of the server and of the client do.
use cnlab_cs.Common.{
  ℕ, suc, ◌%◌, ◌<◌, ◌≡◌, ap, ◌∙◌, Bool, some, List, [], ◌∷◌, ◌++◌, arith, if◌then◌else◌, length,
  length-append,
}
use cnlab_cs.Common.Bytes.{codes, newline}
use cnlab_cs.Cldp.Packet.{
  protocol_num, msg_query, msg_response, send_packet, protocol_of, msg_type_of, trans_id_of,
  payload_of,
}
use cnlab_cs.Cldp.Wire.{send_packet-reads}
use cnlab_cs.Cldp.Peer.{
  Found, Metadata, response_payload, wants_hostname, wants_time, wants_load, line, query_flags_of,
  process_query, Sent, announce, server_round,
}

pub record FitsMetadata (m : Metadata) : Type 0 where
  pub host : length m.hostname < 64
  pub time : length m.timestr < 64
  pub load : length m.load < 80

-- The text of a response has less than 256 bytes, so that no `snprintf` cuts it and its length is one
-- byte.
pub length-response_payload :
    (m : Metadata) (flags : ℕ) → FitsMetadata m → length (response_payload m flags) < 256
unfolding response_payload
length-response_payload m flags fits =
    let host : length (line (codes "Hostname: ") m.hostname) < 75 =
      omega (arith, fits.host, length-append m.hostname (newline ∷ [])) in
    let time : length (line (codes "Time: ") m.timestr) < 71 =
      omega (arith, fits.time, length-append m.timestr (newline ∷ [])) in
    let load : length (line (codes "CPU Load: ") m.load) < 91 =
      omega (arith, fits.load, length-append m.load (newline ∷ [])) in
    three_parts (if wants_hostname flags then line (codes "Hostname: ") m.hostname else [])
      (if wants_time flags then line (codes "Time: ") m.timestr else [])
      (if wants_load flags then line (codes "CPU Load: ") m.load else [])
      (part (wants_hostname flags) (line (codes "Hostname: ") m.hostname) 74 host)
      (part (wants_time flags) (line (codes "Time: ") m.timestr) 70 time)
      (part (wants_load flags) (line (codes "CPU Load: ") m.load) 90 load)
  where
    part :
        (b : Bool) (xs : List ℕ) (n : ℕ) → length xs < suc n → length (if b then xs else []) < suc n
    part b xs n h = ground arith

    three_parts :
        (xs ys zs : List ℕ)
        → length xs < 75
        → length ys < 71
        → length zs < 91
        → length (xs ++ ys ++ zs) < 256
    three_parts xs ys zs hx hy hz = omega (
      arith,
      length-append (xs ++ ys) zs,
      length-append xs ys,
      length-append xs (ys ++ zs),
      length-append ys zs,
    )

abbrev after_hello : (id now last_hello : ℕ) → List Sent
after_hello id now last_hello = (announce id now last_hello []).1

announce-append :
    (id now last_hello : ℕ) (x : Sent)
    → (announce id now last_hello (x ∷ [])).1 ≡ x ∷ after_hello id now last_hello
announce-append id now last_hello x = ground arith

process_query-eq :
    (m : Metadata) (id src : ℕ) (buffer : List ℕ)
    → FitsMetadata m
    → let text = response_payload m (query_flags_of buffer) in
      process_query m id src buffer
      ≡ send_packet id src msg_response (trans_id_of buffer) (some text) (length text)
unfolding process_query
process_query-eq m id src buffer fits =
    let text = response_payload m (query_flags_of buffer) in
    let short : length text < 256 = length-response_payload m (query_flags_of buffer) fits in
    let size : length text % 256 ≡ length text = omega arith in
    ap (send_packet id src msg_response (trans_id_of buffer) (some text)) size

server_round-query :
    (m : Metadata) (id now last_hello src : ℕ) (buffer : List ℕ)
    → protocol_of buffer ≡ protocol_num
    → msg_type_of buffer ≡ msg_query
    → server_round m id now last_hello (Found.readable (some (buffer, src)))
      ≡ announce id now last_hello ((process_query m id src buffer, src) ∷ [])
unfolding server_round
server_round-query m id now last_hello src buffer hp ht = ground arith

-- The server answers a QUERY at once and to its sender, with a RESPONSE that carries the query's
-- transaction id and the text of the metadata that the flags ask for, when the host's name and the
-- time have less than 64 bytes and the load less than 80.
pub server_round-answers :
    (m : Metadata) (id now last_hello src : ℕ) (buffer : List ℕ)
    → FitsMetadata m
    → protocol_of buffer ≡ protocol_num
    → msg_type_of buffer ≡ msg_query
    → trans_id_of buffer < 65536
    → (p : List ℕ) × (rest : List Sent) × ((server_round m id now last_hello
          (Found.readable (some (buffer, src)))).1
        ≡ (p, src) ∷ rest)
      × (protocol_of p ≡ protocol_num)
      × (msg_type_of p ≡ msg_response)
      × (trans_id_of p ≡ trans_id_of buffer)
      × (payload_of p ≡ response_payload m (query_flags_of buffer))
server_round-answers m id now last_hello src buffer fits hp ht hi =
    let text = response_payload m (query_flags_of buffer) in
    let short : length text < 256 = length-response_payload m (query_flags_of buffer) fits in
    let (a, b, c, d, e, f) =
      send_packet-reads id src msg_response (trans_id_of buffer) text (omega arith) short hi in
    (
      send_packet id src msg_response (trans_id_of buffer) (some text) (length text),
      after_hello id now last_hello,
      ap (λ r. r.1) (server_round-query m id now last_hello src buffer hp ht)
          ∙ announce-append id now last_hello (process_query m id src buffer, src)
          ∙ ap (λ p. (p, src) ∷ after_hello id now last_hello)
              (process_query-eq m id src buffer fits),
      a,
      b,
      d,
      e,
    )
