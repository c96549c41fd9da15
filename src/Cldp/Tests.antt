-- ===== src/Cldp/Tests.antt =====
-- LA7: runs of the definitions at concrete inputs.
use native.Mathlib.Decide.{dec_lt}
use cnlab_cs.Common.{
  ℕ, zero, suc, ◌+◌, ◌-◌, ◌≤◌, ◌≡◌, inr, refl, ap, ◌∙◌, true, false, none, some, List, [], ◌∷◌,
  ◌++◌, arith, ◌==◌, if◌then◌else◌, get_elem?, length, take, drop, All,
}
use cnlab_cs.Common.Arrays.{index_of}
use cnlab_cs.Common.Bytes.{codes}
use cnlab_cs.Cldp.Checksum.{checksum, sum_words, fold_carries, fold_acc}
use cnlab_cs.Cldp.Packet.{
  protocol_num, msg_hello, msg_query, msg_response, send_packet, protocol_of, msg_type_of,
  trans_id_of, payload_of, payload_len_of, byte_at, little32, words,
}
use cnlab_cs.Cldp.ServerList.{
  ServerInfo, ServerList, known, has_addr, mark_seen, update_server_list, cleanup_server_list,
}
use cnlab_cs.Cldp.Directory.{WellFormed, lookup, entry, update_server_list-lookup}
use cnlab_cs.Cldp.Cleanup.{cleanup_server_list-fresh}
use cnlab_cs.Cldp.Wire.{send_packet-reads, send_packet-verifies}
use cnlab_cs.Cldp.Peer.{
  Found, Metadata, Sent, response_payload, server_round, collect, query_all_servers,
}
use cnlab_cs.Cldp.Queries.{FitsMetadata}
use cnlab_cs.Cldp.Heard.{heard, query_all_servers-heard}
use cnlab_cs.Cldp.Exchange.{Delivers, query-answered}

-- The checksum of RFC 1071's kind: carries are added, and the sum is complemented.
carries_added : checksum (65535 ∷ 2 ∷ []) ≡ 65533
unfolding checksum sum_words fold_carries fold_acc dec_lt
carries_added = refl

send_packet-reads_example :
    let p = send_packet 9 16777343 msg_response 517 (some (72 ∷ 105 ∷ [])) 2 in
    (protocol_of p ≡ protocol_num)
    × (msg_type_of p ≡ msg_response)
    × (payload_len_of p ≡ 2)
    × (trans_id_of p ≡ 517)
    × (payload_of p ≡ 72 ∷ 105 ∷ [])
    × (length p ≡ 30)
send_packet-reads_example =
    send_packet-reads 9 16777343 msg_response 517 (72 ∷ 105 ∷ []) (omega arith) (omega arith)
      (omega arith)

send_packet-verifies_example :
    checksum (words (take 20 (send_packet 9 16777343 msg_hello 0 none 0))) ≡ 0
send_packet-verifies_example = send_packet-verifies 9 16777343 msg_hello 0 none 0 (omega arith)

abbrev unused : ℕ → List ServerInfo
unused zero = []
unused (suc n) = record { addr = 0; last_seen = 0; active = false } ∷ unused n

-- One server seen at 100, one seen at 10.
abbrev two_servers : ServerList
two_servers = record { server_list = entry 5 100 ∷ entry 6 10 ∷ unused 62; server_count = 2 }

two_servers-WellFormed : WellFormed two_servers
two_servers-WellFormed = record { slots = refl; room = omega arith; distinct = (refl, (refl, tt)) }

update_server_list-lookup_example :
    WellFormed (update_server_list two_servers 6 101)
    × ((j : ℕ)
        → lookup (update_server_list two_servers 6 101) j
          ≡ (if 6 == j then some (entry 6 101) else lookup two_servers j))
update_server_list-lookup_example =
    update_server_list-lookup two_servers 6 101 two_servers-WellFormed (inr (omega arith))

cleanup_server_list-fresh_example :
    WellFormed (cleanup_server_list two_servers 110)
    × (known (cleanup_server_list two_servers 110) ≡ entry 5 100 ∷ [])
cleanup_server_list-fresh_example = cleanup_server_list-fresh two_servers 110 two_servers-WellFormed

-- The kernel's part, as a function: the source address is written into the header.
abbrev header_from : ℕ → List ℕ → List ℕ
header_from a p =
    byte_at p 0
    ∷ byte_at p 1
    ∷ byte_at p 2
    ∷ byte_at p 3
    ∷ byte_at p 4
    ∷ byte_at p 5
    ∷ byte_at p 6
    ∷ byte_at p 7
    ∷ byte_at p 8
    ∷ byte_at p 9
    ∷ byte_at p 10
    ∷ byte_at p 11
    ∷ (little32 a ++ byte_at p 16 ∷ byte_at p 17 ∷ byte_at p 18 ∷ byte_at p 19 ∷ [])

abbrev with_source : ℕ → List ℕ → List ℕ
with_source a p = header_from a p ++ drop 20 p

get_elem?-append_right :
    (xs ys : List ℕ) (i : ℕ) → length xs ≤ i → get_elem? (xs ++ ys) i ≡ get_elem? ys (i - length xs)
get_elem?-append_right [] ys i h = ap (get_elem? ys) (omega arith)
get_elem?-append_right (x ∷ xs) ys zero h = absurd (omega arith)
get_elem?-append_right (x ∷ xs) ys (suc i) h =
    get_elem?-append_right xs ys i (omega arith) ∙ ap (get_elem? ys) (omega arith)

get_elem?-drop : (n : ℕ) (xs : List ℕ) (i : ℕ) → get_elem? (drop n xs) i ≡ get_elem? xs (i + n)
get_elem?-drop zero xs i = ap (get_elem? xs) (omega arith)
get_elem?-drop (suc n) [] i = refl
get_elem?-drop (suc n) (x ∷ xs) i =
    let step : suc (i + n) ≡ i + suc n = omega arith in
    get_elem?-drop n xs i ∙ ap (get_elem? (x ∷ xs)) step

with_source-rest : (a i : ℕ) (p : List ℕ) → 20 ≤ i → byte_at (with_source a p) i ≡ byte_at p i
with_source-rest a i p h =
    ap (λ o. elim o [ none ↦ 0 | some b ↦ b ])
      (get_elem?-append_right (header_from a p) (drop 20 p) i h
        ∙ get_elem?-drop 20 p (i - 20)
        ∙ ap (get_elem? p) (omega arith))

with_source-Delivers : Delivers with_source
with_source-Delivers = record {
  source = λ a p h. omega arith;
  protocol = λ a p. refl;
  rest = with_source-rest;
}

abbrev host : Metadata
host = record { hostname = codes "lab"; timestr = codes "now"; load = codes "0.50" }

host-FitsMetadata : FitsMetadata host
host-FitsMetadata = record { host = omega arith; time = omega arith; load = omega arith }

two_servers-index : index_of (has_addr 5) (known two_servers) ≡ some 0
unfolding index_of
two_servers-index = refl

-- The host's name and the load are asked for.
query-answered_example :
    let q = send_packet 1 5 msg_query 77 (some (5 ∷ [])) 1 in
    (p : List ℕ) × (others : List Sent) × ((server_round host 2 110 100
        (Found.readable (some (with_source 9 q, 9)))).1
      ≡ (p, 9) ∷ others)
    × (payload_of p ≡ response_payload host 5)
    × (collect 77 (two_servers, 0) 111 (Found.readable (some (with_source 5 p, 5)))
        ≡ (mark_seen two_servers 0 111, 1))
query-answered_example =
    query-answered with_source host 9 5 77 5 1 2 110 100 111 0 0 two_servers with_source-Delivers
      host-FitsMetadata (omega arith) (omega arith) two_servers-index

abbrev response_of_5 : List ℕ
response_of_5 =
    69 ∷ 0 ∷ 0 ∷ 28 ∷ 0 ∷ 0 ∷ 0 ∷ 0 ∷ 64 ∷ 253 ∷ 0 ∷ 0 ∷ 5 ∷ 0 ∷ 0 ∷ 0 ∷ 0 ∷ 0 ∷ 0 ∷ 0 ∷ 3 ∷ 0 ∷ 0
    ∷ 77 ∷ []

-- The first server answers, the second stays silent.
query_all_servers-heard_example :
    let t =
      (query_all_servers
        (λ _. 1)
        77
        1
        110
        115
        ((110, (111, Found.readable (some (response_of_5, 5)))) ∷ (111, (112, Found.quiet)) ∷ [])
        two_servers).0.0 in
    WellFormed t
    × All
        (λ x.
          heard 77 x.addr (
            (110, (111, Found.readable (some (response_of_5, 5)))) ∷ (111, (112, Found.quiet)) ∷ [])
          ≡ true)
        (known t)
query_all_servers-heard_example =
    query_all_servers-heard (λ _. 1) 77 1 110 115
      ((110, (111, Found.readable (some (response_of_5, 5)))) ∷ (111, (112, Found.quiet)) ∷ [])
      two_servers two_servers-WellFormed (omega arith)
