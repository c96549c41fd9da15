-- ===== src/Cldp/Exchange.antt =====
-- LA7: a query of the client, the server's answer, and what the client makes of it.
use cnlab_cs.Common.{ℕ, suc, ◌≤◌, ◌<◌, ◌≡◌, refl, ap, ◌∙◌, some, List, [], ◌∷◌, arith, ==_self}
use cnlab_cs.Common.Arrays.{index_of}
use cnlab_cs.Cldp.Packet.{
  protocol_num, msg_query, msg_response, send_packet, protocol_of, saddr_of, msg_type_of,
  trans_id_of, payload_of, byte_at,
}
use cnlab_cs.Cldp.ServerList.{ServerList, known, has_addr, mark_seen}
use cnlab_cs.Cldp.Wire.{send_packet-reads}
use cnlab_cs.Cldp.Peer.{
  Found, Metadata, Sent, response_payload, query_flags_of, server_round, collect,
}
use cnlab_cs.Cldp.Queries.{FitsMetadata, server_round-answers}

-- What the kernel does to a packet whose IP header it is given (raw(7), IP_HDRINCL): a source address of
-- zero is filled in, and the protocol and everything behind the addresses arrive as they were sent.
pub record Delivers (deliver : ℕ → List ℕ → List ℕ) : Type 0 where
  pub source : (a : ℕ) (p : List ℕ) → a < 4294967296 → saddr_of (deliver a p) ≡ a
  pub protocol : (a : ℕ) (p : List ℕ) → protocol_of (deliver a p) ≡ protocol_of p
  pub rest : (a i : ℕ) (p : List ℕ) → 20 ≤ i → byte_at (deliver a p) i ≡ byte_at p i

collect-response :
    (trans_id n now i src : ℕ) (s : ServerList) (buffer : List ℕ)
    → protocol_of buffer ≡ protocol_num
    → msg_type_of buffer ≡ msg_response
    → trans_id_of buffer ≡ trans_id
    → index_of (has_addr (saddr_of buffer)) (known s) ≡ some i
    → collect trans_id (s, n) now (Found.readable (some (buffer, src))) ≡ (mark_seen s i now, suc n)
unfolding collect
collect-response trans_id n now i src s buffer hp ht hi hit =
    rw (hp, collect, ht, hi, ==_self trans_id, hit) refl

query_flags-read :
    (qid server trans_id flags : ℕ) (arrived : List ℕ)
    → let q = send_packet qid server msg_query trans_id (some (flags ∷ [])) 1 in
      byte_at arrived 21 ≡ byte_at q 21
      → byte_at arrived 28 ≡ byte_at q 28
      → query_flags_of arrived ≡ flags
unfolding send_packet
query_flags-read qid server trans_id flags arrived a b = rw (a, b) refl

-- A query that reaches a server of the client's list is answered at once, to the client, with the
-- metadata that its flags ask for; when the answer arrives during the wait, the client marks that
-- server as active and seen now, counts one response, and changes nothing else. The kernel delivers
-- packets as Delivers says, the texts of the server fit, the address has 32 bits and the transaction
-- id 16.
pub query-answered :
    (deliver : ℕ → List ℕ → List ℕ) (m : Metadata)
    (client server trans_id flags qid rid sent_at last_hello now n i : ℕ) (s : ServerList)
    → Delivers deliver
    → FitsMetadata m
    → server < 4294967296
    → trans_id < 65536
    → index_of (has_addr server) (known s) ≡ some i
    → let q = send_packet qid server msg_query trans_id (some (flags ∷ [])) 1 in
      (p : List ℕ) × (others : List Sent) × ((server_round m rid sent_at last_hello
          (Found.readable (some (deliver client q, client)))).1
        ≡ (p, client) ∷ others)
      × (payload_of p ≡ response_payload m flags)
      × (collect trans_id (s, n) now (Found.readable (some (deliver server p, server)))
          ≡ (mark_seen s i now, suc n))
query-answered deliver m client server trans_id flags qid rid sent_at last_hello now n i s d fits ha
      hi hit =
    let q = send_packet qid server msg_query trans_id (some (flags ∷ [])) 1 in
    let (qp, qt, ql, qi, qf, qn) =
      send_packet-reads qid server msg_query trans_id (flags ∷ []) (omega arith) (omega arith) hi in
    let arrived = deliver client q in
    let trans : trans_id_of arrived ≡ trans_id =
      omega (arith, d.rest client 22 q (omega arith), d.rest client 23 q (omega arith), qi) in
    let wanted : query_flags_of arrived ≡ flags =
      query_flags-read qid server trans_id flags arrived (d.rest client 21 q (omega arith))
        (d.rest client 28 q (omega arith)) in
    let (p, others, sent, pp, pt, pi, pf) =
      server_round-answers m rid sent_at last_hello client arrived fits (d.protocol client q ∙ qp)
        (d.rest client 20 q (omega arith) ∙ qt) (omega arith) in
    let back : trans_id_of (deliver server p) ≡ trans_id =
      omega (arith, d.rest server 22 p (omega arith), d.rest server 23 p (omega arith), pi) in
    (
      p,
      others,
      sent,
      pf ∙ ap (response_payload m) wanted,
      collect-response trans_id n now i server s (deliver server p) (d.protocol server p ∙ pp)
          (d.rest server 20 p (omega arith) ∙ pt) back
          (ap (λ a. index_of (has_addr a) (known s)) (d.source server p ha) ∙ hit),
    )
