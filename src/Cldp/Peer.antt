-- ===== src/Cldp/Peer.antt =====
-- LA7: the loops over the raw socket, of cldp_server.c (QUERY answered, HELLO every ten seconds) and of
-- cldp_client.c (HELLO heard, all servers queried).
use cnlab_cs.Common.{
  ℕ, suc, ◌-◌, ◌/◌, ◌%◌, Bool, ◌&&◌, not, Option, none, some, List, [], ◌∷◌, ◌++◌, ◌==◌, ltb, leb,
  if◌then◌else◌, length,
}
use cnlab_cs.Common.Arrays.{index_of}
use cnlab_cs.Common.Bytes.{codes, newline}
use cnlab_cs.Cldp.Packet.{
  protocol_num, msg_hello, msg_query, msg_response, send_packet, byte_at, protocol_of, saddr_of,
  msg_type_of, trans_id_of,
}
use cnlab_cs.Cldp.ServerList.{
  ServerInfo, ServerList, known, has_addr, mark_seen, update_server_list, cleanup_server_list,
  mark_all_inactive,
}

-- What one round of a loop finds. `quiet`: the socket is not readable, or, in the client, `select` failed
-- and the round ends by `continue`. `readable`: the socket is in the set, where it also is after a
-- `select` that failed in the server, and `recvfrom` gave the address of the sender and the buffer of
-- 1024 bytes as it is after the call, or `none` for a return value of 0 or less.
pub data Found : Type 0 where
  quiet : Found
  readable : Option (List ℕ × ℕ) → Found

-- The texts of the host's name, of the time and of the load, the last as `%.2f` prints it.
pub record Metadata : Type 0 where
  pub hostname : List ℕ
  pub timestr : List ℕ
  pub load : List ℕ

-- `query_flags & 1`, `& 2` and `& 4`.
abbrev pub wants_hostname : ℕ → Bool
wants_hostname flags = flags % 2 == 1

abbrev pub wants_time : ℕ → Bool
wants_time flags = flags / 2 % 2 == 1

abbrev pub wants_load : ℕ → Bool
wants_load flags = flags / 4 % 2 == 1

abbrev pub line : List ℕ → List ℕ → List ℕ
line title value = title ++ value ++ newline ∷ []

-- The text that the three calls of `snprintf` leave in `response_payload`; 256 bytes are enough for it
-- when the host's name and the time have less than 64 bytes and the load less than 100.
unfoldable pub response_payload : Metadata → (flags : ℕ) → List ℕ
response_payload m flags =
    (if wants_hostname flags then line (codes "Hostname: ") m.hostname else [])
    ++ (if wants_time flags then line (codes "Time: ") m.timestr else [])
    ++ (if wants_load flags then line (codes "CPU Load: ") m.load else [])

abbrev pub query_flags_of : List ℕ → ℕ
query_flags_of buffer = if leb 1 (byte_at buffer 21) then byte_at buffer 28 else 0

-- The packet that answers: `offset` is converted to the `uint8_t` of `send_packet`.
unfoldable pub process_query : Metadata → (id src_addr : ℕ) (buffer : List ℕ) → List ℕ
unfolding response_payload send_packet
process_query m id src_addr buffer =
    let text = response_payload m (query_flags_of buffer) in
    send_packet id src_addr msg_response (trans_id_of buffer) (some text) (length text % 256)

abbrev pub broadcast : ℕ
broadcast = 4294967295

-- A packet that is sent, with the address that it goes to.
abbrev pub Sent : Type 0
Sent = List ℕ × ℕ

-- The last part of a round: a HELLO when ten seconds have passed.
abbrev pub announce : (id now last_hello : ℕ) → List Sent → ℕ × List Sent
announce id now last_hello sent =
    if leb 10 (now - last_hello)
    then (now, sent ++ (send_packet id broadcast msg_hello 0 none 0, broadcast) ∷ [])
    else (last_hello, sent)

-- One round of `while (1)`: `last_hello` after it, and what was sent. A failed receive and a packet of
-- another protocol take the `continue` past the announcement.
unfoldable pub server_round : Metadata → (id now last_hello : ℕ) (found : Found) → ℕ × List Sent
unfolding process_query send_packet
server_round m id now last_hello Found.quiet = announce id now last_hello []
server_round m id now last_hello (Found.readable none) = (last_hello, [])
server_round m id now last_hello (Found.readable (some (buffer, src))) =
    if not (protocol_of buffer == protocol_num)
    then (last_hello, [])
    else if msg_type_of buffer == msg_query
    then announce id now last_hello ((process_query m id src buffer, src) ∷ [])
    else announce id now last_hello []

-- One round of the loop of `listen_for_hello`.
unfoldable pub hear : ServerList → (now : ℕ) → Found → ServerList
unfolding update_server_list
hear s now Found.quiet = s
hear s now (Found.readable none) = s
hear s now (Found.readable (some (buffer, src))) =
    if not (protocol_of buffer == protocol_num)
    then s
    else if msg_type_of buffer == msg_hello
    then update_server_list s (saddr_of buffer) now
    else s

-- `while (time(NULL) - start_time < duration_sec)`: each round has the time at its test, the time at its
-- receive, and what it found. The list of rounds may end before the duration does.
unfoldable pub listen_for_hello :
    (start_time duration_sec : ℕ) → List (ℕ × (ℕ × Found)) → ServerList → ServerList
unfolding hear
listen_for_hello start_time duration_sec [] s = s
listen_for_hello start_time duration_sec (r ∷ rounds) s =
    let rest = listen_for_hello start_time duration_sec rounds (hear s r.1.0 r.1.1) in
    if ltb (r.0 - start_time) duration_sec then rest else s

-- One round of the wait of `query_all_servers`: the list, and `responses_received`.
unfoldable pub collect : (trans_id : ℕ) → ServerList × ℕ → (now : ℕ) → Found → ServerList × ℕ
unfolding update_server_list index_of
collect trans_id (s, n) now Found.quiet = (s, n)
collect trans_id (s, n) now (Found.readable none) = (s, n)
collect trans_id (s, n) now (Found.readable (some (buffer, src))) =
    if not (protocol_of buffer == protocol_num)
    then (s, n)
    else if (msg_type_of buffer == msg_response) && (trans_id_of buffer == trans_id)
    then elim (index_of (has_addr (saddr_of buffer)) (known s)) [
      | none ↦ (s, n)
      | some i ↦ (mark_seen s i now, suc n)
    ]
    else if msg_type_of buffer == msg_hello
    then (update_server_list s (saddr_of buffer) now, n)
    else (s, n)

-- Five seconds, or until as many responses as there are servers have come.
unfoldable pub wait_responses :
    (trans_id start_time : ℕ) → List (ℕ × (ℕ × Found)) → ServerList × ℕ → ServerList × ℕ
unfolding collect
wait_responses trans_id start_time [] q = q
wait_responses trans_id start_time (r ∷ rounds) q =
    let rest = wait_responses trans_id start_time rounds (collect trans_id q r.1.0 r.1.1) in
    if ltb (r.0 - start_time) 5 && ltb q.1 q.0.server_count then rest else q

-- The queries that go to the servers in the list; the list and the number of responses afterwards.
-- `flags` are the user's choices, none of which means all.
abbrev pub chosen_flags : ℕ → ℕ
chosen_flags flags = if flags == 0 then 7 else flags

abbrev pub queries : (ids : ℕ → ℕ) (trans_id flags : ℕ) → List ServerInfo → List Sent
queries ids trans_id flags [] = []
queries ids trans_id flags (x ∷ xs) =
    (send_packet (ids (length xs)) x.addr msg_query trans_id (some (flags ∷ [])) 1, x.addr)
    ∷ queries ids trans_id flags xs

unfoldable pub query_all_servers :
    (ids : ℕ → ℕ) (trans_id flags start_time end_time : ℕ)
    → List (ℕ × (ℕ × Found))
    → ServerList
    → (ServerList × ℕ) × List Sent
unfolding wait_responses cleanup_server_list mark_all_inactive send_packet
query_all_servers ids trans_id flags start_time end_time rounds s =
    if s.server_count == 0
    then ((s, 0), [])
    else let (after, n) = wait_responses trans_id start_time rounds (mark_all_inactive s, 0) in
      ((cleanup_server_list after end_time, n), queries ids trans_id (chosen_flags flags) (known s))
