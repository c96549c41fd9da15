-- ===== src/Ktp/NetworkTests.antt =====
-- LA4.0: two sockets over a network, at concrete steps.
use cnlab_cs.Common.{ℕ, ◌≤◌, ◌≡◌, refl, true, false, some, none, List, [], ◌∷◌, ◌++◌, length}
use cnlab_cs.Ktp.Socket.{new_sock}
use cnlab_cs.Ktp.Send.{ack_arrives, send_round, data_packet}
use cnlab_cs.Ktp.Recv.{recv_round, datagram}
use cnlab_cs.Ktp.Transfer.{send_file, chunk_loop, receive_file}
use cnlab_cs.Ktp.Files.{receive_file-delivered}
use cnlab_cs.Ktp.Recv.{take_datagram}
use cnlab_cs.Ktp.Network.{
  Net, start, after_recv, after_ack, call, transmit, receive, hear, Reach, here, next,
}
use cnlab_cs.Ktp.Invariant.{pending}
use cnlab_cs.Ktp.Reliable.{delivered-prefix, delivered-eq-sent}

abbrev unset_bytes : List ℕ
unset_bytes = 7 ∷ 7 ∷ 7 ∷ 7 ∷ 7 ∷ 7 ∷ []

-- A message is sent and received, and its acknowledgement heard.
abbrev called : Net
called = record (start 3 4) { outstanding = some (65 ∷ []); sent = (65 ∷ []) ∷ [] }

abbrev on_wire : Net
on_wire = record called { packets = data_packet 1 unset_bytes (65 ∷ []) ∷ [] }

abbrev arrived : Net
arrived =
    after_recv on_wire
      (recv_round on_wire.receiver [] (datagram (data_packet 1 unset_bytes (65 ∷ [])) false true))

abbrev heard : Net
heard = after_ack arrived (send_round arrived.sender (ack_arrives 1 1 false))

to_arrived : Reach (start 3 4) arrived
unfolding new_sock
to_arrived =
    next
      (next (next here (call (65 ∷ []) refl refl)) (transmit (65 ∷ []) unset_bytes refl refl refl))
      (receive 0 (data_packet 1 unset_bytes (65 ∷ [])) [] false true refl refl)

delivered-prefix_example :
    (rest : List (List ℕ)) × (arrived.sent ≡ arrived.delivered ++ rest)
    × (length rest ≤ pending arrived.outstanding)
delivered-prefix_example = delivered-prefix 3 4 arrived to_arrived

to_heard : Reach (start 3 4) heard
unfolding new_sock after_recv recv_round data_packet
to_heard = next to_arrived (hear 0 (record { seqno = 1; kind = 1 }) (65 ∷ []) false refl refl refl)

heard_idle : heard.outstanding ≡ none
unfolding new_sock after_recv recv_round data_packet after_ack send_round
heard_idle = refl

delivered-eq-sent_example : heard.delivered ≡ heard.sent
delivered-eq-sent_example = delivered-eq-sent 3 4 heard to_heard heard_idle

-- The file of one byte: its packet is `heard`, and the packet of "#" follows.
abbrev end_called : Net
end_called = record heard { outstanding = some (35 ∷ []); sent = (65 ∷ []) ∷ (35 ∷ []) ∷ [] }

abbrev end_on_wire : Net
end_on_wire = record end_called {
  packets = data_packet 2 unset_bytes (35 ∷ []) ∷ end_called.packets;
}

abbrev end_arrived : Net
end_arrived =
    after_recv end_on_wire (
      recv_round end_on_wire.receiver []
        (datagram (data_packet 2 unset_bytes (35 ∷ [])) false true))

abbrev end_heard : Net
end_heard = after_ack end_arrived (send_round end_arrived.sender (ack_arrives 2 1 false))

to_end_on_wire : Reach (start 3 4) end_on_wire
unfolding new_sock after_recv recv_round data_packet after_ack send_round take_datagram
to_end_on_wire =
    next (next to_heard (call (35 ∷ []) refl refl)) (transmit (35 ∷ []) unset_bytes refl refl refl)

to_end_heard : Reach (start 3 4) end_heard
unfolding new_sock after_recv recv_round data_packet after_ack send_round take_datagram
to_end_heard =
    next
      (next to_end_on_wire
        (receive 0 (data_packet 2 unset_bytes (35 ∷ [])) [] false true refl refl))
      (hear 0 (record { seqno = 2; kind = 1 }) (35 ∷ []) false refl refl refl)

end_heard_idle : end_heard.outstanding ≡ none
unfolding new_sock after_recv recv_round data_packet after_ack send_round take_datagram
end_heard_idle = refl

end_heard_sent : end_heard.sent ≡ send_file (65 ∷ [])
unfolding new_sock after_recv recv_round data_packet after_ack send_round take_datagram send_file
    chunk_loop
end_heard_sent = refl

receive_file-delivered_example :
    receive_file (0 ∷ []) (0 ∷ []) end_heard.delivered ≡ (65 ∷ [], true)
receive_file-delivered_example =
    receive_file-delivered 3 4 end_heard (65 ∷ []) (0 ∷ []) (0 ∷ []) to_end_heard end_heard_idle
      end_heard_sent (refl, tt) (refl, tt) (refl, tt)
