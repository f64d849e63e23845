-- ===== src/Examples/Delivery.antt =====
-- Concrete runs of the messages between nodes.
use grove_lo_ra_433mhz_and.Prelude.{
  ℕ, ◌+◌, ◌≤◌, ◌<◌, ◌≡◌, ◌≢◌, refl, ◌⊎◌, inl, inr, none, some, true, false, [], ◌∷◌, arith, length,
  take, blit, replicate,
}
use grove_lo_ra_433mhz_and.Prelude.Commands.{done, pure, ◌>>◌}
use grove_lo_ra_433mhz_and.Driver
use grove_lo_ra_433mhz_and.Driver.{broadcast_address, flags_none}
use grove_lo_ra_433mhz_and.Driver.Wait
use grove_lo_ra_433mhz_and.Node.{Node, update}
use grove_lo_ra_433mhz_and.Datagram
use grove_lo_ra_433mhz_and.Datagram.{Message}
use grove_lo_ra_433mhz_and.Reliable
use grove_lo_ra_433mhz_and.Reliable.{Receipt, received}
use grove_lo_ra_433mhz_and.Reliable.Agreement.{on_air, with_headers, send_now, exchange}
use grove_lo_ra_433mhz_and.Reliable.Sending.{sendto_wait_result}
use grove_lo_ra_433mhz_and.Reliable.Kept.{Acked}
use grove_lo_ra_433mhz_and.Reliable.Receiving.{Calls, stop, handed, empty, Fresh, Calls-Fresh}
use grove_lo_ra_433mhz_and.Router
use grove_lo_ra_433mhz_and.Router.{
  Delivery, error_none, error_invalid_length, header_size, message_hops, message_dest,
  message_source, message_id, message_flags, message_data,
}
use grove_lo_ra_433mhz_and.Router.Routing.{Routed, route-Routed}
use grove_lo_ra_433mhz_and.Router.Messages.{
  routed_message, with_message, with_hop, sendto_from_source_wait_result, dispatch-routed_message,
  dispatch-with_hop, deliver_short,
}
use grove_lo_ra_433mhz_and.Table.{get_route_to, entry, valid}
use grove_lo_ra_433mhz_and.Examples.{Inbox, driver, scripted, node, no_routes, after, ack}

abbrev acked : Node Inbox
acked = node (ack 2 1 ∷ []) no_routes

abbrev acked_after : Node Inbox
acked_after = after acked (Reliable.sendto_wait scripted 5 (7 ∷ 8 ∷ []) 2 acked)

sendto_wait_result_example :
    (((true ≡ true) × ((2 ≡ broadcast_address) ⊎ Acked 1 2 acked_after))
      ⊎ ((true ≡ false) × (3 < 255) × (2 ≢ broadcast_address)))
    × (acked_after.this_address ≡ 1)
    × (acked_after.seen_ids ≡ acked.seen_ids)
    × (acked_after.routes ≡ no_routes)
    × (acked_after.last_sequence_number ≡ 1)
unfolding Reliable.sendto_wait Reliable.attempt Reliable.transmit Datagram.set_header_id
    Datagram.set_header_flags Datagram.sendto Wait.wait_packet_sent Driver.set_header_to
    Driver.set_header_flags Driver.set_header_id Reliable.await_reply Reliable.retransmit_timeout
    Reliable.await_round Wait.wait_available_timeout Wait.wait_available_timeout_loop
    Datagram.recvfrom
sendto_wait_result_example =
    sendto_wait_result scripted 5 (7 ∷ 8 ∷ []) 2 acked {b = true} {t = acked_after} refl

-- The same message comes twice, and then another one.
abbrev sent : (id : ℕ) → Message
sent id = record { payload = 5 ∷ []; from = 2; to = 1; id = id; flags = 0 }

abbrev receiver : Node Inbox
receiver = node (sent 7 ∷ sent 7 ∷ sent 8 ∷ []) no_routes

abbrev after_call : Node Inbox → Node Inbox
after_call n = after n (Reliable.recvfrom_ack scripted 5 (some 10) n)

receiver-Calls : Calls scripted 5 (some 10) receiver (sent 7 ∷ sent 8 ∷ [])
unfolding Reliable.recvfrom_ack Reliable.accept Reliable.acknowledge Datagram.set_header_id
    Datagram.set_header_flags Datagram.set_header_to Datagram.sendto Wait.wait_packet_sent
    Driver.set_header_to Driver.set_header_flags Driver.set_header_id Datagram.recvfrom
receiver-Calls = handed {t = after_call receiver} {u = after_call receiver} refl refl (
    empty {t = after_call (after_call receiver)} {u = after_call (after_call receiver)}
      (Reliable.discarded (5 ∷ [])) refl (inr (_, refl)) refl
      (handed {t = after_call (after_call (after_call receiver))}
        {u = after_call (after_call (after_call receiver))} refl refl (stop _)))

Calls-Fresh_example : Fresh (λ _. 0) (sent 7 ∷ sent 8 ∷ [])
Calls-Fresh_example = Calls-Fresh scripted 5 (some 10) receiver-Calls

-- A message for node 3, which has come four hops.
abbrev passing : Node Inbox
passing = record (node [] no_routes) { router_message = 3 ∷ 2 ∷ 4 ∷ 9 ∷ 0 ∷ 42 ∷ replicate 249 0 }

abbrev router : Router.Overrides Inbox
router = Router.router scripted 5

dispatch-with_hop_example :
    let m = passing.router_message in
    let m' = (with_hop scripted 5 router passing).router_message in
    ((4 < 30)
      × (Router.dispatch scripted 5 router 50 6 passing
          ≡ (router.route 6 >> pure none) (with_hop scripted 5 router passing))
      × (message_hops m' ≡ message_hops m + 1)
      × (message_hops m' ≤ 30)
      × (message_dest m' ≡ message_dest m)
      × (message_source m' ≡ message_source m)
      × (message_id m' ≡ message_id m)
      × (message_flags m' ≡ message_flags m)
      × (message_data m' ≡ message_data m))
    ⊎ ((30 ≤ 4)
        × (Router.dispatch scripted 5 router 50 6 passing
            ≡ done none (with_hop scripted 5 router passing)))
dispatch-with_hop_example =
    dispatch-with_hop scripted 5 router 50 6 passing refl (omega arith) (omega arith) (omega arith)

-- A message of two octets for node 1, as it stands in the buffer.
abbrev arrived : Node Inbox
arrived = record (node [] no_routes) {
  router_message = blit 0 (routed_message (42 ∷ 43 ∷ []) 1 2 9 0) (replicate 255 0);
}

dispatch-routed_message_example :
    Router.dispatch scripted 5 router 50 7 arrived
    ≡ done
        (some (record { payload = 42 ∷ 43 ∷ []; source = 2; dest = 1; id = 9; flags = 0 }))
        arrived
dispatch-routed_message_example =
    dispatch-routed_message scripted 5 router (42 ∷ 43 ∷ []) 1 2 9 0 50 (replicate 255 0) arrived
      (omega arith) refl refl (inl refl)

sendto_from_source_wait_result_example :
    ((251 < 7)
      × (Router.sendto_from_source_wait scripted 5 router (42 ∷ 43 ∷ []) 1 2 0 passing
          ≡ done error_invalid_length passing))
    ⊎ ((7 ≤ 251)
        × (Router.sendto_from_source_wait scripted 5 router (42 ∷ 43 ∷ []) 1 2 0 passing
            ≡ router.route 7 (with_message scripted 5 router (42 ∷ 43 ∷ []) 1 2 0 passing))
        × (take 7 (with_message scripted 5 router (42 ∷ 43 ∷ []) 1 2 0 passing).router_message
            ≡ routed_message (42 ∷ 43 ∷ []) 1 2 0 0))
sendto_from_source_wait_result_example =
    sendto_from_source_wait_result scripted 5 router (42 ∷ 43 ∷ []) 1 2 0 passing refl (omega arith)

deliver_short_example :
    (m : Delivery) × (Router.deliver scripted 5 router 50 3 passing ≡ done (some m) passing)
    × (length m.payload ≡ 50)
deliver_short_example =
    deliver_short scripted 5 router 50 3 passing refl (omega arith) (omega arith)

-- Node 1 passes a message for node 3 to its next hop, node 2, which acknowledges it.
abbrev routing : Node Inbox
routing = record (node (ack 2 1 ∷ []) (entry 3 2 valid ∷ [])) {
  router_message = 3 ∷ 1 ∷ 0 ∷ 0 ∷ 0 ∷ 42 ∷ replicate 249 0;
}

abbrev routing_after : Node Inbox
routing_after = after routing (Router.route scripted 5 6 routing)

route-Routed_example : Routed routing 3 error_none routing_after
unfolding Router.route Router.forward_to get_route_to Reliable.sendto_wait Reliable.attempt
    Reliable.transmit Datagram.set_header_id Datagram.set_header_flags Datagram.sendto
    Wait.wait_packet_sent Driver.set_header_to Driver.set_header_flags Driver.set_header_id
    Reliable.await_reply Reliable.retransmit_timeout Reliable.await_round
    Wait.wait_available_timeout Wait.wait_available_timeout_loop Datagram.recvfrom
    Datagram.set_header_to Reliable.await_ack Reliable.examine
route-Routed_example =
    route-Routed scripted 5 6 routing {code = error_none} {t = routing_after} refl

-- Node 1 sends a message to node 2.
abbrev other : Node Inbox
other = record (node [] no_routes) {
  this_address = 2;
  device = record { driver = record driver { this_address = 2; tx_header_from = 2 }; chip = [] };
}

abbrev other_after : Node Inbox
other_after = after other (Reliable.acknowledge scripted 5 7 1 other)

exchange_example :
    let s' = with_headers 2 7 flags_none Reliable.flags_ack (node [] no_routes) in
    let m = on_air (42 ∷ []) s'.device.driver in
    let t' = with_headers 1 7 Reliable.flags_ack flags_none other in
    let answer = on_air (b'!' ∷ []) t'.device.driver in
    (Reliable.transmit scripted 5 (42 ∷ []) 7 2 (node [] no_routes)
      ≡ send_now scripted 5 (42 ∷ []) s')
    × (Reliable.acknowledge scripted 5 7 1 other ≡ send_now scripted 5 (b'!' ∷ []) t')
    × (Reliable.accept scripted 5 m other
        ≡ done (received m) (record other_after { seen_ids = update (λ _. 0) 1 7 }))
    × (Reliable.examine scripted 5 7 2 answer acked ≡ done true acked)
unfolding Reliable.acknowledge Datagram.set_header_id Datagram.set_header_flags Datagram.sendto
    Wait.wait_packet_sent Driver.set_header_to Driver.set_header_flags Driver.set_header_id
exchange_example =
    exchange scripted 5 (42 ∷ []) 7 (node [] no_routes) other acked {u = other_after} (omega arith)
      (omega arith) refl refl refl (omega arith) (omega arith) refl
