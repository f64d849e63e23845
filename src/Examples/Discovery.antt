-- ===== src/Examples/Discovery.antt =====
-- Concrete runs of the mesh.
use grove_lo_ra_433mhz_and.Prelude.{
  arith, ◌<◌, ◌≤◌, ◌≡◌, ◌≢◌, ◌⊎◌, refl, true, false, List, ℕ, [], ◌∷◌, ◌++◌, member, replicate,
}
use grove_lo_ra_433mhz_and.Prelude.Commands.{done, pure, ◌>>◌}
use grove_lo_ra_433mhz_and.Node.{Node, set_routes}
use grove_lo_ra_433mhz_and.Driver
use grove_lo_ra_433mhz_and.Driver.{broadcast_address}
use grove_lo_ra_433mhz_and.Driver.Wait
use grove_lo_ra_433mhz_and.Datagram
use grove_lo_ra_433mhz_and.Reliable
use grove_lo_ra_433mhz_and.Router
use grove_lo_ra_433mhz_and.Datagram.{Message}
use grove_lo_ra_433mhz_and.Router.{Delivery}
use grove_lo_ra_433mhz_and.Router.Invariant.{HasTable}
use grove_lo_ra_433mhz_and.Mesh
use grove_lo_ra_433mhz_and.Mesh.{do_arp}
use grove_lo_ra_433mhz_and.Mesh.Requests.{discovery, learn, answer_request-cases}
use grove_lo_ra_433mhz_and.Mesh.Responses.{peek_at_response-learn}
use grove_lo_ra_433mhz_and.Mesh.Discovery.{FindsRoute, do_arp-FindsRoute}
use grove_lo_ra_433mhz_and.Table.{valid, clear_routing_table, add_route_to}
use grove_lo_ra_433mhz_and.Table.Invariant.{IsTable, clear-IsTable}
use grove_lo_ra_433mhz_and.Examples.{Inbox, scripted, node, no_routes, after}

no_routes-IsTable : IsTable no_routes
unfolding clear_routing_table
no_routes-IsTable = clear-IsTable no_routes refl

-- Node 9 answers the search for a route through node 2.
abbrev response : Message
response = record {
  payload = 1 ∷ 9 ∷ 0 ∷ 5 ∷ 0 ∷ 2 ∷ 1 ∷ 9 ∷ [];
  from = 2;
  to = 1;
  id = 7;
  flags = 0;
}

abbrev searching : Node Inbox
searching = node (response ∷ []) no_routes

abbrev found : Node Inbox
found = after searching (do_arp scripted 5 9 searching)

do_arp-FindsRoute_example : HasTable found × FindsRoute 9 found
unfolding do_arp Router.sendto_wait Mesh.route Router.route Reliable.sendto_wait Reliable.attempt
    Reliable.transmit Datagram.set_header_id Datagram.set_header_flags Datagram.sendto
    Wait.wait_packet_sent Driver.set_header_to Driver.set_header_flags Driver.set_header_id
    Router.recvfrom_ack Reliable.recvfrom_ack Datagram.recvfrom Reliable.accept Reliable.acknowledge
    Mesh.peek_at_message Wait.wait_available_timeout Wait.wait_available_timeout_loop Mesh.arp_loop
    Mesh.peek_at_response Mesh.find_route Mesh.scrape_routes Router.dispatch Router.deliver
    Router.sendto_from_source_wait Router.forward_to add_route_to
do_arp-FindsRoute_example =
    do_arp-FindsRoute scripted 5 9 searching {t = found} no_routes-IsTable refl

-- An octet for the application comes from node 9.
abbrev application : Message
application = record {
  payload = 1 ∷ 9 ∷ 0 ∷ 5 ∷ 0 ∷ 0 ∷ 42 ∷ [];
  from = 2;
  to = 1;
  id = 7;
  flags = 0;
}

abbrev listening : Node Inbox
listening = node (application ∷ []) no_routes

abbrev listened : Node Inbox
listened = after listening (Mesh.recvfrom_ack scripted 5 10 listening)

-- Node 9 looks for node 4; the request has passed through nodes 2 and 3.
abbrev visited : List ℕ
visited = 2 ∷ 3 ∷ []

abbrev rest : List ℕ
rest = replicate 244 0

abbrev asked : Node Inbox
asked = record (node [] no_routes) {
  mesh_message = discovery Mesh.type_route_discovery_request 4 (visited ++ 0 ∷ rest);
}

abbrev learnt : Node Inbox
learnt = set_routes (learn 0 (9 ∷ visited)) asked

answer_request-cases_example :
    ((member 1 visited ≡ true) × (Mesh.answer_request scripted 5 9 5 asked ≡ done tt asked))
    ⊎ ((member 1 visited ≡ false)
        × (4 ≡ asked.this_address)
        × (Mesh.answer_request scripted 5 9 5 asked
            ≡ (Router.sendto_wait scripted 5
                    (Mesh.mesh scripted 5)
                    (discovery Mesh.type_route_discovery_response 4 visited)
                    9
                    0
                  >> pure tt)
                (record learnt {
                  mesh_message =
                      discovery Mesh.type_route_discovery_response 4 (visited ++ 0 ∷ rest);
                })))
    ⊎ ((member 1 visited ≡ false)
        × (4 ≢ asked.this_address)
        × (2 < 30)
        × (Mesh.answer_request scripted 5 9 5 asked
            ≡ (Router.sendto_from_source_wait scripted 5
                    (Mesh.mesh scripted 5)
                    (discovery Mesh.type_route_discovery_request 4 (visited ++ 1 ∷ []))
                    broadcast_address
                    9
                    0
                  >> pure tt)
                (record learnt {
                  mesh_message =
                      discovery Mesh.type_route_discovery_request 4 (visited ++ 1 ∷ rest);
                })))
    ⊎ ((member 1 visited ≡ false)
        × (4 ≢ asked.this_address)
        × (30 ≤ 2)
        × (Mesh.answer_request scripted 5 9 5 asked ≡ done tt learnt))
answer_request-cases_example =
    answer_request-cases scripted 5 9 4 visited 0 rest (node [] no_routes) (omega arith)

-- An answer from node 9 has passed through nodes 2, 1, 3 and 4, and a 7 stands behind them.
abbrev answering : Node Inbox
answering = record (node [] no_routes) {
  router_message =
      8
      ∷ 9
      ∷ 0
      ∷ 5
      ∷ 0
      ∷ discovery Mesh.type_route_discovery_response 9 (2 ∷ 1 ∷ 3 ∷ 4 ∷ 7 ∷ replicate 242 0);
}

peek_at_response-learn_example :
    Mesh.peek_at_response 12 answering
    ≡ done tt (set_routes (λ t. learn 0 (4 ∷ 7 ∷ []) (add_route_to 9 0 valid t)) answering)
peek_at_response-learn_example =
    peek_at_response-learn 8 9 0 5 0 9 (2 ∷ []) (3 ∷ 4 ∷ []) 7 (replicate 242 0) (node [] no_routes)
      (omega arith) refl
