-- ===== src/Examples/Sketches.antt =====
-- Concrete runs of the sketches.
use grove_lo_ra_433mhz_and.Prelude.{ℕ, ◌≡◌, refl, some, List, [], ◌∷◌}
use grove_lo_ra_433mhz_and.Prelude.Commands.{done}
use grove_lo_ra_433mhz_and.Node.{Node}
use grove_lo_ra_433mhz_and.Driver
use grove_lo_ra_433mhz_and.Driver.Wait
use grove_lo_ra_433mhz_and.Datagram
use grove_lo_ra_433mhz_and.Datagram.{Message}
use grove_lo_ra_433mhz_and.Reliable
use grove_lo_ra_433mhz_and.Mesh
use grove_lo_ra_433mhz_and.Router
use grove_lo_ra_433mhz_and.Table.{get_route_to, add_route_to, clear_routing_table}
use grove_lo_ra_433mhz_and.Sketch
use grove_lo_ra_433mhz_and.Sketch.{Sketch}
use grove_lo_ra_433mhz_and.Sketch.Routers
use grove_lo_ra_433mhz_and.Sketch.Meshes
use grove_lo_ra_433mhz_and.Sketch.Network.{node_at, setup_at, walk-setup_at}
use grove_lo_ra_433mhz_and.Sketch.Line.{second, third, fourth, Place, first, place_of, walk}
use grove_lo_ra_433mhz_and.Sketch.Running.{Runs, set_up, looped, mesh_node, mesh_setup, mesh_loop}
use grove_lo_ra_433mhz_and.Examples.{Inbox, scripted, no_routes, node, after, ack}

abbrev sketch : Node Inbox → Sketch (Node Inbox)
sketch n = record { state = n; keys = []; console = [] }

-- The four routers, before and after their `setup`.
abbrev before : Place → Sketch (Node Inbox)
before p = sketch (node_at scripted 5 p (node [] no_routes))

abbrev set : Place → Sketch (Node Inbox)
set p = after (before p) (setup_at scripted 5 p (before p))

set_done : (p : Place) → setup_at scripted 5 p (before p) ≡ done tt (set p)
unfolding Routers.setup1 Routers.setup2 Routers.setup3 Routers.setup4 Router.init Datagram.init
set_done first = refl
set_done second = refl
set_done third = refl
set_done fourth = refl

walk-setup_at_example : walk (λ k. (set (place_of k)).state.routes) 3 1 4 ≡ some (2 ∷ 3 ∷ 4 ∷ [])
walk-setup_at_example =
    walk-setup_at scripted 5 (λ _. node [] no_routes) before set first fourth (λ k. refl)
      (λ k. refl) set_done

-- A message from node 9 comes to the mesh sketch 1, then the answer to the search for a route to node
-- 9, and then the acknowledgement of the reply.
abbrev message : (id : ℕ) → List ℕ → Message
message id rest = record {
  payload = 1 ∷ 9 ∷ 0 ∷ 5 ∷ 0 ∷ rest;
  from = 2;
  to = 1;
  id = id;
  flags = 0;
}

abbrev asked : Node Inbox
asked = node (message 7 (0 ∷ 42 ∷ []) ∷ message 8 (2 ∷ 1 ∷ 9 ∷ []) ∷ ack 2 2 ∷ []) no_routes

abbrev started : Sketch (Node Inbox)
started =
    after (sketch (mesh_node scripted 5 first asked))
      (mesh_setup scripted 5 first (sketch (mesh_node scripted 5 first asked)))

abbrev answered : Sketch (Node Inbox)
answered = after started (mesh_loop scripted 5 first 0 started)

answered-Runs :
    Runs
      (mesh_setup scripted 5 first)
      (mesh_loop scripted 5 first)
      (sketch (mesh_node scripted 5 first asked))
      answered
unfolding Meshes.setup1 Router.init Meshes.loop1 Mesh.recvfrom_ack Router.recvfrom_ack
    Reliable.recvfrom_ack Router.construct Datagram.recvfrom Reliable.accept Reliable.acknowledge
    Datagram.set_header_id Datagram.set_header_flags Datagram.sendto Wait.wait_packet_sent
    Driver.set_header_to Driver.set_header_flags Driver.set_header_id Driver.set_header_from
    Datagram.init Datagram.set_header_from Datagram.set_header_to Datagram.set_this_address
    Wait.wait_available_timeout Wait.wait_available_timeout_loop Driver.set_this_address
    Mesh.add_routes Mesh.arp_loop Mesh.dispatch Mesh.do_arp Mesh.find_route Mesh.peek_at_message
    Mesh.peek_at_response Mesh.route Mesh.scrape_routes Mesh.send_application Mesh.sendto_wait
    Reliable.attempt Reliable.await_ack Reliable.await_reply Reliable.await_round Reliable.construct
    Reliable.examine Reliable.retransmit_timeout Reliable.sendto_wait Reliable.transmit
    Router.deliver Router.dispatch Router.forward_to Router.route Router.sendto_from_source_wait
    Router.sendto_wait Sketch.answer Sketch.chat Sketch.read_key Sketch.start add_route_to
    clear_routing_table get_route_to
answered-Runs = looped {t = started} {u = answered} [] 0 (set_up {t = started} refl) refl

-- The reply was sent: nothing is printed but the message.
answered_console : answered.console ≡ Sketch.got_message 9 (42 ∷ []) ∷ []
unfolding Meshes.setup1 Router.init Meshes.loop1 Mesh.recvfrom_ack Router.recvfrom_ack
    Reliable.recvfrom_ack Router.construct Datagram.recvfrom Reliable.accept Reliable.acknowledge
    Datagram.set_header_id Datagram.set_header_flags Datagram.sendto Wait.wait_packet_sent
    Driver.set_header_to Driver.set_header_flags Driver.set_header_id Driver.set_header_from
    Datagram.init Datagram.set_header_from Datagram.set_header_to Datagram.set_this_address
    Wait.wait_available_timeout Wait.wait_available_timeout_loop Driver.set_this_address
    Mesh.add_routes Mesh.arp_loop Mesh.dispatch Mesh.do_arp Mesh.find_route Mesh.peek_at_message
    Mesh.peek_at_response Mesh.route Mesh.scrape_routes Mesh.send_application Mesh.sendto_wait
    Reliable.attempt Reliable.await_ack Reliable.await_reply Reliable.await_round Reliable.construct
    Reliable.examine Reliable.retransmit_timeout Reliable.sendto_wait Reliable.transmit
    Router.deliver Router.dispatch Router.forward_to Router.route Router.sendto_from_source_wait
    Router.sendto_wait Sketch.answer Sketch.chat Sketch.read_key Sketch.start add_route_to
    clear_routing_table get_route_to
answered_console = refl
