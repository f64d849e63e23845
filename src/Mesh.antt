-- ===== src/Mesh.antt =====
-- RHMesh.h and RHMesh.cpp: a router that discovers its routes.
pub mod Invariant
pub mod Discovery
pub mod Listening
pub mod Calls
pub mod Timeouts
pub mod Requests
pub mod Responses
pub mod Peeking
use grove_lo_ra_433mhz_and.Prelude.{
  ℕ, zero, suc, ◌+◌, ◌-◌, ◌==◌, ltb, leb, if◌then◌else◌, Bool, true, false, not, ◌&&◌, ◌||◌, min,
  Option, none, some, List, [], ◌∷◌, length, get_or, take, drop, blit, u8, sub8, sub32, u16,
  is_some,
}
use grove_lo_ra_433mhz_and.Prelude.Commands.{
  Cmd, out_of_fuel, pure, get, gets, modify, when, read_at, ◌>>=◌, ◌>>◌,
}
use grove_lo_ra_433mhz_and.Driver.{Radio, broadcast_address}
use grove_lo_ra_433mhz_and.Node.{Node, set_routes, set_mesh_message}
use grove_lo_ra_433mhz_and.Datagram
use grove_lo_ra_433mhz_and.Reliable.{is_positive}
use grove_lo_ra_433mhz_and.Router
use grove_lo_ra_433mhz_and.Router.{
  Delivery, Overrides, error_none, error_invalid_length, error_no_route, error_unable_to_deliver,
  message_dest, message_source, message_data,
}
use grove_lo_ra_433mhz_and.Table.{valid, add_route_to, get_route_to, delete_route_to}
pub use Peeking.{
  type_application, type_route_discovery_request, type_route_discovery_response, type_route_failure,
  arp_timeout, max_message_len, buffer_size, message_type, discovery_destlen, discovery_dest,
  failure_dest, route_offset, add_route, delete_route, header_from,
}
unfoldable pub use Peeking.{
  find_route, add_routes, scrape_routes, peek_at_response, peek_at_message,
}

module _ {C : Type 0} where
  abbrev pub is_physical_address : (address address_len : ℕ) → Node C → Bool
  is_physical_address address address_len n = address_len == 1 && address == n.this_address

module _ {C : Type 0} (r : Radio C) (fuel : ℕ) where
  -- What RHMesh::route does after a failure to deliver, with the route that a message of its own takes.
  unfoldable pub report_failure : Overrides C → (from code : ℕ) → Cmd (Node C) ℕ
  report_failure v from code = do
    n ← get
    let dest = message_dest n.router_message
    let source = message_source n.router_message
    delete_route dest
    if source == n.this_address then pure code else do
      modify (set_mesh_message (blit 0 (type_route_failure ∷ dest ∷ [])))
      add_route source from
      Router.sendto_wait r fuel v (type_route_failure ∷ dest ∷ []) source 0

  -- RHMesh::route. It calls itself through RHRouter::sendtoWait, at most `depth` deep.
  unfoldable pub route : (depth message_len : ℕ) → Cmd (Node C) ℕ
  unfolding report_failure
  route zero message_len n = out_of_fuel
  route (suc depth) message_len n =
      (do
        from ← header_from
        code ← Router.route r fuel message_len
        if code == error_no_route || code == error_unable_to_deliver
            then report_failure (record { peek_at_message = peek_at_message; route = route depth })
                from code
            else pure code)
        n

  -- The virtual functions of a mesh node. A failure report is a message of the node's own, and the
  -- failure to deliver it is not reported: two calls are enough.
  abbrev pub mesh : Overrides C
  mesh = record { peek_at_message = peek_at_message; route = route 2 }

  -- The loop of `doArp`, with `messageLen` as the calls before have left it.
  unfoldable pub arp_loop : ℕ → (message_len address starttime : ℕ) → Cmd (Node C) Bool
  arp_loop zero message_len address starttime n = out_of_fuel
  arp_loop (suc rounds) message_len address starttime n =
      (do
        now ← Datagram.millis r
        let time_left = sub32 arp_timeout (sub32 now starttime)
        if is_positive time_left
            then (do
              ready ← Datagram.wait_available_timeout r fuel (u16 time_left)
              if ready
                  then (do
                    got ← Router.recvfrom_ack r fuel mesh message_len
                    elim got [
                      | none ↦ arp_loop rounds message_len address starttime
                      | some m ↦ do
                        modify (set_mesh_message (blit 0 m.payload))
                        n ← get
                        if ltb 1 (length m.payload)
                              && message_type n.mesh_message == type_route_discovery_response
                            then (do add_route address n.device.driver.rx_header_from; pure true)
                            else (arp_loop rounds (length m.payload) address starttime)
                    ])
                  else arp_loop rounds message_len address starttime)
            else pure false)
        n

  unfoldable pub do_arp : ℕ → Cmd (Node C) Bool
  unfolding arp_loop
  do_arp address = do
    let request = type_route_discovery_request ∷ 1 ∷ address ∷ []
    modify (set_mesh_message (blit 0 request))
    error ← Router.sendto_wait r fuel mesh request broadcast_address 0
    if error == error_none
        then (do starttime ← Datagram.millis r; arp_loop fuel buffer_size address starttime)
        else pure false

  -- The part of `sendtoWait` that runs when there is a route.
  unfoldable pub send_application : List ℕ → (address flags : ℕ) → Cmd (Node C) ℕ
  send_application buf address flags = do
    modify (set_mesh_message (blit 0 (type_application ∷ buf)))
    n ← get
    Router.sendto_wait r fuel mesh (take (1 + length buf) n.mesh_message) address flags

  unfoldable pub sendto_wait : List ℕ → (address flags : ℕ) → Cmd (Node C) ℕ
  unfolding send_application
  sendto_wait buf address flags =
      if ltb max_message_len (length buf) then pure error_invalid_length else do
        n ← get
        if address == broadcast_address || is_some (get_route_to address n.routes)
            then send_application buf address flags
            else do
              found ← do_arp address
              if found then send_application buf address flags else pure error_no_route

  -- What `recvfromAck` does with a route discovery request of `message_len` octets.
  unfoldable pub answer_request : (source message_len : ℕ) → Cmd (Node C) (Unit {0})
  answer_request source message_len = do
    n ← get
    let d = n.mesh_message
    let num_routes = sub8 message_len 3
    let from = n.device.driver.rx_header_from
    found ← find_route num_routes d n.this_address 0
    when (found == num_routes) (do
      add_route source from
      add_routes num_routes d from 0
      if is_physical_address (discovery_dest d) (discovery_destlen d) n
          then (do
            modify (set_mesh_message (blit 0 (type_route_discovery_response ∷ [])))
            n' ← get
            Router.sendto_wait r fuel mesh (take message_len n'.mesh_message) source 0
            pure tt)
          else when (ltb num_routes n.max_hops) (do
            read_at d (route_offset + num_routes)
            modify (set_mesh_message (blit (route_offset + num_routes) (n.this_address ∷ [])))
            n' ← get
            Router.sendto_from_source_wait r fuel mesh (take (u8 (message_len + 1)) n'.mesh_message)
                broadcast_address source 0
            pure tt))

  -- A message that RHRouter has delivered here, with `len` octets of room for the application.
  unfoldable pub dispatch : ℕ → Delivery → Cmd (Node C) (Option Delivery)
  unfolding answer_request
  dispatch len m = do
    modify (set_mesh_message (blit 0 m.payload))
    n ← get
    let message_len = length m.payload
    if leb 1 message_len && message_type n.mesh_message == type_application
        then pure (
            some
              (record m { payload = take (min len (sub8 message_len 1)) (drop 1 n.mesh_message) }))
        else do
          when
              (m.dest == broadcast_address
                && ltb 1 message_len
                && message_type n.mesh_message == type_route_discovery_request
                && not (m.source == n.this_address))
              (answer_request m.source message_len)
          pure none

  unfoldable pub recvfrom_ack : ℕ → Cmd (Node C) (Option Delivery)
  unfolding dispatch
  recvfrom_ack len = do
    got ← Router.recvfrom_ack r fuel mesh buffer_size
    elim got [ none ↦ pure none | some m ↦ dispatch len m ]

  unfoldable pub recvfrom_ack_loop :
      ℕ → (len timeout starttime : ℕ) → Cmd (Node C) (Option Delivery)
  recvfrom_ack_loop zero len timeout starttime n = out_of_fuel
  recvfrom_ack_loop (suc rounds) len timeout starttime n =
      (do
        now ← Datagram.millis r
        let time_left = sub32 timeout (sub32 now starttime)
        if is_positive time_left
            then (do
              ready ← Datagram.wait_available_timeout r fuel (u16 time_left)
              if ready
                  then (do
                    got ← recvfrom_ack len
                    elim got [
                      | some m ↦ pure (some m)
                      | none ↦ recvfrom_ack_loop rounds len timeout starttime
                    ])
                  else recvfrom_ack_loop rounds len timeout starttime)
            else pure none)
        n

  unfoldable pub recvfrom_ack_timeout : (len timeout : ℕ) → Cmd (Node C) (Option Delivery)
  recvfrom_ack_timeout len timeout = do
    starttime ← Datagram.millis r
    recvfrom_ack_loop fuel len timeout starttime
