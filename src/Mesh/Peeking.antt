-- ===== src/Mesh/Peeking.antt =====
-- What RHMesh::peekAtMessage takes from the messages that pass, with the messages of RHMesh.h.
use grove_lo_ra_433mhz_and.Prelude.{
  ℕ, zero, suc, ◌+◌, ◌-◌, ◌==◌, ltb, if◌then◌else◌, ◌&&◌, List, get_or, u8, sub8,
}
use grove_lo_ra_433mhz_and.Prelude.Commands.{
  Cmd, pure, get, gets, modify, when, read_at, ◌>>=◌, ◌>>◌,
}
use grove_lo_ra_433mhz_and.Node.{Node, set_routes}
use grove_lo_ra_433mhz_and.Router.{message_data}
use grove_lo_ra_433mhz_and.Table.{valid, add_route_to, delete_route_to}

abbrev pub type_application : ℕ
type_application = 0

abbrev pub type_route_discovery_request : ℕ
type_route_discovery_request = 1

abbrev pub type_route_discovery_response : ℕ
type_route_discovery_response = 2

abbrev pub type_route_failure : ℕ
type_route_failure = 3

abbrev pub arp_timeout : ℕ
arp_timeout = 4000

-- RH_MESH_MAX_MESSAGE_LEN and sizeof(_tmpMessage)
abbrev pub max_message_len : ℕ
max_message_len = 249

abbrev pub buffer_size : ℕ
buffer_size = 250

-- The layouts of the messages: every one begins with its type. A discovery message goes on with
-- `destlen`, `dest` and the nodes visited, a failure message with `dest`.
abbrev pub message_type : List ℕ → ℕ
message_type m = get_or m 0 0

abbrev pub discovery_destlen : List ℕ → ℕ
discovery_destlen m = get_or m 1 0

abbrev pub discovery_dest : List ℕ → ℕ
discovery_dest m = get_or m 2 0

abbrev pub failure_dest : List ℕ → ℕ
failure_dest m = get_or m 1 0

-- Where `route[i]` of a discovery message stands.
abbrev pub route_offset : ℕ
route_offset = 3

module _ {C : Type 0} where
  abbrev pub add_route : (dest next_hop : ℕ) → Cmd (Node C) (Unit {0})
  add_route dest next_hop = modify (set_routes (add_route_to dest next_hop valid))

  abbrev pub delete_route : ℕ → Cmd (Node C) (Unit {0})
  delete_route dest = modify (set_routes (λ t. (delete_route_to dest t).1))

  abbrev pub header_from : Cmd (Node C) ℕ
  header_from = gets (λ n. n.device.driver.rx_header_from)

  -- `for (i = ...; i < numRoutes; i++) if (route[i] == address) break;` over the octets `m`, with the
  -- rounds that are left; the result is `i`.
  unfoldable pub find_route : ℕ → List ℕ → (address i : ℕ) → Cmd (Node C) ℕ
  find_route zero m address i = pure i
  find_route (suc left) m address i = do
    x ← read_at m (route_offset + i)
    if x == address then pure i else (find_route left m address (i + 1))

  -- `for (i = ...; i < numRoutes; i++) addRouteTo(route[i], next_hop);`
  unfoldable pub add_routes : ℕ → List ℕ → (next_hop i : ℕ) → Cmd (Node C) (Unit {0})
  add_routes zero m next_hop i = pure tt
  add_routes (suc left) m next_hop i = do
    x ← read_at m (route_offset + i)
    add_route x next_hop
    add_routes left m next_hop (i + 1)

  -- `while (i++ < numRoutes) addRouteTo(route[i], next_hop);`
  unfoldable pub scrape_routes : ℕ → List ℕ → (next_hop i : ℕ) → Cmd (Node C) (Unit {0})
  scrape_routes zero m next_hop i = pure tt
  scrape_routes (suc left) m next_hop i = do
    x ← read_at m (route_offset + (i + 1))
    add_route x next_hop
    scrape_routes left m next_hop (i + 1)

  unfoldable pub peek_at_response : ℕ → Cmd (Node C) (Unit {0})
  unfolding find_route scrape_routes
  peek_at_response message_len = do
    n ← get
    let m = message_data n.router_message
    let from = n.device.driver.rx_header_from
    add_route (discovery_dest m) from
    let num_routes = sub8 message_len 8
    found ← find_route num_routes m n.this_address 0
    let i = u8 (found + 1)
    scrape_routes (num_routes - i) m from i

  unfoldable pub peek_at_message : ℕ → Cmd (Node C) (Unit {0})
  unfolding peek_at_response
  peek_at_message message_len = do
    n ← get
    let m = message_data n.router_message
    if ltb 1 message_len && message_type m == type_route_discovery_response
        then peek_at_response message_len
        else when (ltb 1 message_len && message_type m == type_route_failure)
            (delete_route (failure_dest m))
