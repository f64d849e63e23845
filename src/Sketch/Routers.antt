-- ===== src/Sketch/Routers.antt =====
-- examples/rf95_router_address1 to examples/rf95_router_address4: the sketches of a network of four nodes.
use grove_lo_ra_433mhz_and.Prelude.{ℕ, List, [], ◌∷◌}
use grove_lo_ra_433mhz_and.Prelude.Commands.{Cmd, modify, ◌>>◌}
use grove_lo_ra_433mhz_and.Driver.{Radio}
use grove_lo_ra_433mhz_and.Node.{Node, set_routes}
use grove_lo_ra_433mhz_and.Router
use grove_lo_ra_433mhz_and.Table.{add_route_to, valid}
use grove_lo_ra_433mhz_and.Sketch.{Sketch, Manager, on_state, hello_back, chat, start}

-- RH_ROUTER_MAX_MESSAGE_LEN, the size of the buffers.
abbrev pub buffer_size : ℕ
buffer_size = 250

-- The address of node 1, and its answer.
abbrev pub address1 : ℕ
address1 = 1

abbrev pub back1 : List ℕ
back1 = hello_back (
    b' ' ∷ b'f' ∷ b'r' ∷ b'o' ∷ b'm' ∷ b' ' ∷ b'r' ∷ b'o' ∷ b'u' ∷ b't' ∷ b'e' ∷ b'r' ∷ b' ' ∷ b'1'
    ∷ 0 ∷ [])

-- The address of node 2, and its answer.
abbrev pub address2 : ℕ
address2 = 2

abbrev pub back2 : List ℕ
back2 = hello_back (
    b' ' ∷ b'f' ∷ b'r' ∷ b'o' ∷ b'm' ∷ b' ' ∷ b'r' ∷ b'o' ∷ b'u' ∷ b't' ∷ b'e' ∷ b'r' ∷ b' ' ∷ b'2'
    ∷ 0 ∷ [])

-- The address of node 3, and its answer.
abbrev pub address3 : ℕ
address3 = 3

abbrev pub back3 : List ℕ
back3 = hello_back (
    b' ' ∷ b'f' ∷ b'r' ∷ b'o' ∷ b'm' ∷ b' ' ∷ b'r' ∷ b'o' ∷ b'u' ∷ b't' ∷ b'e' ∷ b'r' ∷ b' ' ∷ b'3'
    ∷ 0 ∷ [])

-- The address of node 4, and its answer.
abbrev pub address4 : ℕ
address4 = 4

abbrev pub back4 : List ℕ
back4 = hello_back (
    b' ' ∷ b'f' ∷ b'r' ∷ b'o' ∷ b'm' ∷ b' ' ∷ b'r' ∷ b'o' ∷ b'u' ∷ b't' ∷ b'e' ∷ b'r' ∷ b' ' ∷ b'4'
    ∷ 0 ∷ [])

-- The manager of node `k`, in the memory `raw`.
module _ {C : Type 0} where
  abbrev pub node1 : Node C → Node C
  node1 raw = Router.construct address1 raw

  abbrev pub node2 : Node C → Node C
  node2 raw = Router.construct address2 raw

  abbrev pub node3 : Node C → Node C
  node3 raw = Router.construct address3 raw

  abbrev pub node4 : Node C → Node C
  node4 raw = Router.construct address4 raw

module _ {C : Type 0} (r : Radio C) (fuel : ℕ) where
  -- RHRouter as the manager.
  abbrev pub manager : Manager C
  manager = record {
    init = Router.init r fuel;
    sendto_wait = Router.sendto_wait r fuel (Router.router r fuel);
    recvfrom_ack = Router.recvfrom_ack r fuel (Router.router r fuel);
    recvfrom_ack_timeout = Router.recvfrom_ack_timeout r fuel (Router.router r fuel);
  }

  -- `addRouteTo(dest, next_hop)`
  abbrev pub add_route : (dest next_hop : ℕ) → Cmd (Sketch (Node C)) (Unit {0})
  add_route dest next_hop = on_state (modify (set_routes (add_route_to dest next_hop valid)))

  unfoldable pub setup1 : Cmd (Sketch (Node C)) (Unit {0})
  unfolding start
  setup1 = do
    start manager
    add_route address2 address2
    add_route address3 address2
    add_route address4 address2

  unfoldable pub loop1 : (garbage : ℕ) → Cmd (Sketch (Node C)) (Unit {0})
  unfolding chat
  loop1 garbage = chat manager back1 buffer_size garbage

  unfoldable pub setup2 : Cmd (Sketch (Node C)) (Unit {0})
  unfolding start
  setup2 = do
    start manager
    add_route address1 address1
    add_route address3 address3
    add_route address4 address3

  unfoldable pub loop2 : (garbage : ℕ) → Cmd (Sketch (Node C)) (Unit {0})
  unfolding chat
  loop2 garbage = chat manager back2 buffer_size garbage

  unfoldable pub setup3 : Cmd (Sketch (Node C)) (Unit {0})
  unfolding start
  setup3 = do
    start manager
    add_route address1 address2
    add_route address2 address2
    add_route address4 address4

  unfoldable pub loop3 : (garbage : ℕ) → Cmd (Sketch (Node C)) (Unit {0})
  unfolding chat
  loop3 garbage = chat manager back3 buffer_size garbage

  unfoldable pub setup4 : Cmd (Sketch (Node C)) (Unit {0})
  unfolding start
  setup4 = do
    start manager
    add_route address1 address3
    add_route address2 address3
    add_route address3 address3

  unfoldable pub loop4 : (garbage : ℕ) → Cmd (Sketch (Node C)) (Unit {0})
  unfolding chat
  loop4 garbage = chat manager back4 buffer_size garbage
