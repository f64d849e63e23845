-- ===== src/Sketch/Meshes.antt =====
-- examples/rf95_mesh_address1 to examples/rf95_mesh_address4: the sketches of a network of four nodes.
use grove_lo_ra_433mhz_and.Prelude.{ℕ, List, [], ◌∷◌}
use grove_lo_ra_433mhz_and.Prelude.Commands.{Cmd}
use grove_lo_ra_433mhz_and.Driver.{Radio}
use grove_lo_ra_433mhz_and.Node.{Node}
use grove_lo_ra_433mhz_and.Router
use grove_lo_ra_433mhz_and.Mesh
use grove_lo_ra_433mhz_and.Sketch.{Sketch, Manager, hello_back, chat, start}

-- RH_MESH_MAX_MESSAGE_LEN, as the sketches define it again for their buffers.
abbrev pub buffer_size : ℕ
buffer_size = 50

-- The address of node 1, and its answer.
abbrev pub address1 : ℕ
address1 = 1

abbrev pub back1 : List ℕ
back1 =
    hello_back
      (b' ' ∷ b'f' ∷ b'r' ∷ b'o' ∷ b'm' ∷ b' ' ∷ b'm' ∷ b'e' ∷ b's' ∷ b'h' ∷ b' ' ∷ b'1' ∷ 0 ∷ [])

-- The address of node 2, and its answer.
abbrev pub address2 : ℕ
address2 = 2

abbrev pub back2 : List ℕ
back2 =
    hello_back
      (b' ' ∷ b'f' ∷ b'r' ∷ b'o' ∷ b'm' ∷ b' ' ∷ b'm' ∷ b'e' ∷ b's' ∷ b'h' ∷ b' ' ∷ b'2' ∷ 0 ∷ [])

-- The address of node 3, and its answer.
abbrev pub address3 : ℕ
address3 = 3

abbrev pub back3 : List ℕ
back3 =
    hello_back
      (b' ' ∷ b'f' ∷ b'r' ∷ b'o' ∷ b'm' ∷ b' ' ∷ b'm' ∷ b'e' ∷ b's' ∷ b'h' ∷ b' ' ∷ b'3' ∷ 0 ∷ [])

-- The address of node 4, and its answer.
abbrev pub address4 : ℕ
address4 = 4

abbrev pub back4 : List ℕ
back4 =
    hello_back
      (b' ' ∷ b'f' ∷ b'r' ∷ b'o' ∷ b'm' ∷ b' ' ∷ b'm' ∷ b'e' ∷ b's' ∷ b'h' ∷ b' ' ∷ b'4' ∷ 0 ∷ [])

-- The manager of node `k`, in the memory `raw`: the constructor of RHMesh does no more than that of
-- RHRouter.
module _ {C : Type 0} where
  abbrev pub node1 : Node C → Node C
  node1 raw = Router.construct address1 raw

  abbrev pub node2 : Node C → Node C
  node2 raw = Router.construct address2 raw

  abbrev pub node3 : Node C → Node C
  node3 raw = Router.construct address3 raw

  abbrev pub node4 : Node C → Node C
  node4 raw = Router.construct address4 raw

module _ {C : Type 0} (r : Radio C) (fuel : ℕ) where
  -- RHMesh as the manager; it inherits `init`.
  abbrev pub manager : Manager C
  manager = record {
    init = Router.init r fuel;
    sendto_wait = Mesh.sendto_wait r fuel;
    recvfrom_ack = Mesh.recvfrom_ack r fuel;
    recvfrom_ack_timeout = Mesh.recvfrom_ack_timeout r fuel;
  }

  unfoldable pub setup1 : Cmd (Sketch (Node C)) (Unit {0})
  unfolding start
  setup1 = start manager

  unfoldable pub loop1 : (garbage : ℕ) → Cmd (Sketch (Node C)) (Unit {0})
  unfolding chat
  loop1 garbage = chat manager back1 buffer_size garbage

  unfoldable pub setup2 : Cmd (Sketch (Node C)) (Unit {0})
  unfolding start
  setup2 = start manager

  unfoldable pub loop2 : (garbage : ℕ) → Cmd (Sketch (Node C)) (Unit {0})
  unfolding chat
  loop2 garbage = chat manager back2 buffer_size garbage

  unfoldable pub setup3 : Cmd (Sketch (Node C)) (Unit {0})
  unfolding start
  setup3 = start manager

  unfoldable pub loop3 : (garbage : ℕ) → Cmd (Sketch (Node C)) (Unit {0})
  unfolding chat
  loop3 garbage = chat manager back3 buffer_size garbage

  unfoldable pub setup4 : Cmd (Sketch (Node C)) (Unit {0})
  unfolding start
  setup4 = start manager

  unfoldable pub loop4 : (garbage : ℕ) → Cmd (Sketch (Node C)) (Unit {0})
  unfolding chat
  loop4 garbage = chat manager back4 buffer_size garbage
