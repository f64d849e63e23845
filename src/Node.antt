-- ===== src/Node.antt =====
-- The state of a node: the fields of RHDatagram.h, RHReliableDatagram.h, RHRouter.h and RHMesh.h,
-- which one object holds, each class extending the one before, and the static message buffers.
pub mod Frame
use grove_lo_ra_433mhz_and.Prelude.{ℕ, ◌==◌, if◌then◌else◌, List}
use grove_lo_ra_433mhz_and.Prelude.Commands.{Cmd, Run, done}
use grove_lo_ra_433mhz_and.Driver.{Driver, Device}
use grove_lo_ra_433mhz_and.Table.{Table}

-- `router_message` is RHRouter::_tmpMessage as bytes: five octets of header, then the data.
-- `mesh_message` is RHMesh::_tmpMessage.
pub record Node (C : Type 0) : Type 0 where
  pub device : Device C
  pub this_address : ℕ
  pub retransmissions : ℕ
  pub last_sequence_number : ℕ
  pub timeout : ℕ
  pub retries : ℕ
  pub seen_ids : ℕ → ℕ
  pub last_e2e_sequence_number : ℕ
  pub max_hops : ℕ
  pub routes : Table
  pub router_message : List ℕ
  pub mesh_message : List ℕ

module _ {C : Type 0} where
  -- A call of the driver.
  abbrev pub on_device : {A : Type 0} → Cmd (Device C) A → Cmd (Node C) A
  on_device m n = elim (m n.device) [
    | done a d ↦ done a (record n { device = d })
    | Run.fault ↦ Run.fault
    | Run.out_of_fuel ↦ Run.out_of_fuel
  ]

  abbrev pub on_driver : (Driver → Driver) → Cmd (Node C) (Unit {0})
  on_driver f n = done tt (record n { device = record (n.device) { driver = f n.device.driver } })

  abbrev pub set_routes : (Table → Table) → Node C → Node C
  set_routes f n = record n { routes = f n.routes }

  abbrev pub set_router_message : (List ℕ → List ℕ) → Node C → Node C
  set_router_message f n = record n { router_message = f n.router_message }

  abbrev pub set_mesh_message : (List ℕ → List ℕ) → Node C → Node C
  set_mesh_message f n = record n { mesh_message = f n.mesh_message }

-- One entry of an array that is indexed by a byte.
abbrev pub update : (ℕ → ℕ) → ℕ → ℕ → ℕ → ℕ
update f i v j = if i == j then v else f j
