-- ===== src/Mesh/Calls.antt =====
-- Sequences of calls of a mesh node, as an application makes them.
use grove_lo_ra_433mhz_and.Prelude.{ℕ, ◌≡◌, Option, List}
use grove_lo_ra_433mhz_and.Prelude.Commands.{done}
use grove_lo_ra_433mhz_and.Driver.{Radio}
use grove_lo_ra_433mhz_and.Node.{Node}
use grove_lo_ra_433mhz_and.Router.{Delivery}
use grove_lo_ra_433mhz_and.Router.Invariant.{HasTable}
use grove_lo_ra_433mhz_and.Mesh.{sendto_wait, recvfrom_ack, recvfrom_ack_timeout}
use grove_lo_ra_433mhz_and.Mesh.Discovery.{sendto_wait-HasTable}
use grove_lo_ra_433mhz_and.Mesh.Listening.{recvfrom_ack-HasTable}
use grove_lo_ra_433mhz_and.Mesh.Timeouts.{timeout_table}

module _ {C : Type 0} (r : Radio C) (fuel : ℕ) where
  -- A call that returns.
  pub data Call : Node C → Node C → Type 0 where
    sends :
        {n t : Node C} (buf : List ℕ) (address flags code : ℕ)
        → sendto_wait r fuel buf address flags n ≡ done code t
        → Call n t
    receives :
        {n t : Node C} (len : ℕ) (got : Option Delivery)
        → recvfrom_ack r fuel len n ≡ done got t
        → Call n t
    waits :
        {n t : Node C} (len timeout : ℕ) (got : Option Delivery)
        → recvfrom_ack_timeout r fuel len timeout n ≡ done got t
        → Call n t

  pub data Calls : Node C → Node C → Type 0 where
    none_left : {n : Node C} → Calls n n
    and_then : {n m t : Node C} → Call n m → Calls m t → Calls n t

  Call-HasTable : {n t : Node C} → HasTable n → Call n t → HasTable t
  Call-HasTable {n} h (sends buf address flags code e) =
      sendto_wait-HasTable r fuel buf address flags n h e
  Call-HasTable {n} h (receives len got e) = recvfrom_ack-HasTable r fuel len n h e
  Call-HasTable h (waits len timeout got e) = (timeout_table r fuel len timeout).apply h e

  -- A routing table that is well-formed stays so in any sequence of calls of `sendtoWait`, `recvfromAck` and
  -- `recvfromAckTimeout` of RHMesh that return, whatever the node discovers, receives and routes.
  Calls-HasTable : {n t : Node C} → HasTable n → Calls n t → HasTable t
  Calls-HasTable h none_left = h
  Calls-HasTable h (and_then c cs) = Calls-HasTable (Call-HasTable h c) cs
