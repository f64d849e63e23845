-- ===== src/Mesh/Timeouts.antt =====
-- RHMesh::recvfromAckTimeout keeps the routing table well-formed.
use grove_lo_ra_433mhz_and.Prelude.{ℕ, zero, suc, Option, none, some, u16, sub32}
use grove_lo_ra_433mhz_and.Prelude.Commands.{pure}
use grove_lo_ra_433mhz_and.Prelude.Post
use grove_lo_ra_433mhz_and.Prelude.Post.{Post}
use grove_lo_ra_433mhz_and.Driver.{Radio}
use grove_lo_ra_433mhz_and.Driver.Wait
use grove_lo_ra_433mhz_and.Reliable.{is_positive}
use grove_lo_ra_433mhz_and.Router.{Delivery}
use grove_lo_ra_433mhz_and.Router.Invariant.{KeepsTable, device_table}
use grove_lo_ra_433mhz_and.Mesh.{recvfrom_ack_loop, recvfrom_ack_timeout}
use grove_lo_ra_433mhz_and.Mesh.Listening.{recvfrom_table}

module _ {C : Type 0} (r : Radio C) (fuel : ℕ) where
  loop_table :
      (rounds len timeout starttime : ℕ)
      → KeepsTable (recvfrom_ack_loop r fuel rounds len timeout starttime)
  unfolding recvfrom_ack_loop
  loop_table zero len timeout starttime = record { apply = λ p h. cc }
  loop_table (suc rounds) len timeout starttime = Post.bind (device_table r.millis) λ now.
      Post.branch (is_positive (sub32 timeout (sub32 now starttime)))
        (λ _.
          Post.bind
            (device_table (
              Wait.wait_available_timeout r.available r.millis fuel
                (u16 (sub32 timeout (sub32 now starttime)))))
            λ ready.
              Post.branch ready
                (λ _.
                  Post.bind (recvfrom_table r fuel len)
                    (look (loop_table rounds len timeout starttime)))
                (λ _. loop_table rounds len timeout starttime))
        (λ _. Post.returns λ s p. p)
    where
      look :
          KeepsTable (recvfrom_ack_loop r fuel rounds len timeout starttime)
          → (got : Option Delivery)
          → KeepsTable {C = C} {A = Option Delivery} (elim got [
            | some m ↦ pure (some m)
            | none ↦ recvfrom_ack_loop r fuel rounds len timeout starttime
          ])
      look again none = again
      look again (some m) = Post.returns λ s p. p

  pub timeout_table : (len timeout : ℕ) → KeepsTable (recvfrom_ack_timeout r fuel len timeout)
  unfolding recvfrom_ack_timeout
  timeout_table len timeout =
      Post.bind (device_table r.millis) λ starttime. loop_table fuel len timeout starttime
