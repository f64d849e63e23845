-- ===== src/Node/Frame.antt =====
-- What the calls of the driver leave alone: everything in a node but its device.
use grove_lo_ra_433mhz_and.Prelude.{ℕ, ◌≡◌, refl, Option, none, some, List}
use grove_lo_ra_433mhz_and.Prelude.Commands.{Run, done, Cmd, pure, gets}
use grove_lo_ra_433mhz_and.Prelude.Post
use grove_lo_ra_433mhz_and.Prelude.Post.{Post, done_subst}
use grove_lo_ra_433mhz_and.Driver.{Driver, Device, Radio}
use grove_lo_ra_433mhz_and.Node.{Node, on_device, on_driver}
use grove_lo_ra_433mhz_and.Datagram
use grove_lo_ra_433mhz_and.Datagram.{
  Message, set_header_to, set_header_from, set_header_id, set_header_flags, sendto, recvfrom,
}

-- A condition that says nothing of the device.
abbrev pub IsStable : {C : Type 0} → (Node C → Type 0) → Type 0
IsStable {C} P = (n : Node C) (d : Device C) → P n → P (record n { device = d })

-- The headers of the driver, as `recvfrom` has read them.
abbrev pub HasHeaders : {C : Type 0} → Option Message → Node C → Type 0
HasHeaders none n = Unit {0}
HasHeaders (some m) n =
    (m.from ≡ n.device.driver.rx_header_from)
    × (m.to ≡ n.device.driver.rx_header_to)
    × (m.id ≡ n.device.driver.rx_header_id)
    × (m.flags ≡ n.device.driver.rx_header_flags)

module _ {C : Type 0} {P : Node C → Type 0} (stable : IsStable P) where
  on_device-stable :
      {A : Type 0} (m : Cmd (Device C) A) {n t : Node C} {a : A}
      → P n
      → on_device m n ≡ done a t
      → P t
  on_device-stable {A} m {n} p h = go (m n.device) refl h
    where
      go :
          (x : Run (Device C) A)
          → m n.device ≡ x
          → {t : Node C} {a : A}
          → elim x [
            | done a d ↦ done a (record n { device = d })
            | Run.fault ↦ Run.fault
            | Run.out_of_fuel ↦ Run.out_of_fuel
          ]
            ≡ done a t
          → P t
      go (done a d) e h = done_subst (λ _. P) h (stable n d p)
      go Run.fault e h = cc
      go Run.out_of_fuel e h = cc

  pub on_device-Post : {A : Type 0} (m : Cmd (Device C) A) → Post P (on_device m) (λ _. P)
  on_device-Post m = record { apply = on_device-stable m }

  pub on_driver-Post : (f : Driver → Driver) → Post P (on_driver f) (λ _. P)
  on_driver-Post f = record { apply = λ p h. done_subst (λ _. P) h (stable _ _ p) }

  pub set_header_id-Post : (id : ℕ) → Post P (set_header_id id) (λ _. P)
  unfolding set_header_id
  set_header_id-Post id = on_driver-Post _

  pub set_header_flags-Post : (set clear : ℕ) → Post P (set_header_flags set clear) (λ _. P)
  unfolding set_header_flags
  set_header_flags-Post set clear = on_driver-Post _

  pub sendto-Post :
      (r : Radio C) (buf : List ℕ) (address : ℕ) → Post P (sendto r buf address) (λ _. P)
  unfolding sendto set_header_to
  sendto-Post r buf address = Post.next (on_driver-Post _) (on_device-Post (r.send buf))

  pub recvfrom-Post :
      (r : Radio C) (len : Option ℕ) → Post P (recvfrom r len) (λ got n. P n × HasHeaders got n)
  unfolding recvfrom
  recvfrom-Post r len = Post.bind (on_device-Post (r.recv len)) λ got. payload got
    where
      payload :
          (got : Option (List ℕ))
          → Post P
              (elim got [
                | none ↦ pure none
                | some octets ↦ gets (λ n. some (Datagram.message octets n.device.driver))
              ])
              (λ got n. P n × HasHeaders got n)
      payload none = Post.returns (λ s p. (p, tt))
      payload (some octets) = record {
        apply = λ p h. done_subst (λ got n. P n × HasHeaders got n) h (p, (refl, refl, refl, refl));
      }
