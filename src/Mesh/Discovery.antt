-- ===== src/Mesh/Discovery.antt =====
-- RHMesh::doArp and RHMesh::sendtoWait: what they leave in the routing table.
use grove_lo_ra_433mhz_and.Prelude.{
  ℕ, zero, suc, ◌+◌, ◌≡◌, refl, Option, none, some, Bool, true, false, List, [], ◌∷◌, arith, ◌==◌,
  if◌then◌else◌, ◌||◌, ◌&&◌, length, take, blit, ltb, u16, sub32, is_some,
}
use mathlib.Core.Path.{subst, sym}
use grove_lo_ra_433mhz_and.Prelude.Commands.{done, pure, modify, get, ◌>>=◌, ◌>>◌}
use grove_lo_ra_433mhz_and.Prelude.Post
use grove_lo_ra_433mhz_and.Prelude.Post.{Post}
use grove_lo_ra_433mhz_and.Driver.{Radio, broadcast_address}
use grove_lo_ra_433mhz_and.Driver.Wait
use grove_lo_ra_433mhz_and.Node.{Node, set_routes, set_mesh_message}
use grove_lo_ra_433mhz_and.Reliable.{is_positive}
use grove_lo_ra_433mhz_and.Router.{Delivery, error_none}
use grove_lo_ra_433mhz_and.Router.Invariant.{
  HasTable, KeepsTable, device_table, change_table, send_table, receive_table,
}
use grove_lo_ra_433mhz_and.Mesh.{
  add_route, arp_loop, do_arp, send_application, sendto_wait, message_type,
  type_route_discovery_response, type_route_discovery_request, type_application, arp_timeout,
  buffer_size, max_message_len,
}
use grove_lo_ra_433mhz_and.Mesh.Invariant.{mesh_tables}
use grove_lo_ra_433mhz_and.Table.{valid, entry, add_route_to, get_route_to}
use grove_lo_ra_433mhz_and.Table.Order.{get-add_route_to}
use grove_lo_ra_433mhz_and.Table.Invariant.{add_route_to-IsTable}

-- There is a route to `address`, through the neighbour that sent the last message received.
abbrev pub FindsRoute : {C : Type 0} → ℕ → Node C → Type 0
FindsRoute address n =
    get_route_to address n.routes ≡ some (entry address n.device.driver.rx_header_from valid)

-- The table is well-formed, and if discovery succeeded it has a route.
abbrev Discovered : {C : Type 0} → ℕ → Bool → Node C → Type 0
Discovered address found n = HasTable n × (found ≡ true → FindsRoute address n)

add-FindsRoute :
    {C : Type 0} (address : ℕ) (n : Node C)
    → HasTable n
    → FindsRoute address (set_routes (add_route_to address n.device.driver.rx_header_from valid) n)
add-FindsRoute address n h = ground (
  arith,
  get-add_route_to address n.device.driver.rx_header_from valid address n.routes
      (omega (arith, h.size)) (omega arith) h.order,
)

module _ {C : Type 0} (r : Radio C) (fuel : ℕ) where
  gives_up : (address : ℕ) → Post {S = Node C} HasTable (pure false) (Discovered address)
  gives_up address = Post.returns λ s p. (p, λ h. cc)

  take_reply :
      (address : ℕ) (n : Node C)
      → Post
          (λ s. HasTable s × (n ≡ s))
          (add_route address n.device.driver.rx_header_from >> pure true)
          (Discovered address)
  take_reply address n =
      Post.next
        (Post.modifies {f = set_routes (add_route_to address n.device.driver.rx_header_from valid)}
          {Q = Discovered address true}
          λ s p.
            subst
              (λ s.
                Discovered address true
                  (set_routes (add_route_to address n.device.driver.rx_header_from valid) s))
              p.1
              (
                add_route_to-IsTable address n.device.driver.rx_header_from valid (omega arith)
                    (subst HasTable (sym p.1) p.0),
                λ h. add-FindsRoute address n (subst HasTable (sym p.1) p.0),
              ))
        (Post.returns λ s p. p)

  arp_loop_found :
      (rounds message_len address starttime : ℕ)
      → Post HasTable (arp_loop r fuel rounds message_len address starttime) (Discovered address)
  unfolding arp_loop
  arp_loop_found zero message_len address starttime = record { apply = λ p h. cc }
  arp_loop_found (suc rounds) message_len address starttime =
      Post.bind (device_table r.millis) λ now.
        Post.branch (is_positive (sub32 arp_timeout (sub32 now starttime)))
          (λ _.
            Post.bind
              (device_table (
                Wait.wait_available_timeout r.available r.millis fuel
                  (u16 (sub32 arp_timeout (sub32 now starttime)))))
              λ ready.
                Post.branch ready
                  (λ _.
                    Post.bind (receive_table r fuel (mesh_tables r fuel) message_len)
                      (look λ length. arp_loop_found rounds length address starttime))
                  (λ _. arp_loop_found rounds message_len address starttime))
          (λ _. gives_up address)
    where
      look :
          ((length : ℕ)
            → Post HasTable (arp_loop r fuel rounds length address starttime) (Discovered address))
          → (got : Option Delivery)
          → Post {S = Node C} {A = Bool} HasTable
              (elim got [
                | none ↦ arp_loop r fuel rounds message_len address starttime
                | some m ↦
                    modify (set_mesh_message (blit 0 m.payload))
                    >> (get >>= (λ n.
                        if ltb 1 (length m.payload)
                          && message_type n.mesh_message == type_route_discovery_response
                        then (add_route address n.device.driver.rx_header_from >> pure true)
                        else arp_loop r fuel rounds (length m.payload) address starttime))
              ])
              (Discovered address)
      look again none = again message_len
      look again (some m) =
          Post.next (change_table (set_mesh_message (blit 0 m.payload)) λ s p. p) (
            Post.fetch λ n.
              Post.branch
                (ltb 1 (length m.payload)
                  && message_type n.mesh_message == type_route_discovery_response)
                (λ _. take_reply address n)
                (λ _. Post.strengthen (λ s p. p.0) (again (length m.payload))))

  do_arp_found : (address : ℕ) → Post HasTable (do_arp r fuel address) (Discovered address)
  unfolding do_arp
  do_arp_found address =
      Post.next
        (change_table (set_mesh_message (blit 0 (type_route_discovery_request ∷ 1 ∷ address ∷ [])))
          λ s p. p)
        (Post.bind
          (send_table r fuel (mesh_tables r fuel) (type_route_discovery_request ∷ 1 ∷ address ∷ [])
            broadcast_address 0)
          λ error.
            Post.branch (error == error_none)
              (λ _.
                Post.bind (device_table r.millis)
                  λ starttime. arp_loop_found fuel buffer_size address starttime)
              (λ _. gives_up address))

  -- When route discovery returns true from a well-formed table, the table has a valid route to the
  -- address asked for, through the node from which the last message came, and is well-formed.
  pub do_arp-FindsRoute :
      (address : ℕ) (n : Node C) {t : Node C}
      → HasTable n
      → do_arp r fuel address n ≡ done true t
      → HasTable t × FindsRoute address t
  do_arp-FindsRoute address n h e =
      let (table, found) = (do_arp_found address).apply h e in (table, found refl)

  application_table :
      (buf : List ℕ) (address flags : ℕ) → KeepsTable (send_application r fuel buf address flags)
  unfolding send_application
  application_table buf address flags =
      Post.next (change_table (set_mesh_message (blit 0 (type_application ∷ buf))) λ s p. p) (
        Post.fetch λ n.
          Post.strengthen (λ s p. p.0)
            (send_table r fuel (mesh_tables r fuel) (take (1 + length buf) n.mesh_message) address
              flags))

  pub sendto_table :
      (buf : List ℕ) (address flags : ℕ) → KeepsTable (sendto_wait r fuel buf address flags)
  unfolding sendto_wait
  sendto_table buf address flags =
      Post.branch (ltb max_message_len (length buf)) (λ _. Post.returns λ s p. p)
        (λ _. Post.fetch λ n.
          Post.strengthen (λ s p. p.0)
            (Post.branch (address == broadcast_address || is_some (get_route_to address n.routes))
              (λ _. application_table buf address flags)
              (λ _. Post.bind (Post.weaken (do_arp_found address) λ found s p. p.0) λ found.
                Post.branch found (λ _. application_table buf address flags)
                  (λ _. Post.returns λ s p. p))))

  -- A table that is well-formed before `sendto_wait` is so when it returns, whatever it returns.
  pub sendto_wait-HasTable :
      (buf : List ℕ) (address flags : ℕ) (n : Node C) {code : ℕ} {t : Node C}
      → HasTable n
      → sendto_wait r fuel buf address flags n ≡ done code t
      → HasTable t
  sendto_wait-HasTable buf address flags n h e = (sendto_table buf address flags).apply h e
