-- ===== src/Mesh/Listening.antt =====
-- The routing table of a mesh node stays well-formed while it listens.
use grove_lo_ra_433mhz_and.Prelude.{
  ℕ, ◌+◌, ◌≡◌, Option, none, some, [], ◌∷◌, ◌==◌, not, ◌&&◌, length, take, blit, ltb, leb, u8, sub8,
  min, drop,
}
use grove_lo_ra_433mhz_and.Prelude.Commands.{done, pure}
use grove_lo_ra_433mhz_and.Prelude.Post
use grove_lo_ra_433mhz_and.Prelude.Post.{Post}
use grove_lo_ra_433mhz_and.Driver.{Radio, broadcast_address}
use grove_lo_ra_433mhz_and.Node.{Node, set_mesh_message}
use grove_lo_ra_433mhz_and.Router.{Delivery}
use grove_lo_ra_433mhz_and.Router.Invariant.{
  HasTable, KeepsTable, change_table, send_table, source_send_table, receive_table,
}
use grove_lo_ra_433mhz_and.Mesh.{
  answer_request, dispatch, recvfrom_ack, route_offset, message_type, discovery_dest,
  discovery_destlen, type_route_discovery_response, type_route_discovery_request, type_application,
  is_physical_address, buffer_size,
}
use grove_lo_ra_433mhz_and.Mesh.Invariant.{
  add_table, add_all_table, find_table, read_table, mesh_tables,
}

module _ {C : Type 0} (r : Radio C) (fuel : ℕ) where
  answer_table : (source message_len : ℕ) → KeepsTable (answer_request r fuel source message_len)
  unfolding answer_request
  answer_table source message_len = Post.fetch λ n.
      Post.strengthen (λ s p. p.0)
        (Post.bind (find_table (sub8 message_len 3) n.mesh_message n.this_address 0) λ found.
          Post.whenever (found == sub8 message_len 3) λ _.
            Post.next (add_table source n.device.driver.rx_header_from) (
              Post.next
                (add_all_table (sub8 message_len 3) n.mesh_message n.device.driver.rx_header_from 0)
                (Post.branch
                  (is_physical_address (discovery_dest n.mesh_message)
                    (discovery_destlen n.mesh_message) n)
                  (λ _.
                    Post.next
                      (change_table (set_mesh_message (blit 0 (type_route_discovery_response ∷ [])))
                        λ s p. p)
                      (Post.fetch λ m.
                        Post.strengthen (λ s p. p.0)
                          (Post.next
                            (send_table r fuel (mesh_tables r fuel)
                              (take message_len m.mesh_message) source 0)
                            (Post.returns λ s p. p))))
                  (λ _. Post.whenever (ltb (sub8 message_len 3) n.max_hops) λ _.
                    Post.next (read_table n.mesh_message (route_offset + sub8 message_len 3)) (
                      Post.next
                        (change_table
                          (set_mesh_message
                            (blit (route_offset + sub8 message_len 3) (n.this_address ∷ [])))
                          λ s p. p)
                        (Post.fetch λ m.
                          Post.strengthen (λ s p. p.0)
                            (Post.next
                              (source_send_table r fuel (mesh_tables r fuel)
                                (take (u8 (message_len + 1)) m.mesh_message) broadcast_address
                                source 0)
                              (Post.returns λ s p. p))))))))

  dispatch_table : (len : ℕ) (m : Delivery) → KeepsTable (dispatch r fuel len m)
  unfolding dispatch
  dispatch_table len m = Post.next (change_table (set_mesh_message (blit 0 m.payload)) λ s p. p) (
      Post.fetch λ n.
        Post.strengthen (λ s p. p.0)
          (Post.branch (leb 1 (length m.payload) && message_type n.mesh_message == type_application)
            {m = pure (
              some (record m {
                payload = take (min len (sub8 (length m.payload) 1)) (drop 1 n.mesh_message);
              }))}
            (λ _. Post.returns λ s p. p)
            (λ _.
              Post.next {k = pure none}
                (Post.whenever
                  (m.dest == broadcast_address
                    && ltb 1 (length m.payload)
                    && message_type n.mesh_message == type_route_discovery_request
                    && not (m.source == n.this_address))
                  λ _. answer_table m.source (length m.payload))
                (Post.returns λ s p. p))))

  pub recvfrom_table : (len : ℕ) → KeepsTable (recvfrom_ack r fuel len)
  unfolding recvfrom_ack
  recvfrom_table len = Post.bind (receive_table r fuel (mesh_tables r fuel) buffer_size) handle
    where
      handle :
          (got : Option Delivery)
          → KeepsTable {C = C} {A = Option Delivery}
              (elim got [ none ↦ pure none | some m ↦ dispatch r fuel len m ])
      handle none = Post.returns λ s p. p
      handle (some m) = dispatch_table len m

  -- A table that is well-formed before `recvfrom_ack` is so when it returns, whatever it receives.
  pub recvfrom_ack-HasTable :
      (len : ℕ) (n : Node C) {got : Option Delivery} {t : Node C}
      → HasTable n
      → recvfrom_ack r fuel len n ≡ done got t
      → HasTable t
  recvfrom_ack-HasTable len n h e = (recvfrom_table len).apply h e
