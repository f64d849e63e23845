-- ===== src/Mesh/Invariant.antt =====
-- The routing table of a mesh node stays well-formed under every operation of RHMesh.
use grove_lo_ra_433mhz_and.Prelude.{
  ℕ, zero, suc, ◌+◌, ◌-◌, Option, none, some, List, [], ◌∷◌, arith, ◌==◌, ◌||◌, ◌&&◌, blit, ltb, u8,
  sub8, get_elem?,
}
use grove_lo_ra_433mhz_and.Prelude.Commands.{done, fault, read_at}
use grove_lo_ra_433mhz_and.Prelude.Post
use grove_lo_ra_433mhz_and.Prelude.Post.{Post}
use grove_lo_ra_433mhz_and.Driver.{Radio}
use grove_lo_ra_433mhz_and.Node.{set_routes, set_mesh_message}
use grove_lo_ra_433mhz_and.Router.{
  Overrides, error_no_route, error_unable_to_deliver, message_data, message_dest, message_source,
}
use grove_lo_ra_433mhz_and.Router.Invariant.{
  KeepsTable, KeepTables, change_table, route_table, send_table,
}
use grove_lo_ra_433mhz_and.Mesh.{
  add_route, delete_route, find_route, add_routes, scrape_routes, peek_at_response, peek_at_message,
  report_failure, route, mesh, route_offset, message_type, discovery_dest, failure_dest,
  type_route_failure, type_route_discovery_response,
}
use grove_lo_ra_433mhz_and.Table.{valid, add_route_to, delete_route_to}
use grove_lo_ra_433mhz_and.Table.Invariant.{add_route_to-IsTable, delete_route_to-IsTable}

module _ {C : Type 0} where
  pub read_table : (m : List ℕ) (i : ℕ) → KeepsTable {C = C} (read_at m i)
  read_table m i = found (get_elem? m i)
    where
      found :
          (o : Option ℕ)
          → KeepsTable {C = C} {A = ℕ} (λ n. elim o [ some x ↦ done x n | none ↦ fault ])
      found none = record { apply = λ p h. cc }
      found (some x) = Post.returns λ s p. p

  pub add_table : (dest next_hop : ℕ) → KeepsTable {C = C} (add_route dest next_hop)
  add_table dest next_hop =
      change_table (set_routes (add_route_to dest next_hop valid))
        λ n p. add_route_to-IsTable dest next_hop valid (omega arith) p

  delete_table : (dest : ℕ) → KeepsTable {C = C} (delete_route dest)
  delete_table dest =
      change_table (set_routes (λ t. (delete_route_to dest t).1))
        λ n p. delete_route_to-IsTable dest p

  pub find_table :
      (left : ℕ) (m : List ℕ) (address i : ℕ) → KeepsTable {C = C} (find_route left m address i)
  unfolding find_route
  find_table zero m address i = Post.returns λ s p. p
  find_table (suc left) m address i = Post.bind (read_table m (route_offset + i)) λ x.
      Post.branch (x == address) (λ _. Post.returns λ s p. p)
        (λ _. find_table left m address (i + 1))

  pub add_all_table :
      (left : ℕ) (m : List ℕ) (next_hop i : ℕ) → KeepsTable {C = C} (add_routes left m next_hop i)
  unfolding add_routes
  add_all_table zero m next_hop i = Post.returns λ s p. p
  add_all_table (suc left) m next_hop i =
      Post.bind (read_table m (route_offset + i))
        λ x. Post.next (add_table x next_hop) (add_all_table left m next_hop (i + 1))

  scrape_table :
      (left : ℕ) (m : List ℕ) (next_hop i : ℕ)
      → KeepsTable {C = C} (scrape_routes left m next_hop i)
  unfolding scrape_routes
  scrape_table zero m next_hop i = Post.returns λ s p. p
  scrape_table (suc left) m next_hop i =
      Post.bind (read_table m (route_offset + (i + 1)))
        λ x. Post.next (add_table x next_hop) (scrape_table left m next_hop (i + 1))

  response_table : (message_len : ℕ) → KeepsTable {C = C} (peek_at_response message_len)
  unfolding peek_at_response
  response_table message_len = Post.fetch λ n.
      Post.strengthen (λ s p. p.0)
        (Post.next
          (add_table (discovery_dest (message_data n.router_message))
            n.device.driver.rx_header_from)
          (Post.bind
            (find_table (sub8 message_len 8) (message_data n.router_message) n.this_address 0)
            λ found.
              scrape_table (sub8 message_len 8 - u8 (found + 1)) (message_data n.router_message)
                n.device.driver.rx_header_from (u8 (found + 1))))

  peek_table : (message_len : ℕ) → KeepsTable {C = C} (peek_at_message message_len)
  unfolding peek_at_message
  peek_table message_len = Post.fetch λ n.
      Post.strengthen (λ s p. p.0)
        (Post.branch
          (ltb 1 message_len
            && message_type (message_data n.router_message) == type_route_discovery_response)
          (λ _. response_table message_len)
          (λ _. Post.whenever _ λ _. delete_table (failure_dest (message_data n.router_message))))

module _ {C : Type 0} (r : Radio C) (fuel : ℕ) where
  report_table :
      {v : Overrides C}
      → KeepTables v
      → (from code : ℕ) → KeepsTable (report_failure r fuel v from code)
  unfolding report_failure
  report_table keep from code = Post.fetch λ n.
      Post.strengthen (λ s p. p.0)
        (Post.next (delete_table (message_dest n.router_message)) (
          Post.branch (message_source n.router_message == n.this_address)
            (λ _. Post.returns λ s p. p)
            (λ _.
              Post.next
                (change_table
                  (set_mesh_message
                    (blit 0 (type_route_failure ∷ message_dest n.router_message ∷ [])))
                  λ s p. p)
                (Post.next (add_table (message_source n.router_message) from) (
                  send_table r fuel keep (type_route_failure ∷ message_dest n.router_message ∷ [])
                    (message_source n.router_message) 0)))))

  mesh_route_table : (depth message_len : ℕ) → KeepsTable (route r fuel depth message_len)
  unfolding route
  mesh_route_table zero message_len = record { apply = λ p h. cc }
  mesh_route_table (suc depth) message_len =
      Post.bind (Post.weaken (Post.reads {f = λ n. n.device.driver.rx_header_from}) λ a s p. p.0)
        λ from. Post.bind (route_table r fuel message_len) λ code.
          Post.branch (code == error_no_route || code == error_unable_to_deliver)
            (λ _.
              report_table (record { peek = peek_table; route = mesh_route_table depth }) from code)
            (λ _. Post.returns λ s p. p)

  pub mesh_tables : KeepTables (mesh r fuel)
  mesh_tables = record { peek = peek_table; route = mesh_route_table 2 }
