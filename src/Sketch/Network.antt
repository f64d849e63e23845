-- ===== src/Sketch/Network.antt =====
-- The network of the four router sketches: ROUTER1 <-> ROUTER2 <-> ROUTER3 <-> ROUTER4.
use grove_lo_ra_433mhz_and.Prelude.{
  ℕ, ◌+◌, ◌<◌, ◌==◌, ◌≡◌, refl, ◌∙◌, ◌&&◌, not, Option, none, some, arith, if◌then◌else◌, length,
  leb,
}
use mathlib.Core.Path.{subst, sym}
use grove_lo_ra_433mhz_and.Prelude.Commands.{Cmd, done, ◌>>◌}
use grove_lo_ra_433mhz_and.Prelude.Post
use grove_lo_ra_433mhz_and.Prelude.Post.{Post}
use grove_lo_ra_433mhz_and.Driver.{Radio}
use grove_lo_ra_433mhz_and.Node.{Node, set_routes}
use grove_lo_ra_433mhz_and.Router
use grove_lo_ra_433mhz_and.Table.{
  RoutingTableEntry, entry, valid, routing_table_size, add_route_to, get_route_to,
}
use grove_lo_ra_433mhz_and.Sketch.{Sketch, start}
use grove_lo_ra_433mhz_and.Sketch.Routers.{
  manager, add_route, setup1, setup2, setup3, setup4, node1, node2, node3, node4,
}
use grove_lo_ra_433mhz_and.Sketch.Invariant.{on_state-Post, start_routes}
use grove_lo_ra_433mhz_and.Sketch.Line.{
  Knows, Knows-clear, with_route, Knows-add_route_to, Place, first, second, third, fourth, address,
  towards, way, walk, routes_at, routes_at-towards, walk-way, place_of, address-place_of,
  address-low, address-high,
}

module _ {C : Type 0} (r : Radio C) (fuel : ℕ) where
  -- The sketch at a place: its manager, and its `setup`.
  abbrev pub node_at : Place → Node C → Node C
  node_at first = node1
  node_at second = node2
  node_at third = node3
  node_at fourth = node4

  abbrev pub setup_at : Place → Cmd (Sketch (Node C)) (Unit {0})
  setup_at first = setup1 r fuel
  setup_at second = setup2 r fuel
  setup_at third = setup3 r fuel
  setup_at fourth = setup4 r fuel

  -- Three routes that are added to an empty table.
  three_routes :
      (a m b n c k : ℕ)
      → Post {S = Sketch (Node C)}
          (λ s. Knows 0 (λ _. none) s.state.routes)
          (start (manager r fuel)
            >> (add_route r fuel a m >> (add_route r fuel b n >> add_route r fuel c k)))
          (λ _ s.
            Knows 3 (with_route c k (with_route b n (with_route a m (λ _. none)))) s.state.routes)
  three_routes a m b n c k =
      Post.next (start_routes r fuel (λ t. Knows 0 (λ _. none) t) (manager r fuel) refl) (
        Post.next (add a m 0 (omega arith))
          (Post.next (add b n 1 (omega arith)) (add c k 2 (omega arith))))
    where
      add :
          (d h held : ℕ) {found : ℕ → Option RoutingTableEntry}
          → held < routing_table_size
          → Post {S = Sketch (Node C)}
              (λ s. Knows held found s.state.routes)
              (add_route r fuel d h)
              (λ _ s. Knows (held + 1) (with_route d h found) s.state.routes)
      add d h held {found} l =
          on_state-Post {P = λ n. Knows held found n.routes}
            {Q = λ _ n. Knows (held + 1) (with_route d h found) n.routes}
            (Post.modifies {f = set_routes (add_route_to d h valid)}
              λ n p. Knows-add_route_to held d h found n.routes l p)

  node_at-Knows :
      (p : Place) (raw : Node C)
      → length raw.routes ≡ routing_table_size
      → Knows 0 (λ _. none) (node_at p raw).routes
  unfolding Router.construct
  node_at-Knows first raw l = Knows-clear raw.routes l
  node_at-Knows second raw l = Knows-clear raw.routes l
  node_at-Knows third raw l = Knows-clear raw.routes l
  node_at-Knows fourth raw l = Knows-clear raw.routes l

  setup_Knows :
      (p : Place)
      → Post
          (λ s. Knows 0 (λ _. none) s.state.routes)
          (setup_at p)
          (λ _ s. Knows 3 (routes_at p) s.state.routes)
  unfolding setup1 setup2 setup3 setup4
  setup_Knows first = three_routes 2 2 3 2 4 2
  setup_Knows second = three_routes 1 1 3 3 4 3
  setup_Knows third = three_routes 1 2 2 2 4 4
  setup_Knows fourth = three_routes 1 3 2 3 3 3

  -- After its `setup` a router has a valid route to each of the other three, through its neighbour on
  -- that side, and no other.
  pub setup_at-route :
      (p : Place) (raw : Node C) (s : Sketch (Node C)) (e : ℕ) {t : Sketch (Node C)}
      → length raw.routes ≡ routing_table_size
      → s.state ≡ node_at p raw
      → setup_at p s ≡ done tt t
      → get_route_to e t.state.routes ≡ (
          if leb 1 e && leb e 4 && not (e == address p)
          then some (entry e (towards (address p) e) valid)
          else none)
  setup_at-route p raw s e l b h =
      ((setup_Knows p).apply
          (subst (λ n. Knows 0 (λ _. none) n.routes) (sym b) (node_at-Knows p raw l)) h).finds
        e
      ∙ routes_at-towards p e

  -- When the four routers have run their `setup`, a message takes the way along the line from any of
  -- them to any other, by the routes that each has in its table, in at most three hops.
  pub walk-setup_at :
      (raw : Place → Node C) (before after : Place → Sketch (Node C)) (p q : Place)
      → ((k : Place) → length (raw k).routes ≡ routing_table_size)
      → ((k : Place) → (before k).state ≡ node_at k (raw k))
      → ((k : Place) → setup_at k (before k) ≡ done tt (after k))
      → walk (λ k. (after (place_of k)).state.routes) 3 (address p) (address q)
        ≡ some (way 3 (address p) (address q))
  walk-setup_at raw before after p q l b h =
      walk-way (λ k. (after (place_of k)).state.routes) 3 (address p) (address q)
        (λ k e low high.
          setup_at-route (place_of k) (raw (place_of k)) (before (place_of k)) e (l (place_of k))
            (b (place_of k)) (h (place_of k))
          ∙ rw (address-place_of k low high) refl)
        (address-low p) (address-high p) (address-low q) (address-high q)
        (omega (arith, address-high p, address-low q))
        (omega (arith, address-high q, address-low p))
