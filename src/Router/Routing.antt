-- ===== src/Router/Routing.antt =====
-- What RHRouter sends and hands over.
use grove_lo_ra_433mhz_and.Prelude.{
  ℕ, ◌+◌, ◌≡◌, ◌≢◌, refl, ◌⊎◌, inl, inr, none, some, arith, ◌==◌, take, u8, Bool-cases,
  Option-cases,
}
use grove_lo_ra_433mhz_and.Prelude.Commands.{done, >>=-done}
use grove_lo_ra_433mhz_and.Prelude.Post.{done_subst}
use grove_lo_ra_433mhz_and.Driver.{Radio, broadcast_address}
use grove_lo_ra_433mhz_and.Node.{Node}
use grove_lo_ra_433mhz_and.Reliable
use grove_lo_ra_433mhz_and.Reliable.Sending.{sendto_wait_facts}
use grove_lo_ra_433mhz_and.Reliable.Kept.{Acked}
use grove_lo_ra_433mhz_and.Router.{
  error_none, error_no_route, error_unable_to_deliver, message_dest, forward_to, route,
}
use grove_lo_ra_433mhz_and.Table.{get_route_to, RoutingTableEntry}

-- How a transmission to the next hop ends.
pub data Hopped {C : Type 0} (n : Node C) (next_hop : ℕ) (code : ℕ) (t : Node C) : Type 0 where
  undelivered : code ≡ error_unable_to_deliver → t.routes ≡ n.routes → Hopped n next_hop code t
  delivered :
      code ≡ error_none
      → t.routes ≡ n.routes
      → (next_hop ≡ broadcast_address) ⊎ Acked (u8 (n.last_sequence_number + 1)) next_hop t
      → Hopped n next_hop code t

-- How `route` ends for a message to `dest`: there is no route and nothing has changed, or the
-- message went to every node, or to the next hop of the routing table.
pub data Routed {C : Type 0} (n : Node C) (dest : ℕ) (code : ℕ) (t : Node C) : Type 0 where
  no_route :
      code ≡ error_no_route
      → dest ≢ broadcast_address
      → get_route_to dest n.routes ≡ none
      → t ≡ n
      → Routed n dest code t
  to_all : dest ≡ broadcast_address → Hopped n broadcast_address code t → Routed n dest code t
  to_next_hop :
      (e : RoutingTableEntry)
      → dest ≢ broadcast_address
      → get_route_to dest n.routes ≡ some e
      → Hopped n e.next_hop code t
      → Routed n dest code t

module _ {C : Type 0} (r : Radio C) (fuel : ℕ) where
  forward_to-Hopped :
      (message_len next_hop : ℕ) (n : Node C) {code : ℕ} {t : Node C}
      → forward_to r fuel message_len next_hop n ≡ done code t
      → Hopped n next_hop code t
  unfolding forward_to
  forward_to-Hopped message_len next_hop n h =
      let (sent, u, e, h') =
        >>=-done (Reliable.sendto_wait r fuel (take message_len n.router_message) next_hop) _ n h in
      let (good, bad, _, _, routes, _) =
        sendto_wait_facts r fuel (take message_len n.router_message) next_hop n e in
      elim (Bool-cases sent) [
        | inl q ↦ done_subst (Hopped n next_hop) h' (delivered (rw q) routes (good q))
        | inr q ↦ done_subst (Hopped n next_hop) h' (undelivered (rw q) routes)
      ]

  -- The three ways in which the router's `route` returns: without a route it changes nothing; the
  -- code for success means that the message was broadcast, or that the next hop of the routing
  -- table has acknowledged it; any other failure is a transmission that was not acknowledged.
  pub route-Routed :
      (message_len : ℕ) (n : Node C) {code : ℕ} {t : Node C}
      → route r fuel message_len n ≡ done code t
      → Routed n (message_dest n.router_message) code t
  unfolding route
  route-Routed message_len n h =
      elim (Bool-cases (message_dest n.router_message == broadcast_address)) [
        | inl q ↦
            to_all (ground arith) (forward_to-Hopped message_len broadcast_address n (rw q at h))
        | inr q ↦ elim (Option-cases (get_route_to (message_dest n.router_message) n.routes)) [
          | inl p ↦
              done_subst (Routed n (message_dest n.router_message)) (rw (q, p) at h)
                (no_route refl (ground arith) p refl)
          | inr (e, p) ↦
              to_next_hop e (ground arith) p
                (forward_to-Hopped message_len e.next_hop n (rw (q, p) at h))
        ]
      ]
