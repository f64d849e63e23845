-- ===== src/Mesh/Responses.antt =====
-- What a mesh node takes from the answer to a request for a route, as it passes it on.
use grove_lo_ra_433mhz_and.Prelude.{
  ℕ, suc, ◌+◌, ◌-◌, ◌≤◌, ◌==◌, ◌≡◌, refl, sym, ap, ◌∙◌, true, false, List, [], ◌∷◌, ◌++◌, arith,
  length, drop, length-append, u8, sub8, member,
}
use mathlib.Core.List.{append_assoc}
use grove_lo_ra_433mhz_and.Prelude.Commands.{done}
use grove_lo_ra_433mhz_and.Node.{Node, set_routes}
use grove_lo_ra_433mhz_and.Table.{valid, add_route_to}
use grove_lo_ra_433mhz_and.Mesh.{
  find_route, scrape_routes, peek_at_response, type_route_discovery_response,
}
use grove_lo_ra_433mhz_and.Mesh.Requests.{learn, discovery, read_route, snoc-length}

-- The number of the nodes and the index behind this node, as the code computes them.
positions :
    (pre : List ℕ) (address : ℕ) (post : List ℕ)
    → length pre + length post ≤ 240
    → (sub8 (8 + length (pre ++ address ∷ post)) 8 ≡ length (pre ++ address ∷ post))
      × (u8 (length pre + 1) ≡ length pre + 1)
positions pre address post h = (omega (arith, length-append pre (address ∷ post)), omega arith)

shifted :
    (pre : List ℕ) (a p : ℕ) (post : List ℕ) (x : ℕ) (rest : List ℕ)
    → (pre ++ a ∷ []) ++ p ∷ ((post ++ x ∷ []) ++ rest) ≡ pre ++ a ∷ p ∷ (post ++ x ∷ rest)
shifted pre a p post x rest =
    append_assoc pre (a ∷ []) (p ∷ ((post ++ x ∷ []) ++ rest))
    ∙ ap (λ ys. pre ++ a ∷ p ∷ ys) (append_assoc post (x ∷ []) rest)

module _ {C : Type 0} where
  find_route-first :
      (a b c : ℕ) (before pre : List ℕ) (address : ℕ) (post rest : List ℕ) (n : Node C)
      → member address pre ≡ false
      → find_route
          (length (pre ++ address ∷ post))
          (a ∷ b ∷ c ∷ (before ++ (pre ++ address ∷ (post ++ rest))))
          address
          (length before)
          n
        ≡ done (length before + length pre) n
  unfolding find_route
  find_route-first a b c before [] address post rest n h =
      let same : (address == address) ≡ true = ground arith in
      let e : length before + 0 ≡ length before = omega arith in
      read_route {A = ℕ} a b c before address (post ++ rest) _ n ∙ rw (same, e) refl
  find_route-first a b c before (x ∷ pre) address post rest n h =
      let other : (x == address) ≡ false = ground arith in
      let longer : length before + suc (length pre) ≡ length (before ++ x ∷ []) + length pre =
        omega (arith, snoc-length before x) in
      read_route {A = ℕ} a b c before x (pre ++ address ∷ (post ++ rest)) _ n
      ∙ rw
          (
            other,
            longer,
            sym (append_assoc before (x ∷ []) (pre ++ address ∷ (post ++ rest))),
            sym (snoc-length before x),
          )
          (find_route-first a b c (before ++ x ∷ []) pre address post rest n (ground arith))

  find_route-start :
      (a b c : ℕ) (pre : List ℕ) (address : ℕ) (post rest : List ℕ) (n : Node C)
      → member address pre ≡ false
      → find_route
          (length (pre ++ address ∷ post))
          (a ∷ b ∷ c ∷ (pre ++ address ∷ (post ++ rest)))
          address
          0
          n
        ≡ done (length pre) n
  find_route-start a b c pre address post rest n h =
      let e : 0 + length pre ≡ length pre = omega arith in
      find_route-first a b c [] pre address post rest n h ∙ ap (λ i. done i n) e

  -- The loop begins behind the node at which it is told to.
  scrape_routes-learn :
      (a b c : ℕ) (pre : List ℕ) (y : ℕ) (nodes rest : List ℕ) (next_hop : ℕ) (n : Node C)
      → scrape_routes
          (length nodes)
          (a ∷ b ∷ c ∷ (pre ++ y ∷ (nodes ++ rest)))
          next_hop
          (length pre)
          n
        ≡ done tt (set_routes (learn next_hop nodes) n)
  unfolding scrape_routes learn
  scrape_routes-learn a b c pre y [] rest next_hop n = refl
  scrape_routes-learn a b c pre y (x ∷ nodes) rest next_hop n =
      rw (sym (append_assoc pre (y ∷ []) (x ∷ (nodes ++ rest))), sym (snoc-length pre y))
        (read_route {A = Unit {0}} a b c (pre ++ y ∷ []) x (nodes ++ rest) _ n
          ∙ scrape_routes-learn a b c (pre ++ y ∷ []) x nodes rest next_hop
              (set_routes (add_route_to x next_hop valid) n))

  scrape_routes-behind :
      (a b c : ℕ) (pre : List ℕ) (address p : ℕ) (post : List ℕ) (x : ℕ) (rest : List ℕ)
      (next_hop : ℕ) (n : Node C)
      → scrape_routes
          (length (post ++ x ∷ []))
          (a ∷ b ∷ c ∷ (pre ++ address ∷ p ∷ (post ++ x ∷ rest)))
          next_hop
          (length pre + 1)
          n
        ≡ done tt (set_routes (learn next_hop (post ++ x ∷ [])) n)
  scrape_routes-behind a b c pre address p post x rest next_hop n =
      rw (shifted pre address p post x rest, snoc-length pre address) at
        (scrape_routes-learn a b c (pre ++ address ∷ []) p (post ++ x ∷ []) rest next_hop n)

  -- An answer that has passed through the nodes of `pre`, then this node and then those of `post`, with the octet
  -- `x` behind them in the buffer. The node takes a route to the node that was looked for, through the
  -- neighbour that it has the answer from, and then as many routes as there are nodes in `post`, to all of
  -- them but the first, which is passed over, and to `x`, which is no node of the list. If there is none in
  -- `post`, it takes no further route.
  pub peek_at_response-learn :
      (h₀ h₁ h₂ h₃ h₄ dest : ℕ) (pre post : List ℕ) (x : ℕ) (rest : List ℕ) (n : Node C)
      → length pre + length post ≤ 240
      → member n.this_address pre ≡ false
      → let nodes = pre ++ n.this_address ∷ post in
        let from = n.device.driver.rx_header_from in
        let asked = record n {
          router_message =
              h₀
              ∷ h₁
              ∷ h₂
              ∷ h₃
              ∷ h₄
              ∷ discovery type_route_discovery_response dest
                  (pre ++ n.this_address ∷ (post ++ x ∷ rest));
        } in
        peek_at_response (8 + length nodes) asked
        ≡ done tt (
            set_routes
              (λ t. learn from (drop 1 (post ++ x ∷ [])) (add_route_to dest from valid t))
              asked)
  unfolding peek_at_response
  peek_at_response-learn h₀ h₁ h₂ h₃ h₄ dest pre [] x rest n h k =
      let (number, index) = positions pre n.this_address [] h in
      let none_left : length (pre ++ n.this_address ∷ []) - (length pre + 1) ≡ 0 =
        omega (arith, length-append pre (n.this_address ∷ [])) in
      rw (number, find_route-start 2 1 dest pre n.this_address [] (x ∷ rest) _ k, index, none_left)
        (unfold scrape_routes learn in refl)
  peek_at_response-learn h₀ h₁ h₂ h₃ h₄ dest pre (p ∷ post) x rest n h k =
      let (number, index) = positions pre n.this_address (p ∷ post) h in
      let left : length (pre ++ n.this_address ∷ p ∷ post) - (length pre + 1)
          ≡ length (post ++ x ∷ []) =
        omega (arith, length-append pre (n.this_address ∷ p ∷ post), snoc-length post x) in
      rw
        (
          number,
          find_route-start 2 1 dest pre n.this_address (p ∷ post) (x ∷ rest) _ k,
          index,
          left,
        )
        (scrape_routes-behind 2 1 dest pre n.this_address p post x rest
          n.device.driver.rx_header_from _)
