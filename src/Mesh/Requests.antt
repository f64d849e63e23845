-- ===== src/Mesh/Requests.antt =====
-- What a mesh node does with a request for a route.
use grove_lo_ra_433mhz_and.Prelude.{
  ℕ, suc, ◌+◌, ◌≤◌, ◌<◌, ◌==◌, ◌≡◌, ◌≢◌, refl, sym, ap, ◌∙◌, ◌⊎◌, inl, inr, true, false, Bool-cases,
  not, Option, none, some, List, [], ◌∷◌, ◌++◌, arith, length, take, take-append, blit, get_elem?,
  u8, sub8, ltb, member,
}
use mathlib.Core.List.{append_assoc}
use grove_lo_ra_433mhz_and.Prelude.Commands.{
  Cmd, Run, done, fault, pure, and_then, read_at, ◌>>=◌, ◌>>◌,
}
use grove_lo_ra_433mhz_and.Driver.{Radio, broadcast_address}
use grove_lo_ra_433mhz_and.Node.{Node, set_routes}
use grove_lo_ra_433mhz_and.Router
use grove_lo_ra_433mhz_and.Table.{Table, valid, add_route_to}
use grove_lo_ra_433mhz_and.Mesh.{
  mesh, find_route, add_routes, answer_request, type_route_discovery_request,
  type_route_discovery_response, route_offset,
}

-- The table with a route to each of the nodes, through one neighbour.
unfoldable pub learn : (next_hop : ℕ) → List ℕ → Table → Table
learn next_hop [] t = t
learn next_hop (x ∷ xs) t = learn next_hop xs (add_route_to x next_hop valid t)

-- A discovery message with the nodes visited.
abbrev pub discovery : (type dest : ℕ) → List ℕ → List ℕ
discovery type dest nodes = type ∷ 1 ∷ dest ∷ nodes

get-behind : (pre : List ℕ) (x : ℕ) (xs : List ℕ) → get_elem? (pre ++ x ∷ xs) (length pre) ≡ some x
get-behind [] x xs = refl
get-behind (y ∷ pre) x xs = get-behind pre x xs

pub get-route :
    (a b c : ℕ) (pre : List ℕ) (x : ℕ) (xs : List ℕ)
    → get_elem? (a ∷ b ∷ c ∷ (pre ++ x ∷ xs)) (route_offset + length pre) ≡ some x
get-route a b c pre x xs =
    let e : route_offset + length pre ≡ suc (suc (suc (length pre))) = omega arith in
    rw e (get-behind pre x xs)

pub snoc-length : (pre : List ℕ) (x : ℕ) → length (pre ++ x ∷ []) ≡ length pre + 1
snoc-length [] x = refl
snoc-length (y ∷ pre) x = omega (arith, snoc-length pre x)

module _ {C : Type 0} where
  -- A read of a node's address goes on with it.
  pub read_route :
      {A : Type 0} (a b c : ℕ) (pre : List ℕ) (x : ℕ) (xs : List ℕ) (k : ℕ → Cmd (Node C) A)
      (n : Node C)
      → (read_at (a ∷ b ∷ c ∷ (pre ++ x ∷ xs)) (route_offset + length pre) >>= k) n ≡ k x n
  read_route {A} a b c pre x xs k n =
      ap
        (λ (o : Option ℕ).
          and_then (elim o as (λ _. Run (Node C) ℕ) [ some x ↦ done x n | none ↦ fault ]) k)
        (get-route a b c pre x xs)

  -- The search for an address among the nodes behind those of `pre`.
  find_route-member :
      (a b c : ℕ) (pre nodes rest : List ℕ) (address : ℕ) (n : Node C)
      → (i : ℕ) × (find_route
            (length nodes)
            (a ∷ b ∷ c ∷ (pre ++ (nodes ++ rest)))
            address
            (length pre)
            n
          ≡ done i n)
        × ((i == length pre + length nodes) ≡ not (member address nodes))
        × (i ≤ length pre + length nodes)
  unfolding find_route
  find_route-member a b c pre [] rest address n = (length pre, refl, ground arith, omega arith)
  find_route-member a b c pre (x ∷ nodes) rest address n =
      let got = read_route {A = ℕ} a b c pre x (nodes ++ rest) _ n in
      elim (Bool-cases (x == address)) [
        | inl q ↦ (length pre, got ∙ rw q refl, ground arith, omega arith)
        | inr q ↦
            let (i, e, found, bound) =
              find_route-member a b c (pre ++ x ∷ []) nodes rest address n in
            (
              i,
              got
                  ∙ rw (q, sym (append_assoc pre (x ∷ []) (nodes ++ rest)), sym (snoc-length pre x))
                      e,
              ground (arith, snoc-length pre x),
              omega (arith, snoc-length pre x),
            )
      ]

  add_routes-learn :
      (a b c : ℕ) (pre nodes rest : List ℕ) (next_hop : ℕ) (n : Node C)
      → add_routes (length nodes) (a ∷ b ∷ c ∷ (pre ++ (nodes ++ rest))) next_hop (length pre) n
        ≡ done tt (set_routes (learn next_hop nodes) n)
  unfolding add_routes learn
  add_routes-learn a b c pre [] rest next_hop n = refl
  add_routes-learn a b c pre (x ∷ nodes) rest next_hop n =
      read_route {A = Unit {0}} a b c pre x (nodes ++ rest) _ n
      ∙ rw (sym (append_assoc pre (x ∷ []) (nodes ++ rest)), sym (snoc-length pre x))
          (add_routes-learn a b c (pre ++ x ∷ []) nodes rest next_hop
            (set_routes (add_route_to x next_hop valid) n))

blit-behind :
    (pre : List ℕ) (x y : ℕ) (xs : List ℕ)
    → blit (length pre) (y ∷ []) (pre ++ x ∷ xs) ≡ pre ++ y ∷ xs
blit-behind [] x y [] = refl
blit-behind [] x y (z ∷ xs) = refl
blit-behind (w ∷ pre) x y xs = ap (λ ys. w ∷ ys) (blit-behind pre x y xs)

-- The node writes its address behind the nodes visited.
blit-route :
    (type dest : ℕ) (pre : List ℕ) (x y : ℕ) (xs : List ℕ)
    → blit (route_offset + length pre) (y ∷ []) (discovery type dest (pre ++ x ∷ xs))
      ≡ discovery type dest (pre ++ y ∷ xs)
blit-route type dest pre x y xs =
    let e : route_offset + length pre ≡ suc (suc (suc (length pre))) = omega arith in
    rw e (ap (discovery type dest) (blit-behind pre x y xs))

take-discovery :
    (type dest : ℕ) (nodes rest : List ℕ)
    → take (3 + length nodes) (discovery type dest (nodes ++ rest)) ≡ discovery type dest nodes
take-discovery type dest nodes rest =
    let e : 3 + length nodes ≡ suc (suc (suc (length nodes))) = omega arith in
    rw e (ap (discovery type dest) (take-append nodes rest))

take-longer :
    (type dest : ℕ) (nodes : List ℕ) (y : ℕ) (rest : List ℕ)
    → length nodes ≤ 246
    → take (u8 (3 + length nodes + 1)) (discovery type dest (nodes ++ y ∷ rest))
      ≡ discovery type dest (nodes ++ y ∷ [])
take-longer type dest nodes y rest h =
    let e : u8 (3 + length nodes + 1) ≡ 3 + length (nodes ++ y ∷ []) =
      omega (arith, snoc-length nodes y) in
    rw (e, sym (append_assoc nodes (y ∷ []) rest)) (take-discovery type dest (nodes ++ y ∷ []) rest)

module _ {C : Type 0} (r : Radio C) (fuel : ℕ) where
  -- A request of the node `source` that has passed through the nodes `visited`, where there is room behind them
  -- in the buffer. If this node is one of them, nothing happens. Otherwise it takes routes to `source` and to
  -- each of them through the neighbour that it has the request from. If the request is for this node, it
  -- then answers `source` with the nodes visited. Otherwise it passes the request on, with itself as the last
  -- node, for `source`, but only if fewer nodes were visited than there may be hops.
  pub answer_request-cases :
      (source dest : ℕ) (visited : List ℕ) (x : ℕ) (rest : List ℕ) (n : Node C)
      → length visited ≤ 246
      → let asked = record n {
        mesh_message = discovery type_route_discovery_request dest (visited ++ x ∷ rest);
      } in
        let learnt = set_routes (learn n.device.driver.rx_header_from (source ∷ visited)) asked in
        let result = answer_request r fuel source (3 + length visited) asked in
        ((member n.this_address visited ≡ true) × (result ≡ done tt asked))
        ⊎ ((member n.this_address visited ≡ false)
            × (dest ≡ n.this_address)
            × (result
                ≡ (Router.sendto_wait r fuel
                        (mesh r fuel)
                        (discovery type_route_discovery_response dest visited)
                        source
                        0
                      >> pure tt)
                    (record learnt {
                      mesh_message =
                          discovery type_route_discovery_response dest (visited ++ x ∷ rest);
                    })))
        ⊎ ((member n.this_address visited ≡ false)
            × (dest ≢ n.this_address)
            × (length visited < n.max_hops)
            × (result
                ≡ (Router.sendto_from_source_wait r fuel
                        (mesh r fuel)
                        (discovery type_route_discovery_request dest
                          (visited ++ n.this_address ∷ []))
                        broadcast_address
                        source
                        0
                      >> pure tt)
                    (record learnt {
                      mesh_message =
                          discovery type_route_discovery_request dest
                            (visited ++ n.this_address ∷ rest);
                    })))
        ⊎ ((member n.this_address visited ≡ false)
            × (dest ≢ n.this_address)
            × (n.max_hops ≤ length visited)
            × (result ≡ done tt learnt))
  unfolding answer_request learn
  answer_request-cases source dest visited x rest n h =
      let asked : Node C = record n {
        mesh_message = discovery type_route_discovery_request dest (visited ++ x ∷ rest);
      } in
      let (i, e, found, bound) =
        find_route-member 1 1 dest [] visited (x ∷ rest) n.this_address asked in
      let here : (i == length visited) ≡ not (member n.this_address visited) =
        ground (arith, found) in
      let number : sub8 (3 + length visited) 3 ≡ length visited = omega arith in
      let learning =
        add_routes-learn 1 1 dest [] visited (x ∷ rest) n.device.driver.rx_header_from
          (set_routes (add_route_to source n.device.driver.rx_header_from valid) asked) in
      elim (Bool-cases (member n.this_address visited)) [
        | inl q ↦ inl (q, rw (number, e, here, q) refl)
        | inr q ↦ elim (Bool-cases (dest == n.this_address)) [
          | inl p ↦ inr (
              inl (
                q,
                ground arith,
                rw
                    (
                      number,
                      e,
                      here,
                      q,
                      learning,
                      p,
                      take-discovery type_route_discovery_response dest visited (x ∷ rest),
                    )
                    refl,
              ))
          | inr p ↦ elim (Bool-cases (ltb (length visited) n.max_hops)) [
            | inl l ↦ inr (
                inr (
                  inl (
                    q,
                    ground arith,
                    ground arith,
                    rw (number, e, here, q, learning, p, l)
                        (read_route {A = Unit {0}} 1 1 dest visited x rest _ _
                          ∙ rw
                              (
                                blit-route type_route_discovery_request dest visited x
                                    n.this_address rest,
                                take-longer type_route_discovery_request dest visited n.this_address
                                    rest h,
                              )
                              refl),
                  )))
            | inr l ↦ inr (
                inr (
                  inr
                    (q, ground arith, ground arith, rw (number, e, here, q, learning, p, l) refl)))
          ]
        ]
      ]
