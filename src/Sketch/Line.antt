-- ===== src/Sketch/Line.antt =====
-- The line of the four nodes of the sketches, and the routes along it.
use grove_lo_ra_433mhz_and.Prelude.{
  ℕ, zero, suc, ◌+◌, ◌-◌, ◌<◌, ◌≤◌, ◌==◌, ◌≡◌, refl, ap, ◌∙◌, ◌&&◌, not, Option, none, some, List,
  [], ◌∷◌, arith, if◌then◌else◌, length, ltb, leb, Bool-cases, inl, inr,
}
use mathlib.Core.Option
use grove_lo_ra_433mhz_and.Table.{
  Table, RoutingTableEntry, entry, valid, routing_table_size, add_route_to, get_route_to,
  clear_routing_table,
}
use grove_lo_ra_433mhz_and.Table.Invariant.{
  IsTable, clear-IsTable, add_route_to-IsTable, get-clear_routing_table,
}
use grove_lo_ra_433mhz_and.Table.Capacity.{routes_held, add_route_to-room, held-clear_routing_table}

-- A table with at most `held` routes, of which a lookup finds those of `found`.
pub record Knows (held : ℕ) (found : ℕ → Option RoutingTableEntry) (t : Table) : Type 0 where
  pub table : IsTable t
  room : routes_held t ≤ held
  pub finds : (e : ℕ) → get_route_to e t ≡ found e

pub Knows-clear :
    (t : Table) → length t ≡ routing_table_size → Knows 0 (λ _. none) (clear_routing_table t)
Knows-clear t h = record {
  table = clear-IsTable t h;
  room = omega (arith, held-clear_routing_table t);
  finds = λ e. get-clear_routing_table e t;
}

abbrev pub with_route : (d n : ℕ) → (ℕ → Option RoutingTableEntry) → ℕ → Option RoutingTableEntry
with_route d n found e = if d == e then some (entry d n valid) else found e

pub Knows-add_route_to :
    (held d n : ℕ) (found : ℕ → Option RoutingTableEntry) (t : Table)
    → held < routing_table_size
    → Knows held found t
    → Knows (held + 1) (with_route d n found) (add_route_to d n valid t)
Knows-add_route_to held d n found t h k = record {
  table = add_route_to-IsTable d n valid (omega arith) k.table;
  room = omega (
    arith,
    (add_route_to-room d n valid 0 (omega arith) k.table (omega (arith, k.table.size, k.room))).0,
    k.room,
  );
  finds = λ e.
      (add_route_to-room d n valid e (omega arith) k.table (omega (arith, k.table.size, k.room))).1
      ∙ rw (k.finds e) refl;
}

-- The four places in the line.
pub data Place : Type 0 where
  first second third fourth : Place

abbrev pub address : Place → ℕ
address first = 1
address second = 2
address third = 3
address fourth = 4

-- The next address on the way from one to another.
abbrev pub towards : (from to : ℕ) → ℕ
towards from to = if ltb from to then from + 1 else from - 1

-- The addresses on the way from one to another, at most `left` of them.
abbrev pub way : (left from to : ℕ) → List ℕ
way zero from to = []
way (suc left) from to = if from == to then [] else towards from to ∷ way left (towards from to) to

-- The way that a message for `to` takes from `from`, by the tables of the nodes, in at most `left`
-- hops: `none` if it does not arrive.
unfoldable pub walk : (ℕ → Table) → (left from to : ℕ) → Option (List ℕ)
walk tables zero from to = if from == to then some [] else none
walk tables (suc left) from to =
    if from == to then some [] else elim (get_route_to to (tables from)) [
      | none ↦ none
      | some e ↦ Option.map (λ rest. e.next_hop ∷ rest) (walk tables left e.next_hop to)
    ]

abbrev pub routes_at : Place → ℕ → Option RoutingTableEntry
routes_at first = with_route 4 2 (with_route 3 2 (with_route 2 2 (λ _. none)))
routes_at second = with_route 4 3 (with_route 3 3 (with_route 1 1 (λ _. none)))
routes_at third = with_route 4 4 (with_route 2 2 (with_route 1 2 (λ _. none)))
routes_at fourth = with_route 3 3 (with_route 2 3 (with_route 1 3 (λ _. none)))

pub routes_at-towards :
    (p : Place) (e : ℕ)
    → routes_at p e ≡ (
        if leb 1 e && leb e 4 && not (e == address p)
        then some (entry e (towards (address p) e) valid)
        else none)
routes_at-towards first e = ground arith
routes_at-towards second e = ground arith
routes_at-towards third e = ground arith
routes_at-towards fourth e = ground arith

pub walk-way :
    (f : ℕ → Table) (left a b : ℕ)
    → ((k e : ℕ)
        → 1 ≤ k
        → k ≤ 4
        → get_route_to e (f k) ≡ (
            if leb 1 e && leb e 4 && not (e == k)
            then some (entry e (towards k e) valid)
            else none))
    → 1 ≤ a
    → a ≤ 4
    → 1 ≤ b
    → b ≤ 4
    → a ≤ b + left
    → b ≤ a + left
    → walk f left a b ≡ some (way left a b)
unfolding walk
walk-way f zero a b h p q p' q' l r = ground arith
walk-way f (suc left) a b h p q p' q' l r = elim (Bool-cases (a == b)) [
  | inl same ↦ rw same refl
  | inr other ↦
      let e : get_route_to b (f a) ≡ some (entry b (towards a b) valid) =
        h a b p q ∙ ground arith in
      rw (other, e)
        (ap (Option.map (λ rest. towards a b ∷ rest)) (
          walk-way f left (towards a b) b h (ground arith) (ground arith) p' q' (ground arith)
            (ground arith)))
]

abbrev pub place_of : ℕ → Place
place_of k = if k == 1 then first else if k == 2 then second else if k == 3 then third else fourth

pub address-place_of : (k : ℕ) → 1 ≤ k → k ≤ 4 → address (place_of k) ≡ k
address-place_of k low high = ground arith

pub address-low : (p : Place) → 1 ≤ address p
address-low first = omega arith
address-low second = omega arith
address-low third = omega arith
address-low fourth = omega arith

pub address-high : (p : Place) → address p ≤ 4
address-high first = omega arith
address-high second = omega arith
address-high third = omega arith
address-high fourth = omega arith
