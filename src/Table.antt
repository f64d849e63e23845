-- ===== src/Table.antt =====
-- The routing table of RHRouter.h and RHRouter.cpp: a fixed array of entries, kept in the order
-- in which routes were learnt.
pub mod Lookup
pub mod Order
pub mod Invariant
pub mod Capacity
pub mod Refinement
use mathlib.Core.Option
use grove_lo_ra_433mhz_and.Prelude.{
  ℕ, zero, suc, ◌==◌, if◌then◌else◌, Bool, true, false, Option, none, some, List, [], ◌∷◌, not,
  ◌&&◌,
}

-- `enum RouteState`, as the bytes in which an entry keeps it.
abbrev pub invalid : ℕ
invalid = 0

abbrev pub discovering : ℕ
discovering = 1

abbrev pub valid : ℕ
valid = 2

abbrev pub routing_table_size : ℕ
routing_table_size = 10

pub record RoutingTableEntry : Type 0 where
  pub dest : ℕ
  pub next_hop : ℕ
  pub state : ℕ

abbrev pub entry : ℕ → ℕ → ℕ → RoutingTableEntry
entry d n s = record { dest = d; next_hop = n; state = s }

abbrev pub Table : Type 0
Table = List RoutingTableEntry

-- The first loop of `addRouteTo`; `none` if it ends with no entry for the destination.
pub update_existing : ℕ → ℕ → ℕ → Table → Option Table
update_existing d n s [] = none
update_existing d n s (e ∷ es) =
    let rest = update_existing d n s es in
    if e.dest == d then some (entry d n s ∷ es) else Option.map (λ r. e ∷ r) rest

-- The second loop; `none` if no entry is invalid.
pub use_invalid : ℕ → ℕ → ℕ → Table → Option Table
use_invalid d n s [] = none
use_invalid d n s (e ∷ es) =
    let rest = use_invalid d n s es in
    if e.state == invalid then some (entry d n s ∷ es) else Option.map (λ r. e ∷ r) rest

-- The third loop, which has no `return`: it writes into every invalid entry.
pub fill_invalid : ℕ → ℕ → ℕ → Table → Table
fill_invalid d n s [] = []
fill_invalid d n s (e ∷ es) =
    (if e.state == invalid then entry d n s else e) ∷ fill_invalid d n s es

-- The `memcpy` of `deleteRoute`: each entry from `index` on becomes its successor.
pub shift_down : ℕ → Table → Table
shift_down i [] = []
shift_down zero (e ∷ []) = e ∷ []
shift_down zero (e ∷ f ∷ es) = f ∷ shift_down zero (f ∷ es)
shift_down (suc i) (e ∷ es) = e ∷ shift_down i es

pub invalidate_last : Table → Table
invalidate_last [] = []
invalidate_last (e ∷ []) = record e { state = invalid } ∷ []
invalidate_last (e ∷ f ∷ es) = e ∷ invalidate_last (f ∷ es)

unfoldable pub delete_route : ℕ → Table → Table
unfolding shift_down invalidate_last
delete_route i t = invalidate_last (shift_down i t)

unfoldable pub retire_oldest_route : Table → Table
unfolding delete_route
retire_oldest_route t = delete_route 0 t

pub make_room : ℕ → ℕ → ℕ → Table → Table
unfolding retire_oldest_route fill_invalid
make_room d n s t = fill_invalid d n s (retire_oldest_route t)

unfoldable pub add_route_to : ℕ → ℕ → ℕ → Table → Table
unfolding update_existing use_invalid make_room
add_route_to d n s t = elim (update_existing d n s t) [
  | some t' ↦ t'
  | none ↦ elim (use_invalid d n s t) [ some t' ↦ t' | none ↦ make_room d n s t ]
]

-- `NULL` is `none`.
unfoldable pub get_route_to : ℕ → Table → Option RoutingTableEntry
get_route_to d [] = none
get_route_to d (e ∷ es) =
    if e.dest == d && not (e.state == invalid) then some e else get_route_to d es

-- The loop of `deleteRouteTo`: the index of the first entry for the destination, valid or not.
pub index_of : ℕ → Table → Option ℕ
index_of d [] = none
index_of d (e ∷ es) = if e.dest == d then some 0 else Option.map suc (index_of d es)

unfoldable pub delete_route_to : ℕ → Table → Bool × Table
unfolding index_of delete_route
delete_route_to d t = elim (index_of d t) [ some i ↦ (true, delete_route i t) | none ↦ (false, t) ]

unfoldable pub clear_routing_table : Table → Table
clear_routing_table [] = []
clear_routing_table (e ∷ es) = record e { state = invalid } ∷ clear_routing_table es
