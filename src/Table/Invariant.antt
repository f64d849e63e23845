-- ===== src/Table/Invariant.antt =====
-- Every operation of the routing table keeps the order of its entries and their number.
use grove_lo_ra_433mhz_and.Prelude.{
  ℕ, zero, suc, ◌==◌, ◌≡◌, ◌≢◌, refl, false, none, some, [], ◌∷◌, arith, ap, ◌∙◌, length, inl, inr,
  Option-cases,
}
use grove_lo_ra_433mhz_and.Table.{
  RoutingTableEntry, Table, invalid, update_existing, use_invalid, fill_invalid, delete_route,
  retire_oldest_route, make_room, add_route_to, get_route_to, index_of, delete_route_to,
  clear_routing_table, routing_table_size,
}
use grove_lo_ra_433mhz_and.Table.Lookup.{
  get-update_existing, get-use_invalid, get-fill_invalid, update_existing-none,
}
use grove_lo_ra_433mhz_and.Table.Order.{
  IsOrdered, get-delete_route_zero, delete_route-zero, delete_route-suc, get-none_head,
}

IsOrdered-update_existing :
    (d n s : ℕ) (t : Table) {t' : Table}
    → s ≢ invalid
    → update_existing d n s t ≡ some t'
    → IsOrdered t
    → IsOrdered t'
unfolding update_existing IsOrdered
IsOrdered-update_existing d n s [] v h o = cc
IsOrdered-update_existing d n s (x ∷ t) v h o = elim (Option-cases (update_existing d n s t)) [
  | inl p ↦ ground (arith, get-none_head x t d)
  | inr (r, p) ↦ ground (
    arith,
    IsOrdered-update_existing d n s t {t' = r} v p,
    get-update_existing d n s x.dest t {t' = r} v p,
  )
]

IsOrdered-use_invalid :
    (d n s : ℕ) (t : Table) {t' : Table}
    → s ≢ invalid
    → update_existing d n s t ≡ none
    → use_invalid d n s t ≡ some t'
    → IsOrdered t
    → IsOrdered t'
unfolding update_existing use_invalid IsOrdered
IsOrdered-use_invalid d n s [] v a h o = cc
IsOrdered-use_invalid d n s (x ∷ t) v a h o = elim (Option-cases (use_invalid d n s t)) [
  | inl p ↦ ground (arith, update_existing-none d n s t)
  | inr (r, p) ↦ ground (
    arith,
    update_existing-none d n s t,
    IsOrdered-use_invalid d n s t {t' = r} v,
    get-use_invalid d n s x.dest t {t' = r} v,
  )
]

get-delete_route-none :
    (e i : ℕ) (t : Table) → get_route_to e t ≡ none → get_route_to e (delete_route i t) ≡ none
unfolding get_route_to
get-delete_route-none e i [] h = unfold delete_route in refl
get-delete_route-none e zero (x ∷ t) h = ground (arith, get-delete_route_zero e x t)
get-delete_route-none e (suc i) (x ∷ []) h = unfold delete_route in ground arith
get-delete_route-none e (suc i) (x ∷ y ∷ t) h =
    rw delete_route-suc (ground (arith, get-delete_route-none e i (y ∷ t)))

IsOrdered-delete_route : (i : ℕ) (t : Table) → IsOrdered t → IsOrdered (delete_route i t)
unfolding IsOrdered
IsOrdered-delete_route i [] o = unfold delete_route in tt
IsOrdered-delete_route zero (x ∷ []) o = unfold delete_route get_route_to in (refl, tt)
IsOrdered-delete_route zero (x ∷ y ∷ t) o =
    rw delete_route-zero
      (ground (arith, get-delete_route_zero y.dest y t, IsOrdered-delete_route zero (y ∷ t)))
IsOrdered-delete_route (suc i) (x ∷ []) o = unfold delete_route get_route_to in (refl, tt)
IsOrdered-delete_route (suc i) (x ∷ y ∷ t) o =
    rw delete_route-suc
      (ground (arith, get-delete_route-none x.dest i (y ∷ t), IsOrdered-delete_route i (y ∷ t)))

get-fill_invalid_rest :
    (d n s : ℕ) (y : RoutingTableEntry) (t : Table)
    → s ≢ invalid
    → use_invalid d n s t ≡ none
    → get_route_to d t ≡ none
    → get_route_to y.dest t ≡ none
    → (y.dest == d) ≡ false
    → get_route_to y.dest (fill_invalid d n s (delete_route 0 (y ∷ t))) ≡ none
unfolding delete_route
get-fill_invalid_rest d n s y t v u a h e = ground (arith, get-fill_invalid d n s y.dest y t v u a)

IsOrdered-fill_invalid :
    (d n s : ℕ) (x : RoutingTableEntry) (t : Table)
    → s ≢ invalid
    → update_existing d n s t ≡ none
    → use_invalid d n s t ≡ none
    → IsOrdered t
    → IsOrdered (fill_invalid d n s (delete_route 0 (x ∷ t)))
unfolding IsOrdered update_existing use_invalid fill_invalid
IsOrdered-fill_invalid d n s x [] v a u o = unfold delete_route get_route_to in (refl, tt)
IsOrdered-fill_invalid d n s x (y ∷ t) v a u o = rw delete_route-zero (
    ground (
      arith,
      get-fill_invalid_rest d n s y t v,
      update_existing-none d n s t,
      IsOrdered-fill_invalid d n s y t v,
    ))

length-update_existing :
    (d n s : ℕ) (t : Table) {t' : Table} → update_existing d n s t ≡ some t' → length t' ≡ length t
unfolding update_existing
length-update_existing d n s [] h = cc
length-update_existing d n s (x ∷ t) h = elim (Option-cases (update_existing d n s t)) [
  | inl p ↦ ground arith
  | inr (r, p) ↦ ground (arith, length-update_existing d n s t {t' = r} p)
]

length-use_invalid :
    (d n s : ℕ) (t : Table) {t' : Table} → use_invalid d n s t ≡ some t' → length t' ≡ length t
unfolding use_invalid
length-use_invalid d n s [] h = cc
length-use_invalid d n s (x ∷ t) h = elim (Option-cases (use_invalid d n s t)) [
  | inl p ↦ ground arith
  | inr (r, p) ↦ ground (arith, length-use_invalid d n s t {t' = r} p)
]

length-fill_invalid : (d n s : ℕ) (t : Table) → length (fill_invalid d n s t) ≡ length t
unfolding fill_invalid
length-fill_invalid d n s [] = refl
length-fill_invalid d n s (x ∷ t) = ap suc (length-fill_invalid d n s t)

length-delete_route : (i : ℕ) (t : Table) → length (delete_route i t) ≡ length t
length-delete_route i [] = unfold delete_route in refl
length-delete_route zero (x ∷ []) = unfold delete_route in refl
length-delete_route zero (x ∷ y ∷ t) =
    rw delete_route-zero (ap suc (length-delete_route zero (y ∷ t)))
length-delete_route (suc i) (x ∷ []) = unfold delete_route in refl
length-delete_route (suc i) (x ∷ y ∷ t) =
    rw delete_route-suc (ap suc (length-delete_route i (y ∷ t)))

length-clear_routing_table : (t : Table) → length (clear_routing_table t) ≡ length t
unfolding clear_routing_table
length-clear_routing_table [] = refl
length-clear_routing_table (x ∷ t) = ap suc (length-clear_routing_table t)

-- A cleared table has no route.
pub get-clear_routing_table : (d : ℕ) (t : Table) → get_route_to d (clear_routing_table t) ≡ none
unfolding clear_routing_table get_route_to
get-clear_routing_table d [] = refl
get-clear_routing_table d (x ∷ t) = ground (arith, get-clear_routing_table d t)

IsOrdered-clear_routing_table : (t : Table) → IsOrdered (clear_routing_table t)
unfolding clear_routing_table IsOrdered
IsOrdered-clear_routing_table [] = tt
IsOrdered-clear_routing_table (x ∷ t) =
    (get-clear_routing_table x.dest t, IsOrdered-clear_routing_table t)

-- The array has its size, and its entries are in order.
pub record IsTable (t : Table) : Type 0 where
  pub size : length t ≡ routing_table_size
  pub order : IsOrdered t

-- `clear_routing_table` makes a table of any array of the right size, as the constructor does.
pub clear-IsTable : (t : Table) → length t ≡ routing_table_size → IsTable (clear_routing_table t)
clear-IsTable t h = record {
  size = length-clear_routing_table t ∙ h;
  order = IsOrdered-clear_routing_table t;
}

pub delete_route-IsTable : (i : ℕ) {t : Table} → IsTable t → IsTable (delete_route i t)
delete_route-IsTable i {t} h = record {
  size = length-delete_route i t ∙ h.size;
  order = IsOrdered-delete_route i t h.order;
}

pub retire_oldest_route-IsTable : {t : Table} → IsTable t → IsTable (retire_oldest_route t)
unfolding retire_oldest_route
retire_oldest_route-IsTable h = delete_route-IsTable 0 h

make_room-IsTable :
    (d n s : ℕ) (t : Table)
    → s ≢ invalid
    → IsTable t
    → update_existing d n s t ≡ none
    → use_invalid d n s t ≡ none
    → IsTable (make_room d n s t)
unfolding make_room retire_oldest_route IsOrdered update_existing use_invalid
make_room-IsTable d n s [] v h a u = absurd (omega (arith, h.size))
make_room-IsTable d n s (x ∷ t) v h a u = record {
  size =
      length-fill_invalid d n s (delete_route 0 (x ∷ t)) ∙ length-delete_route 0 (x ∷ t) ∙ h.size;
  order = IsOrdered-fill_invalid d n s x t v (ground arith) (ground arith) h.order.1;
}

-- Adding a route keeps the table's size and the order of its entries.
pub add_route_to-IsTable :
    (d n s : ℕ) {t : Table} → s ≢ invalid → IsTable t → IsTable (add_route_to d n s t)
unfolding add_route_to
add_route_to-IsTable d n s {t} v h = elim (Option-cases (update_existing d n s t)) [
  | inr (r, p) ↦
      rw (p, add_route_to)
        (record {
          size = length-update_existing d n s t p ∙ h.size;
          order = IsOrdered-update_existing d n s t v p h.order;
        })
  | inl p ↦ elim (Option-cases (use_invalid d n s t)) [
    | inr (r, q) ↦
        rw (p, q, add_route_to)
          (record {
            size = length-use_invalid d n s t q ∙ h.size;
            order = IsOrdered-use_invalid d n s t v p q h.order;
          })
    | inl q ↦ rw (p, q, add_route_to) (make_room-IsTable d n s t v h p q)
  ]
]

-- Deleting a route keeps the table's size and the order of its entries.
pub delete_route_to-IsTable : (d : ℕ) {t : Table} → IsTable t → IsTable (delete_route_to d t).1
unfolding delete_route_to
delete_route_to-IsTable d {t} h = elim (Option-cases (index_of d t)) [
  | inl p ↦ rw (p, delete_route_to) h
  | inr (i, p) ↦ rw (p, delete_route_to) (delete_route-IsTable i h)
]
