-- ===== src/Table/Order.antt =====
-- The invariant of the routing table, and what the table's operations mean to a lookup.
use grove_lo_ra_433mhz_and.Prelude.{
  ℕ, zero, suc, ◌<◌, ◌==◌, ◌≡◌, ◌≢◌, refl, Bool, true, false, not, none, some, [], ◌∷◌, arith,
  if◌then◌else◌, length, ◌&&◌, ◌||◌, inl, inr, Option-cases, is_some,
}
use grove_lo_ra_433mhz_and.Table.{
  RoutingTableEntry, entry, Table, invalid, update_existing, use_invalid, delete_route,
  retire_oldest_route, make_room, add_route_to, get_route_to, index_of, delete_route_to,
}
use grove_lo_ra_433mhz_and.Table.Lookup.{
  get-update_existing, get-use_invalid, get-fill_invalid, update_existing-none, get-shift_down,
}

-- No entry behind another one for the same destination holds a route.
unfoldable pub IsOrdered : Table → Type 0
IsOrdered [] = Unit
IsOrdered (e ∷ es) = (get_route_to e.dest es ≡ none) × IsOrdered es

-- Whether the table has an entry for a destination, valid or not.
unfoldable pub has_entry : ℕ → Table → Bool
has_entry d [] = false
has_entry d (x ∷ t) = x.dest == d || has_entry d t

-- Whether the table has an invalid entry.
unfoldable pub has_free : Table → Bool
has_free [] = false
has_free (x ∷ t) = x.state == invalid || has_free t

-- A route to `d` is added to a table that has no entry for it and none that is invalid: the oldest
-- entry goes, which is the one for `e`.
unfoldable pub evicts : ℕ → Table → ℕ → Bool
evicts d [] e = false
evicts d (x ∷ t) e = not (has_entry d (x ∷ t)) && not (has_free (x ∷ t)) && x.dest == e

pub update_existing-some :
    (d n s : ℕ) (t : Table) → is_some (update_existing d n s t) ≡ has_entry d t
unfolding update_existing has_entry
update_existing-some d n s [] = refl
update_existing-some d n s (x ∷ t) = ground (arith, update_existing-some d n s t)

pub use_invalid-some : (d n s : ℕ) (t : Table) → is_some (use_invalid d n s t) ≡ has_free t
unfolding use_invalid has_free
use_invalid-some d n s [] = refl
use_invalid-some d n s (x ∷ t) = ground (arith, use_invalid-some d n s t)

pub get-none_head :
    (x : RoutingTableEntry) (t : Table) (e : ℕ)
    → (x.dest == e) ≡ true
    → get_route_to x.dest t ≡ none
    → get_route_to e t ≡ none
get-none_head x t e = ground arith

get-make_room :
    (d n s e : ℕ) (x : RoutingTableEntry) (t : Table)
    → s ≢ invalid
    → IsOrdered (x ∷ t)
    → update_existing d n s (x ∷ t) ≡ none
    → use_invalid d n s (x ∷ t) ≡ none
    → get_route_to e (make_room d n s (x ∷ t)) ≡ (
        if d == e then some (entry d n s) else if x.dest == e then none else get_route_to e (x ∷ t))
unfolding make_room retire_oldest_route delete_route IsOrdered use_invalid get_route_to
get-make_room d n s e x t v o a u =
    ground (
      arith,
      get-fill_invalid d n s e x t v,
      update_existing-none d n s (x ∷ t),
      get-none_head x t e,
    )

-- In a well-ordered table that is not empty, `add_route_to` makes the given route, whose state is
-- not Invalid, the one that a lookup of its destination finds. Every other lookup is as before, but
-- for the destination of the oldest entry where no entry was for the given destination and none was
-- invalid: that one finds no route any more.
pub get-add_route_to :
    (d n s e : ℕ) (t : Table)
    → 0 < length t
    → s ≢ invalid
    → IsOrdered t
    → get_route_to e (add_route_to d n s t)
      ≡ (if d == e then some (entry d n s) else if evicts d t e then none else get_route_to e t)
unfolding add_route_to evicts
get-add_route_to d n s e [] l v o = elim l [ ]
get-add_route_to d n s e (x ∷ t) l v o = elim (Option-cases (update_existing d n s (x ∷ t))) [
  | inr (r, p) ↦
      ground (
        arith,
        get-update_existing d n s e (x ∷ t) {t' = r} v p,
        update_existing-some d n s (x ∷ t),
      )
  | inl p ↦ elim (Option-cases (use_invalid d n s (x ∷ t))) [
    | inr (r, q) ↦ ground (
      arith,
      get-use_invalid d n s e (x ∷ t) {t' = r} v p q,
      update_existing-some d n s (x ∷ t),
      use_invalid-some d n s (x ∷ t),
    )
    | inl q ↦ ground (
      arith,
      get-make_room d n s e x t v o p q,
      update_existing-some d n s (x ∷ t),
      use_invalid-some d n s (x ∷ t),
    )
  ]
]

pub get-delete_route_zero :
    (e : ℕ) (x : RoutingTableEntry) (t : Table)
    → get_route_to e (delete_route 0 (x ∷ t)) ≡ get_route_to e t
unfolding delete_route
get-delete_route_zero = get-shift_down

pub delete_route-zero :
    (x y : RoutingTableEntry) (t : Table) → delete_route 0 (x ∷ y ∷ t) ≡ y ∷ delete_route 0 (y ∷ t)
unfolding delete_route
delete_route-zero x y [] = refl
delete_route-zero x y (z ∷ t) = refl

-- What `delete_route` does behind the head, where the entry to delete is not the head.
pub delete_route-suc :
    (i : ℕ) (x y : RoutingTableEntry) (t : Table)
    → delete_route (suc i) (x ∷ y ∷ t) ≡ x ∷ delete_route i (y ∷ t)
unfolding delete_route
delete_route-suc zero x y [] = refl
delete_route-suc zero x y (z ∷ t) = refl
delete_route-suc (suc i) x y t = refl

get-delete_route :
    (d e i : ℕ) (t : Table)
    → IsOrdered t
    → index_of d t ≡ some i
    → get_route_to e (delete_route i t) ≡ (if d == e then none else get_route_to e t)
unfolding index_of IsOrdered get_route_to
get-delete_route d e i [] o h = cc
get-delete_route d e zero (x ∷ t) o h =
    ground (arith, get-delete_route_zero e x t, get-none_head x t e)
get-delete_route d e (suc i) (x ∷ []) o h = ground arith
get-delete_route d e (suc i) (x ∷ y ∷ t) o h =
    rw delete_route-suc (ground (arith, get-delete_route d e i (y ∷ t)))

index_of-none : (d : ℕ) (t : Table) → index_of d t ≡ none → get_route_to d t ≡ none
unfolding index_of get_route_to
index_of-none d [] h = refl
index_of-none d (x ∷ t) h = ground (arith, index_of-none d t)

get_route_to-eq :
    (d e : ℕ) (t : Table) → get_route_to d t ≡ none → (d == e) ≡ true → get_route_to e t ≡ none
get_route_to-eq d e t = ground arith

pub get-delete_route_to :
    (d e : ℕ) (t : Table)
    → IsOrdered t
    → get_route_to e (delete_route_to d t).1 ≡ (if d == e then none else get_route_to e t)
unfolding delete_route_to
get-delete_route_to d e t o = elim (Option-cases (index_of d t)) [
  | inl p ↦ ground (arith, p, index_of-none d t, get_route_to-eq d e t)
  | inr (i, p) ↦ ground (arith, get-delete_route d e i t o p)
]
