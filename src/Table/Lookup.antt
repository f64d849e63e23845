-- ===== src/Table/Lookup.antt =====
-- What `get_route_to` finds after each loop of the table's operations.
use grove_lo_ra_433mhz_and.Prelude.{
  ℕ, ◌==◌, ◌≡◌, ◌≢◌, refl, none, some, [], ◌∷◌, arith, if◌then◌else◌, Option-cases, inl, inr,
}
use grove_lo_ra_433mhz_and.Table.{
  RoutingTableEntry, entry, Table, invalid, update_existing, use_invalid, fill_invalid, shift_down,
  invalidate_last, get_route_to,
}

pub get-update_existing :
    (d n s e : ℕ) (t : Table) {t' : Table}
    → s ≢ invalid
    → update_existing d n s t ≡ some t'
    → get_route_to e t' ≡ (if d == e then some (entry d n s) else get_route_to e t)
unfolding update_existing get_route_to
get-update_existing d n s e [] v h = cc
get-update_existing d n s e (x ∷ t) v h = elim (Option-cases (update_existing d n s t)) [
  | inl p ↦ ground (arith, p)
  | inr (r, p) ↦ ground (arith, p, get-update_existing d n s e t {t' = r} v p)
]

pub update_existing-none :
    (d n s : ℕ) (t : Table) → update_existing d n s t ≡ none → get_route_to d t ≡ none
unfolding update_existing get_route_to
update_existing-none d n s [] h = refl
update_existing-none d n s (x ∷ t) h = ground (arith, update_existing-none d n s t)

pub get-use_invalid :
    (d n s e : ℕ) (t : Table) {t' : Table}
    → s ≢ invalid
    → update_existing d n s t ≡ none
    → use_invalid d n s t ≡ some t'
    → get_route_to e t' ≡ (if d == e then some (entry d n s) else get_route_to e t)
unfolding update_existing use_invalid get_route_to
get-use_invalid d n s e [] v a h = cc
get-use_invalid d n s e (x ∷ t) v a h = elim (Option-cases (use_invalid d n s t)) [
  | inl p ↦ ground (arith, p, update_existing-none d n s t)
  | inr (r, p) ↦
      ground (arith, p, update_existing-none d n s t, get-use_invalid d n s e t {t' = r} v)
]

-- Where every entry holds a route, the deletion of the first one leaves the last entry invalid.
pub get-shift_down :
    (e : ℕ) (x : RoutingTableEntry) (t : Table)
    → get_route_to e (invalidate_last (shift_down 0 (x ∷ t))) ≡ get_route_to e t
unfolding get_route_to invalidate_last shift_down
get-shift_down e x [] = ground arith
get-shift_down e x (y ∷ []) = ground arith
get-shift_down e x (y ∷ z ∷ t) = ground (arith, get-shift_down e y (z ∷ t))

-- ... and `fill_invalid` uses that one for the new route
pub get-fill_invalid :
    (d n s e : ℕ) (x : RoutingTableEntry) (t : Table)
    → s ≢ invalid
    → use_invalid d n s t ≡ none
    → get_route_to d t ≡ none
    → get_route_to e (fill_invalid d n s (invalidate_last (shift_down 0 (x ∷ t))))
      ≡ (if d == e then some (entry d n s) else get_route_to e t)
unfolding get_route_to invalidate_last shift_down fill_invalid use_invalid
get-fill_invalid d n s e x [] v u a = ground arith
get-fill_invalid d n s e x (y ∷ []) v u a = ground arith
get-fill_invalid d n s e x (y ∷ z ∷ t) v u a = ground (arith, get-fill_invalid d n s e y (z ∷ t) v)
