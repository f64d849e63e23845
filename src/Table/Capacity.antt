-- ===== src/Table/Capacity.antt =====
-- How many routes the table holds: none is lost before it is full.
use grove_lo_ra_433mhz_and.Prelude.{
  ℕ, ◌+◌, ◌<◌, ◌≤◌, ◌==◌, ◌≡◌, ◌≢◌, refl, ◌∙◌, true, false, none, some, [], ◌∷◌, arith,
  if◌then◌else◌, length, inl, inr, Option-cases, Bool-cases,
}
use grove_lo_ra_433mhz_and.Table.{
  entry, Table, invalid, update_existing, use_invalid, add_route_to, get_route_to,
  clear_routing_table,
}
use grove_lo_ra_433mhz_and.Table.Order.{evicts, use_invalid-some, get-add_route_to}
use grove_lo_ra_433mhz_and.Table.Invariant.{IsTable}

-- The entries that hold a route.
unfoldable pub routes_held : Table → ℕ
routes_held [] = 0
routes_held (e ∷ es) = (if e.state == invalid then 0 else 1) + routes_held es

use_invalid-full : (d n s : ℕ) (t : Table) → use_invalid d n s t ≡ none → routes_held t ≡ length t
unfolding use_invalid routes_held
use_invalid-full d n s [] h = refl
use_invalid-full d n s (x ∷ t) h = elim (Option-cases (use_invalid d n s t)) [
  | inl p ↦ ground (arith, use_invalid-full d n s t p)
  | inr (r, p) ↦ ground arith
]

pub evicts-full : (d e : ℕ) (t : Table) → evicts d t e ≡ true → routes_held t ≡ length t
unfolding evicts
evicts-full d e [] h = cc
evicts-full d e (x ∷ t) h = elim (Option-cases (use_invalid d 0 0 (x ∷ t))) [
  | inl p ↦ use_invalid-full d 0 0 (x ∷ t) p
  | inr (r, p) ↦ ground (arith, use_invalid-some d 0 0 (x ∷ t))
]

held-update_existing :
    (d n s : ℕ) (t : Table) {t' : Table}
    → update_existing d n s t ≡ some t'
    → routes_held t' ≤ routes_held t + 1
unfolding update_existing routes_held
held-update_existing d n s [] h = cc
held-update_existing d n s (x ∷ t) h = elim (Option-cases (update_existing d n s t)) [
  | inl p ↦ ground arith
  | inr (r, p) ↦ ground (arith, held-update_existing d n s t {t' = r} p)
]

held-use_invalid :
    (d n s : ℕ) (t : Table) {t' : Table}
    → use_invalid d n s t ≡ some t'
    → routes_held t' ≤ routes_held t + 1
unfolding use_invalid routes_held
held-use_invalid d n s [] h = cc
held-use_invalid d n s (x ∷ t) h = elim (Option-cases (use_invalid d n s t)) [
  | inl p ↦ ground arith
  | inr (r, p) ↦ ground (arith, held-use_invalid d n s t {t' = r} p)
]

pub held-clear_routing_table : (t : Table) → routes_held (clear_routing_table t) ≡ 0
unfolding clear_routing_table routes_held
held-clear_routing_table [] = refl
held-clear_routing_table (x ∷ t) = ground (arith, held-clear_routing_table t)

held-add_route_to :
    (d n s : ℕ) (t : Table)
    → routes_held t < length t
    → routes_held (add_route_to d n s t) ≤ routes_held t + 1
unfolding add_route_to
held-add_route_to d n s t l = elim (Option-cases (update_existing d n s t)) [
  | inr (r, p) ↦ rw (p, add_route_to) (held-update_existing d n s t {t' = r} p)
  | inl p ↦ elim (Option-cases (use_invalid d n s t)) [
    | inr (r, q) ↦ rw (p, q, add_route_to) (held-use_invalid d n s t {t' = r} q)
    | inl q ↦ absurd (omega (arith, use_invalid-full d n s t q))
  ]
]

-- In a table that is not full, `add_route_to` takes up at most one more entry, and every other route
-- is found as before.
pub add_route_to-room :
    (d n s e : ℕ) {t : Table}
    → s ≢ invalid
    → IsTable t
    → routes_held t < length t
    → (routes_held (add_route_to d n s t) ≤ routes_held t + 1)
      × (get_route_to e (add_route_to d n s t)
          ≡ (if d == e then some (entry d n s) else get_route_to e t))
add_route_to-room d n s e {t} v h l =
    let same : evicts d t e ≡ false = elim (Bool-cases (evicts d t e)) [
      | inl q ↦ absurd (omega (arith, evicts-full d e t q))
      | inr q ↦ q
    ] in
    (held-add_route_to d n s t l, get-add_route_to d n s e t (omega arith) v h.order ∙ rw same refl)
