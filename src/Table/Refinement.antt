-- ===== src/Table/Refinement.antt =====
-- The routing table as a map of bounded size: what a lookup finds, before and after each operation.
use grove_lo_ra_433mhz_and.Prelude.{
  member, ℕ, suc, ◌≤◌, ◌==◌, ◌≡◌, ◌≢◌, refl, ap, ◌∙◌, Bool, true, not, ◌&&◌, Option, none, some,
  List, [], ◌∷◌, arith, if◌then◌else◌, length, inl, inr, Bool-cases, is_some,
}
use grove_lo_ra_433mhz_and.Table.{
  RoutingTableEntry, entry, Table, invalid, routing_table_size, add_route_to, get_route_to,
  delete_route_to, clear_routing_table, retire_oldest_route,
}
use grove_lo_ra_433mhz_and.Table.Lookup.{update_existing-none}
use grove_lo_ra_433mhz_and.Table.Order.{
  IsOrdered, evicts, get-add_route_to, get-delete_route_to, update_existing-some,
  get-delete_route_zero, get-none_head,
}
use grove_lo_ra_433mhz_and.Table.Invariant.{
  IsTable, clear-IsTable, add_route_to-IsTable, delete_route_to-IsTable,
  retire_oldest_route-IsTable, get-clear_routing_table,
}
use grove_lo_ra_433mhz_and.Table.Capacity.{routes_held, evicts-full}

-- The abstract table: the route to each destination.
abbrev pub Routes : Type 0
Routes = ℕ → Option RoutingTableEntry

abbrev pub view : Table → Routes
view t e = get_route_to e t

unfoldable pub distinct : List ℕ → Bool
distinct [] = true
distinct (x ∷ xs) = not (member x xs) && distinct xs

-- As many destinations as the table has entries have a route.
pub record IsFull (m : Routes) : Type 0 where
  pub dests : List ℕ
  pub number : length dests ≡ routing_table_size
  pub different : distinct dests ≡ true
  pub have_routes : (d : ℕ) → member d dests ≡ true → is_some (m d) ≡ true

pub data Operation : Type 0 where
  add : (dest next_hop state : ℕ) → Operation
  delete : (dest : ℕ) → Operation
  clear : Operation
  retire : Operation

-- What an operation may do to the abstract table: a route that is added replaces the one to its
-- destination, and by that one other route goes only if the table is full and has none to that
-- destination. A call that retires the oldest route takes away at most one route.
pub data Step (m : Routes) : Operation → Routes → Type 0 where
  added :
      {m' : Routes} (d n s : ℕ)
      → ((e : ℕ) → m' e ≡ (if d == e then some (entry d n s) else m e))
      → Step m (add d n s) m'
  retired :
      {m' : Routes} (d n s old : ℕ)
      → IsFull m
      → m d ≡ none
      → is_some (m old) ≡ true
      → ((e : ℕ) → m' e ≡ (if d == e then some (entry d n s) else if old == e then none else m e))
      → Step m (add d n s) m'
  deleted :
      {m' : Routes} (d : ℕ)
      → ((e : ℕ) → m' e ≡ (if d == e then none else m e))
      → Step m (delete d) m'
  cleared : {m' : Routes} → ((e : ℕ) → m' e ≡ none) → Step m clear m'
  oldest_retired :
      {m' : Routes} (old : ℕ)
      → ((e : ℕ) → m' e ≡ (if old == e then none else m e))
      → Step m retire m'

pub data Steps : Routes → List Operation → Routes → Type 0 where
  stop : {m : Routes} → Steps m [] m
  step :
      {m m' m'' : Routes} {o : Operation} {os : List Operation}
      → Step m o m'
      → Steps m' os m''
      → Steps m (o ∷ os) m''

-- What the code does.
abbrev pub perform : Operation → Table → Table
perform (add d n s) t = add_route_to d n s t
perform (delete d) t = (delete_route_to d t).1
perform clear t = clear_routing_table t
perform retire t = retire_oldest_route t

unfoldable pub perform_all : List Operation → Table → Table
perform_all [] t = t
perform_all (o ∷ os) t = perform_all os (perform o t)

-- The state of a route that is added is not `invalid`.
abbrev pub is_usable : Operation → Bool
is_usable (add d n s) = not (s == invalid)
is_usable (delete d) = true
is_usable clear = true
is_usable retire = true

unfoldable pub all_usable : List Operation → Bool
all_usable [] = true
all_usable (o ∷ os) = is_usable o && all_usable os

unfoldable dests_of : Table → List ℕ
dests_of [] = []
dests_of (e ∷ es) = e.dest ∷ dests_of es

held-length : (t : Table) → routes_held t ≤ length t
unfolding routes_held
held-length [] = omega arith
held-length (x ∷ t) = ground (arith, held-length t)

length-dests_of : (t : Table) → length (dests_of t) ≡ length t
unfolding dests_of
length-dests_of [] = refl
length-dests_of (x ∷ t) = ap suc (length-dests_of t)

-- In a full table every entry is a route,
full-routes :
    (d : ℕ) (t : Table)
    → routes_held t ≡ length t
    → member d (dests_of t) ≡ true
    → is_some (get_route_to d t) ≡ true
unfolding routes_held dests_of get_route_to
full-routes d [] f h = cc
full-routes d (x ∷ t) f h = ground (arith, held-length t, full-routes d t)

-- ... and no two have one destination
full-distinct : (t : Table) → routes_held t ≡ length t → IsOrdered t → distinct (dests_of t) ≡ true
unfolding routes_held dests_of distinct IsOrdered
full-distinct [] f o = refl
full-distinct (x ∷ t) f o = elim (Bool-cases (member x.dest (dests_of t))) [
  | inl p ↦ absurd (ground (arith, held-length t, full-routes x.dest t, p))
  | inr p ↦ ground (arith, held-length t, full-distinct t)
]

IsFull-view : {t : Table} → IsTable t → routes_held t ≡ length t → IsFull (view t)
IsFull-view {t} h f = record {
  dests = dests_of t;
  number = length-dests_of t ∙ h.size;
  different = full-distinct t f h.order;
  have_routes = λ d. full-routes d t f;
}

-- `evicts` singles out the head.
evicts-head :
    (d e : ℕ) (x : RoutingTableEntry) (t : Table)
    → evicts d (x ∷ t) e ≡ (evicts d (x ∷ t) x.dest && x.dest == e)
unfolding evicts
evicts-head d e x t = ground arith

evicts-none : (d e : ℕ) (t : Table) → evicts d t e ≡ true → get_route_to d t ≡ none
unfolding evicts
evicts-none d e [] h = cc
evicts-none d e (x ∷ t) h =
    ground (arith, update_existing-some d 0 0 (x ∷ t), update_existing-none d 0 0 (x ∷ t))

head-route :
    (x : RoutingTableEntry) (t : Table)
    → routes_held (x ∷ t) ≡ length (x ∷ t)
    → is_some (get_route_to x.dest (x ∷ t)) ≡ true
unfolding routes_held get_route_to
head-route x t f = ground (arith, held-length t)

add-Step :
    (d n s : ℕ) (t : Table)
    → s ≢ invalid
    → IsTable t
    → Step (view t) (add d n s) (view (add_route_to d n s t))
add-Step d n s [] v h = absurd (omega (arith, h.size))
add-Step d n s (x ∷ t) v h = elim (Bool-cases (evicts d (x ∷ t) x.dest)) [
  | inl p ↦
      let f : routes_held (x ∷ t) ≡ length (x ∷ t) = evicts-full d x.dest (x ∷ t) p in
      retired d n s x.dest (IsFull-view h f) (evicts-none d x.dest (x ∷ t) p) (head-route x t f)
        λ e.
          get-add_route_to d n s e (x ∷ t) (omega arith) v h.order
          ∙ rw (evicts-head d e x t, p) refl
  | inr p ↦ added d n s λ e.
      get-add_route_to d n s e (x ∷ t) (omega arith) v h.order ∙ rw (evicts-head d e x t, p) refl
]

retire-Step : (t : Table) → IsTable t → Step (view t) retire (view (retire_oldest_route t))
unfolding retire_oldest_route IsOrdered get_route_to
retire-Step [] h = absurd (omega (arith, h.size))
retire-Step (x ∷ t) h =
    oldest_retired x.dest
      λ e. ground (arith, get-delete_route_zero e x t, get-none_head x t e, h.order)

perform-Step :
    (o : Operation) (t : Table)
    → is_usable o ≡ true
    → IsTable t
    → Step (view t) o (view (perform o t))
perform-Step (add d n s) t u h = add-Step d n s t (ground arith) h
perform-Step (delete d) t u h = deleted d λ e. get-delete_route_to d e t h.order
perform-Step clear t u h = cleared λ e. get-clear_routing_table e t
perform-Step retire t u h = retire-Step t h

perform-IsTable :
    (o : Operation) (t : Table) → is_usable o ≡ true → IsTable t → IsTable (perform o t)
perform-IsTable (add d n s) t u h = add_route_to-IsTable d n s (ground arith) h
perform-IsTable (delete d) t u h = delete_route_to-IsTable d h
perform-IsTable clear t u h = clear-IsTable t h.size
perform-IsTable retire t u h = retire_oldest_route-IsTable h

-- Any sequence of additions, deletions, clearings and retirements of the oldest route on a
-- well-formed table, in which no route is added as invalid, is one
-- that the map of bounded size may take from what is found in the table before to what is found
-- after.
pub perform_all-Steps :
    (os : List Operation) (t : Table)
    → all_usable os ≡ true
    → IsTable t
    → Steps (view t) os (view (perform_all os t))
unfolding all_usable perform_all
perform_all-Steps [] t u h = stop
perform_all-Steps (o ∷ os) t u h =
    let now : is_usable o ≡ true = ground arith in
    step (perform-Step o t now h)
      (perform_all-Steps os (perform o t) (ground arith) (perform-IsTable o t now h))

-- Any sequence of additions, deletions, clearings and retirements of the oldest route, in which no
-- route is added as invalid, keeps the table well-formed: it has
-- the size of the array, and no destination has a route behind the first entry for it.
pub perform_all-IsTable :
    (os : List Operation) (t : Table)
    → all_usable os ≡ true
    → IsTable t
    → IsTable (perform_all os t)
unfolding all_usable perform_all
perform_all-IsTable [] t u h = h
perform_all-IsTable (o ∷ os) t u h =
    perform_all-IsTable os (perform o t) (ground arith) (perform-IsTable o t (ground arith) h)
