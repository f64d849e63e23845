-- ===== src/Examples/Tables.antt =====
-- Concrete runs of the routing table.
use grove_lo_ra_433mhz_and.Prelude.{
  ◌==◌, ◌≡◌, ◌+◌, ◌≤◌, refl, none, some, List, [], ◌∷◌, arith, if◌then◌else◌,
}
use grove_lo_ra_433mhz_and.Table.{Table, entry, valid, invalid, add_route_to, get_route_to}
use grove_lo_ra_433mhz_and.Table.Order.{IsOrdered, evicts, get-add_route_to}
use grove_lo_ra_433mhz_and.Table.Refinement.{
  Operation, add, delete, clear, retire, Steps, view, perform_all, all_usable, perform_all-Steps,
  perform_all-IsTable,
}
use grove_lo_ra_433mhz_and.Table.Invariant.{IsTable}
use grove_lo_ra_433mhz_and.Table.Capacity.{routes_held, add_route_to-room}

-- Ten routes: the table is full.
abbrev full : Table
full =
    entry 1 9 valid
    ∷ entry 2 9 valid
    ∷ entry 3 9 valid
    ∷ entry 4 9 valid
    ∷ entry 5 9 valid
    ∷ entry 6 9 valid
    ∷ entry 7 9 valid
    ∷ entry 8 9 valid
    ∷ entry 9 9 valid
    ∷ entry 10 9 valid
    ∷ []

full-IsTable : IsTable full
unfolding IsOrdered get_route_to
full-IsTable = record {
  size = refl;
  order = (refl, (refl, (refl, (refl, (refl, (refl, (refl, (refl, (refl, (refl, tt))))))))));
}

get-add_route_to_example : get_route_to 1 (add_route_to 11 5 valid full) ≡ (
    if 11 == 1
    then some (entry 11 5 valid)
    else if evicts 11 full 1
    then none
    else get_route_to 1 full)
get-add_route_to_example =
    get-add_route_to 11 5 valid 1 full (omega arith) (omega arith) full-IsTable.order

-- A full table takes an eleventh route, then loses one and the oldest, and is cleared.
abbrev operations : List Operation
operations = add 11 5 valid ∷ add 2 6 valid ∷ delete 3 ∷ retire ∷ clear ∷ add 4 4 valid ∷ []

perform_all-Steps_example : Steps (view full) operations (view (perform_all operations full))
unfolding all_usable
perform_all-Steps_example = perform_all-Steps operations full refl full-IsTable

perform_all-IsTable_example : IsTable (perform_all operations full)
unfolding all_usable
perform_all-IsTable_example = perform_all-IsTable operations full refl full-IsTable

-- A table with four routes.
abbrev some_free : Table
some_free =
    entry 1 9 valid
    ∷ entry 2 9 valid
    ∷ entry 3 9 valid
    ∷ entry 4 9 valid
    ∷ entry 5 9 invalid
    ∷ entry 6 9 invalid
    ∷ entry 7 9 invalid
    ∷ entry 8 9 invalid
    ∷ entry 9 9 invalid
    ∷ entry 10 9 invalid
    ∷ []

some_free-IsTable : IsTable some_free
unfolding IsOrdered get_route_to
some_free-IsTable = record {
  size = refl;
  order = (refl, (refl, (refl, (refl, (refl, (refl, (refl, (refl, (refl, (refl, tt))))))))));
}

add_route_to-room_example :
    (routes_held (add_route_to 11 5 valid some_free) ≤ routes_held some_free + 1)
    × (get_route_to 2 (add_route_to 11 5 valid some_free)
        ≡ (if 11 == 2 then some (entry 11 5 valid) else get_route_to 2 some_free))
unfolding routes_held
add_route_to-room_example =
    add_route_to-room 11 5 valid 2 (omega arith) some_free-IsTable (omega arith)
