-- ===== src/Vni/Table.antt =====
-- The table of allocations (python/neutron-understack/neutron_understack/db/understack_vni.py)
-- and the queries on it in
-- python/neutron-understack/neutron_understack/l3_router/understack_vni_db.py.
-- `allocated_at` is left out: the code never reads it, and the server fills it in.
pub mod Search
pub mod Rows
pub mod Released
use understack.Prelude.{
  ℕ, ◌+◌, ltb, leb, ◌==◌, between, if◌then◌else◌, Bool, true, false, ◌&&◌, ◌||◌, List, [], ◌∷◌, map,
  any, filter, find?, Option, none, some, Text, opt_text_eq, is_some, not,
}
use understack.Vni.Ranges.{Range, covers}

-- UnderstackRouterVNIAllocation
pub record Allocation : Type 0 where
  pub vni : ℕ
  pub router_id : Option Text
  pub released_at : Option ℕ

abbrev pub Table : Type 0
Table = List Allocation

-- The new object for a VNI of a router
abbrev pub held_by : Text → ℕ → Allocation
held_by router_id vni = record { vni = vni; router_id = some router_id; released_at = none }

abbrev pub is_of_router : Text → Allocation → Bool
is_of_router r a = opt_text_eq a.router_id (some r)

abbrev pub is_of_vni : ℕ → Allocation → Bool
is_of_vni v a = a.vni == v

-- `_get_router_allocation`
unfoldable pub get_router_allocation : Text → Table → Option Allocation
unfolding find?
get_router_allocation router_id rows = find? (is_of_router router_id) rows

-- `filter_by(vni=vni).first()`
unfoldable pub get_allocation : ℕ → Table → Option Allocation
unfolding find?
get_allocation vni rows = find? (is_of_vni vni) rows

-- Writing to the object of the row with the primary key `vni`.
unfoldable pub write_row : ℕ → Option Text → Option ℕ → Table → Table
write_row vni router_id released_at [] = []
write_row vni router_id released_at (a ∷ rows) =
    (if a.vni == vni
      then record { vni = a.vni; router_id = router_id; released_at = released_at }
      else a)
    ∷ write_row vni router_id released_at rows

unfoldable pub insert_vni : ℕ → List ℕ → List ℕ
insert_vni v [] = v ∷ []
insert_vni v (x ∷ xs) = if ltb x v then x ∷ insert_vni v xs else v ∷ x ∷ xs

unfoldable pub order_vnis : List ℕ → List ℕ
unfolding insert_vni
order_vnis [] = []
order_vnis (v ∷ vs) = insert_vni v (order_vnis vs)

-- The query of `_find_never_used_vni`: the VNIs of the rows from `start` to `end`, in order.
unfoldable pub vnis_between : ℕ → ℕ → Table → List ℕ
unfolding order_vnis filter
vnis_between start end rows = order_vnis (filter (between start end) (map (λ a. a.vni) rows))

-- The test behind the loop of `_find_never_used_vni`.
abbrev pub if_within : ℕ → ℕ → Option ℕ
if_within end candidate = if leb candidate end then some candidate else none

-- The loop of `_find_never_used_vni` over the rows of one range.
unfoldable pub scan : ℕ → ℕ → List ℕ → Option ℕ
scan end candidate [] = if_within end candidate
scan end candidate (v ∷ vs) =
    let next = if v == candidate then candidate + 1 else candidate in
    let rest = scan end next vs in
    if ltb candidate v then some candidate else if ltb end next then if_within end next else rest

-- `_find_never_used_vni`
unfoldable pub find_never_used_vni : Table → List Range → Option ℕ
unfolding scan vnis_between
find_never_used_vni rows [] = none
find_never_used_vni rows ((start, end) ∷ ranges) =
    elim (scan end start (vnis_between start end rows)) [
      | some v ↦ some v
      | none ↦ find_never_used_vni rows ranges
    ]

-- NULL comes first in the order, as in MySQL.
abbrev pub time_before : Option ℕ → Option ℕ → Bool
time_before none none = false
time_before none (some t) = true
time_before (some s) none = false
time_before (some s) (some t) = ltb s t

-- `order_by(released_at, vni)`
unfoldable pub row_before : Allocation → Allocation → Bool
row_before a b =
    time_before a.released_at b.released_at
    || (not (time_before b.released_at a.released_at) && ltb a.vni b.vni)

unfoldable pub first_row : Table → Option Allocation
unfolding row_before
first_row [] = none
first_row (a ∷ rows) = elim (first_row rows) [
  | none ↦ some a
  | some b ↦ if row_before b a then some b else some a
]

abbrev pub is_released_in : List Range → Allocation → Bool
is_released_in ranges a = not (is_some a.router_id) && covers ranges a.vni

-- `_find_released_allocation`
unfoldable pub find_released_allocation : Table → List Range → Option Allocation
unfolding filter first_row
find_released_allocation rows ranges = first_row (filter (is_released_in ranges) rows)

-- There is a row for the VNI.
unfoldable pub has_vni : ℕ → Table → Bool
unfolding any
has_vni v rows = any (is_of_vni v) rows
