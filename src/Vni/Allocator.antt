-- ===== src/Vni/Allocator.antt =====
-- The operations of `UnderstackVniDbHelper` in
-- python/neutron-understack/neutron_understack/l3_router/understack_vni_db.py.
-- Each takes the table that its transaction has locked and returns it with the result. The
-- exceptions carry the ranges themselves in place of their text.
pub mod Views
pub mod Invariant
pub mod New
pub mod Lifecycle
use understack.Prelude.{
  ℕ, zero, suc, ◌==◌, if◌then◌else◌, Bool, true, false, ◌||◌, List, [], ◌∷◌, ◌++◌, Option, none,
  some, Text, Result, ok, err,
}
use understack.Vni.Ranges.{Range, InvalidRange, covers, parse_vni_ranges}
use understack.Vni.Table.{
  Allocation, Table, get_router_allocation, get_allocation, write_row, find_never_used_vni,
  find_released_allocation, held_by,
}

pub data Error : Type 0 where
  invalid_range : InvalidRange → Error
  not_in_range : ℕ → List Range → Error
  in_use : ℕ → Text → Error
  router_has_vni : Text → ℕ → ℕ → Error
  no_available : List Range → Error

-- The `evpn_vni` attribute of a request, after neutron's conversion to a number from 0 up.
pub data Requested : Type 0 where
  not_specified null : Requested
  number : ℕ → Requested

unfoldable pub is_auto_vni : Requested → Bool
is_auto_vni not_specified = true
is_auto_vni null = true
is_auto_vni (number n) = n == 0

-- `int(requested_vni)`, which is reached for numbers alone.
abbrev pub to_vni : Requested → ℕ
to_vni not_specified = 0
to_vni null = 0
to_vni (number n) = n

-- A text that a Python condition takes for true.
abbrev pub truthy : Option Text → Option Text
truthy none = none
truthy (some []) = none
truthy (some (c ∷ s)) = some (c ∷ s)

abbrev pub Outcome : Type 0
Outcome = Result Error ℕ × Table

unfoldable pub allocate_auto_vni : Table → Text → List Range → Outcome
unfolding find_never_used_vni find_released_allocation write_row
allocate_auto_vni rows router_id ranges = elim (find_never_used_vni rows ranges) [
  | some vni ↦ (ok vni, rows ++ held_by router_id vni ∷ [])
  | none ↦ elim (find_released_allocation rows ranges) [
    | some released ↦ (ok released.vni, write_row released.vni (some router_id) none rows)
    | none ↦ (err (no_available ranges), rows)
  ]
]

unfoldable pub allocate_specific_vni : Table → Text → ℕ → Outcome
unfolding get_allocation write_row
allocate_specific_vni rows router_id vni = elim (get_allocation vni rows) [
  | some allocation ↦ elim (truthy allocation.router_id) [
    | some holder ↦ (err (in_use vni holder), rows)
    | none ↦ (ok vni, write_row vni (some router_id) none rows)
  ]
  | none ↦ (ok vni, rows ++ held_by router_id vni ∷ [])
]

unfoldable pub keep_existing : Text → Allocation → Requested → Result Error ℕ
unfolding is_auto_vni
keep_existing router_id existing requested =
    if is_auto_vni requested || (to_vni requested == existing.vni)
    then ok existing.vni
    else err (router_has_vni router_id existing.vni (to_vni requested))

unfoldable pub allocate_new : List Range → Text → Requested → Table → Outcome
unfolding allocate_auto_vni allocate_specific_vni is_auto_vni covers
allocate_new ranges router_id requested rows =
    if is_auto_vni requested
    then allocate_auto_vni rows router_id ranges
    else if covers ranges (to_vni requested)
    then allocate_specific_vni rows router_id (to_vni requested)
    else (err (not_in_range (to_vni requested) ranges), rows)

-- `allocate_vni_for_router`, from the parsed ranges on
unfoldable pub allocate_in : List Range → Text → Requested → Table → Outcome
unfolding get_router_allocation keep_existing allocate_new
allocate_in ranges router_id requested rows = elim (get_router_allocation router_id rows) [
  | some existing ↦ (keep_existing router_id existing requested, rows)
  | none ↦ allocate_new ranges router_id requested rows
]

-- UnderstackVniDbHelper: the ranges given to it, and the option `understack_vni.vni_ranges`.
pub record Helper : Type 0 where
  pub min_vni : ℕ
  pub max_vni : ℕ
  pub vni_ranges : Option (List Text)
  pub conf_vni_ranges : Option (List Text)

abbrev pub configured_ranges : Helper → Option (List Text)
configured_ranges h = elim h.vni_ranges [ some entries ↦ some entries | none ↦ h.conf_vni_ranges ]

-- The property `ranges`
unfoldable pub ranges_of : Helper → Result InvalidRange (List Range)
unfolding parse_vni_ranges
ranges_of h = parse_vni_ranges h.min_vni h.max_vni (configured_ranges h)

unfoldable pub allocate_vni_for_router : Helper → Text → Requested → Table → Outcome
unfolding ranges_of allocate_in
allocate_vni_for_router h router_id requested rows = elim (ranges_of h) [
  | ok ranges ↦ allocate_in ranges router_id requested rows
  | err e ↦ (err (invalid_range e), rows)
]

-- `now` is `timeutils.utcnow()`.
unfoldable pub release_vni_for_router : ℕ → Text → Table → Table
unfolding get_router_allocation write_row
release_vni_for_router now router_id rows = elim (get_router_allocation router_id rows) [
  | none ↦ rows
  | some allocation ↦ write_row allocation.vni none (some now) rows
]

unfoldable pub get_vni_for_router : Text → Table → Option ℕ
unfolding get_router_allocation
get_vni_for_router router_id rows = elim (get_router_allocation router_id rows) [
  | some allocation ↦ some allocation.vni
  | none ↦ none
]
