-- ===== src/Vni/Allocator/New.antt =====
-- Which VNI a router that holds none is given, and when none is left.
use understack.Prelude.{
  ℕ, ◌≡◌, ◌≢◌, subst, ◌⊎◌, true, false, List, none, some, Text, arith, Option-cases, Bool-cases,
  inl, inr, ok, err,
}
use understack.Vni.Ranges.{Range, covers}
use understack.Vni.Ranges.Merge.{IsSeparatedFrom}
use understack.Vni.Table.{
  Allocation, Table, get_allocation, has_vni, find_never_used_vni, find_released_allocation,
  row_before,
}
use understack.Vni.Table.Rows.{IsValid}
use understack.Vni.Table.Search.{NeverUsed, find_never_used_vni-NeverUsed}
use understack.Vni.Table.Released.{
  IsReleased, find_allocation-IsReleased, find_allocation-none, find_released_first,
  allocation_none, allocation_of_has_vni, has_vni_of_allocation,
}
use understack.Vni.Allocator.Views.{held_has_row, held_by_row, truthy-none}
use understack.Vni.Allocator.{
  Error, no_available, Requested, allocate_auto_vni, allocate_specific_vni, allocate_new,
  get_vni_for_router, truthy, is_auto_vni, to_vni,
}

-- The ranges cover the VNI, and no router holds it.
abbrev pub IsFree : List Range → Table → ℕ → Type 0
IsFree ranges rows v = (covers ranges v ≡ true) × ((q : Text) → get_vni_for_router q rows ≢ some v)

no_row_not_held :
    (q : Text) (v : ℕ) (rows : Table) → has_vni v rows ≡ false → get_vni_for_router q rows ≢ some v
no_row_not_held q v rows h = λ e. held_has_row q v rows e h

open_row_not_held :
    (q : Text) (v : ℕ) (a : Allocation) (rows : Table)
    → IsValid rows
    → get_allocation v rows ≡ some a
    → a.router_id ≡ none
    → get_vni_for_router q rows ≢ some v
open_row_not_held q v a rows valid e f = λ h. ground (arith, held_by_row q v a rows valid e h)

-- How an automatic allocation comes by its VNI.
auto_cases :
    (r : Text) (rows : Table) (ranges : List Range) (v : ℕ)
    → (allocate_auto_vni rows r ranges).0 ≡ ok v
    → (find_never_used_vni rows ranges ≡ some v)
      ⊎ ((find_never_used_vni rows ranges ≡ none)
          × ((a : Allocation) × (find_released_allocation rows ranges ≡ some a) × (a.vni ≡ v)))
unfolding allocate_auto_vni
auto_cases r rows ranges v h = elim (Option-cases (find_never_used_vni rows ranges)) [
  | inr (w, e) ↦ inl (ground arith)
  | inl e ↦ elim (Option-cases (find_released_allocation rows ranges)) [
    | inr (a, f) ↦ inr (e, (a, f, ground arith))
    | inl f ↦ absurd (ground arith)
  ]
]

auto_failed :
    (r : Text) (rows : Table) (ranges : List Range) (e : Error)
    → (allocate_auto_vni rows r ranges).0 ≡ err e
    → (find_never_used_vni rows ranges ≡ none)
      × (find_released_allocation rows ranges ≡ none)
      × (e ≡ no_available ranges)
unfolding allocate_auto_vni
auto_failed r rows ranges e h = elim (Option-cases (find_never_used_vni rows ranges)) [
  | inr (w, f) ↦ absurd (ground arith)
  | inl f ↦ elim (Option-cases (find_released_allocation rows ranges)) [
    | inr (a, g) ↦ absurd (ground arith)
    | inl g ↦ (f, g, ground arith)
  ]
]

specific_cases :
    (r : Text) (rows : Table) (u v : ℕ)
    → (allocate_specific_vni rows r u).0 ≡ ok v
    → (u ≡ v)
      × ((get_allocation u rows ≡ none)
          ⊎ ((a : Allocation) × (get_allocation u rows ≡ some a) × (truthy a.router_id ≡ none)))
unfolding allocate_specific_vni
specific_cases r rows u v h = elim (Option-cases (get_allocation u rows)) [
  | inl e ↦ (ground arith, inl e)
  | inr (a, e) ↦ elim (Option-cases (truthy a.router_id)) [
    | inl f ↦ (ground arith, inr (a, e, f))
    | inr (holder, f) ↦ absurd (ground arith)
  ]
]

auto-IsFree :
    (lo : ℕ) (r : Text) (rows : Table) (ranges : List Range) (v : ℕ)
    → IsSeparatedFrom lo ranges
    → IsValid rows
    → (allocate_auto_vni rows r ranges).0 ≡ ok v
    → IsFree ranges rows v
auto-IsFree lo r rows ranges v sep valid h = elim (auto_cases r rows ranges v h) [
  | inl e ↦
      let (within, no_row, _) =
        subst (NeverUsed rows ranges) e (find_never_used_vni-NeverUsed lo rows ranges sep) in
      (within, λ q. no_row_not_held q v rows no_row)
  | inr (_, (a, e, same)) ↦
      let (here, none_there, within) = find_allocation-IsReleased ranges rows a valid e in
      subst (IsFree ranges rows) same
        (within, λ q. open_row_not_held q a.vni a rows valid here none_there)
]

specific-IsFree :
    (r : Text) (rows : Table) (ranges : List Range) (u v : ℕ)
    → covers ranges u ≡ true
    → IsValid rows
    → (allocate_specific_vni rows r u).0 ≡ ok v
    → IsFree ranges rows v
specific-IsFree r rows ranges u v within valid h =
    let (same, how) = specific_cases r rows u v h in
    subst (IsFree ranges rows) same (elim how [
      | inl e ↦ (within, λ q. no_row_not_held q u rows (allocation_none u rows e))
      | inr (a, e, f) ↦
          (within, λ q. open_row_not_held q u a rows valid e (truthy-none u a rows valid e f))
    ])

-- With merged ranges and a valid table, the VNI that a router without one is given lies in the
-- ranges and was held by no router; it is the number of the request, if that is a number other
-- than 0.
pub allocate_new-IsFree :
    (lo : ℕ) (ranges : List Range) (r : Text) (req : Requested) (rows : Table) (v : ℕ)
    → IsSeparatedFrom lo ranges
    → IsValid rows
    → (allocate_new ranges r req rows).0 ≡ ok v
    → IsFree ranges rows v × ((is_auto_vni req ≡ true) ⊎ (to_vni req ≡ v))
allocate_new-IsFree lo ranges r req rows v sep valid h = elim (Bool-cases (is_auto_vni req)) [
  | inl auto ↦
      (auto-IsFree lo r rows ranges v sep valid (unfold allocate_new in ground arith), inl auto)
  | inr number ↦ elim (Bool-cases (covers ranges (to_vni req))) [
    | inl within ↦
        let taken : (allocate_specific_vni rows r (to_vni req)).0 ≡ ok v =
          unfold allocate_new in ground arith in
        (
          specific-IsFree r rows ranges (to_vni req) v within valid taken,
          inr (specific_cases r rows (to_vni req) v taken).0,
        )
    | inr outside ↦ absurd (unfold allocate_new in ground arith)
  ]
]

-- With merged ranges an automatic allocation fails only with the error that none is available,
-- and only when every VNI of the ranges has a row that names a router.
pub allocate_auto_vni_exhausted :
    (lo : ℕ) (ranges : List Range) (r : Text) (rows : Table) (e : Error)
    → IsSeparatedFrom lo ranges
    → (allocate_auto_vni rows r ranges).0 ≡ err e
    → (e ≡ no_available ranges)
      × ((u : ℕ)
          → covers ranges u ≡ true
          → (a : Allocation) × (get_allocation u rows ≡ some a) × (a.router_id ≢ none))
allocate_auto_vni_exhausted lo ranges r rows e sep h =
    let (none_unused, none_released, same) = auto_failed r rows ranges e h in
    let every_row =
      subst (NeverUsed rows ranges) none_unused
        (find_never_used_vni-NeverUsed lo rows ranges sep) in
    (
      same,
      λ u within.
          let (a, here) = allocation_of_has_vni u rows (every_row u within) in
          let at_u = (has_vni_of_allocation u a rows here).1 in
          (
            a,
            here,
            λ open_row.
                find_allocation-none ranges rows a none_released
                  (rw at_u here, open_row, rw at_u within),
          ),
    )

-- With merged ranges and a valid table, an automatic allocation that returns a VNI with a row
-- does so only when every VNI of the ranges has a row, and then no other released row of the
-- ranges comes before its row in the order of release time and VNI.
pub allocate_auto_vni_oldest :
    (lo : ℕ) (ranges : List Range) (r : Text) (rows : Table) (v : ℕ)
    → IsSeparatedFrom lo ranges
    → IsValid rows
    → (allocate_auto_vni rows r ranges).0 ≡ ok v
    → has_vni v rows ≡ true
    → ((u : ℕ) → covers ranges u ≡ true → has_vni u rows ≡ true)
      × ((a : Allocation) × IsReleased ranges rows a
          × (a.vni ≡ v)
          × ((b : Allocation) → IsReleased ranges rows b → row_before b a ≡ false))
allocate_auto_vni_oldest lo ranges r rows v sep valid h used =
    let searched = find_never_used_vni-NeverUsed lo rows ranges sep in
    elim (auto_cases r rows ranges v h) [
      | inl e ↦
          let found = subst (NeverUsed rows ranges) e searched in absurd (ground (arith, found.1))
      | inr (unused, (a, e, same)) ↦ (
        subst (NeverUsed rows ranges) unused searched,
        (
          a,
          find_allocation-IsReleased ranges rows a valid e,
          same,
          λ b released. find_released_first ranges rows a b e released,
        ),
      )
    ]
