-- ===== src/Vni/Allocator/Invariant.antt =====
-- The contract of `allocate_vni_for_router` behind the parsed ranges, branch by branch.
use understack.Prelude.{
  ℕ, ◌≡◌, ◌≢◌, refl, subst, ◌==◌, if◌then◌else◌, false, List, [], ◌∷◌, ◌++◌, none, some, Text,
  text_eq, text_eq_iff, arith, Option-cases, Bool-cases, inl, inr, ok, err, Result-cases, ◌||◌,
}
use understack.Vni.Ranges.{Range, covers}
use understack.Vni.Ranges.Merge.{IsSeparatedFrom}
use understack.Vni.Ranges.Parse.{parse_vni_ranges-IsSeparated}
use understack.Vni.Table.{
  Allocation, Table, get_router_allocation, get_allocation, write_row, has_vni, held_by,
  find_never_used_vni, find_released_allocation,
}
use understack.Vni.Table.Rows.{IsValid, append-IsValid, write_row-IsValid}
use understack.Vni.Table.Search.{NeverUsed, find_never_used_vni-NeverUsed}
use understack.Vni.Table.Released.{find_allocation-IsReleased, allocation_none}
use understack.Vni.Allocator.Views.{none_get_vni, get_vni-append, get_vni-write_row, truthy-none}
use understack.Vni.Allocator.{
  Helper, configured_ranges, ranges_of, allocate_vni_for_router, Requested, Outcome,
  allocate_auto_vni, allocate_specific_vni, allocate_new, allocate_in, keep_existing,
  get_vni_for_router, truthy, is_auto_vni, to_vni,
}

-- A call that returned: the table stays valid, the router holds the VNI that was returned, and
-- every other router holds what it held. A call that raised has changed nothing.
abbrev pub Allocates : Text → Table → Outcome → Type 0
Allocates r rows (ok v, rows') =
    IsValid rows'
    × ((q : Text)
        → get_vni_for_router q rows' ≡ (if text_eq r q then some v else get_vni_for_router q rows))
Allocates r rows (err e, rows') = rows' ≡ rows

ranges_of-IsSeparated :
    (h : Helper) (ranges : List Range) → ranges_of h ≡ ok ranges → IsSeparatedFrom 0 ranges
unfolding ranges_of
ranges_of-IsSeparated h ranges e =
    (parse_vni_ranges-IsSeparated h.min_vni h.max_vni (configured_ranges h) ranges e).0

-- The VNI that a router already holds is returned, or the request is refused.
Allocates-existing :
    (r : Text) (rows : Table)
    → IsValid rows
    → (a : Allocation) (req : Requested) → get_router_allocation r rows ≡ some a
    → Allocates r rows (keep_existing r a req, rows)
unfolding keep_existing
Allocates-existing r rows valid a req e =
    elim (Bool-cases (is_auto_vni req || (to_vni req == a.vni))) [
      | inl kept ↦
          rw kept (valid, λ q. unfold get_vni_for_router in ground (arith, text_eq_iff r q))
      | inr refused ↦ rw refused refl
    ]

module _ (r : Text) (rows : Table) (n : r ≢ []) (valid : IsValid rows)
    (new : get_router_allocation r rows ≡ none) where
  Allocates-append :
      (v : ℕ) → has_vni v rows ≡ false → Allocates r rows (ok v, rows ++ held_by r v ∷ [])
  Allocates-append v h = (
    append-IsValid r v rows n h new valid,
    λ q. get_vni-append r q v rows (none_get_vni r rows new),
  )

  Allocates-write_row :
      (v : ℕ) (a : Allocation)
      → get_allocation v rows ≡ some a
      → a.router_id ≡ none
      → Allocates r rows (ok v, write_row v (some r) none rows)
  Allocates-write_row v a e f = (
    write_row-IsValid v (some r) none rows (n, new) valid,
    λ q. get_vni-write_row r q v none rows valid (none_get_vni r rows new) a e f,
  )

  allocate_auto_vni-Allocates :
      (lo : ℕ) (ranges : List Range)
      → IsSeparatedFrom lo ranges
      → Allocates r rows (allocate_auto_vni rows r ranges)
  unfolding allocate_auto_vni
  allocate_auto_vni-Allocates lo ranges sep =
      let searched = find_never_used_vni-NeverUsed lo rows ranges sep in
      elim (Option-cases (find_never_used_vni rows ranges)) [
        | inr (v, e) ↦
            rw (e, allocate_auto_vni)
              (Allocates-append v (subst (NeverUsed rows ranges) e searched).1)
        | inl e ↦ elim (Option-cases (find_released_allocation rows ranges)) [
          | inr (a, f) ↦
              let (here, none_there, within) = find_allocation-IsReleased ranges rows a valid f in
              rw (e, f, allocate_auto_vni) (Allocates-write_row a.vni a here none_there)
          | inl f ↦ rw (e, f, allocate_auto_vni) refl
        ]
      ]

  allocate_specific_vni-Allocates : (v : ℕ) → Allocates r rows (allocate_specific_vni rows r v)
  unfolding allocate_specific_vni
  allocate_specific_vni-Allocates v = elim (Option-cases (get_allocation v rows)) [
    | inl e ↦ rw (e, allocate_specific_vni) (Allocates-append v (allocation_none v rows e))
    | inr (a, e) ↦ elim (Option-cases (truthy a.router_id)) [
      | inl f ↦
          rw (e, f, allocate_specific_vni)
            (Allocates-write_row v a e (truthy-none v a rows valid e f))
      | inr (h, f) ↦ rw (e, f, allocate_specific_vni) refl
    ]
  ]

  allocate_new-Allocates :
      (lo : ℕ) (ranges : List Range) (req : Requested)
      → IsSeparatedFrom lo ranges
      → Allocates r rows (allocate_new ranges r req rows)
  unfolding allocate_new
  allocate_new-Allocates lo ranges req sep = elim (Bool-cases (is_auto_vni req)) [
    | inl auto ↦ rw auto (allocate_auto_vni-Allocates lo ranges sep)
    | inr specific ↦ elim (Bool-cases (covers ranges (to_vni req))) [
      | inl within ↦ rw (specific, within) (allocate_specific_vni-Allocates (to_vni req))
      | inr outside ↦ rw (specific, outside) refl
    ]
  ]

allocate_in-Allocates :
    (lo : ℕ) (ranges : List Range) (r : Text) (req : Requested) (rows : Table)
    → IsSeparatedFrom lo ranges
    → r ≢ []
    → IsValid rows
    → Allocates r rows (allocate_in ranges r req rows)
unfolding allocate_in
allocate_in-Allocates lo ranges r req rows sep n valid =
    elim (Option-cases (get_router_allocation r rows)) [
      | inl new ↦
          rw (new, allocate_in) (allocate_new-Allocates r rows n valid new lo ranges req sep)
      | inr (a, old) ↦ rw (old, allocate_in) (Allocates-existing r rows valid a req old)
    ]

-- From a valid table, one with distinct VNIs and distinct nonempty router ids,
-- `allocate_vni_for_router` for a nonempty router id returns a VNI and a valid table in which
-- this router holds that VNI and every other router holds what it held before, or it raises and
-- leaves the table as it was.
pub allocate_vni_for_router-Allocates :
    (h : Helper) (r : Text) (req : Requested) (rows : Table)
    → r ≢ []
    → IsValid rows
    → Allocates r rows (allocate_vni_for_router h r req rows)
unfolding allocate_vni_for_router
allocate_vni_for_router-Allocates h r req rows n valid = elim (Result-cases (ranges_of h)) [
  | inl (ranges, e) ↦
      rw (e, allocate_vni_for_router)
        (allocate_in-Allocates 0 ranges r req rows (ranges_of-IsSeparated h ranges e) n valid)
  | inr (x, e) ↦ rw (e, allocate_vni_for_router) refl
]
