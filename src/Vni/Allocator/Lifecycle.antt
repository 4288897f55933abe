-- ===== src/Vni/Allocator/Lifecycle.antt =====
-- Releases, repeated requests, and whole histories of requests.
use understack.Prelude.{
  ℕ, ◌≡◌, ◌≢◌, refl, ◌==◌, if◌then◌else◌, ◌||◌, List, [], ◌∷◌, All, none, some, Text, text_eq,
  text_eq_iff, text_eq_refl, arith, subst, Option-cases, Bool-cases, Result-cases, inl, inr, ok,
  err,
}
use understack.Vni.Ranges.{Range}
use understack.Vni.Table.{Table, get_router_allocation, has_vni}
use understack.Vni.Table.Rows.{IsValid, write_row-IsValid, has_vni-write_row}
use understack.Vni.Table.Released.{allocation_of_has_vni}
use understack.Vni.Allocator.Views.{held_row, held_by_row, get_vni-clear}
use understack.Vni.Allocator.Invariant.{Allocates, allocate_vni_for_router-Allocates}
use understack.Vni.Allocator.{
  Helper, Error, Requested, Outcome, allocate_vni_for_router, allocate_in, release_vni_for_router,
  get_vni_for_router, is_auto_vni, to_vni, ranges_of, invalid_range,
}

-- From a valid table a release takes the VNI from its router alone, keeps the table valid, and
-- keeps a row for every VNI that has one.
pub release_vni_for_router_lem :
    (now : ℕ) (r : Text) (rows : Table)
    → IsValid rows
    → IsValid (release_vni_for_router now r rows)
      × ((q : Text)
          → get_vni_for_router q (release_vni_for_router now r rows)
            ≡ (if text_eq r q then none else get_vni_for_router q rows))
      × ((u : ℕ) → has_vni u (release_vni_for_router now r rows) ≡ has_vni u rows)
unfolding release_vni_for_router
release_vni_for_router_lem now r rows valid = elim (Option-cases (get_router_allocation r rows)) [
  | inl e ↦
      rw (e, release_vni_for_router)
        (valid, λ q. unfold get_vni_for_router in ground (arith, text_eq_iff r q), λ u. refl)
  | inr (a, e) ↦
      rw (e, release_vni_for_router)
        (
          write_row-IsValid a.vni none (some now) rows tt valid,
          λ q. get_vni-clear r q a (some now) rows valid e,
          λ u. has_vni-write_row u a.vni none (some now) rows,
        )
]

-- The router's row decides the request, and nothing is written.
allocate_again :
    (h : Helper) (ranges : List Range) (r : Text) (req : Requested) (rows : Table) (v : ℕ)
    → ranges_of h ≡ ok ranges
    → get_vni_for_router r rows ≡ some v
    → allocate_vni_for_router h r req rows ≡ (
      (if is_auto_vni req || (to_vni req == v)
          then ok v
          else err (Error.router_has_vni r v (to_vni req))),
      rows,
    )
unfolding allocate_vni_for_router
allocate_again h ranges r req rows v e held =
    let (a, here, same, _, _) = held_row r v rows held in
    rw (e, allocate_vni_for_router) (rw (here, allocate_in, ← same) refl)

pub data Op : Type 0 where
  allocate : Text → Requested → Op
  release : ℕ → Text → Op

abbrev pub HasRouter : Op → Type 0
HasRouter (allocate r req) = r ≢ []
HasRouter (release now r) = Unit

unfoldable pub run : Helper → List Op → Table → Table
run h [] rows = rows
run h (allocate r req ∷ ops) rows = run h ops (allocate_vni_for_router h r req rows).1
run h (release now r ∷ ops) rows = run h ops (release_vni_for_router now r rows)

Allocates-IsValid :
    (r : Text) (rows : Table) (o : Outcome) → IsValid rows → Allocates r rows o → IsValid o.1
Allocates-IsValid r rows (ok v, rows') valid h = h.0
Allocates-IsValid r rows (err e, rows') valid h = rw h valid

run-IsValid :
    (h : Helper) (ops : List Op) (rows : Table)
    → All HasRouter ops
    → IsValid rows
    → IsValid (run h ops rows)
unfolding run
run-IsValid h [] rows n valid = valid
run-IsValid h (allocate r req ∷ ops) rows (n, ns) valid =
    run-IsValid h ops (allocate_vni_for_router h r req rows).1 ns (
      Allocates-IsValid r rows (allocate_vni_for_router h r req rows) valid
        (allocate_vni_for_router-Allocates h r req rows n valid))
run-IsValid h (release now r ∷ ops) rows (n, ns) valid =
    run-IsValid h ops (release_vni_for_router now r rows) ns
      (release_vni_for_router_lem now r rows valid).0

-- After any sequence of allocations (for nonempty router ids) and releases, failed ones among
-- them, that starts with an empty table, no two routers hold the same VNI.
pub run_exclusive :
    (h : Helper) (ops : List Op) (q r : Text) (v : ℕ)
    → All HasRouter ops
    → get_vni_for_router q (run h ops []) ≡ some v
    → get_vni_for_router r (run h ops []) ≡ some v
    → q ≡ r
run_exclusive h ops q r v n hq hr =
    let rows = run h ops [] in
    let valid = run-IsValid h ops [] n tt in
    let (a, row) = allocation_of_has_vni v rows (held_row q v rows hq).4 in
    let of_q = held_by_row q v a rows valid row hq in
    let of_r = held_by_row r v a rows valid row hr in ground (arith, of_q, of_r)

-- An operation that is not the router's release.
abbrev pub IsNoReleaseOf : Text → Op → Type 0
IsNoReleaseOf r (allocate q req) = Unit
IsNoReleaseOf r (release now q) = q ≢ r

returned_ranges :
    (h : Helper) (r : Text) (req : Requested) (rows rows' : Table) (v : ℕ)
    → allocate_vni_for_router h r req rows ≡ (ok v, rows')
    → (ranges : List Range) × (ranges_of h ≡ ok ranges)
unfolding allocate_vni_for_router
returned_ranges h r req rows rows' v e = elim (Result-cases (ranges_of h)) [
  | inl found ↦ found
  | inr (x, f) ↦
      let raised : ◌≡◌ {A = Outcome} (err (invalid_range x), rows) (ok v, rows') =
        rw (f, allocate_vni_for_router) at e in
      ([], cc)
]

-- A call that returned: what the router holds, and that the table is valid.
returned_held :
    (h : Helper) (r : Text) (req : Requested) (rows rows' : Table) (v : ℕ)
    → r ≢ []
    → IsValid rows
    → allocate_vni_for_router h r req rows ≡ (ok v, rows')
    → IsValid rows' × (get_vni_for_router r rows' ≡ some v)
returned_held h r req rows rows' v n valid e =
    let (valid', held) =
      subst (Allocates r rows) e (allocate_vni_for_router-Allocates h r req rows n valid) in
    (valid', ground (arith, held r, text_eq_refl r))

Allocates-held :
    (q r : Text) (rows : Table) (o : Outcome) (v : ℕ)
    → q ≢ r
    → Allocates q rows o
    → get_vni_for_router r rows ≡ some v
    → get_vni_for_router r o.1 ≡ some v
Allocates-held q r rows (ok w, rows') v d h held = ground (arith, h.1 r, text_eq_iff q r)
Allocates-held q r rows (err e, rows') v d h held = rw h held

module _ (h : Helper) (ranges : List Range) (e : ranges_of h ≡ ok ranges) (r : Text) (v : ℕ) where
  allocate_vni_for_router-held :
      (q : Text) (req : Requested) (rows : Table)
      → q ≢ []
      → IsValid rows
      → get_vni_for_router r rows ≡ some v
      → get_vni_for_router r (allocate_vni_for_router h q req rows).1 ≡ some v
  allocate_vni_for_router-held q req rows n valid held = elim (Bool-cases (text_eq q r)) [
    | inl same ↦
        let q_is_r = (text_eq_iff q r).0 same in
        rw q_is_r (rw (allocate_again h ranges r req rows v e held) held)
    | inr other ↦
        let apart : q ≢ r = λ same. ground (arith, text_eq_iff q r) in
        Allocates-held q r rows (allocate_vni_for_router h q req rows) v apart
          (allocate_vni_for_router-Allocates h q req rows n valid) held
  ]

  run-held :
      (ops : List Op) (rows : Table)
      → All HasRouter ops
      → All (IsNoReleaseOf r) ops
      → IsValid rows
      → get_vni_for_router r rows ≡ some v
      → get_vni_for_router r (run h ops rows) ≡ some v
  unfolding run
  run-held [] rows ns ks valid held = held
  run-held (allocate q req ∷ ops) rows (n, ns) (k, ks) valid held =
      run-held ops (allocate_vni_for_router h q req rows).1 ns ks
        (Allocates-IsValid q rows (allocate_vni_for_router h q req rows) valid
          (allocate_vni_for_router-Allocates h q req rows n valid))
        (allocate_vni_for_router-held q req rows n valid held)
  run-held (release now q ∷ ops) rows (n, ns) (k, ks) valid held =
      let (valid', views, there) = release_vni_for_router_lem now q rows valid in
      run-held ops (release_vni_for_router now q rows) ns ks valid'
        (ground (arith, views r, text_eq_iff q r))

-- From a valid table, if a request of a router with a nonempty id is given a VNI, then after any
-- allocations (for nonempty router ids) and releases of other routers, failed ones among them,
-- the router still holds this VNI; a further request of it, automatic or for this number, is
-- given this VNI, a request for any other number is refused, and neither changes the table.
pub run-allocate_vni_for_router :
    (h : Helper) (r : Text) (first later : Requested) (rows rows' : Table) (v : ℕ) (ops : List Op)
    → r ≢ []
    → IsValid rows
    → allocate_vni_for_router h r first rows ≡ (ok v, rows')
    → All HasRouter ops
    → All (IsNoReleaseOf r) ops
    → (get_vni_for_router r (run h ops rows') ≡ some v)
      × (allocate_vni_for_router h r later (run h ops rows') ≡ (
        (if is_auto_vni later || (to_vni later == v)
            then ok v
            else err (Error.router_has_vni r v (to_vni later))),
        run h ops rows',
      ))
run-allocate_vni_for_router h r first later rows rows' v ops n valid e ns ks =
    let (ranges, read) = returned_ranges h r first rows rows' v e in
    let (valid', given) = returned_held h r first rows rows' v n valid e in
    let held = run-held h ranges read r v ops rows' ns ks valid' given in
    (held, allocate_again h ranges r later (run h ops rows') v read held)
