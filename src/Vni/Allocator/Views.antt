-- ===== src/Vni/Allocator/Views.antt =====
-- What a client sees of the table: the VNI of each router (`get_vni_for_router`), after each
-- write.
use native.Mathlib.Decide.{ℕ_discrete}
use understack.Prelude.{
  ℕ, ◌≡◌, ◌≢◌, refl, sym, ap, subst, if◌then◌else◌, true, false, [], ◌∷◌, ◌++◌, Option, none, some,
  Text, text_eq, opt_text_eq, text_eq_iff, opt_text_eq_iff, arith, Option-cases, inl, inr,
}
use understack.Vni.Table.{
  Allocation, Table, get_router_allocation, get_allocation, write_row, has_vni, held_by,
}
use understack.Vni.Table.Rows.{IsValid, IsFreeRouter, write_row_here, write_row_there}
use understack.Vni.Allocator.{get_vni_for_router, truthy}

pub get_vni_nil : (r : Text) → get_vni_for_router r [] ≡ none
unfolding get_vni_for_router
get_vni_nil r = refl

pub get_vni_cons :
    (r : Text) (a : Allocation) (rows : Table)
    → get_vni_for_router r (a ∷ rows)
      ≡ (if opt_text_eq a.router_id (some r) then some a.vni else get_vni_for_router r rows)
unfolding get_vni_for_router
get_vni_cons r a rows = ground arith

pub get_vni_none :
    (r : Text) (rows : Table)
    → get_vni_for_router r rows ≡ none
    → get_router_allocation r rows ≡ none
unfolding get_vni_for_router
get_vni_none r rows h = ground arith

pub none_get_vni :
    (r : Text) (rows : Table)
    → get_router_allocation r rows ≡ none
    → get_vni_for_router r rows ≡ none
unfolding get_vni_for_router
none_get_vni r rows h = ground arith

-- A new row for a router that holds none gives its VNI to this router alone.
pub get_vni-append :
    (r q : Text) (v : ℕ) (rows : Table)
    → get_vni_for_router r rows ≡ none
    → get_vni_for_router q (rows ++ held_by r v ∷ [])
      ≡ (if text_eq r q then some v else get_vni_for_router q rows)
get_vni-append r q v [] h = rw get_vni_cons (unfold opt_text_eq in refl)
get_vni-append r q v (a ∷ rows) h =
    rw (get_vni_cons q a (rows ++ held_by r v ∷ []), get_vni_cons q a rows)
      (ground (
        arith,
        get_vni_cons r a rows,
        get_vni-append r q v rows,
        opt_text_eq_iff a.router_id (some r),
        opt_text_eq_iff a.router_id (some q),
        text_eq_iff r q,
      ))

get_vni_cons_none :
    (r : Text) (a : Allocation) (rows : Table)
    → get_vni_for_router r (a ∷ rows) ≡ none
    → (a.router_id ≢ some r) × (get_vni_for_router r rows ≡ none)
unfolding get_vni_for_router get_router_allocation
get_vni_cons_none r a rows h = (
  λ e. ground (arith, opt_text_eq_iff a.router_id (some r)),
  ground (arith, opt_text_eq_iff a.router_id (some r)),
)

-- Writing a router that holds none into the row of a VNI that no router holds gives the VNI to
-- this router alone.
pub get_vni-write_row :
    (r q : Text) (v : ℕ) (t : Option ℕ) (rows : Table)
    → IsValid rows
    → get_vni_for_router r rows ≡ none
    → (a : Allocation) → get_allocation v rows ≡ some a
    → a.router_id ≡ none
    → get_vni_for_router q (write_row v (some r) t rows)
      ≡ (if text_eq r q then some v else get_vni_for_router q rows)
get_vni-write_row r q v t [] ok h a e f = unfold get_allocation in cc
get_vni-write_row r q v t (b ∷ rows) ok h a e f = elim (ℕ_discrete b.vni v) [
  | yes here ↦
      let is_a : b ≡ a = unfold get_allocation in ground arith in
      let open_row : b.router_id ≡ none = cc in
      rw (write_row_here v (some r) t b rows here ok.0) (
        rw
          (
            get_vni_cons q b rows,
            get_vni_cons q (record { vni = b.vni; router_id = some r; released_at = t }) rows,
            open_row,
          )
          (unfold opt_text_eq in ground arith))
  | no there ↦
      let later : get_allocation v rows ≡ some a = unfold get_allocation in ground arith in
      let (not_here, rest) = get_vni_cons_none r b rows h in
      rw (write_row_there v (some r) t b rows there) (
        rw (get_vni_cons q b (write_row v (some r) t rows), get_vni_cons q b rows)
          (ground (
            arith,
            get_vni-write_row r q v t rows ok.2 rest a later f,
            opt_text_eq_iff b.router_id (some r),
            opt_text_eq_iff b.router_id (some q),
            text_eq_iff r q,
          )))
]

has_vni_of_router :
    (r : Text) (a : Allocation) (rows : Table)
    → get_router_allocation r rows ≡ some a
    → (has_vni a.vni rows ≡ true) × (a.router_id ≡ some r)
unfolding get_router_allocation has_vni
has_vni_of_router r a [] h = cc
has_vni_of_router r a (b ∷ rows) h =
    ground (arith, has_vni_of_router r a rows, opt_text_eq_iff b.router_id (some r))

not_truthy : (o : Option Text) (rows : Table) → IsFreeRouter o rows → truthy o ≡ none → o ≡ none
not_truthy none rows h e = refl
not_truthy (some []) rows h e = absurd (h.0 refl)
not_truthy (some (c ∷ s)) rows h e = cc

-- The row of a VNI that a router holds: it is the row that stands under the VNI.
pub held_row :
    (q : Text) (v : ℕ) (rows : Table)
    → get_vni_for_router q rows ≡ some v
    → (b : Allocation) × (get_router_allocation q rows ≡ some b)
      × (b.vni ≡ v)
      × (b.router_id ≡ some q)
      × (has_vni v rows ≡ true)
unfolding get_vni_for_router
held_row q v rows h = elim (Option-cases (get_router_allocation q rows)) [
  | inl e ↦ cc
  | inr (b, e) ↦
      let here : b.vni ≡ v = ground arith in
      (b, e, here, (has_vni_of_router q b rows e).1, rw (← here) (has_vni_of_router q b rows e).0)
]

pub held_has_row :
    (q : Text) (v : ℕ) (rows : Table) → get_vni_for_router q rows ≡ some v → has_vni v rows ≢ false
held_has_row q v rows h = λ e. ground (arith, (held_row q v rows h).4)

-- In a valid table the row of a VNI shows which router holds it.
pub held_by_row :
    (q : Text) (v : ℕ) (a : Allocation) (rows : Table)
    → IsValid rows
    → get_allocation v rows ≡ some a
    → get_vni_for_router q rows ≡ some v
    → a.router_id ≡ some q
held_by_row q v a [] ok e h = unfold get_allocation in cc
held_by_row q v a (b ∷ rows) ok e h = elim (ℕ_discrete b.vni v) [
  | yes here ↦
      let is_a : b ≡ a = unfold get_allocation in ground arith in
      rw (← is_a) (
        ground (
          arith,
          get_vni_cons q b rows,
          held_has_row q v rows,
          opt_text_eq_iff b.router_id (some q),
        ))
  | no there ↦
      held_by_row q v a rows ok.2 (unfold get_allocation in ground arith)
        (ground (arith, get_vni_cons q b rows))
]

-- The routers of two rows differ.
held_once :
    (o : Option Text) (r : Text) (a : Allocation) (rows : Table)
    → IsFreeRouter o rows
    → get_router_allocation r rows ≡ some a
    → o ≢ some r
held_once none r a rows h e = λ p. cc
held_once (some q) r a rows h e = λ p. ground (arith, h.1)

first_of_router :
    (r : Text) (a b : Allocation) (rows : Table)
    → has_vni b.vni rows ≡ false
    → b.vni ≡ a.vni
    → get_router_allocation r (b ∷ rows) ≡ some a
    → b.router_id ≡ some r
unfolding get_router_allocation
first_of_router r a b rows h here e =
    ground (arith, has_vni_of_router r a rows, opt_text_eq_iff b.router_id (some r))

IsFreeRouter-get_vni :
    (o : Option Text) (r : Text) (rows : Table)
    → IsFreeRouter o rows
    → o ≡ some r
    → get_vni_for_router r rows ≡ none
IsFreeRouter-get_vni none r rows h e = cc
IsFreeRouter-get_vni (some q) r rows h e = ground (arith, none_get_vni q rows h.1)

-- Clearing the row of a router takes its VNI from it, and from no other router.
pub get_vni-clear :
    (r q : Text) (a : Allocation) (t : Option ℕ) (rows : Table)
    → IsValid rows
    → get_router_allocation r rows ≡ some a
    → get_vni_for_router q (write_row a.vni none t rows)
      ≡ (if text_eq r q then none else get_vni_for_router q rows)
get_vni-clear r q a t [] ok e = unfold get_router_allocation in cc
get_vni-clear r q a t (b ∷ rows) ok e = elim (ℕ_discrete b.vni a.vni) [
  | yes here ↦
      let mine = first_of_router r a b rows ok.0 here e in
      let rest = IsFreeRouter-get_vni b.router_id r rows ok.1 mine in
      rw (write_row_here a.vni none t b rows here ok.0) (
        rw
          (
            get_vni_cons q b rows,
            get_vni_cons q (record { vni = b.vni; router_id = none; released_at = t }) rows,
          )
          (unfold opt_text_eq in
            ground (arith, opt_text_eq_iff b.router_id (some q), text_eq_iff r q)))
  | no there ↦
      let later : get_router_allocation r rows ≡ some a =
        unfold get_router_allocation in ground arith in
      let other = held_once b.router_id r a rows ok.1 later in
      rw (write_row_there a.vni none t b rows there) (
        rw (get_vni_cons q b (write_row a.vni none t rows), get_vni_cons q b rows)
          (ground (
            arith,
            get_vni-clear r q a t rows ok.2 later,
            opt_text_eq_iff b.router_id (some q),
            text_eq_iff r q,
          )))
]

-- In a valid table the row of a VNI has a router that Python takes for true, or none at all.
pub truthy-none :
    (v : ℕ) (a : Allocation) (rows : Table)
    → IsValid rows
    → get_allocation v rows ≡ some a
    → truthy a.router_id ≡ none
    → a.router_id ≡ none
unfolding get_allocation
truthy-none v a [] ok e h = cc
truthy-none v a (b ∷ rows) ok e h = elim (ℕ_discrete b.vni v) [
  | yes here ↦
      let is_a : b ≡ a = ground arith in
      subst (λ (o : Option Text). o ≡ none) (ap (λ (c : Allocation). c.router_id) is_a)
        (not_truthy b.router_id rows ok.1
          (subst (λ (c : Allocation). truthy c.router_id ≡ none) (sym is_a) h))
  | no there ↦ truthy-none v a rows ok.2 (ground arith) h
]
