-- ===== src/Vni/Table/Released.antt =====
-- The choice among the released rows.
use native.Mathlib.Decide.{ℕ_discrete}
use understack.Prelude.{
  ℕ, ◌≡◌, refl, subst, ◌⊎◌, if◌then◌else◌, true, false, List, [], ◌∷◌, Option, none, some, arith,
  Option-cases, inl, inr,
}
use understack.Vni.Ranges.{Range, covers}
use understack.Vni.Table.{
  Allocation, Table, get_allocation, has_vni, row_before, is_released_in, find_released_allocation,
}
use understack.Vni.Table.Rows.{IsValid}

pub has_vni_of_allocation :
    (v : ℕ) (a : Allocation) (rows : Table)
    → get_allocation v rows ≡ some a
    → (has_vni v rows ≡ true) × (a.vni ≡ v)
unfolding get_allocation has_vni
has_vni_of_allocation v a [] h = cc
has_vni_of_allocation v a (b ∷ rows) h = ground (arith, has_vni_of_allocation v a rows)

pub allocation_of_has_vni :
    (v : ℕ) (rows : Table)
    → has_vni v rows ≡ true
    → (a : Allocation) × (get_allocation v rows ≡ some a)
unfolding get_allocation has_vni
allocation_of_has_vni v [] h = cc
allocation_of_has_vni v (b ∷ rows) h = elim (ℕ_discrete b.vni v) [
  | yes here ↦ (b, ground arith)
  | no there ↦ let (a, e) = allocation_of_has_vni v rows (ground arith) in (a, ground arith)
]

pub allocation_none : (v : ℕ) (rows : Table) → get_allocation v rows ≡ none → has_vni v rows ≡ false
unfolding get_allocation has_vni
allocation_none v [] h = refl
allocation_none v (b ∷ rows) h = ground (arith, allocation_none v rows)

row_before_asymm : (a b : Allocation) → row_before a b ≡ true → row_before b a ≡ false
unfolding row_before
row_before_asymm a b h = ground arith

row_before_step :
    (a b c : Allocation) → row_before a b ≡ false → row_before b c ≡ false → row_before a c ≡ false
unfolding row_before
row_before_step a b c h k = ground arith

-- A row that the query finds: it stands in the table, is released, and lies in the ranges.
abbrev pub IsReleased : List Range → Table → Allocation → Type 0
IsReleased ranges rows a =
    (get_allocation a.vni rows ≡ some a) × (a.router_id ≡ none) × (covers ranges a.vni ≡ true)

IsReleased-cons :
    (ranges : List Range) (rows : Table) (a b : Allocation)
    → has_vni b.vni rows ≡ false
    → IsReleased ranges rows a
    → IsReleased ranges (b ∷ rows) a
IsReleased-cons ranges rows a b h (e, f, g) =
    (unfold get_allocation in ground (arith, has_vni_of_allocation a.vni a rows), f, g)

IsReleased-head :
    (ranges : List Range) (rows : Table) (b : Allocation)
    → is_released_in ranges b ≡ true
    → IsReleased ranges (b ∷ rows) b
unfolding get_allocation
IsReleased-head ranges rows b h = (ground arith, ground arith, ground arith)

-- The better one of a row and the best of the rows behind it.
abbrev pick : Allocation → Option Allocation → Option Allocation
pick c none = some c
pick c (some m) = if row_before m c then some m else some c

find_released_cons :
    (ranges : List Range) (c : Allocation) (rows : Table)
    → find_released_allocation (c ∷ rows) ranges ≡ (
        if is_released_in ranges c
        then pick c (find_released_allocation rows ranges)
        else find_released_allocation rows ranges)
unfolding find_released_allocation
find_released_cons ranges c rows = ground arith

picked :
    (ranges : List Range) (c : Allocation) (rows : Table) (a : Allocation)
    → find_released_allocation (c ∷ rows) ranges ≡ some a
    → ((c ≡ a) × (is_released_in ranges c ≡ true)) ⊎ (find_released_allocation rows ranges ≡ some a)
picked ranges c rows a h = ground (arith, find_released_cons ranges c rows)

-- The row that the query returns is a released row of the ranges.
pub find_allocation-IsReleased :
    (ranges : List Range) (rows : Table) (a : Allocation)
    → IsValid rows
    → find_released_allocation rows ranges ≡ some a
    → IsReleased ranges rows a
find_allocation-IsReleased ranges [] a ok h = unfold find_released_allocation in cc
find_allocation-IsReleased ranges (c ∷ rows) a ok h = elim (picked ranges c rows a h) [
  | inl (here, released) ↦
      subst (IsReleased ranges (c ∷ rows)) here (IsReleased-head ranges rows c released)
  | inr later ↦
      IsReleased-cons ranges rows a c ok.0 (find_allocation-IsReleased ranges rows a ok.2 later)
]

IsReleased-cases :
    (ranges : List Range) (c b : Allocation) (rows : Table)
    → IsReleased ranges (c ∷ rows) b
    → ((c ≡ b) × (is_released_in ranges c ≡ true)) ⊎ IsReleased ranges rows b
unfolding get_allocation
IsReleased-cases ranges c b rows (e, f, g) = elim (ℕ_discrete c.vni b.vni) [
  | yes here ↦ let same : c ≡ b = ground arith in inl (same, ground arith)
  | no there ↦ inr (ground arith, f, g)
]

-- The query returns nothing only if no row of the ranges is released.
pub find_allocation-none :
    (ranges : List Range) (rows : Table) (b : Allocation)
    → find_released_allocation rows ranges ≡ none
    → ¬ IsReleased ranges rows b
find_allocation-none ranges [] b h = λ r. unfold get_allocation in ground (arith, r.0)
find_allocation-none ranges (c ∷ rows) b h = λ r. elim (IsReleased-cases ranges c b rows r) [
  | inl (same, released) ↦ ground (arith, find_released_cons ranges c rows)
  | inr later ↦
      find_allocation-none ranges rows b (ground (arith, find_released_cons ranges c rows)) later
]

row_before_irrefl : (a : Allocation) → row_before a a ≡ false
unfolding row_before
row_before_irrefl a = ground arith

pick_cases :
    (ranges : List Range) (c m : Allocation) (rows : Table) (a : Allocation)
    → find_released_allocation rows ranges ≡ some m
    → find_released_allocation (c ∷ rows) ranges ≡ some a
    → (m ≡ a) ⊎ ((c ≡ a) × (row_before m c ≡ false))
pick_cases ranges c m rows a e h = ground (arith, find_released_cons ranges c rows)

pick_released :
    (ranges : List Range) (c m : Allocation) (rows : Table) (a : Allocation)
    → is_released_in ranges c ≡ true
    → find_released_allocation rows ranges ≡ some m
    → find_released_allocation (c ∷ rows) ranges ≡ some a
    → ((m ≡ a) × (row_before m c ≡ true)) ⊎ (c ≡ a)
pick_released ranges c m rows a released e h = ground (arith, find_released_cons ranges c rows)

-- No released row of the ranges comes before the one that the query returns.
pub find_released_first :
    (ranges : List Range) (rows : Table) (a b : Allocation)
    → find_released_allocation rows ranges ≡ some a
    → IsReleased ranges rows b
    → row_before b a ≡ false
find_released_first ranges [] a b h r = unfold get_allocation in ground (arith, r.0)
find_released_first ranges (c ∷ rows) a b h r =
    elim (Option-cases (find_released_allocation rows ranges)) [
      | inl nothing ↦ elim (IsReleased-cases ranges c b rows r) [
        | inl (same, released) ↦
            let same' : c ≡ a = ground (arith, find_released_cons ranges c rows) in
            rw (← same, ← same') (row_before_irrefl c)
        | inr later ↦ absurd (find_allocation-none ranges rows b nothing later)
      ]
      | inr (m, e) ↦ elim (IsReleased-cases ranges c b rows r) [
        | inl (same, released) ↦ rw (← same) (elim (pick_released ranges c m rows a released e h) [
          | inl (is_m, first) ↦ rw (← is_m) (row_before_asymm m c first)
          | inr is_c ↦ rw (← is_c) (row_before_irrefl c)
        ])
        | inr later ↦
            let ih = find_released_first ranges rows m b e later in
            elim (pick_cases ranges c m rows a e h) [
              | inl is_m ↦ rw (← is_m) ih
              | inr (is_c, last) ↦ rw (← is_c) (row_before_step b m c ih last)
            ]
      ]
    ]
