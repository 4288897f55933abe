-- ===== src/Vni/Table/Search.antt =====
-- The search for a VNI that was never used.
use understack.Prelude.{
  ℕ, ◌+◌, ◌≤◌, ◌<◌, ◌≡◌, refl, subst, ◌∙◌, ◌⊎◌, true, false, ◌&&◌, List, [], ◌∷◌, map, any, filter,
  Option, none, some, arith, ◌==◌, between, Option-cases, Bool-cases, inl, inr, ltb, if◌then◌else◌,
  Bool, leb,
}
use understack.Vni.Ranges.{Range, covers}
use understack.Vni.Ranges.Merge.{IsSeparatedFrom}
use understack.Vni.Table.{
  if_within, Table, Allocation, insert_vni, order_vnis, vnis_between, scan, find_never_used_vni,
  has_vni,
}

has : ℕ → List ℕ → Bool
unfolding any
has v vs = any (λ x. x == v) vs

IsAscendingFrom : ℕ → List ℕ → Type 0
IsAscendingFrom lo [] = Unit
IsAscendingFrom lo (v ∷ vs) = (lo ≤ v) × IsAscendingFrom v vs

insert_vni-IsAscendingFrom :
    (lo v : ℕ) (vs : List ℕ) → lo ≤ v → IsAscendingFrom lo vs → IsAscendingFrom lo (insert_vni v vs)
unfolding insert_vni IsAscendingFrom
insert_vni-IsAscendingFrom lo v [] h k = (h, tt)
insert_vni-IsAscendingFrom lo v (x ∷ xs) h k = ground (arith, insert_vni-IsAscendingFrom x v xs)

order_vnis-IsAscendingFrom : (vs : List ℕ) → IsAscendingFrom 0 (order_vnis vs)
unfolding order_vnis
order_vnis-IsAscendingFrom [] = unfold IsAscendingFrom in tt
order_vnis-IsAscendingFrom (v ∷ vs) =
    insert_vni-IsAscendingFrom 0 v (order_vnis vs) (omega arith) (order_vnis-IsAscendingFrom vs)

has-insert_vni : (u v : ℕ) (vs : List ℕ) → has u (insert_vni v vs) ≡ has u (v ∷ vs)
unfolding insert_vni has
has-insert_vni u v [] = refl
has-insert_vni u v (x ∷ xs) = ground (arith, has-insert_vni u v xs)

has-order_vnis : (u : ℕ) (vs : List ℕ) → has u (order_vnis vs) ≡ has u vs
unfolding order_vnis has
has-order_vnis u [] = refl
has-order_vnis u (v ∷ vs) = ground (arith, has-insert_vni u v (order_vnis vs), has-order_vnis u vs)

has-filter :
    (s e u : ℕ) (rows : Table)
    → has u (filter (between s e) (map (λ a. a.vni) rows)) ≡ (between s e u && has_vni u rows)
unfolding has filter has_vni
has-filter s e u [] = ground arith
has-filter s e u (a ∷ rows) = ground (arith, has-filter s e u rows)

has-vnis_between :
    (s e u : ℕ) (rows : Table) → has u (vnis_between s e rows) ≡ (between s e u && has_vni u rows)
unfolding vnis_between
has-vnis_between s e u rows =
    has-order_vnis u (filter (between s e) (map (λ a. a.vni) rows)) ∙ has-filter s e u rows

not_has-below : (u lo : ℕ) (vs : List ℕ) → u < lo → IsAscendingFrom lo vs → has u vs ≡ false
unfolding has IsAscendingFrom
not_has-below u lo [] h k = refl
not_has-below u lo (v ∷ vs) h k = ground (arith, not_has-below u v vs)

-- What a scan from `candidate` has found.
abbrev Found : ℕ → ℕ → List ℕ → Option ℕ → Type 0
Found end candidate vs (some v) =
    (candidate ≤ v)
    × (v ≤ end)
    × (has v vs ≡ false)
    × ((u : ℕ) → candidate ≤ u → u < v → has u vs ≡ true)
Found end candidate vs none = (u : ℕ) → candidate ≤ u → u ≤ end → has u vs ≡ true

Found-step :
    (end candidate v : ℕ) (vs : List ℕ) (r : Option ℕ)
    → v ≤ candidate
    → Found end (if v == candidate then candidate + 1 else candidate) vs r
    → Found end candidate (v ∷ vs) r
unfolding has
Found-step end candidate v vs (some w) h (a, b, c, d) =
    (ground arith, b, ground arith, λ u p q. ground (arith, d u))
Found-step end candidate v vs none h d = λ u p q. ground (arith, d u)

gt-leb : (end candidate : ℕ) → end < candidate → leb candidate end ≡ false
gt-leb end candidate h = ground arith

-- A scan that has run past the end of the range finds nothing there.
Found-past :
    (end candidate : ℕ) (vs : List ℕ)
    → end < candidate
    → Found end candidate vs (if_within end candidate)
Found-past end candidate vs h = rw (gt-leb end candidate h) (λ u p q. absurd (omega arith))

Found-nil : (end candidate : ℕ) → Found end candidate [] (if_within end candidate)
unfolding has
Found-nil end candidate = elim (Bool-cases (leb candidate end)) [
  | inl fits ↦ rw fits (omega arith, ground arith, refl, λ u p q. absurd (omega arith))
  | inr past ↦ Found-past end candidate [] (ground arith)
]

scan-Found :
    (end candidate lo : ℕ) (vs : List ℕ)
    → IsAscendingFrom lo vs
    → candidate ≤ end
    → Found end candidate vs (scan end candidate vs)
unfolding scan
scan-Found end candidate lo [] h c = Found-nil end candidate
scan-Found end candidate lo (v ∷ vs) h c = elim (Bool-cases (ltb candidate v)) [
  | inl gap ↦ rw gap (
    omega arith,
    c,
    not_has-below candidate v (v ∷ vs) (ground arith)
        (unfold IsAscendingFrom in (omega arith, h.1)),
    λ u p q. absurd (omega arith),
  )
  | inr no_gap ↦
      rw no_gap (elim (Bool-cases (ltb end (if v == candidate then candidate + 1 else candidate))) [
        | inl past ↦ rw past (
            Found-step end candidate v vs _ (ground arith) (
              Found-past end (if v == candidate then candidate + 1 else candidate) vs
                (ground arith)))
        | inr within ↦ rw within (
            Found-step end candidate v vs _ (ground arith) (
              scan-Found end (if v == candidate then candidate + 1 else candidate) v vs
                (unfold IsAscendingFrom in h.1) (ground arith)))
      ])
]

pub covers-le : (lo u : ℕ) (rs : List Range) → IsSeparatedFrom lo rs → covers rs u ≡ true → lo ≤ u
unfolding covers
covers-le lo u [] h k = cc
covers-le lo u ((s, e) ∷ rs) h k = ground (arith, covers-le (e + 2) u rs h.2)

covers_cons :
    (u s e : ℕ) (rs : List Range)
    → covers ((s, e) ∷ rs) u ≡ true
    → ((s ≤ u) × (u ≤ e)) ⊎ (covers rs u ≡ true)
unfolding covers
covers_cons u s e rs h = ground arith

covers_head : (u s e : ℕ) (rs : List Range) → s ≤ u → u ≤ e → covers ((s, e) ∷ rs) u ≡ true
unfolding covers
covers_head u s e rs a b = ground arith

covers_tail : (u s e : ℕ) (rs : List Range) → covers rs u ≡ true → covers ((s, e) ∷ rs) u ≡ true
unfolding covers
covers_tail u s e rs h = ground arith

-- What the search for a VNI that was never used promises.
abbrev pub NeverUsed : Table → List Range → Option ℕ → Type 0
NeverUsed rows ranges (some v) =
    (covers ranges v ≡ true)
    × (has_vni v rows ≡ false)
    × ((u : ℕ) → u < v → covers ranges u ≡ true → has_vni u rows ≡ true)
NeverUsed rows ranges none = (u : ℕ) → covers ranges u ≡ true → has_vni u rows ≡ true

NeverUsed-here :
    (rows : Table) (lo s e v : ℕ) (ranges : List Range)
    → IsSeparatedFrom lo ((s, e) ∷ ranges)
    → Found e s (vnis_between s e rows) (some v)
    → NeverUsed rows ((s, e) ∷ ranges) (some v)
NeverUsed-here rows lo s e v ranges sep (a, b, c, d) = (
  covers_head v s e ranges a b,
  ground (arith, has-vnis_between s e v rows),
  λ u below k. elim (covers_cons u s e ranges k) [
    | inl (p, q) ↦ ground (arith, has-vnis_between s e u rows, d u)
    | inr later ↦ absurd (omega (arith, covers-le (e + 2) u ranges sep.2 later))
  ],
)

NeverUsed-later :
    (rows : Table) (lo s e : ℕ) (ranges : List Range) (r : Option ℕ)
    → IsSeparatedFrom lo ((s, e) ∷ ranges)
    → Found e s (vnis_between s e rows) none
    → NeverUsed rows ranges r
    → NeverUsed rows ((s, e) ∷ ranges) r
NeverUsed-later rows lo s e ranges (some v) sep f (a, b, c) = (
  covers_tail v s e ranges a,
  b,
  λ u below k. elim (covers_cons u s e ranges k) [
    | inl (p, q) ↦ ground (arith, has-vnis_between s e u rows, f u)
    | inr later ↦ c u below later
  ],
)
NeverUsed-later rows lo s e ranges none sep f c = λ u k. elim (covers_cons u s e ranges k) [
  | inl (p, q) ↦ ground (arith, has-vnis_between s e u rows, f u)
  | inr later ↦ c u later
]

-- In merged ranges `_find_never_used_vni` returns the least VNI of the ranges that has no row in
-- the table, and returns nothing only if every VNI of the ranges has a row.
pub find_never_used_vni-NeverUsed :
    (lo : ℕ) (rows : Table) (ranges : List Range)
    → IsSeparatedFrom lo ranges
    → NeverUsed rows ranges (find_never_used_vni rows ranges)
unfolding find_never_used_vni
find_never_used_vni-NeverUsed lo rows [] sep = unfold covers in (λ u k. cc)
find_never_used_vni-NeverUsed lo rows ((s, e) ∷ ranges) sep =
    let vnis = vnis_between s e rows in
    let found =
      scan-Found e s 0 vnis
        (unfold vnis_between in
          order_vnis-IsAscendingFrom (filter (between s e) (map (λ (a : Allocation). a.vni) rows)))
        sep.1 in
    elim (Option-cases (scan e s vnis)) [
      | inl full ↦
          rw (full, find_never_used_vni)
            (NeverUsed-later rows lo s e ranges (find_never_used_vni rows ranges) sep
              (subst (Found e s vnis) full found)
              (find_never_used_vni-NeverUsed (e + 2) rows ranges sep.2))
      | inr (v, gap) ↦
          rw (gap, find_never_used_vni)
            (NeverUsed-here rows lo s e v ranges sep (subst (Found e s vnis) gap found))
    ]
