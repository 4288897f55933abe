-- ===== src/Vni/Ranges/Merge.antt =====
-- Merging the ranges keeps the VNIs that they cover, and leaves gaps between them.
use mathlib.Core.List.{reverse-append, append_assoc}
use understack.Prelude.{
  ℕ, ◌+◌, ◌≤◌, ◌<◌, max, ◌≡◌, refl, sym, ap, subst, ◌∙◌, true, false, List, [], ◌∷◌, ◌++◌, reverse,
  All, arith, ltb, Bool-cases, inl, inr,
}
use understack.Vni.Ranges.{
  Range, before, insert, sort, merge_step, merge_loop, merge_ranges, covers,
}

-- The same loop, with `merged[-1]` as a cursor and the finished ranges given out in order.
pub merge_from : Range → List Range → List Range
merge_from cur [] = cur ∷ []
merge_from (s₀, e₀) ((s, e) ∷ rs) = elim (ltb (e₀ + 1) s) [
  | true ↦ (s₀, e₀) ∷ merge_from (s, e) rs
  | false ↦ merge_from (s₀, max e₀ e) rs
]

-- Every range starts at `lo` or later, and none before the one in front of it.
abbrev pub IsSortedFrom : ℕ → List Range → Type 0
IsSortedFrom lo [] = Unit
IsSortedFrom lo ((s, e) ∷ rs) = (lo ≤ s) × IsSortedFrom s rs

abbrev pub IsProper : Range → Type 0
IsProper (s, e) = s ≤ e

-- Every range is proper and starts at `lo` or later, and a VNI is free before the next one.
abbrev pub IsSeparatedFrom : ℕ → List Range → Type 0
IsSeparatedFrom lo [] = Unit
IsSeparatedFrom lo ((s, e) ∷ rs) = (lo ≤ s) × (s ≤ e) × IsSeparatedFrom (e + 2) rs

IsSortedFrom-mono :
    (lo lo' : ℕ) (rs : List Range) → lo' ≤ lo → IsSortedFrom lo rs → IsSortedFrom lo' rs
IsSortedFrom-mono lo lo' [] h k = tt
IsSortedFrom-mono lo lo' (r ∷ rs) h k = ground arith

merge_from_far :
    (s₀ e₀ s e : ℕ) (rs : List Range)
    → e₀ + 1 < s
    → merge_from (s₀, e₀) ((s, e) ∷ rs) ≡ (s₀, e₀) ∷ merge_from (s, e) rs
unfolding merge_from
merge_from_far s₀ e₀ s e rs h = ground arith

merge_from_near :
    (s₀ e₀ s e : ℕ) (rs : List Range)
    → s ≤ e₀ + 1
    → merge_from (s₀, e₀) ((s, e) ∷ rs) ≡ merge_from (s₀, max e₀ e) rs
unfolding merge_from
merge_from_near s₀ e₀ s e rs h = ground arith

merge_loop-eq-merge_from :
    (cur : Range) (m rs : List Range) → merge_loop (cur ∷ m) rs ≡ reverse m ++ merge_from cur rs
unfolding merge_loop merge_step
merge_loop-eq-merge_from cur m [] = unfold merge_from in reverse-append (cur ∷ []) m
merge_loop-eq-merge_from (s₀, e₀) m ((s, e) ∷ rs) = elim (Bool-cases (ltb (e₀ + 1) s)) [
  | inl far ↦
      rw (far, merge_loop-eq-merge_from (s, e) ((s₀, e₀) ∷ m) rs)
        (rw (merge_from_far s₀ e₀ s e rs (ground arith), reverse-append ((s₀, e₀) ∷ []) m)
          (append_assoc (reverse m) ((s₀, e₀) ∷ []) (merge_from (s, e) rs)))
  | inr near ↦
      rw (near, merge_from_near s₀ e₀ s e rs (ground arith))
        (merge_loop-eq-merge_from (s₀, max e₀ e) m rs)
]

merge_ranges-eq-merge_from :
    (r : Range) (rs : List Range) {t : Range} {ts : List Range}
    → sort (r ∷ rs) ≡ t ∷ ts
    → merge_ranges (r ∷ rs) ≡ merge_from t ts
unfolding merge_ranges merge_loop merge_step
merge_ranges-eq-merge_from r rs {t} {ts} h = rw h (merge_loop-eq-merge_from t [] ts)

insert-IsSortedFrom :
    (lo : ℕ) (r : Range) (rs : List Range)
    → lo ≤ r.0
    → IsSortedFrom lo rs
    → IsSortedFrom lo (insert r rs)
unfolding insert before
insert-IsSortedFrom lo r [] h k = (h, tt)
insert-IsSortedFrom lo r (x ∷ xs) h k = ground (arith, insert-IsSortedFrom x.0 r xs)

sort-IsSortedFrom : (rs : List Range) → IsSortedFrom 0 (sort rs)
unfolding sort
sort-IsSortedFrom [] = tt
sort-IsSortedFrom (r ∷ rs) = insert-IsSortedFrom 0 r (sort rs) (omega arith) (sort-IsSortedFrom rs)

covers-insert : (v : ℕ) (r : Range) (rs : List Range) → covers (insert r rs) v ≡ covers (r ∷ rs) v
unfolding insert covers
covers-insert v r [] = refl
covers-insert v r (x ∷ xs) = ground (arith, covers-insert v r xs)

covers-sort : (v : ℕ) (rs : List Range) → covers (sort rs) v ≡ covers rs v
unfolding sort covers
covers-sort v [] = refl
covers-sort v (r ∷ rs) = ground (arith, covers-insert v r (sort rs), covers-sort v rs)

covers-merge_from :
    (v : ℕ) (cur : Range) (rs : List Range)
    → IsSortedFrom cur.0 rs
    → covers (merge_from cur rs) v ≡ covers (cur ∷ rs) v
unfolding merge_from covers
covers-merge_from v cur [] h = refl
covers-merge_from v (s₀, e₀) ((s, e) ∷ rs) h = ground (
  arith,
  covers-merge_from v (s, e) rs,
  covers-merge_from v (s₀, max e₀ e) rs,
  IsSortedFrom-mono s s₀ rs,
)

merge_from-IsSeparatedFrom :
    (lo : ℕ) (cur : Range) (rs : List Range)
    → lo ≤ cur.0
    → IsProper cur
    → IsSortedFrom cur.0 rs
    → All IsProper rs
    → IsSeparatedFrom lo (merge_from cur rs)
merge_from-IsSeparatedFrom lo cur [] a b c d = unfold merge_from in (a, b, tt)
merge_from-IsSeparatedFrom lo (s₀, e₀) ((s, e) ∷ rs) a b c d = elim (Bool-cases (ltb (e₀ + 1) s)) [
  | inl far ↦
      rw (merge_from_far s₀ e₀ s e rs (ground arith))
        (a, b, merge_from-IsSeparatedFrom (e₀ + 2) (s, e) rs (ground arith) d.0 c.1 d.1)
  | inr near ↦ rw (merge_from_near s₀ e₀ s e rs (ground arith)) (
      merge_from-IsSeparatedFrom lo (s₀, max e₀ e) rs a (omega arith)
        (IsSortedFrom-mono s s₀ rs c.0 c.1) d.1)
]

insert-IsProper :
    (r : Range) (rs : List Range) → IsProper r → All IsProper rs → All IsProper (insert r rs)
unfolding insert
insert-IsProper r [] h k = (h, tt)
insert-IsProper r (x ∷ xs) h k = ground (arith, insert-IsProper r xs)

sort-IsProper : (rs : List Range) → All IsProper rs → All IsProper (sort rs)
unfolding sort
sort-IsProper [] h = tt
sort-IsProper (r ∷ rs) h = insert-IsProper r (sort rs) h.0 (sort-IsProper rs h.1)

insert-cases :
    (r : Range) (rs : List Range) → (t : Range) × (ts : List Range) × (insert r rs ≡ t ∷ ts)
unfolding insert
insert-cases r [] = (r, [], refl)
insert-cases r (x ∷ xs) = elim (Bool-cases (before x r)) [
  | inl first ↦ (x, insert r xs, ground arith)
  | inr last ↦ (r, x ∷ xs, ground arith)
]

sort-cases :
    (r : Range) (rs : List Range) → (t : Range) × (ts : List Range) × (sort (r ∷ rs) ≡ t ∷ ts)
unfolding sort
sort-cases r rs = insert-cases r (sort rs)

-- The merged ranges cover a VNI exactly when one of the given ranges does.
pub covers-merge_ranges : (v : ℕ) (rs : List Range) → covers (merge_ranges rs) v ≡ covers rs v
covers-merge_ranges v [] = unfold merge_ranges in refl
covers-merge_ranges v (r ∷ rs) =
    let (t, ts, e) = sort-cases r rs in
    rw (merge_ranges-eq-merge_from r rs e) (
      covers-merge_from v t ts (subst (IsSortedFrom 0) e (sort-IsSortedFrom (r ∷ rs))).1
      ∙ ap (λ l. covers l v) (sym e)
      ∙ covers-sort v (r ∷ rs))

-- Of proper ranges the merge gives ranges in ascending order with at least one VNI between any
-- two neighbours, so that no VNI lies in two of them and none could be joined further.
pub merge_ranges-IsSeparated :
    (rs : List Range) → All IsProper rs → IsSeparatedFrom 0 (merge_ranges rs)
merge_ranges-IsSeparated [] h = unfold merge_ranges in tt
merge_ranges-IsSeparated (r ∷ rs) h =
    let (t, ts, e) = sort-cases r rs in
    let proper = subst (All IsProper) e (sort-IsProper (r ∷ rs) h) in
    rw (merge_ranges-eq-merge_from r rs e) (
      merge_from-IsSeparatedFrom 0 t ts (omega arith) proper.0
        (subst (IsSortedFrom 0) e (sort-IsSortedFrom (r ∷ rs))).1 proper.1)
