-- ===== src/Neutron/Ranges/Gaps.antt =====
-- The allowed VLAN ids are those of the default range that no segment range covers.
use mathlib.Core.List.{reverse-append}
use understack.Prelude.{
  ◌++◌, max, reverse, any-append, ℕ, ◌+◌, ◌≤◌, ◌<◌, ◌≡◌, refl, ◌∙◌, ltb, leb, not, Bool, false,
  ◌&&◌, ◌||◌, List, [], ◌∷◌, any, All, map, arith,
}
use understack.Vni.Ranges.{Range, insert, sort, merge_step, merge_loop, merge_ranges, covers}
use understack.Vni.Ranges.Merge.{
  IsSeparatedFrom, IsProper, merge_ranges-IsSeparated, covers-merge_ranges,
}
use understack.Neutron.Ranges.{
  SegmentRange, merge_overlapped_ranges, gaps_from, fetch_gaps_in_ranges,
  allowed_tenant_vlan_id_ranges, segmentation_id_in_ranges,
}

-- Some range starts above the id.
pub starts_above : ℕ → List Range → Bool
unfolding any
starts_above v ranges = any (λ r. ltb v r.0) ranges

covers_below :
    (lo v : ℕ) (ranges : List Range) → IsSeparatedFrom lo ranges → v < lo → covers ranges v ≡ false
unfolding covers
covers_below lo v [] h k = refl
covers_below lo v ((s, e) ∷ ranges) h k = ground (arith, covers_below (e + 2) v ranges)

IsSeparatedFrom-mono :
    (lo lo' : ℕ) (ranges : List Range)
    → lo' ≤ lo
    → IsSeparatedFrom lo ranges
    → IsSeparatedFrom lo' ranges
IsSeparatedFrom-mono lo lo' [] k h = tt
IsSeparatedFrom-mono lo lo' ((s, e) ∷ ranges) k h = ground arith

gaps_from_lem :
    (next last v : ℕ) (ranges : List Range)
    → IsSeparatedFrom next ranges
    → segmentation_id_in_ranges v (gaps_from next last ranges)
      ≡ (leb next v && (not (covers ranges v) && (leb v last || starts_above v ranges)))
unfolding gaps_from segmentation_id_in_ranges starts_above covers
gaps_from_lem next last v [] h = ground arith
gaps_from_lem next last v ((s, e) ∷ ranges) h = ground (
  arith,
  gaps_from_lem (e + 1) last v ranges,
  IsSeparatedFrom-mono (e + 2) (e + 1) ranges,
  covers_below (e + 2) v ranges,
)

-- Some range ends above the id.
pub ends_above : ℕ → List Range → Bool
unfolding any
ends_above v ranges = any (λ r. ltb v r.1) ranges

starts-ends_above :
    (lo v : ℕ) (ranges : List Range)
    → IsSeparatedFrom lo ranges
    → covers ranges v ≡ false
    → starts_above v ranges ≡ ends_above v ranges
unfolding starts_above ends_above covers
starts-ends_above lo v [] h c = refl
starts-ends_above lo v ((s, e) ∷ ranges) h c = ground (arith, starts-ends_above (e + 2) v ranges)

ends_above-insert :
    (v : ℕ) (r : Range) (rs : List Range) → ends_above v (insert r rs) ≡ ends_above v (r ∷ rs)
unfolding insert ends_above
ends_above-insert v r [] = refl
ends_above-insert v r (x ∷ xs) = ground (arith, ends_above-insert v r xs)

ends_above-sort : (v : ℕ) (rs : List Range) → ends_above v (sort rs) ≡ ends_above v rs
unfolding sort ends_above
ends_above-sort v [] = refl
ends_above-sort v (r ∷ rs) = ground (arith, ends_above-insert v r (sort rs), ends_above-sort v rs)

ends_above-append :
    (v : ℕ) (xs ys : List Range) → ends_above v (xs ++ ys) ≡ (ends_above v xs || ends_above v ys)
unfolding ends_above
ends_above-append v xs ys = any-append (λ r. ltb v r.1) xs ys

ends_above-reverse : (v : ℕ) (xs : List Range) → ends_above v (reverse xs) ≡ ends_above v xs
unfolding ends_above
ends_above-reverse v [] = refl
ends_above-reverse v (x ∷ xs) =
    rw (reverse-append (x ∷ []) xs)
      (ground (arith, ends_above-reverse v xs, ends_above-append v (reverse xs) (x ∷ [])))

ends_above-merge_loop :
    (v : ℕ) (merged rs : List Range)
    → ends_above v (merge_loop merged rs) ≡ (ends_above v merged || ends_above v rs)
unfolding merge_loop merge_step ends_above
ends_above-merge_loop v merged [] = ground (arith, ends_above-reverse v merged)
ends_above-merge_loop v [] (r ∷ rs) = ground (arith, ends_above-merge_loop v (r ∷ []) rs)
ends_above-merge_loop v ((s₀, e₀) ∷ merged) ((s, e) ∷ rs) = ground (
  arith,
  ends_above-merge_loop v ((s, e) ∷ (s₀, e₀) ∷ merged) rs,
  ends_above-merge_loop v ((s₀, max e₀ e) ∷ merged) rs,
)

ends_above-merge_ranges :
    (v : ℕ) (rs : List Range) → ends_above v (merge_ranges rs) ≡ ends_above v rs
unfolding merge_ranges ends_above
ends_above-merge_ranges v rs = ends_above-merge_loop v [] (sort rs) ∙ ends_above-sort v rs

-- Separated ranges that cover nothing below `first` start at `first` or later.
separated_from :
    (lo first : ℕ) (ranges : List Range)
    → IsSeparatedFrom lo ranges
    → ((v : ℕ) → v < first → covers ranges v ≡ false)
    → IsSeparatedFrom first ranges
unfolding covers
separated_from lo first [] h c = tt
separated_from lo first ((s, e) ∷ ranges) h c = ground (arith, c s)

-- The pairs of the segment ranges.
abbrev pub pairs : List SegmentRange → List Range
pairs = map (λ vr. (vr.minimum, vr.maximum))

covers-below_all :
    (first v : ℕ) (ranges : List Range)
    → All (λ r. first ≤ r.0) ranges
    → v < first
    → covers ranges v ≡ false
unfolding covers
covers-below_all first v [] h k = refl
covers-below_all first v (r ∷ ranges) h k = ground (arith, covers-below_all first v ranges)

allowed-gaps :
    (segment_ranges : List SegmentRange) (first last : ℕ)
    → allowed_tenant_vlan_id_ranges segment_ranges (first, last)
      ≡ gaps_from first last (merge_ranges (pairs segment_ranges))
unfolding allowed_tenant_vlan_id_ranges fetch_gaps_in_ranges merge_overlapped_ranges
allowed-gaps segment_ranges first last = refl

-- With segment ranges that are proper and start no earlier than the default range, an id is in
-- the ranges of `allowed_tenant_vlan_id_ranges` exactly if it is no earlier than the default
-- range, no segment range has it, and it is in the default range or below the end of a segment
-- range.
pub allowed_tenant_vlan_id_ranges_lem :
    (segment_ranges : List SegmentRange) (first last v : ℕ)
    → All IsProper (pairs segment_ranges)
    → All (λ r. first ≤ r.0) (pairs segment_ranges)
    → segmentation_id_in_ranges v (allowed_tenant_vlan_id_ranges segment_ranges (first, last)) ≡ (
        leb first v
        && (not (covers (pairs segment_ranges) v)
            && (leb v last || ends_above v (pairs segment_ranges))))
allowed_tenant_vlan_id_ranges_lem segment_ranges first last v proper above =
    let merged = merge_ranges (pairs segment_ranges) in
    let apart =
      separated_from 0 first merged (merge_ranges-IsSeparated (pairs segment_ranges) proper) λ w k.
        covers-merge_ranges w (pairs segment_ranges)
        ∙ covers-below_all first w (pairs segment_ranges) above k in
    ground (
      arith,
      allowed-gaps segment_ranges first last,
      gaps_from_lem first last v merged apart,
      covers-merge_ranges v (pairs segment_ranges),
      starts-ends_above first v merged apart,
      ends_above-merge_ranges v (pairs segment_ranges),
    )
