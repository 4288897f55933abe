-- ===== src/Neutron/Ranges.antt =====
-- The VLAN ids that a subport may have: the functions on ranges of
-- python/neutron-understack/neutron_understack/utils.py. Segment ranges and the option
-- `default_tenant_vlan_id_range` hold numbers from 0 up.
pub mod Gaps
use understack.Prelude.{
  ℕ, ◌+◌, ◌-◌, ltb, leb, ◌==◌, if◌then◌else◌, Bool, true, false, List, [], ◌∷◌, ◌++◌, map, any,
  between,
}
use understack.Vni.Ranges.{Range, merge_ranges, covers}

-- A neutron NetworkSegmentRange, as far as it is read.
pub record SegmentRange : Type 0 where
  pub minimum : ℕ
  pub maximum : ℕ

-- The same loop as `_merge_ranges` of the VNI allocation.
unfoldable pub merge_overlapped_ranges : List Range → List Range
merge_overlapped_ranges = merge_ranges

-- The loop of `fetch_gaps_in_ranges` for the ranges left; `next` is `prev_end + 1`.
unfoldable pub gaps_from : ℕ → ℕ → List Range → List Range
gaps_from next last [] = if leb next last then (next, last) ∷ [] else []
gaps_from next last ((start, end) ∷ ranges) =
    let rest = gaps_from (end + 1) last ranges in
    if ltb next start then (next, start - 1) ∷ rest else rest

unfoldable pub fetch_gaps_in_ranges : List Range → Range → List Range
unfolding gaps_from
fetch_gaps_in_ranges ranges (first, last) = gaps_from first last ranges

unfoldable pub allowed_tenant_vlan_id_ranges : List SegmentRange → Range → List Range
unfolding fetch_gaps_in_ranges merge_overlapped_ranges
allowed_tenant_vlan_id_ranges segment_ranges default_range =
    fetch_gaps_in_ranges
      (merge_overlapped_ranges (map (λ vr. (vr.minimum, vr.maximum)) segment_ranges)) default_range

unfoldable pub segmentation_id_in_ranges : ℕ → List Range → Bool
unfolding any
segmentation_id_in_ranges segmentation_id ranges = any (λ r. between r.0 r.1 segmentation_id) ranges
