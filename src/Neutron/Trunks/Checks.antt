-- ===== src/Neutron/Trunks/Checks.antt =====
-- What the check of the segmentation ids keeps away from the tables.
use understack.Prelude.{
  ℕ, ◌≡◌, ◌≤◌, refl, sym, ◌∙◌, subst, true, false, ◌||◌, leb, List, [], ◌∷◌, All, All-map, Text,
  text_eq, ok, err, arith, Bool-cases, Result-cases, inl, inr, ◌⊎◌,
}
use understack.Vni.Ranges.{Range, covers}
use understack.Vni.Ranges.Merge.{IsProper}
use understack.Neutron.Ranges.{allowed_tenant_vlan_id_ranges, segmentation_id_in_ranges}
use understack.Neutron.Ranges.Gaps.{pairs, ends_above, allowed_tenant_vlan_id_ranges_lem}
use understack.Neutron.Tables.{Tables, Error, TypeManager}
use understack.Neutron.Trunks.{
  Subport, Trunk, Settings, check_segmentation_ids, check_for, check_subports_segmentation_id,
  handle_tenant_vlan_id_and_switchport_config, subports_added,
}

check_segmentation_ids-All :
    (ranges : List Range) (subports : List Subport)
    → check_segmentation_ids ranges subports ≡ ok tt
    → All (λ s. segmentation_id_in_ranges s.segmentation_id ranges ≡ true) subports
unfolding check_segmentation_ids
check_segmentation_ids-All ranges [] h = tt
check_segmentation_ids-All ranges (s ∷ subports) h =
    elim (Bool-cases (segmentation_id_in_ranges s.segmentation_id ranges)) [
      | inl e ↦ (e, check_segmentation_ids-All ranges subports (rw e at h))
      | inr e ↦ let raised = rw e at h in cc
    ]

-- An id of the tenants: no shared segment range has it, and it is in the default range or under the
-- end of a segment range.
abbrev pub IsTenantId : Settings → ℕ → Type 0
IsTenantId settings v =
    (settings.default_range.0 ≤ v)
    × (covers (pairs settings.segment_ranges) v ≡ false)
    × ((leb v settings.default_range.1 || ends_above v (pairs settings.segment_ranges)) ≡ true)

IsTenantId-allowed :
    (settings : Settings) (v : ℕ)
    → All IsProper (pairs settings.segment_ranges)
    → All (λ r. settings.default_range.0 ≤ r.0) (pairs settings.segment_ranges)
    → segmentation_id_in_ranges v
        (allowed_tenant_vlan_id_ranges settings.segment_ranges settings.default_range)
      ≡ true
    → IsTenantId settings v
IsTenantId-allowed settings v proper above e =
    let (first, last) = settings.default_range in
    let law =
      sym (allowed_tenant_vlan_id_ranges_lem settings.segment_ranges first last v proper above)
      ∙ e in
    (ground arith, ground arith, ground arith)

check_for-IsTenantId :
    (settings : Settings) (subports : List Subport) (trunk_id node_trunk : Text)
    → All IsProper (pairs settings.segment_ranges)
    → All (λ r. settings.default_range.0 ≤ r.0) (pairs settings.segment_ranges)
    → settings.network_node_trunk_id ≡ ok node_trunk
    → text_eq trunk_id node_trunk ≡ false
    → check_for settings subports trunk_id settings.network_node_trunk_id ≡ ok tt
    → All (λ s. IsTenantId settings s.segmentation_id) subports
unfolding check_for
check_for-IsTenantId settings subports trunk_id node_trunk proper above n d h =
    let with_trunk = subst (λ r. check_for settings subports trunk_id r ≡ ok tt) n h in
    All-map subports (λ s e. IsTenantId-allowed settings s.segmentation_id proper above e)
      (check_segmentation_ids-All
        (allowed_tenant_vlan_id_ranges settings.segment_ranges settings.default_range) subports
        (rw d at with_trunk))

module _ (tm : TypeManager) where
  -- For a trunk that is not the network node's, which was found, and with segment ranges that
  -- are proper and start no earlier than the default range: either each added subport has a
  -- segmentation id of the tenants, one that is no earlier than the default range, that no
  -- segment range has, and that is in the default range or below the end of a segment range; or
  -- `subports_added` raises and leaves the tables as they were.
  pub subports_added-IsTenantId :
      (settings : Settings) (trunk : Trunk) (node_trunk : Text) (subports : List Subport)
      (t : Tables)
      → All IsProper (pairs settings.segment_ranges)
      → All (λ r. settings.default_range.0 ≤ r.0) (pairs settings.segment_ranges)
      → settings.network_node_trunk_id ≡ ok node_trunk
      → text_eq trunk.id node_trunk ≡ false
      → All (λ s. IsTenantId settings s.segmentation_id) subports
        ⊎ ((e : Error) × (subports_added tm settings trunk subports t ≡ (err e, t)))
  unfolding subports_added handle_tenant_vlan_id_and_switchport_config
      check_subports_segmentation_id
  subports_added-IsTenantId settings trunk node_trunk subports t proper above n d =
      elim (Result-cases (check_for settings subports trunk.id settings.network_node_trunk_id)) [
        | inl (done, e) ↦
            inl (check_for-IsTenantId settings subports trunk.id node_trunk proper above n d e)
        | inr (raised, e) ↦ inr (raised, rw e refl)
      ]
