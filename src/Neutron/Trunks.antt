-- ===== src/Neutron/Trunks.antt =====
-- The trunk driver: `UnderStackTrunkDriver` of
-- python/neutron-understack/neutron_understack/trunk.py, but for its registration.
-- What a handler calls neutron for is in Neutron.Tables. A call of undersync is recorded; where it
-- raises, the handler ends with it, since it is every handler's last step.
pub mod Allocate
pub mod Assign
pub mod Ready
pub mod Returns
pub mod Detach
pub mod Release
pub mod Releases
pub mod Checks
pub mod Leaves
pub mod Events
use understack.Prelude.{
  ℕ, Bool, true, false, not, ◌&&◌, ◌||◌, if◌then◌else◌, List, [], ◌∷◌, ◌++◌, filter, is_nil, Option,
  none, some, Text, codes, text_eq, Result, ok, err, Dict, get,
}
use understack.Vni.Ranges.{Range}
use understack.Neutron.Ranges.{
  SegmentRange, allowed_tenant_vlan_id_ranges, segmentation_id_in_ranges,
}
use understack.Neutron.Tables.{
  Binding, Port, Segment, Level, Tables, Error, no_port, bad_request, no_binding, no_segment,
  wrong_segmentation_id, Exec, continue, ◌>>=◌, ◌>>◌, pure, raise, TypeManager,
  network_segment_by_id, fetch_port_object, or_raise, fetch_subport_network_id, first_binding,
  is_bound, parent_port_is_bound, network_segment_by_physnet, create_binding_profile_level,
  is_level_of, port_binding_level_by_port_id, ports_bound_to_segment, allocate_dynamic_segment,
  release_dynamic_segment,
}

pub record Subport : Type 0 where
  pub port_id : Text
  pub segmentation_id : ℕ

pub record Trunk : Type 0 where
  pub id : Text
  pub port_id : Text
  pub sub_ports : List Subport

-- What the driver reads besides the tables: the trunk of the network node, or the exception of the
-- search for it, the shared VLAN segment ranges, and `default_tenant_vlan_id_range`.
pub record Settings : Type 0 where
  pub network_node_trunk_id : Result Error Text
  pub segment_ranges : List SegmentRange
  pub default_range : Range

-- The loop of `_check_subports_segmentation_id`.
unfoldable pub check_segmentation_ids : List Range → List Subport → Result Error Unit
check_segmentation_ids ranges [] = ok tt
check_segmentation_ids ranges (s ∷ subports) =
    if segmentation_id_in_ranges s.segmentation_id ranges
    then check_segmentation_ids ranges subports
    else err (wrong_segmentation_id s.segmentation_id s.port_id ranges)

unfoldable pub check_for : Settings → List Subport → Text → Result Error Text → Result Error Unit
check_for settings subports trunk_id (err e) = err e
check_for settings subports trunk_id (ok node_trunk) =
    if text_eq trunk_id node_trunk
    then ok tt
    else check_segmentation_ids
        (allowed_tenant_vlan_id_ranges settings.segment_ranges settings.default_range) subports

unfoldable pub check_subports_segmentation_id : Settings → List Subport → Text → Exec Unit
check_subports_segmentation_id settings subports trunk_id t =
    (check_for settings subports trunk_id settings.network_node_trunk_id, t)

-- `binding_profile.get("physical_network")` where that is true
abbrev pub set_text : Option Text → Option Text
set_text none = none
set_text (some []) = none
set_text (some (c ∷ s)) = some (c ∷ s)

abbrev pub physnet_of : Binding → Option Text
physnet_of binding = set_text (get (codes "physical_network") binding.profile)

-- `self.undersync.sync(vlan_group_name)`
unfoldable pub sync : Text → Exec Unit
sync vlan_group t = (ok tt, record t { synced = t.synced ++ vlan_group ∷ [] })

abbrev pub sync_if_set : Option Text → Exec Unit
sync_if_set none = pure tt
sync_if_set (some vlan_group) = sync vlan_group

-- `binding_level.delete()`, by the key of the row
unfoldable pub delete_level : Text → Text → Exec Unit
delete_level port_id host t =
    (ok tt, record t { levels = filter (λ l. not (is_level_of port_id host 0 l)) t.levels })

unfoldable pub validate_physnet : Port → Binding → Exec Unit
validate_physnet port binding =
    or_raise (bad_request port.id) (physnet_of binding) >>= λ physnet. pure tt

unfoldable pub validate_parent_port_physnet : Trunk → Exec Unit
validate_parent_port_physnet trunk = do
  port ← fetch_port_object trunk.port_id
  binding ← first_binding port
  if is_bound binding then validate_physnet port binding else pure tt

unfoldable pub subports_added_post : Trunk → Exec Unit
subports_added_post trunk = do
  port ← fetch_port_object trunk.port_id
  binding ← first_binding port
  if is_bound binding then sync_if_set (physnet_of binding) else pure tt

unfoldable pub subports_deleted_precommit : Trunk → Exec Unit
subports_deleted_precommit trunk = validate_parent_port_physnet trunk

unfoldable pub trunk_deleted_precommit : Trunk → Exec Unit
trunk_deleted_precommit trunk =
    if is_nil trunk.sub_ports then pure tt else validate_parent_port_physnet trunk

module _ (tm : TypeManager) where
  -- `current_segment or utils.allocate_dynamic_segment(…)`
  unfoldable pub segment_for : Text → Text → Exec Segment
  segment_for network_id vlan_group t =
      elim (network_segment_by_physnet network_id vlan_group t.segments) [
        | some segment ↦ (ok segment, t)
        | none ↦ allocate_dynamic_segment tm network_id vlan_group t
      ]

  -- One round of the loop of `_handle_segment_allocation`.
  unfoldable pub allocate_for : Text → Text → Subport → Exec ℕ
  allocate_for vlan_group host subport = do
    network_id ← fetch_subport_network_id subport.port_id
    segment ← segment_for network_id vlan_group
    create_binding_profile_level subport.port_id host 0 segment.id
    pure segment.segmentation_id

  unfoldable pub handle_segment_allocation : List Subport → Text → Text → Exec (List ℕ)
  handle_segment_allocation [] vlan_group host = pure []
  handle_segment_allocation (subport ∷ subports) vlan_group host = do
    vlan_id ← allocate_for vlan_group host subport
    vlan_ids ← handle_segment_allocation subports vlan_group host
    pure (vlan_id ∷ vlan_ids)

  unfoldable pub add_to_switchport : Port → Binding → List Subport → Exec Unit
  add_to_switchport parent binding subports = do
    vlan_group ← or_raise (bad_request parent.id) (physnet_of binding)
    vlan_ids ← handle_segment_allocation subports vlan_group binding.host
    pure tt

  unfoldable pub add_subports_networks_to_parent_port_switchport : Port → List Subport → Exec Unit
  add_subports_networks_to_parent_port_switchport parent subports = do
    binding ← first_binding parent
    add_to_switchport parent binding subports

  unfoldable pub handle_tenant_vlan_id_and_switchport_config :
      Settings → List Subport → Trunk → Exec Unit
  handle_tenant_vlan_id_and_switchport_config settings subports trunk = do
    check_subports_segmentation_id settings subports trunk.id
    parent ← fetch_port_object trunk.port_id
    bound ← parent_port_is_bound parent
    if bound then add_subports_networks_to_parent_port_switchport parent subports else pure tt

  unfoldable pub configure_trunk : List Subport → Text → Exec Unit
  configure_trunk subports port_id = do
    parent ← fetch_port_object port_id
    add_subports_networks_to_parent_port_switchport parent subports

  -- `is_dynamic_network_segment`, and the release
  unfoldable pub release_if_dynamic : Text → Option Segment → Exec Unit
  release_if_dynamic segment_id none = raise no_segment
  release_if_dynamic segment_id (some segment) =
      if segment.is_dynamic then release_dynamic_segment tm segment_id else pure tt

  unfoldable pub delete_unused_segment : Text → Exec Unit
  delete_unused_segment segment_id t =
      if ports_bound_to_segment segment_id t.levels
      then (ok tt, t)
      else release_if_dynamic segment_id (network_segment_by_id segment_id t.segments) t

  unfoldable pub deallocate_for : Text → Subport → Exec Unit
  deallocate_for host subport t =
      elim (port_binding_level_by_port_id subport.port_id host t.levels) [
        | none ↦ (ok tt, t)
        | some l ↦ (do delete_level subport.port_id host; delete_unused_segment l.segment_id) t
      ]

  unfoldable pub handle_segment_deallocation : List Subport → Text → Exec Unit
  handle_segment_deallocation [] host = pure tt
  handle_segment_deallocation (subport ∷ subports) host = do
    deallocate_for host subport
    handle_segment_deallocation subports host

  unfoldable pub handle_subports_removal : List Subport → Text → Bool → Option Text → Exec Unit
  handle_subports_removal subports host invoke_undersync vlan_group = do
    handle_segment_deallocation subports host
    if invoke_undersync then sync_if_set vlan_group else pure tt

  unfoldable pub clean_trunk : List Subport → Text → Exec Unit
  clean_trunk subports host = handle_subports_removal subports host false none

  unfoldable pub clean_parent_port_switchport_config : Trunk → List Subport → Exec Unit
  clean_parent_port_switchport_config trunk subports = do
    parent ← fetch_port_object trunk.port_id
    binding ← first_binding parent
    if is_bound binding
        then handle_subports_removal subports binding.host true (physnet_of binding)
        else pure tt

  unfoldable pub subports_added : Settings → Trunk → List Subport → Exec Unit
  subports_added settings trunk subports =
      handle_tenant_vlan_id_and_switchport_config settings subports trunk

  unfoldable pub subports_deleted : Trunk → List Subport → Exec Unit
  subports_deleted trunk subports = clean_parent_port_switchport_config trunk subports

  unfoldable pub trunk_created : Settings → Trunk → Exec Unit
  trunk_created settings trunk =
      if is_nil trunk.sub_ports
      then pure tt
      else handle_tenant_vlan_id_and_switchport_config settings trunk.sub_ports trunk

  unfoldable pub trunk_deleted : Trunk → Exec Unit
  trunk_deleted trunk =
      if is_nil trunk.sub_ports
      then pure tt
      else clean_parent_port_switchport_config trunk trunk.sub_ports
