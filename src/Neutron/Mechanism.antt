-- ===== src/Neutron/Mechanism.antt =====
-- The mechanism driver's handlers of ports: `UnderstackDriver` of
-- python/neutron-understack/neutron_understack/neutron_understack_mech.py, from the binding of a
-- baremetal port to its removal, with `release_segment_if_unused` and `vlan_segment_for_physnet` of
-- utils.py. The context's allocation of a segment is the type manager's, for the port's network.
pub mod Settles
pub mod Binds
use understack.Prelude.{
  Bool, true, false, not, ◌&&◌, ◌||◌, if◌then◌else◌, List, [], ◌∷◌, find?, Option, none, some, Text,
  codes, text_eq, opt_text_eq, Dict, get, ok, err,
}
use understack.Neutron.Tables.{
  Segment, Tables, Error, no_bound_segment, Exec, continue, ◌>>=◌, ◌>>◌, pure, raise, or_raise,
  TypeManager, network_segment_by_id, network_segment_by_physnet, ports_bound_to_segment,
  allocate_dynamic_segment, release_dynamic_segment,
}
use understack.Neutron.Trunks.{Subport, set_text, sync, sync_if_set, configure_trunk, clean_trunk}

-- A port as neutron passes it on. `trunk_details` is there for the parent port of a trunk.
pub record PortDict : Type 0 where
  pub id : Text
  pub network_id : Text
  pub vnic_type : Text
  pub profile : Dict Text
  pub trunk_details : Option (List Subport)

pub record PortContext : Type 0 where
  pub current : PortDict
  pub original : PortDict
  pub vif_type : Text
  pub original_vif_type : Text
  pub original_host : Text
  pub original_top_bound_segment : Option Text
  pub segments_to_bind : List Segment
  pub network_segments : List Segment

-- What `continue_binding` is called with.
pub record Bound : Type 0 where
  pub segment_id : Text
  pub next_segment : Segment

abbrev pub vlan_group_of : PortDict → Option Text
vlan_group_of port = set_text (get (codes "physical_network") port.profile)

abbrev pub is_baremetal_port : PortContext → Bool
is_baremetal_port context = text_eq context.current.vnic_type (codes "baremetal")

abbrev pub is_supported : Text → Bool
is_supported vnic_type = text_eq vnic_type (codes "baremetal") || text_eq vnic_type (codes "normal")

abbrev pub is_vxlan : Segment → Bool
is_vxlan segment = text_eq segment.network_type (codes "vxlan")

abbrev pub is_vlan_in : Text → Segment → Bool
is_vlan_in physnet segment =
    text_eq segment.network_type (codes "vlan")
    && opt_text_eq segment.physical_network (some physnet)

unfoldable pub vlan_segment_for_physnet : List Segment → Text → Option Segment
vlan_segment_for_physnet segments physnet = find? (is_vlan_in physnet) segments

-- The port was bound and is no longer.
abbrev pub is_unbinding : PortContext → Bool
is_unbinding context =
    text_eq context.vif_type (codes "unbound") && text_eq context.original_vif_type (codes "other")

module _ (tm : TypeManager) where
  unfoldable pub release_segment_if_unused : Segment → Exec Unit
  release_segment_if_unused segment t =
      if not (ports_bound_to_segment segment.id t.levels) && segment.is_dynamic
      then release_dynamic_segment tm segment.id t
      else (ok tt, t)

  abbrev pub release_found : Option Segment → Exec Unit
  release_found none = pure tt
  release_found (some segment) = release_segment_if_unused segment

  abbrev pub clean_details : Option (List Subport) → Text → Exec Unit
  clean_details none host = pure tt
  clean_details (some subports) host = clean_trunk tm subports host

  unfoldable pub tenant_network_port_cleanup : PortContext → Exec Unit
  tenant_network_port_cleanup context = do
    segment_id ← or_raise no_bound_segment context.original_top_bound_segment
    (λ t. release_found (network_segment_by_id segment_id t.segments) t)
    clean_details context.current.trunk_details context.original_host

  unfoldable pub update_port_baremetal : PortContext → Exec Unit
  update_port_baremetal context =
      if is_unbinding context
      then (do tenant_network_port_cleanup context; sync_if_set (vlan_group_of context.original))
      else if text_eq context.vif_type (codes "other")
      then sync_if_set (vlan_group_of context.current)
      else pure tt

  unfoldable pub update_port_postcommit : PortContext → Exec Unit
  update_port_postcommit context =
      if is_baremetal_port context then update_port_baremetal context else pure tt

  -- `_delete_port_baremetal` for a port in a VLAN group.
  unfoldable pub delete_port_in : Text → Text → PortDict → Exec Unit
  delete_port_in provisioning_network vlan_group port =
      if text_eq port.network_id provisioning_network then sync vlan_group else (do
        (λ t. release_found (network_segment_by_physnet port.network_id vlan_group t.segments) t)
        sync vlan_group)

  abbrev pub delete_port_of : Text → PortDict → Option Text → Exec Unit
  delete_port_of provisioning_network port none = pure tt
  delete_port_of provisioning_network port (some vlan_group) =
      delete_port_in provisioning_network vlan_group port

  unfoldable pub delete_port_baremetal : Text → PortContext → Exec Unit
  delete_port_baremetal provisioning_network context =
      delete_port_of provisioning_network context.current (vlan_group_of context.current)

  unfoldable pub delete_port_postcommit : Text → PortContext → Exec Unit
  delete_port_postcommit provisioning_network context =
      if is_baremetal_port context
      then delete_port_baremetal provisioning_network context
      else pure tt

  abbrev pub or_allocate : Text → Text → Option Segment → Exec Segment
  or_allocate network_id vlan_group none = allocate_dynamic_segment tm network_id vlan_group
  or_allocate network_id vlan_group (some segment) = pure segment

  abbrev pub configure_details : Option (List Subport) → Text → Exec Unit
  configure_details none port_id = pure tt
  configure_details (some subports) port_id = configure_trunk tm subports port_id

  -- `_bind_port_segment`; nothing where it returns without a call of `continue_binding`.
  abbrev pub bind_port_segment : PortContext → Segment → Option Text → Exec (Option Bound)
  bind_port_segment context segment none = pure none
  bind_port_segment context segment (some vlan_group) = do
    dynamic_segment ←
        or_allocate context.current.network_id vlan_group
          (vlan_segment_for_physnet context.network_segments vlan_group)
    configure_details context.current.trunk_details context.current.id
    pure (some (record { segment_id = segment.id; next_segment = dynamic_segment }))

  abbrev pub bind_port_to : PortContext → Option Segment → Exec (Option Bound)
  bind_port_to context none = pure none
  bind_port_to context (some segment) =
      bind_port_segment context segment (vlan_group_of context.current)

  unfoldable pub bind_port : PortContext → Exec (Option Bound)
  bind_port context =
      if is_supported context.current.vnic_type
      then bind_port_to context (find? is_vxlan context.segments_to_bind)
      else pure none
