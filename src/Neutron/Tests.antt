-- ===== src/Neutron/Tests.antt =====
-- Runs of the trunk driver, and each theorem at a concrete input.
mod Manager
mod Bindings
mod Appliances
use mathlib.Core.Option
use understack.Prelude.{
  ℕ, ◌≡◌, ◌≤◌, ◌⊎◌, refl, Bool, true, false, not, ◌&&◌, ◌||◌, distinct, if◌then◌else◌, filter, get,
  opt_text_eq, leb, List, [], ◌∷◌, All, any, find?, Option, none, some, Text, codes, text_eq,
  text_eq_iff, Result, ok, err, arith, is_some, contains,
}
use understack.Vni.Ranges.{covers, merge_ranges}
use understack.Neutron.Ranges.{
  SegmentRange, allowed_tenant_vlan_id_ranges, segmentation_id_in_ranges,
}
use understack.Neutron.Ranges.Gaps.{pairs, ends_above, allowed_tenant_vlan_id_ranges_lem}
use understack.Neutron.Tables.{
  TypeManager, Binding, Port, Segment, Level, Tables, Error, bad_request, wrong_segmentation_id,
  not_allocated, level_row, network_segment_by_id, ports_bound_to_segment, is_level_of,
  fetch_port_object, first_binding, parent_port_is_bound, fetch_subport_network_id,
  network_segment_by_physnet, is_segment_of, allocate_dynamic_segment, create_binding_profile_level,
  add_level, port_binding_level_by_port_id, release_dynamic_segment,
}
use understack.Neutron.Tables.Invariant.{IsKeyed, IsLinked, InUse, IsFound, IsSound, IsConsistent}
use understack.Neutron.Trunks.{
  Subport, Trunk, Settings, handle_segment_allocation, handle_segment_deallocation, subports_added,
  subports_deleted, handle_tenant_vlan_id_and_switchport_config, check_subports_segmentation_id,
  check_for, check_segmentation_ids, add_subports_networks_to_parent_port_switchport,
  add_to_switchport, allocate_for, segment_for, clean_parent_port_switchport_config,
  handle_subports_removal, deallocate_for, delete_level, delete_unused_segment, release_if_dynamic,
  sync,
}
use understack.Neutron.Trunks.Allocate.{IsAssigned}
use understack.Neutron.Trunks.Assign.{Keeps, handle_segment_allocation-Keeps}
use understack.Neutron.Trunks.Returns.{Assigns, Refuses, handle_segment_allocation-Assigns}
use understack.Neutron.Trunks.Release.{Clears}
use understack.Neutron.Trunks.Releases.{of_subports, handle_segment_deallocation-Clears}
use understack.Neutron.Trunks.Checks.{IsTenantId, subports_added-IsTenantId}
use understack.Neutron.Trunks.Leaves.{Leaves}
use understack.Neutron.Trunks.Events.{
  Event, subports_were_added, subports_were_deleted, run, run-Leaves,
}
use understack.Neutron.NetworkNode.{
  search, get_gateway_agent_host, find_trunk_of_node, find_ports_bound_to_hosts, ports_found,
  port_ids_bound, find_trunk_by_port_ids, first_trunk, Services, resolve_gateway_host,
  fetch_network_node_trunk_id,
}
use understack.Neutron.NetworkNode.Finds.{
  is_on_node, returned, IsQueriedById, fetch_network_node_trunk_id-finds,
}
use understack.Neutron.Tests.Manager.{allocate, release, manager, manager-IsDocumented, new_segment}

abbrev segment_ranges : List SegmentRange
segment_ranges =
    record { minimum = 1000; maximum = 1999 } ∷ record { minimum = 3000; maximum = 3100 } ∷ []

allowed-ranges :
    allowed_tenant_vlan_id_ranges segment_ranges (1, 3799)
    ≡ (1, 999) ∷ (2000, 2999) ∷ (3101, 3799) ∷ []
unfolding allowed_tenant_vlan_id_ranges merge_ranges
allowed-ranges = refl

-- A segment range that ends above the default range opens what is beyond its end.
allowed-beyond :
    segmentation_id_in_ranges 3900
      (allowed_tenant_vlan_id_ranges (record { minimum = 3950; maximum = 4000 } ∷ []) (1, 3799))
    ≡ true
unfolding allowed_tenant_vlan_id_ranges merge_ranges segmentation_id_in_ranges
allowed-beyond = refl

allowed_tenant_vlan_id_ranges_lem_example :
    segmentation_id_in_ranges 1500 (allowed_tenant_vlan_id_ranges segment_ranges (1, 3799)) ≡ (
      leb 1 1500
      && (not (covers (pairs segment_ranges) 1500)
          && (leb 1500 3799 || ends_above 1500 (pairs segment_ranges))))
allowed_tenant_vlan_id_ranges_lem_example =
    allowed_tenant_vlan_id_ranges_lem segment_ranges 1 3799 1500 (ground arith, (ground arith, tt))
      (ground arith, (ground arith, tt))

abbrev host : Text
host = codes "h"

abbrev parent : Port
parent = record {
  id = codes "parent";
  network_id = codes "n0";
  bindings =
      record {
        host = host;
        vif_type = codes "other";
        vnic_type = codes "baremetal";
        profile = (codes "physical_network", codes "vg") ∷ [];
      }
      ∷ [];
}

abbrev child : Port
child = record { id = codes "child"; network_id = codes "n1"; bindings = [] }

abbrev subports : List Subport
subports = record { port_id = codes "child"; segmentation_id = 7 } ∷ []

abbrev trunk : Trunk
trunk = record { id = codes "trunk"; port_id = codes "parent"; sub_ports = [] }

abbrev settings : Settings
settings = record {
  network_node_trunk_id = ok (codes "node");
  segment_ranges = segment_ranges;
  default_range = (1, 3799);
}

abbrev tables_before : Tables
tables_before = record { ports = parent ∷ child ∷ []; segments = []; levels = []; synced = [] }

abbrev tables_after : Tables
tables_after = record tables_before {
  segments = new_segment (codes "n1") (codes "vg") ∷ [];
  levels = level_row (codes "child") host 0 (codes "new") ∷ [];
}

added-run : subports_added manager settings trunk subports tables_before ≡ (ok tt, tables_after)
unfolding subports_added handle_tenant_vlan_id_and_switchport_config check_subports_segmentation_id
    check_for check_segmentation_ids segmentation_id_in_ranges allowed_tenant_vlan_id_ranges
    merge_ranges fetch_port_object find? text_eq first_binding parent_port_is_bound
    add_subports_networks_to_parent_port_switchport add_to_switchport handle_segment_allocation
    allocate_for fetch_subport_network_id segment_for network_segment_by_physnet is_segment_of
    opt_text_eq allocate_dynamic_segment network_segment_by_id create_binding_profile_level
    add_level any is_level_of get allocate
added-run = refl

refused-run :
    subports_added manager settings trunk
      (record { port_id = codes "child"; segmentation_id = 1200 } ∷ [])
      tables_before
    ≡ (
      err (
          wrong_segmentation_id 1200 (codes "child") ((1, 999) ∷ (2000, 2999) ∷ (3101, 3799) ∷ [])),
      tables_before,
    )
unfolding subports_added handle_tenant_vlan_id_and_switchport_config check_subports_segmentation_id
    check_for text_eq check_segmentation_ids segmentation_id_in_ranges allowed_tenant_vlan_id_ranges
    merge_ranges
refused-run = refl

deleted-run :
    subports_deleted manager trunk subports tables_after
    ≡ (ok tt, record tables_before { synced = codes "vg" ∷ [] })
unfolding subports_deleted clean_parent_port_switchport_config fetch_port_object find? text_eq
    first_binding handle_subports_removal handle_segment_deallocation deallocate_for
    port_binding_level_by_port_id is_level_of delete_level delete_unused_segment
    ports_bound_to_segment any filter release_if_dynamic network_segment_by_id
    release_dynamic_segment sync get release
deleted-run = refl

tables_before-IsConsistent : IsConsistent tables_before
unfolding IsKeyed InUse network_segment_by_id find?
tables_before-IsConsistent = record {
  sound = record { keyed = tt; linked = tt; level_keys = tt };
  in_use = λ id s h d. cc;
}

tables_after-IsConsistent : IsConsistent tables_after
unfolding IsKeyed InUse network_segment_by_id find? ports_bound_to_segment any is_level_of text_eq
tables_after-IsConsistent = record {
  sound = record { keyed = (refl, tt); linked = (refl, tt); level_keys = (refl, tt) };
  in_use = λ id s h d. ground arith;
}

handle_segment_allocation-Keeps_example :
    Keeps
      (λ id. false)
      (λ ids t. All (λ s. IsAssigned (codes "vg") host s t) subports)
      tables_before
      (handle_segment_allocation manager subports (codes "vg") host tables_before)
handle_segment_allocation-Keeps_example =
    handle_segment_allocation-Keeps manager manager-IsDocumented (λ id. false) (codes "vg") host
      subports tables_before tables_before-IsConsistent

handle_segment_deallocation-Clears_example :
    Clears
      (λ id. false)
      (of_subports subports host)
      tables_after
      (handle_segment_deallocation manager subports host tables_after)
handle_segment_deallocation-Clears_example =
    handle_segment_deallocation-Clears (λ id. false) manager manager-IsDocumented subports host
      tables_after tables_after-IsConsistent

subports_added-IsTenantId_example :
    All (λ s. IsTenantId settings s.segmentation_id) subports
    ⊎ ((e : Error) × (subports_added manager settings trunk subports tables_before
          ≡ (err e, tables_before)))
unfolding text_eq
subports_added-IsTenantId_example =
    subports_added-IsTenantId manager settings trunk (codes "node") subports tables_before
      (ground arith, (ground arith, tt)) (ground arith, (ground arith, tt)) refl refl

abbrev events : List Event
events = subports_were_added settings trunk subports ∷ subports_were_deleted trunk subports ∷ []

run-Leaves_example : Leaves (run manager events tables_before)
run-Leaves_example =
    run-Leaves manager manager-IsDocumented events tables_before tables_before-IsConsistent

port_of : Text → Option Port
port_of id = if text_eq id (codes "parent") then some parent else none

abbrev services : Services
services = record {
  has_core_plugin = true;
  gateway_agents = codes "gw" ∷ [];
  is_uuid = λ s. false;
  baremetal_node_name = λ s. none;
  baremetal_node_uuid = λ s. some (codes "uuid");
  port_ids_bound_to =
      λ h. if text_eq h (codes "uuid") then codes "gone" ∷ codes "parent" ∷ [] else [];
  port_by_id = port_of;
  trunks = record { id = codes "other"; port_id = codes "gone"; sub_ports = [] } ∷ trunk ∷ [];
}

services-IsQueriedById : IsQueriedById services
unfolding port_of
services-IsQueriedById id port h = ground (arith, text_eq_iff id (codes "parent"))

found-run : fetch_network_node_trunk_id services none ≡ (ok (codes "trunk"), some (codes "trunk"))
unfolding fetch_network_node_trunk_id search get_gateway_agent_host resolve_gateway_host
    find_trunk_of_node find_ports_bound_to_hosts ports_found distinct port_ids_bound text_eq port_of
    find_trunk_by_port_ids first_trunk
found-run = refl

fetch_network_node_trunk_id-finds_example :
    returned (fetch_network_node_trunk_id services none).0
    ≡ Option.map
        (λ trunk. trunk.id)
        (find?
          (λ trunk. is_on_node services (codes "gw") (codes "uuid") trunk.port_id)
          services.trunks)
unfolding resolve_gateway_host
fetch_network_node_trunk_id-finds_example =
    fetch_network_node_trunk_id-finds services (codes "gw") [] (codes "gw") (codes "uuid")
      services-IsQueriedById refl refl refl

-- The agents are gone, but the trunk is still the one that was found.
cached-run :
    fetch_network_node_trunk_id (record services { gateway_agents = [] }) (some (codes "trunk"))
    ≡ (ok (codes "trunk"), some (codes "trunk"))
unfolding fetch_network_node_trunk_id
cached-run = refl

abbrev two_subports : List Subport
two_subports =
    record { port_id = codes "child"; segmentation_id = 7 }
    ∷ record { port_id = codes "parent"; segmentation_id = 8 }
    ∷ []

-- The type manager has a segment for the first network, and none for the second one then.
exhausted-run :
    handle_segment_allocation manager two_subports (codes "vg") host tables_before
    ≡ (err (not_allocated (codes "n0") (codes "vg")), tables_after)
unfolding fetch_port_object find? text_eq handle_segment_allocation allocate_for
    fetch_subport_network_id segment_for network_segment_by_physnet is_segment_of opt_text_eq
    allocate_dynamic_segment network_segment_by_id create_binding_profile_level add_level any
    is_level_of allocate
exhausted-run = refl

handle_segment_allocation-Assigns_example :
    Assigns host two_subports tables_before
      (handle_segment_allocation manager two_subports (codes "vg") host tables_before)
    ⊎ Refuses manager
        (codes "vg")
        two_subports
        tables_before.ports
        (handle_segment_allocation manager two_subports (codes "vg") host tables_before)
unfolding find? text_eq any
handle_segment_allocation-Assigns_example =
    handle_segment_allocation-Assigns manager (codes "vg") host two_subports tables_before
      ((refl, refl), ((refl, refl), tt)) ((refl, tt), (tt, tt))
