-- ===== src/Neutron/Tests/Bindings.antt =====
-- Runs of the mechanism driver, and each theorem at a concrete input.
use understack.Prelude.{
  ◌≡◌, refl, false, filter, [], ◌∷◌, find?, any, none, some, codes, text_eq, opt_text_eq, get, ok,
  arith,
}
use understack.Neutron.Tables.{
  Segment, Tables, network_segment_by_id, network_segment_by_physnet, is_segment_of,
  ports_bound_to_segment, allocate_dynamic_segment, release_dynamic_segment,
}
use understack.Neutron.Tables.Invariant.{IsKeyed, InUse, IsConsistentBut, IsConsistent}
use understack.Neutron.Trunks.{sync}
use understack.Neutron.Trunks.Detach.{or_segment}
use understack.Neutron.Mechanism.{
  PortDict, PortContext, release_segment_if_unused, vlan_segment_for_physnet,
  tenant_network_port_cleanup, update_port_baremetal, update_port_postcommit, delete_port_in,
  delete_port_baremetal, delete_port_postcommit, bind_port,
}
use understack.Neutron.Mechanism.Settles.{
  Settles, update_port_postcommit-Settles, delete_port_postcommit-Settles,
}
use understack.Neutron.Mechanism.Binds.{Binds, bind_port-Binds}
use understack.Neutron.Tests.Manager.{manager, manager-IsDocumented, new_segment, allocate, release}

abbrev port : PortDict
port = record {
  id = codes "p";
  network_id = codes "n1";
  vnic_type = codes "baremetal";
  profile = (codes "physical_network", codes "vg") ∷ [];
  trunk_details = none;
}

abbrev vxlan : Segment
vxlan = record {
  id = codes "vx";
  network_id = codes "n1";
  physical_network = none;
  network_type = codes "vxlan";
  segmentation_id = 5000;
  is_dynamic = false;
}

abbrev context : PortContext
context = record {
  current = port;
  original = port;
  vif_type = codes "unbound";
  original_vif_type = codes "other";
  original_host = codes "h";
  original_top_bound_segment = some (codes "new");
  segments_to_bind = vxlan ∷ [];
  network_segments = vxlan ∷ [];
}

abbrev unbound : Tables
unbound = record { ports = []; segments = vxlan ∷ []; levels = []; synced = [] }

-- The tables with a VLAN segment that no level refers to.
abbrev idle : Tables
idle = record unbound { segments = new_segment (codes "n1") (codes "vg") ∷ vxlan ∷ [] }

bind-run : bind_port manager context unbound ≡ (
  ok (
      some
        (record { segment_id = codes "vx"; next_segment = new_segment (codes "n1") (codes "vg") })),
  idle,
)
unfolding bind_port text_eq find? opt_text_eq get vlan_segment_for_physnet allocate_dynamic_segment
    allocate network_segment_by_id
bind-run = refl

unbind-run :
    update_port_postcommit manager context idle
    ≡ (ok tt, record unbound { synced = codes "vg" ∷ [] })
unfolding update_port_postcommit update_port_baremetal tenant_network_port_cleanup
    release_segment_if_unused ports_bound_to_segment any release_dynamic_segment release
    network_segment_by_id find? text_eq get sync filter
unbind-run = refl

-- Where the top segment is the VXLAN segment, which is not dynamic, the VLAN segment stays.
unbind_top-run :
    update_port_postcommit manager
      (record context { original_top_bound_segment = some (codes "vx") })
      idle
    ≡ (ok tt, record idle { synced = codes "vg" ∷ [] })
unfolding update_port_postcommit update_port_baremetal tenant_network_port_cleanup
    release_segment_if_unused ports_bound_to_segment any release_dynamic_segment release
    network_segment_by_id find? text_eq get sync
unbind_top-run = refl

delete-run :
    delete_port_postcommit manager (codes "provisioning") context idle
    ≡ (ok tt, record unbound { synced = codes "vg" ∷ [] })
unfolding delete_port_postcommit delete_port_baremetal delete_port_in release_segment_if_unused
    ports_bound_to_segment any release_dynamic_segment release network_segment_by_physnet
    is_segment_of opt_text_eq find? text_eq get sync filter
delete-run = refl

unbound-IsConsistent : IsConsistent unbound
unfolding IsKeyed InUse network_segment_by_id find? text_eq
unbound-IsConsistent = record {
  sound = record { keyed = (refl, tt); linked = tt; level_keys = tt };
  in_use = λ id s h d. ground arith;
}

-- Another dynamic segment without a level, which is not the top one.
abbrev lower : Segment
lower = record (new_segment (codes "n1") (codes "vg2")) { id = codes "low" }

abbrev idle_two : Tables
idle_two = record idle { segments = lower ∷ idle.segments }

idle_two-InUse :
    InUse (or_segment (text_eq (codes "low")) (codes "new")) idle_two.segments idle_two.levels
unfolding InUse network_segment_by_id find? ports_bound_to_segment any
idle_two-InUse id s h d = ground arith

idle_two-IsConsistentBut :
    IsConsistentBut (or_segment (text_eq (codes "low")) (codes "new")) idle_two
unfolding IsKeyed InUse network_segment_by_id find? text_eq
idle_two-IsConsistentBut = record {
  sound = record { keyed = (refl, (refl, (refl, tt))); linked = tt; level_keys = tt };
  in_use = idle_two-InUse;
}

bind_port-Binds_example : Binds context unbound (bind_port manager context unbound)
unfolding network_segment_by_id find? text_eq
bind_port-Binds_example =
    bind_port-Binds manager manager-IsDocumented context unbound unbound-IsConsistent (refl, tt)

update_port_postcommit-Settles_example :
    Settles (text_eq (codes "low")) (update_port_postcommit manager context idle_two)
unfolding text_eq
update_port_postcommit-Settles_example =
    update_port_postcommit-Settles (text_eq (codes "low")) manager manager-IsDocumented context
      (codes "new") idle_two refl refl refl idle_two-IsConsistentBut

delete_port_postcommit-Settles_example :
    Settles
      (text_eq (codes "low"))
      (delete_port_postcommit manager (codes "provisioning") context idle_two)
unfolding text_eq get network_segment_by_physnet is_segment_of opt_text_eq find?
delete_port_postcommit-Settles_example =
    delete_port_postcommit-Settles (text_eq (codes "low")) manager manager-IsDocumented
      (codes "provisioning") (codes "vg") context idle_two refl refl refl idle_two-IsConsistentBut
