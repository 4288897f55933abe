-- ===== src/Neutron/Trunks/Events.antt =====
-- The handlers of the trunk driver, one after the other: `register` of
-- python/neutron-understack/neutron_understack/trunk.py subscribes them to the events of trunks and
-- their subports.
use understack.Prelude.{Bool, true, false, if◌then◌else◌, List, [], ◌∷◌, is_nil, none, Text}
use understack.Neutron.Tables.{Tables, Exec, ◌>>◌, pure, TypeManager, fetch_port_object, is_bound}
use understack.Neutron.Tables.Invariant.{IsDocumented, IsConsistent}
use understack.Neutron.Trunks.{
  Subport, Trunk, Settings, physnet_of, validate_parent_port_physnet, subports_added_post,
  subports_deleted_precommit, trunk_deleted_precommit, subports_added, subports_deleted,
  trunk_created, trunk_deleted, configure_trunk, clean_trunk,
}
use understack.Neutron.Trunks.Leaves.{
  Leaves, Leaves-bind, Leaves-port, Leaves-if, Leaves-parent, Leaves-sync_if_set, Leaves-validate,
  Leaves-handle_tenant, Leaves-removal, Leaves-clean, Leaves-add_to_parent,
}

-- An event, with what it carries. `parent_bound` and `parent_unbound` are the calls that the
-- mechanism driver makes for the parent port of a trunk.
pub data Event : Type 0 where
  trunk_was_created : Settings → Trunk → Event
  subports_were_added : Settings → Trunk → List Subport → Event
  subports_were_added_post trunk_to_be_deleted trunk_was_deleted : Trunk → Event
  subports_to_be_deleted : Trunk → Event
  subports_were_deleted : Trunk → List Subport → Event
  parent_bound parent_unbound : List Subport → Text → Event

module _ (tm : TypeManager) where
  unfoldable pub handle : Event → Exec Unit
  handle (trunk_was_created settings trunk) = trunk_created tm settings trunk
  handle (subports_were_added settings trunk subports) = subports_added tm settings trunk subports
  handle (subports_were_added_post trunk) = subports_added_post trunk
  handle (trunk_to_be_deleted trunk) = trunk_deleted_precommit trunk
  handle (trunk_was_deleted trunk) = trunk_deleted tm trunk
  handle (subports_to_be_deleted trunk) = subports_deleted_precommit trunk
  handle (subports_were_deleted trunk subports) = subports_deleted tm trunk subports
  handle (parent_bound subports port_id) = configure_trunk tm subports port_id
  handle (parent_unbound subports host) = clean_trunk tm subports host

  -- The first exception ends the run.
  unfoldable pub run : List Event → Exec Unit
  run [] = pure tt
  run (event ∷ events) = do handle event; run events

module _ (tm : TypeManager) (documented : IsDocumented tm) where
  Leaves-validate_parent :
      (trunk : Trunk) (t : Tables) → IsConsistent t → Leaves (validate_parent_port_physnet trunk t)
  unfolding validate_parent_port_physnet
  Leaves-validate_parent trunk t c =
      Leaves-parent trunk.port_id _ t c
        λ port binding u cu. Leaves-if (is_bound binding) _ u cu (Leaves-validate port binding u cu)

  Leaves-unless :
      (b : Bool) (m : Exec Unit) (t : Tables)
      → IsConsistent t
      → Leaves (m t)
      → Leaves ((if b then pure tt else m) t)
  Leaves-unless true m t c l = c
  Leaves-unless false m t c l = l

  Leaves-handle : (event : Event) (t : Tables) → IsConsistent t → Leaves (handle tm event t)
  unfolding handle trunk_created subports_added subports_added_post trunk_deleted_precommit
      trunk_deleted subports_deleted_precommit subports_deleted configure_trunk clean_trunk
  Leaves-handle (trunk_was_created settings trunk) t c =
      Leaves-unless (is_nil trunk.sub_ports) _ t c
        (Leaves-handle_tenant tm documented settings trunk.sub_ports trunk t c)
  Leaves-handle (subports_were_added settings trunk subports) t c =
      Leaves-handle_tenant tm documented settings subports trunk t c
  Leaves-handle (subports_were_added_post trunk) t c =
      Leaves-parent trunk.port_id _ t c λ port binding u cu.
        Leaves-if (is_bound binding) _ u cu (Leaves-sync_if_set (physnet_of binding) u cu)
  Leaves-handle (trunk_to_be_deleted trunk) t c =
      Leaves-unless (is_nil trunk.sub_ports) _ t c (Leaves-validate_parent trunk t c)
  Leaves-handle (trunk_was_deleted trunk) t c =
      Leaves-unless (is_nil trunk.sub_ports) _ t c
        (Leaves-clean tm documented trunk trunk.sub_ports t c)
  Leaves-handle (subports_to_be_deleted trunk) t c = Leaves-validate_parent trunk t c
  Leaves-handle (subports_were_deleted trunk subports) t c =
      Leaves-clean tm documented trunk subports t c
  Leaves-handle (parent_bound subports port_id) t c =
      Leaves-bind (fetch_port_object port_id t) _ (Leaves-port port_id t c)
        λ parent u cu. Leaves-add_to_parent tm documented parent subports u cu
  Leaves-handle (parent_unbound subports host) t c =
      Leaves-removal tm documented subports host false none t c

  -- With a type manager that does what neutron documents, every sequence of the trunk driver's
  -- handlers, also for a parent port that is bound or unbound, leaves consistent tables
  -- consistent if all of them return; at the first that raises, every level still has a segment,
  -- and ids and keys are unique.
  pub run-Leaves : (events : List Event) (t : Tables) → IsConsistent t → Leaves (run tm events t)
  unfolding run
  run-Leaves [] t c = c
  run-Leaves (event ∷ events) t c =
      Leaves-bind (handle tm event t) _ (Leaves-handle event t c)
        λ done u cu. run-Leaves events u cu
