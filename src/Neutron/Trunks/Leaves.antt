-- ===== src/Neutron/Trunks/Leaves.antt =====
-- How each part of a handler leaves consistent tables: consistent if it returns, and sound if it
-- raises.
use understack.Prelude.{
  Bool, true, false, if◌then◌else◌, List, [], ◌∷◌, find?, Option, none, some, Text, text_eq, Result,
  ok, err,
}
use understack.Neutron.Tables.{
  Binding, Port, Level, Tables, Error, Exec, continue, ◌>>=◌, pure, no_port, bad_request,
  TypeManager, fetch_port_object, or_raise, first_binding, first_or_raise, is_bound,
  parent_port_is_bound,
}
use understack.Neutron.Tables.Invariant.{IsDocumented, IsSound, IsConsistent}
use understack.Neutron.Trunks.{
  Subport, Trunk, Settings, check_for, check_subports_segmentation_id, physnet_of, sync,
  sync_if_set, validate_physnet, handle_segment_allocation, add_to_switchport,
  add_subports_networks_to_parent_port_switchport, handle_tenant_vlan_id_and_switchport_config,
  handle_segment_deallocation, handle_subports_removal, clean_parent_port_switchport_config,
}
use understack.Neutron.Trunks.Assign.{Keeps, handle_segment_allocation-Keeps}
use understack.Neutron.Trunks.Release.{Clears}
use understack.Neutron.Trunks.Releases.{of_subports, handle_segment_deallocation-Clears}

-- How an action that started with consistent tables leaves them.
abbrev pub Leaves : {A : Type 0} → Result Error A × Tables → Type 0
Leaves (ok a, t) = IsConsistent t
Leaves (err e, t) = IsSound t

pub Leaves-bind :
    {A B : Type 0} (o : Result Error A × Tables) (f : A → Exec B)
    → Leaves o
    → ((a : A) (t : Tables) → IsConsistent t → Leaves (f a t))
    → Leaves (continue o f)
Leaves-bind (ok a, t) f c step = step a t c
Leaves-bind (err e, t) f c step = c

Leaves-or_raise :
    {A : Type 0} (e : Error) (o : Option A) (t : Tables) → IsConsistent t → Leaves (or_raise e o t)
Leaves-or_raise e none t c = c.sound
Leaves-or_raise e (some a) t c = c

pub Leaves-port :
    (port_id : Text) (t : Tables) → IsConsistent t → Leaves (fetch_port_object port_id t)
unfolding fetch_port_object
Leaves-port port_id t c =
    Leaves-or_raise (no_port port_id) (find? (λ p. text_eq p.id port_id) t.ports) t c

Leaves-first :
    (bindings : List Binding) (t : Tables) → IsConsistent t → Leaves (first_or_raise bindings t)
Leaves-first [] t c = c.sound
Leaves-first (binding ∷ others) t c = c

Leaves-binding : (port : Port) (t : Tables) → IsConsistent t → Leaves (first_binding port t)
unfolding first_binding
Leaves-binding port t c = Leaves-first port.bindings t c

Leaves-is_bound : (port : Port) (t : Tables) → IsConsistent t → Leaves (parent_port_is_bound port t)
unfolding parent_port_is_bound
Leaves-is_bound port t c =
    Leaves-bind (first_binding port t) _ (Leaves-binding port t c) λ binding u cu. cu

pub Leaves-if :
    (b : Bool) (m : Exec Unit) (t : Tables)
    → IsConsistent t
    → Leaves (m t)
    → Leaves ((if b then m else pure tt) t)
Leaves-if true m t c l = l
Leaves-if false m t c l = c

pub Leaves-sync_if_set : (o : Option Text) (t : Tables) → IsConsistent t → Leaves (sync_if_set o t)
unfolding sync
Leaves-sync_if_set none t c = c
Leaves-sync_if_set (some vlan_group) t c = record {
  sound = record {
    keyed = c.sound.keyed;
    linked = c.sound.linked;
    level_keys = c.sound.level_keys;
  };
  in_use = c.in_use;
}

pub Leaves-validate :
    (port : Port) (binding : Binding) (t : Tables)
    → IsConsistent t
    → Leaves (validate_physnet port binding t)
unfolding validate_physnet
Leaves-validate port binding t c =
    Leaves-bind (or_raise (bad_request port.id) (physnet_of binding) t) _
      (Leaves-or_raise (bad_request port.id) (physnet_of binding) t c) λ physnet u cu. cu

-- What is read first: the port, and its binding.
pub Leaves-parent :
    (port_id : Text) (f : Port → Binding → Exec Unit) (t : Tables)
    → IsConsistent t
    → ((port : Port) (binding : Binding) (u : Tables) → IsConsistent u → Leaves (f port binding u))
    → Leaves ((do port ← fetch_port_object port_id; binding ← first_binding port; f port binding) t)
Leaves-parent port_id f t c step =
    Leaves-bind (fetch_port_object port_id t) _ (Leaves-port port_id t c) λ port u cu.
      Leaves-bind (first_binding port u) _ (Leaves-binding port u cu)
        λ binding v cv. step port binding v cv

Keeps-Leaves :
    {A : Type 0} (Q : A → Tables → Type 0) (t : Tables) (o : Result Error A × Tables)
    → Keeps (λ id. false) Q t o
    → Leaves o
Keeps-Leaves Q t (ok a, u) (c, g, q) = c
Keeps-Leaves Q t (err e, u) (s, g) = s

Clears-Leaves :
    (gone : Level → Bool) (t : Tables) (o : Result Error Unit × Tables)
    → Clears (λ id. false) gone t o
    → Leaves o
Clears-Leaves gone t (ok done, u) c = c.consistent
Clears-Leaves gone t (err e, u) c = elim c [ ]

Leaves-checked : (r : Result Error Unit) (t : Tables) → IsConsistent t → Leaves (r, t)
Leaves-checked (ok done) t c = c
Leaves-checked (err e) t c = c.sound

module _ (tm : TypeManager) (documented : IsDocumented tm) where
  Leaves-add :
      (parent : Port) (subports : List Subport) (binding : Binding) (t : Tables)
      → IsConsistent t
      → Leaves (add_to_switchport tm parent binding subports t)
  unfolding add_to_switchport
  Leaves-add parent subports binding t c =
      Leaves-bind (or_raise (bad_request parent.id) (physnet_of binding) t) _
        (Leaves-or_raise (bad_request parent.id) (physnet_of binding) t c)
        λ vlan_group u cu.
          Leaves-bind (handle_segment_allocation tm subports vlan_group binding.host u) _
            (Keeps-Leaves _ u _ (
              handle_segment_allocation-Keeps tm documented (λ id. false) vlan_group binding.host
                subports u cu))
            λ vlan_ids v cv. cv

  pub Leaves-add_to_parent :
      (parent : Port) (subports : List Subport) (t : Tables)
      → IsConsistent t
      → Leaves (add_subports_networks_to_parent_port_switchport tm parent subports t)
  unfolding add_subports_networks_to_parent_port_switchport
  Leaves-add_to_parent parent subports t c =
      Leaves-bind (first_binding parent t) _ (Leaves-binding parent t c)
        λ binding u cu. Leaves-add parent subports binding u cu

  pub Leaves-handle_tenant :
      (settings : Settings) (subports : List Subport) (trunk : Trunk) (t : Tables)
      → IsConsistent t
      → Leaves (handle_tenant_vlan_id_and_switchport_config tm settings subports trunk t)
  unfolding handle_tenant_vlan_id_and_switchport_config check_subports_segmentation_id
      parent_port_is_bound
  Leaves-handle_tenant settings subports trunk t c =
      Leaves-bind (check_for settings subports trunk.id settings.network_node_trunk_id, t) _
        (Leaves-checked (check_for settings subports trunk.id settings.network_node_trunk_id) t c)
        λ done u cu.
          Leaves-bind (fetch_port_object trunk.port_id u) _ (Leaves-port trunk.port_id u cu)
            λ parent v cv.
              Leaves-bind (parent_port_is_bound parent v) _ (Leaves-is_bound parent v cv)
                λ bound w cw. Leaves-if bound _ w cw (Leaves-add_to_parent parent subports w cw)

  pub Leaves-removal :
      (subports : List Subport) (host : Text) (invoke_undersync : Bool) (vlan_group : Option Text)
      (t : Tables)
      → IsConsistent t
      → Leaves (handle_subports_removal tm subports host invoke_undersync vlan_group t)
  unfolding handle_subports_removal
  Leaves-removal subports host invoke_undersync vlan_group t c =
      Leaves-bind (handle_segment_deallocation tm subports host t) _
        (Clears-Leaves (of_subports subports host) t _
          (handle_segment_deallocation-Clears (λ id. false) tm documented subports host t c))
        λ done u cu.
          Leaves-if invoke_undersync (sync_if_set vlan_group) u cu
            (Leaves-sync_if_set vlan_group u cu)

  pub Leaves-clean :
      (trunk : Trunk) (subports : List Subport) (t : Tables)
      → IsConsistent t
      → Leaves (clean_parent_port_switchport_config tm trunk subports t)
  unfolding clean_parent_port_switchport_config
  Leaves-clean trunk subports t c = Leaves-parent trunk.port_id _ t c λ port binding u cu.
      Leaves-if (is_bound binding) _ u cu
        (Leaves-removal subports binding.host true (physnet_of binding) u cu)
