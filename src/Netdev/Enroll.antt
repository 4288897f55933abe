-- ===== src/Netdev/Enroll.antt =====
-- `enroll` and the steps that it takes in Ironic:
-- python/understack-workflows/understack_workflows/netdev_reconciler.py, `transition` of
-- python/understack-workflows/understack_workflows/ironic_node.py, and the methods of
-- `IronicClient` of python/understack-workflows/understack_workflows/ironic/client.py that they
-- use. Ironic is a parameter, and every call that may change something there is written to a log.
-- Log messages, with `warn_orphan_ports`, are left out.
mod Calls
mod Metadata
pub mod Script
pub mod Safety
pub mod Existing
unfoldable pub use Calls.*
unfoldable pub use Metadata.*
use understack.Prelude.{
  ℕ, ℤ, Bool, true, false, not, ◌&&◌, ◌||◌, ◌==◌, if◌then◌else◌, List, [], ◌∷◌, ◌++◌, map, is_nil,
  Option, none, some, Text, codes, text_eq, opt_text_eq, lower, Result, ok, err, Dict, get, put,
  dict_of, Json,
}
use understack.Netdev.Ports.{NetdevPort, Invalid, build_netdev_ports}
use understack.Netdev.Plan.{
  Port, PatchOp, Plan, create, update, Conflict, PortData, plan_netdev_port, port_data, port_name,
  text_or_empty,
}

abbrev pub lift_invalid : {A : Type 0} → Result Invalid A → Result Error A
lift_invalid (ok a) = ok a
lift_invalid (err e) = err (invalid_ports e)

abbrev pub lift_conflict : {A : Type 0} → Result Conflict A → Result Error A
lift_conflict (ok a) = ok a
lift_conflict (err e) = err (conflict e)

abbrev pub manage : Text
manage = codes "manage"

abbrev pub manageable : Text
manageable = codes "manageable"

abbrev pub provide : Text
provide = codes "provide"

abbrev pub available : Text
available = codes "available"

abbrev pub enrolling : Text
enrolling = codes "enroll"

-- REENROLLABLE_STATES
abbrev pub is_reenrollable : Text → Bool
is_reenrollable state =
    text_eq state enrolling || text_eq state manageable || text_eq state available

abbrev pub default_resource_class : Text
default_resource_class = codes "generic"

-- `resource_class or DEFAULT_RESOURCE_CLASS`
abbrev pub resource_class_or_default : Option Text → Text
resource_class_or_default none = default_resource_class
resource_class_or_default (some []) = default_resource_class
resource_class_or_default (some (c ∷ s)) = c ∷ s

abbrev pub name_entry : Port → List (Text × Port)
name_entry p = elim p.name [
  | none ↦ []
  | some name ↦ elim name [ [] ↦ [] | c ∷ s ↦ (c ∷ s, p) ∷ [] ]
]

abbrev pub name_entries : List Port → List (Text × Port)
name_entries [] = []
name_entries (p ∷ ports) = name_entry p ++ name_entries ports

-- `{(p.address or "").lower(): p for p in node_ports}`
unfoldable pub ports_by_mac : List Port → Dict Port
ports_by_mac ports = dict_of (map (λ p. (lower (text_or_empty p.address), p)) ports)

-- `{p.name: p for p in node_ports if p.name}`
unfoldable pub ports_by_name : List Port → Dict Port
ports_by_name ports = dict_of (name_entries ports)

-- The list of plans of `enroll`, without those that are None.
unfoldable pub plan_ports : Text → Text → List Port → List NetdevPort → Result Conflict (List Plan)
plan_ports name physical_network node_ports [] = ok []
plan_ports name physical_network node_ports (port ∷ ports) =
    elim (plan_netdev_port name physical_network port
      (get (port_name name port.label) (ports_by_name node_ports)) (ports_by_mac node_ports)) [
        | err e ↦ err e
        | ok plan ↦ elim (plan_ports name physical_network node_ports ports) [
          | err e ↦ err e
          | ok pending ↦ elim plan [ none ↦ ok pending | some p ↦ ok (p ∷ pending) ]
        ]
      ]

-- The arguments of `enroll`
pub record Request : Type 0 where
  pub name : Text
  pub physical_network : Text
  pub ports : List Json
  pub external_cmdb_id : Option Meta
  pub resource_class : Option Text
  pub driver_info : Dict Meta
  pub extra : Dict Meta

-- The tests on a node that is found.
unfoldable pub reuse_netdev_node : Node → Result Error (Node × Bool)
reuse_netdev_node node =
    if not (text_eq node.driver (codes "netdev"))
    then err (wrong_driver node.driver)
    else if not (is_reenrollable node.provision_state)
    then err (cannot_enroll node.provision_state)
    else ok (node, false)

unfoldable pub wanted_node : Request → NodeData
wanted_node request = record {
  name = request.name;
  resource_class = resource_class_or_default request.resource_class;
  driver_info = request.driver_info;
  extra = with_cmdb_id request.external_cmdb_id request.extra;
}

module _ {S : Type 0} (ironic : Ironic S) where
  -- Every call is logged, whether Ironic takes it or raises.
  unfoldable pub call : Call → Exec S (Unit {0})
  call c w =
      let (r, s) = ironic.perform w.server c in
      (from_api r, record { server = s; calls = w.calls ++ c ∷ [] })

  unfoldable pub read : {A : Type 0} → (S → Result ApiError A) → Exec S A
  read f w = (from_api (f w.server), w)

  -- `transition` with an expected state
  unfoldable pub transition : Node → Text → Text → Exec S (Unit {0})
  transition node target_state expected_state = do
    call (set_node_provision_state node.uuid target_state)
    call (wait_for_node_provision_state node.uuid expected_state)

  unfoldable pub create_netdev_node : NodeData → Exec S Node
  create_netdev_node node_data w =
      let (r, s) = ironic.create w.server node_data in
      (from_api r, record { server = s; calls = w.calls ++ create_node node_data ∷ [] })

  unfoldable pub find_or_create_netdev_node : NodeData → Exec S (Node × Bool)
  find_or_create_netdev_node node_data w = elim (ironic.get_node w.server node_data.name) [
    | ok node ↦ (reuse_netdev_node node, w)
    | err e ↦ elim e [
      | not_found ↦ (do node ← create_netdev_node node_data; pure (node, true)) w
      | failed ↦ (err (api failed), w)
    ]
  ]

  unfoldable pub update_node_metadata : Node → List Update → Exec S Bool
  update_node_metadata node [] = pure false
  update_node_metadata node (u ∷ updates) = do call (update_node node.uuid (u ∷ updates)); pure true

  unfoldable pub apply_port_plan : Node → Text → Text → Plan → Exec S (Unit {0})
  apply_port_plan node node_name physical_network (create port) =
      call (create_port (port_data node.uuid node_name physical_network port))
  apply_port_plan node node_name physical_network (update existing patch) =
      call (update_port existing.uuid patch)

  unfoldable pub apply_port_plans : Node → Text → Text → List Plan → Exec S (Unit {0})
  apply_port_plans node node_name physical_network [] = pure tt
  apply_port_plans node node_name physical_network (plan ∷ plans) = do
    apply_port_plan node node_name physical_network plan
    apply_port_plans node node_name physical_network plans

  unfoldable pub make_available : Node → Text → Exec S (Unit {0})
  make_available node state =
      if text_eq state available
      then pure tt
      else if not (is_reenrollable state)
      then lift (err (cannot_make_available state))
      else if text_eq state enrolling
      then (do transition node manage manageable; transition node provide available)
      else transition node provide available

  -- `enroll` from the plans on
  unfoldable pub carry_out :
      Request → Node → Bool → Text → List Update → List Plan → Exec S (Unit {0})
  carry_out request node created state updates pending = do
    metadata_changed ← if created then pure false else update_node_metadata node updates
    if is_nil pending && text_eq state available then pure tt else do
      apply_port_plans node request.name request.physical_network pending
      make_available node state

  -- An available node with work to do is taken out of the pool first.
  unfoldable pub step_down : Node → List Plan → Exec S Text
  step_down node pending =
      if not (is_nil pending) && text_eq node.provision_state available
      then (do transition node manage manageable; pure manageable)
      else pure node.provision_state

  unfoldable pub enroll_node : Request → Node → Bool → NodeData → List Plan → Exec S (Unit {0})
  enroll_node request node created wanted pending = do
    state ← step_down node pending
    carry_out request node created state
        (metadata_updates node wanted.resource_class wanted.driver_info wanted.extra) pending

  unfoldable pub enroll : Request → Exec S (Unit {0})
  enroll request = do
    netdev_ports ← lift (lift_invalid (build_netdev_ports request.ports))
    found ← find_or_create_netdev_node (wanted_node request)
    node_ports ← read (λ s. ironic.list_ports s found.0.uuid)
    pending ←
        lift
          (lift_conflict (plan_ports request.name request.physical_network node_ports netdev_ports))
    enroll_node request found.0 found.1 (wanted_node request) pending
