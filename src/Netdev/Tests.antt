-- ===== src/Netdev/Tests.antt =====
-- Runs of the enrollment against a small Ironic, and each theorem at a concrete input.
use understack.Prelude.{
  ◌≡◌, ◌≢◌, ◌↔◌, ◌⊎◌, refl, true, false, List, [], ◌∷◌, ◌++◌, map, All, none, some, Text, codes,
  text_eq, opt_text_eq, lower, contains, get, put, dict_of, Dict, ok, err,
}
use understack.Netdev.Ports.{NetdevPort, build_netdev_ports, duplicate_mac}
use understack.Netdev.Ports.Checked.{IsComplete, IsFresh, IsAccepted, build_netdev_ports-IsAccepted}
use understack.Netdev.Ports.Accepts.{to_json, to_fields, id_field, build_netdev_ports-to_json}
use understack.Netdev.Plan.{
  Port, PatchOp, add_address, add_physical_network, add_category, add_local_link_connection, update,
  create, plan_netdev_port, build_patch, llc, text_or_empty, mac_differs, desired_llc, llc_differs,
  choose_switch_id,
}
use understack.Netdev.Plan.Laws.{Matches, plan-none_iff, plan-owner}
use understack.Netdev.Plan.Converges.{Patches, apply_all, plan_converges}
use understack.Netdev.Enroll.{
  Call, update_port, set_node_provision_state, wait_for_node_provision_state, Error, Ironic, World,
  Node, Request, enroll, enroll_node, wanted_node, available, manage, manageable, provide, ◌>>=◌,
  pure, lift, call, read, transition, reuse_netdev_node, find_or_create_netdev_node,
  update_node_metadata, apply_port_plan, apply_port_plans, make_available, carry_out, step_down,
  with_cmdb_id, has_cmdb_id, metadata_updates, meta_updates, is_current, plan_ports, ports_by_mac,
  ports_by_name,
}
use understack.Netdev.Enroll.Script.{IsSafe, IsLate, after_all, Runs}
use understack.Netdev.Enroll.Safety.{enroll_node-Runs}
use understack.Netdev.Enroll.Existing.{enroll-IsSafe}

abbrev port1 : NetdevPort
port1 = record {
  label = codes "port1";
  mac = codes "AA:01";
  switch = codes "sw1";
  interface = codes "eth1";
  switch_id = none;
}

abbrev port2 : NetdevPort
port2 = record {
  label = codes "port2";
  mac = codes "aa:02";
  switch = codes "sw2";
  interface = codes "eth2";
  switch_id = some (codes "11:22");
}

abbrev ports : List NetdevPort
ports = port1 ∷ port2 ∷ []

ports-IsComplete : All IsComplete ports
ports-IsComplete = (
  record { label = λ e. cc; mac = λ e. cc; switch = λ e. cc; interface = λ e. cc },
  (record { label = λ e. cc; mac = λ e. cc; switch = λ e. cc; interface = λ e. cc }, tt),
)

labels-IsFresh : IsFresh [] (map (λ p. p.label) ports)
unfolding contains text_eq
labels-IsFresh = (refl, (refl, tt))

macs-IsFresh : IsFresh [] (map (λ p. lower p.mac) ports)
unfolding contains text_eq lower
macs-IsFresh = (refl, (refl, tt))

build_netdev_ports-to_json_example : build_netdev_ports (map to_json ports) ≡ ok ports
build_netdev_ports-to_json_example =
    build_netdev_ports-to_json ports (λ e. cc) ports-IsComplete labels-IsFresh macs-IsFresh

build_netdev_ports-IsAccepted_example :
    (map to_json ports ≢ []) × IsAccepted [] [] (map to_json ports) ports
build_netdev_ports-IsAccepted_example =
    build_netdev_ports-IsAccepted (map to_json ports) ports
      (build_netdev_ports-to_json ports (λ e. cc) ports-IsComplete labels-IsFresh macs-IsFresh)

abbrev same_mac : NetdevPort
same_mac = record port2 { mac = codes "aA:01" }

build-duplicate_mac :
    build_netdev_ports (to_json port1 ∷ to_json same_mac ∷ []) ≡ err (duplicate_mac (codes "aA:01"))
unfolding build_netdev_ports to_fields id_field text_eq
build-duplicate_mac = refl

abbrev network : Text
network = codes "net"

abbrev old_port : Port
old_port = record {
  uuid = codes "p1";
  name = some (codes "n:port1");
  address = some (codes "aa:09");
  physical_network = some network;
  category = none;
  local_link_connection = none;
}

abbrev apply_op : PatchOp → Port → Port
apply_op (add_address v) p = record p { address = some v }
apply_op (add_physical_network v) p = record p { physical_network = some v }
apply_op (add_category v) p = record p { category = some v }
apply_op (add_local_link_connection d) p = record p { local_link_connection = some d }

apply_op-Patches : Patches apply_op
apply_op-Patches = record {
  at_address = λ v p. refl;
  at_network = λ v p. refl;
  at_category = λ v p. refl;
  at_llc = λ d p. refl;
}

abbrev no_owner : Dict Port
no_owner = []

abbrev patch : List PatchOp
patch =
    add_address (codes "AA:01")
    ∷ add_category (codes "network")
    ∷ add_local_link_connection (llc (codes "00:00:00:00:00:00") (codes "sw1") (codes "eth1"))
    ∷ []

planned :
    plan_netdev_port (codes "n") network port1 (some old_port) no_owner
    ≡ ok (some (update old_port patch))
unfolding plan_netdev_port build_patch mac_differs desired_llc llc_differs choose_switch_id get
    lower opt_text_eq text_eq
planned = refl

plan-none_iff_example :
    (plan_netdev_port (codes "n") network port1 (some old_port) no_owner ≡ ok none)
    ↔ Matches network port1 old_port
plan-none_iff_example = plan-none_iff (codes "n") network port1 old_port no_owner

plan_converges_example :
    (old_port ≡ old_port)
    × Matches network port1 (apply_all apply_op patch old_port)
    × (plan_netdev_port
          (codes "n")
          network
          port1
          (some (apply_all apply_op patch old_port))
          no_owner
        ≡ ok none)
plan_converges_example =
    plan_converges apply_op apply_op-Patches (codes "n") network port1 old_port old_port patch
      no_owner no_owner planned

abbrev own_mac : Dict Port
own_mac = (codes "aa:01", old_port) ∷ []

plan-owner_example :
    (p : Port) × (some old_port ≡ some p)
    × ((old_port.uuid ≡ p.uuid) ⊎ (lower (text_or_empty p.address) ≡ lower port1.mac))
unfolding plan_netdev_port build_patch mac_differs desired_llc llc_differs choose_switch_id get
    lower opt_text_eq text_eq
plan-owner_example =
    plan-owner (codes "n") network port1 (some old_port) own_mac old_port
      (some (update old_port patch)) refl refl

abbrev node : Node
node = record {
  uuid = codes "u";
  driver = codes "netdev";
  provision_state = available;
  resource_class = some (codes "generic");
  driver_info = none;
  extra = none;
}

-- An Ironic without memory, which takes every call.
abbrev small : Ironic (Unit {0})
small = record {
  get_node = λ s name. ok node;
  list_ports = λ s uuid. ok (old_port ∷ []);
  create = λ s wanted. (ok node, tt);
  perform = λ s c. (ok tt, tt);
}

abbrev request : Request
request = record {
  name = codes "n";
  physical_network = network;
  ports = to_json port1 ∷ [];
  external_cmdb_id = none;
  resource_class = none;
  driver_info = [];
  extra = [];
}

abbrev fresh : World (Unit {0})
fresh = record { server = tt; calls = [] }

-- What a run of `enroll` computes with.
program : Unit {0}
unfolding enroll ◌>>=◌ pure lift call read transition reuse_netdev_node find_or_create_netdev_node
    update_node_metadata apply_port_plan apply_port_plans make_available carry_out step_down
    enroll_node wanted_node with_cmdb_id has_cmdb_id metadata_updates meta_updates is_current
    plan_ports ports_by_mac ports_by_name dict_of get put lower plan_netdev_port build_patch
    mac_differs desired_llc llc_differs choose_switch_id
program = tt

-- The node is taken out of the pool, its port is updated, and it is put back.
enroll-calls :
    (enroll small request fresh).1.calls
    ≡ set_node_provision_state (codes "u") manage
      ∷ wait_for_node_provision_state (codes "u") manageable
      ∷ update_port (codes "p1") patch
      ∷ set_node_provision_state (codes "u") provide
      ∷ wait_for_node_provision_state (codes "u") available
      ∷ []
unfolding program build_netdev_ports to_fields id_field text_eq opt_text_eq
enroll-calls = refl

enroll-IsSafe_example :
    (cs : List Call) × ((enroll small request fresh).1.calls ≡ fresh.calls ++ cs)
    × IsSafe false node.provision_state cs
    × ((enroll small request fresh).0 ≡ ok tt → after_all node.provision_state cs ≡ available)
    × ((e : Error) → (enroll small request fresh).0 ≡ err e → IsLate e ⊎ (cs ≡ []))
enroll-IsSafe_example = enroll-IsSafe small request node fresh refl

enroll_node-Runs_example :
    Runs true node.provision_state
      (enroll_node small request node false (wanted_node request) (create port1 ∷ []))
      (λ _ t. t ≡ available)
enroll_node-Runs_example =
    enroll_node-Runs small node true request false (wanted_node request) (create port1 ∷ []) refl
