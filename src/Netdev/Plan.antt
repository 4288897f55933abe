-- ===== src/Netdev/Plan.antt =====
-- The plan for one port: `plan_netdev_port`, and the port that `create_netdev_port` asks for, in
-- python/understack-workflows/understack_workflows/netdev_reconciler.py.
-- A null value inside `local_link_connection` is read as a missing key: the code tells them
-- apart nowhere.
pub mod Laws
pub mod Converges
use understack.Prelude.{
  ℕ, Bool, true, false, not, ◌&&◌, ◌||◌, if◌then◌else◌, List, [], ◌∷◌, ◌++◌, is_nil, Option, none,
  some, Text, codes, text_eq, opt_text_eq, lower, Result, ok, err, ◌>>=◌, ◌>>◌, raise_if, Dict, get,
}
use understack.Netdev.Ports.{NetdevPort}

-- A port in Ironic, as far as it is read here.
pub record Port : Type 0 where
  pub uuid : Text
  pub name : Option Text
  pub address : Option Text
  pub physical_network : Option Text
  pub category : Option Text
  pub local_link_connection : Option (Dict Text)

-- One operation {"op": "add", "path": …, "value": …} of a JSON patch.
pub data PatchOp : Type 0 where
  add_address add_physical_network add_category : Text → PatchOp
  add_local_link_connection : Dict Text → PatchOp

pub data Plan : Type 0 where
  create : NetdevPort → Plan
  update : Port → List PatchOp → Plan

-- The RuntimeErrors of a MAC in use, with the name of the port and the port that has the MAC.
pub data Conflict : Type 0 where
  cannot_create cannot_update : Text → Port → Conflict

abbrev pub placeholder_switch_id : Text
placeholder_switch_id = codes "00:00:00:00:00:00"

-- f"{node_name}:{label}"
abbrev pub port_name : Text → Text → Text
port_name node_name label = node_name ++ b':' ∷ label

-- `value or ""`
abbrev pub text_or_empty : Option Text → Text
text_or_empty none = []
text_or_empty (some s) = s

abbrev pub dict_or_empty : Option (Dict Text) → Dict Text
dict_or_empty none = []
dict_or_empty (some d) = d

-- `value in (None, "")`
abbrev pub is_unset : Option Text → Bool
is_unset none = true
is_unset (some []) = true
is_unset (some (c ∷ s)) = false

-- An explicit switch id wins, then a real one that is stored, then the placeholder.
unfoldable pub choose_switch_id : Option Text → Option Text → Text
choose_switch_id requested current =
    if not (is_unset requested)
    then text_or_empty requested
    else if is_unset current || text_eq (text_or_empty current) placeholder_switch_id
    then placeholder_switch_id
    else text_or_empty current

abbrev pub llc : Text → Text → Text → Dict Text
llc switch_id switch_info port_id =
    (codes "switch_id", switch_id)
    ∷ (codes "switch_info", switch_info)
    ∷ (codes "port_id", port_id)
    ∷ []

-- `any(current_llc.get(key) != value for key, value in desired_llc.items())`
unfoldable pub llc_differs : Dict Text → Dict Text → Bool
llc_differs current [] = false
llc_differs current ((key, value) ∷ desired) =
    not (opt_text_eq (get key current) (some value)) || llc_differs current desired

abbrev pub add_if : Bool → PatchOp → List PatchOp
add_if true op = op ∷ []
add_if false op = []

abbrev pub current_llc : Port → Dict Text
current_llc existing = dict_or_empty existing.local_link_connection

unfoldable pub desired_llc : NetdevPort → Port → Dict Text
desired_llc port existing =
    llc (choose_switch_id port.switch_id (get (codes "switch_id") (current_llc existing)))
      port.switch port.interface

unfoldable pub mac_differs : NetdevPort → Port → Bool
mac_differs port existing = not (text_eq (lower (text_or_empty existing.address)) (lower port.mac))

-- Another port than `existing` has the MAC.
abbrev pub other_owner : Option Port → Port → Bool
other_owner none existing = false
other_owner (some owner) existing = not (text_eq owner.uuid existing.uuid)

abbrev pub owner_or : Option Port → Port → Port
owner_or none existing = existing
owner_or (some owner) existing = owner

unfoldable pub build_patch : Text → NetdevPort → Port → List PatchOp
build_patch physical_network port existing =
    add_if (mac_differs port existing) (add_address port.mac)
    ++ (add_if (not (opt_text_eq existing.physical_network (some physical_network)))
          (add_physical_network physical_network)
        ++ (add_if (not (opt_text_eq existing.category (some (codes "network"))))
              (add_category (codes "network"))
            ++ add_if (llc_differs (current_llc existing) (desired_llc port existing))
                (add_local_link_connection (desired_llc port existing))))

abbrev pub update_unless_empty : Port → List PatchOp → Option Plan
update_unless_empty existing [] = none
update_unless_empty existing (op ∷ patch) = some (update existing (op ∷ patch))

-- `plan_netdev_port`; `ports_by_mac` has its keys in lower case.
unfoldable pub plan_netdev_port :
    Text → Text → NetdevPort → Option Port → Dict Port → Result Conflict (Option Plan)
plan_netdev_port node_name physical_network port existing ports_by_mac =
    let name = port_name node_name port.label in
    let mac_owner = get (lower port.mac) ports_by_mac in
    elim existing [
      | none ↦ elim mac_owner [
        | none ↦ ok (some (create port))
        | some owner ↦ err (cannot_create name owner)
      ]
      | some found ↦
          if mac_differs port found && other_owner mac_owner found
          then err (cannot_update name (owner_or mac_owner found))
          else ok (update_unless_empty found (build_patch physical_network port found))
    ]

-- The `port_data` of `create_netdev_port`.
pub record PortData : Type 0 where
  pub address : Text
  pub category : Text
  pub local_link_connection : Dict Text
  pub name : Text
  pub node_uuid : Text
  pub physical_network : Text

-- `port.switch_id or PLACEHOLDER_SWITCH_ID`
abbrev pub switch_id_or_placeholder : Option Text → Text
switch_id_or_placeholder none = placeholder_switch_id
switch_id_or_placeholder (some []) = placeholder_switch_id
switch_id_or_placeholder (some (c ∷ s)) = c ∷ s

unfoldable pub port_data : Text → Text → Text → NetdevPort → PortData
port_data node_uuid node_name physical_network port = record {
  address = port.mac;
  category = codes "network";
  local_link_connection = llc (switch_id_or_placeholder port.switch_id) port.switch port.interface;
  name = port_name node_name port.label;
  node_uuid = node_uuid;
  physical_network = physical_network;
}
