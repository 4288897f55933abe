-- ===== src/Inspection/Ports.antt =====
-- The ports and traits that LLDP gives: `InspectHookUpdateBaremetalPorts` of
-- python/ironic-understack/ironic_understack/inspect_hook_update_baremetal_ports.py.
-- Ironic is a parameter: whether it saves a changed port or answers with one of its exceptions.
-- `str()` of the values that LLDP gives is done already, so these are texts.
pub mod Traits
pub mod Pxe
pub mod Network
use understack.Prelude.{
  ℕ, Bool, true, false, not, ◌+◌, ◌-◌, ◌*◌, ◌&&◌, ◌||◌, ltb, ◌==◌, if◌then◌else◌, List, [], ◌∷◌,
  ◌++◌, map, filter, all, reverse, length, is_nil, is_some, Option, none, some, Text, codes,
  text_eq, opt_text_eq, lower, upper, is_digit, split_last, contains, distinct, text_before, Result,
  ok, err, ◌>>=◌, ◌>>◌, Dict, get, put, dict_of,
}
use understack.Inspection.Topology.{InspectedPort, local_link_connection, vlan_group_names}
use understack.Inspection.Topology
use understack.Inspection.NaturalOrder.{first_switch}
use understack.Inspection.BiosNames.{BaremetalPort, is_set}

-- The name and MAC of an interface in plugin_data["all_interfaces"].
pub record Interface : Type 0 where
  pub name : Text
  pub mac_address : Text

-- An entry of plugin_data["parsed_lldp"].
pub record Lldp : Type 0 where
  pub switch_system_name : Text
  pub switch_chassis_id : Text
  pub switch_port_id : Text

-- `s.endswith(suffix)`, by the part before the suffix.
unfoldable pub drop_prefix : Text → Text → Option Text
drop_prefix [] s = some s
drop_prefix (c ∷ prefix) [] = none
drop_prefix (c ∷ prefix) (d ∷ s) = if c == d then drop_prefix prefix s else none

unfoldable pub drop_suffix : Text → Text → Option Text
drop_suffix suffix s = elim (drop_prefix (reverse suffix) (reverse s)) [
  | none ↦ none
  | some rest ↦ some (reverse rest)
]

unfoldable pub ends_with : Text → Text → Bool
ends_with s suffix = is_some (drop_suffix suffix s)

abbrev pub domain : Text
domain = codes ".rackspace.net"

unfoldable pub normalise_switch_name : Text → Text
normalise_switch_name name =
    if ends_with (lower name) domain then lower name else lower name ++ domain

-- KeyError of an LLDP entry whose interface is not among all interfaces, and the errors of
-- `vlan_group_names`.
pub data Error : Type 0 where
  no_interface : Text → Error
  topology : Topology.Error → Error

unfoldable pub inspected_port : Text → Lldp → Option Text → Result Error InspectedPort
inspected_port name lldp none = err (no_interface name)
inspected_port name lldp (some mac) = ok (record {
  mac_address = mac;
  name = name;
  switch_system_name = normalise_switch_name lldp.switch_system_name;
  switch_port_id = lldp.switch_port_id;
  switch_chassis_id = lower lldp.switch_chassis_id;
})

unfoldable pub parse_entries : Dict Text → Dict Lldp → Result Error (List InspectedPort)
parse_entries mac [] = ok []
parse_entries mac ((name, lldp) ∷ entries) = do
  port ← inspected_port name lldp (get name mac)
  ports ← parse_entries mac entries
  ok (port ∷ ports)

unfoldable pub parse_plugin_data : List Interface → Dict Lldp → Result Error (List InspectedPort)
parse_plugin_data all_interfaces parsed_lldp =
    parse_entries (dict_of (map (λ i. (i.name, i.mac_address)) all_interfaces)) parsed_lldp

-- `value.split("-")[-1]`
unfoldable pub last_part : Text → Text
last_part s = elim (split_last b'-' s) [ none ↦ s | some (before, after) ↦ after ]

-- `current != wanted` on dicts
unfoldable pub dict_eq : Dict Text → Dict Text → Bool
dict_eq a b = (length a == length b) && all (λ e. opt_text_eq (get e.0 b) (some e.1)) a

-- `physical_network.split("-")[-1]` where that is set
unfoldable pub category_for : Option Text → Option Text
category_for none = none
category_for (some []) = none
category_for (some (c ∷ s)) = some (last_part (c ∷ s))

-- A VLAN group that is no network is no physical network. The empty text stays what it is.
unfoldable pub physical_network_for : Option Text → Option Text
physical_network_for none = none
physical_network_for (some []) = some []
physical_network_for (some (c ∷ s)) =
    if ends_with (c ∷ s) (codes "-network") then some (c ∷ s) else none

-- The attributes that `_set_port_attributes` gives the port before it saves it. An attribute that
-- is equal is not written, which shows only for the dict: an equal one stays.
unfoldable pub set_port_attributes :
    InspectedPort → Option Text → Bool → BaremetalPort → BaremetalPort
set_port_attributes inspected vlan_group pxe port = record port {
  local_link_connection =
      (if dict_eq port.local_link_connection (local_link_connection inspected)
        then port.local_link_connection
        else local_link_connection inspected);
  physical_network = physical_network_for vlan_group;
  category = category_for vlan_group;
  pxe_enabled = pxe;
}

unfoldable pub clear_port_attributes : BaremetalPort → BaremetalPort
clear_port_attributes port = record port {
  local_link_connection = [];
  physical_network = none;
  category = none;
  pxe_enabled = false;
}

-- `setdefault(vlan_group, []).append(switch_name)`
unfoldable pub add_switch : Text → Text → Dict (List Text) → Dict (List Text)
add_switch vlan_group switch_name groups = elim (get vlan_group groups) [
  | none ↦ put vlan_group (switch_name ∷ []) groups
  | some names ↦ put vlan_group (names ++ switch_name ∷ []) groups
]

unfoldable pub network_groups : Dict (List Text) → Dict Text → Dict (List Text)
network_groups groups [] = groups
network_groups groups ((switch_name, vlan_group) ∷ vlan_groups) =
    if ends_with vlan_group (codes "-network")
    then network_groups (add_switch vlan_group switch_name groups) vlan_groups
    else network_groups groups vlan_groups

unfoldable pub first_switches : Dict (List Text) → List Text
first_switches [] = []
first_switches ((vlan_group, names) ∷ groups) = elim (first_switch names) [
  | none ↦ first_switches groups
  | some name ↦ name ∷ first_switches groups
]

unfoldable pub pxe_switch_names : Dict Text → List Text
pxe_switch_names vlan_groups = first_switches (network_groups [] vlan_groups)

-- What the hook makes of one port, before Ironic saves it.
unfoldable pub port_attrs : Dict InspectedPort → Dict Text → BaremetalPort → BaremetalPort
port_attrs ports_by_mac vlan_groups port = elim (get port.address ports_by_mac) [
  | none ↦ clear_port_attributes port
  | some inspected ↦
      set_port_attributes inspected (get inspected.switch_system_name vlan_groups)
        (contains inspected.switch_system_name (pxe_switch_names vlan_groups)) port
]

-- The stored ports afterwards. `saves p` is whether Ironic saves the changed port `p`; its
-- exceptions are caught, and the port stays as it was.
unfoldable pub update_port_attrs :
    (BaremetalPort → Bool)
    → Dict InspectedPort
    → Dict Text
    → List BaremetalPort
    → List BaremetalPort
update_port_attrs saves ports_by_mac vlan_groups [] = []
update_port_attrs saves ports_by_mac vlan_groups (port ∷ ports) =
    let changed = port_attrs ports_by_mac vlan_groups port in
    (if saves changed then changed else port)
    ∷ update_port_attrs saves ports_by_mac vlan_groups ports

-- `vlan_group_name.upper().split("-")[-1]` in CUSTOM_…_SWITCH
unfoldable pub trait_name : Text → Text
trait_name vlan_group = codes "CUSTOM_" ++ (last_part (upper vlan_group) ++ codes "_SWITCH")

abbrev pub is_trait_char : ℕ → Bool
is_trait_char c = is_digit c || (not (ltb c b'A') && not (ltb b'Z' c))

-- [A-Z0-9]+ before _SWITCH
unfoldable pub is_trait_suffix : Text → Bool
is_trait_suffix s = elim (drop_suffix (codes "_SWITCH") s) [
  | none ↦ false
  | some middle ↦ not (is_nil middle) && all is_trait_char middle
]

-- `$` of the pattern stands at the end or before a line feed at the end.
unfoldable pub is_our_trait : Text → Bool
is_our_trait name = elim (drop_prefix (codes "CUSTOM_") name) [
  | none ↦ false
  | some rest ↦
      is_trait_suffix rest
      || elim (drop_suffix (10 ∷ []) rest) [ none ↦ false | some line ↦ is_trait_suffix line ]
]

abbrev pub includes : List Text → List Text → Bool
includes xs ys = all (λ y. contains y xs) ys

-- The set of the node's traits afterwards; it is written only where it changes.
unfoldable pub set_node_traits : List Text → List Text → List Text
set_node_traits existing vlan_groups =
    let required =
      filter (λ t. not (is_our_trait t)) existing
      ++ map trait_name (filter (λ g. not (is_nil g)) vlan_groups) in
    if includes existing required && includes required existing then existing else required

-- What the hook leaves: the node's ports and the set of its traits.
pub record Node : Type 0 where
  pub ports : List BaremetalPort
  pub traits : List Text

unfoldable pub update_node :
    (BaremetalPort → Bool) → Dict Text → List InspectedPort → Node → Result Error Node
update_node saves mapping inspected node = elim (vlan_group_names inspected mapping) [
  | err e ↦ err (topology e)
  | ok vlan_groups ↦ ok (record {
    ports =
        update_port_attrs saves (dict_of (map (λ p. (p.mac_address, p)) inspected)) vlan_groups
          node.ports;
    traits = set_node_traits node.traits (distinct (map (λ e. e.1) vlan_groups));
  })
]

-- `__call__`: without LLDP data nothing changes.
unfoldable pub update_baremetal_ports :
    (BaremetalPort → Bool) → Dict Text → List Interface → Dict Lldp → Node → Result Error Node
update_baremetal_ports saves mapping all_interfaces parsed_lldp node = do
  inspected ← parse_plugin_data all_interfaces parsed_lldp
  if is_nil inspected then ok node else update_node saves mapping inspected node
