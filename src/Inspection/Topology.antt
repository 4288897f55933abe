-- ===== src/Inspection/Topology.antt =====
-- Switch names and VLAN groups: `InspectedPort` of
-- python/ironic-understack/ironic_understack/inspected_port.py and all of
-- python/ironic-understack/ironic_understack/vlan_group_name_convention.py.
pub mod Grouping
use understack.Prelude.{
  ℕ, Bool, true, false, not, ◌&&◌, ◌||◌, ltb, ◌==◌, if◌then◌else◌, List, [], ◌∷◌, ◌++◌, map, length,
  Option, none, some, is_some, Text, codes, lower, split_on, split_last, Result, ok, err, ◌>>=◌,
  ◌>>◌, raise_if, Dict, get, put, distinct, sorted,
}

pub record InspectedPort : Type 0 where
  pub mac_address : Text
  pub name : Text
  pub switch_system_name : Text
  pub switch_port_id : Text
  pub switch_chassis_id : Text

pub record ParsedName : Type 0 where
  pub rack_name : Text
  pub switch_suffix : Text
  pub data_center_name : Text

-- The ValueErrors of `parsed_name`, the TopologyErrors, and a KeyError of the mapping.
pub data Error : Type 0 where
  no_data_center : InspectedPort → Error
  no_suffix : Text → Error
  multiple_data_centers too_many_racks not_two_network_switches : List InspectedPort → Error
  unknown_suffix : Text → Error
  key_error : Text → Error

abbrev pub local_link_connection : InspectedPort → Dict Text
local_link_connection p =
    (codes "port_id", p.switch_port_id)
    ∷ (codes "switch_id", p.switch_chassis_id)
    ∷ (codes "switch_info", p.switch_system_name)
    ∷ []

-- The parts of <rack>-<suffix>, a name up to its first dot.
unfoldable pub parse_switch_name : Text → Text → Result Error ParsedName
parse_switch_name switch_name data_center = elim (split_last b'-' switch_name) [
  | none ↦ err (no_suffix switch_name)
  | some (rack, suffix) ↦
      ok (record { rack_name = rack; switch_suffix = suffix; data_center_name = data_center })
]

unfoldable pub parsed_parts : InspectedPort → Text × List Text → Result Error ParsedName
parsed_parts p (switch_name, []) = err (no_data_center p)
parsed_parts p (switch_name, data_center ∷ others) = parse_switch_name switch_name data_center

unfoldable pub parsed_name : InspectedPort → Result Error ParsedName
parsed_name p = parsed_parts p (split_on b'.' p.switch_system_name)

-- `f` of every element, until one raises.
unfoldable pub each {ℓ} :
    {A : Type ℓ} {B : Type ℓ} {E : Type ℓ} → (A → Result E B) → List A → Result E (List B)
each f [] = ok []
each f (x ∷ xs) = do y ← f x; ys ← each f xs; ok (y ∷ ys)

-- {p.data_center_name for p in ports}, {p.rack_name for p in ports}
unfoldable pub data_centers : List InspectedPort → Result Error (List Text)
data_centers ports = do
  names ← each parsed_name ports
  ok (distinct (map (λ n. n.data_center_name) names))

unfoldable pub rack_names : List InspectedPort → Result Error (List Text)
rack_names ports = do names ← each parsed_name ports; ok (distinct (map (λ n. n.rack_name) names))

unfoldable pub assert_consistent_data_center : List InspectedPort → Result Error Unit
assert_consistent_data_center ports = do
  found ← data_centers ports
  raise_if (ltb 1 (length found)) (multiple_data_centers ports)

unfoldable pub assert_single_or_paired_racks : List InspectedPort → Result Error Unit
assert_single_or_paired_racks ports = do
  found ← rack_names ports
  raise_if (ltb 2 (length found)) (too_many_racks ports)

unfoldable pub assert_switch_names_have_known_suffixes :
    List InspectedPort → Dict Text → Result Error Unit
assert_switch_names_have_known_suffixes [] mapping = ok tt
assert_switch_names_have_known_suffixes (p ∷ ports) mapping = do
  n ← parsed_name p
  raise_if (not (is_some (get n.switch_suffix mapping))) (unknown_suffix p.switch_system_name)
  assert_switch_names_have_known_suffixes ports mapping

abbrev pub Groups : Type 0
Groups = Dict (List InspectedPort)

-- `groups.get(category, [])`
unfoldable pub ports_in : Text → Groups → List InspectedPort
ports_in category groups = elim (get category groups) [ none ↦ [] | some ports ↦ ports ]

-- `mapping[suffix]`
abbrev pub mapped : Text → Option Text → Result Error Text
mapped suffix none = err (key_error suffix)
mapped suffix (some category) = ok category

-- `mapping[port.switch_suffix]`
unfoldable pub category_of : Dict Text → InspectedPort → Result Error Text
category_of mapping p = do n ← parsed_name p; mapped n.switch_suffix (get n.switch_suffix mapping)

-- The loop of `group_by_switch_category`, from the groups so far.
unfoldable pub group_from : Groups → List InspectedPort → Dict Text → Result Error Groups
group_from groups [] mapping = ok groups
group_from groups (p ∷ ports) mapping = do
  category ← category_of mapping p
  group_from (put category (ports_in category groups ++ p ∷ []) groups) ports mapping

unfoldable pub group_by_switch_category : List InspectedPort → Dict Text → Result Error Groups
group_by_switch_category = group_from []

unfoldable pub assert_redundant_network_connections : Groups → Result Error Unit
assert_redundant_network_connections groups =
    let network_ports = ports_in (codes "network") groups in
    raise_if (not (length (distinct (map (λ p. p.switch_system_name) network_ports)) == 2))
      (not_two_network_switches network_ports)

-- `"/".join(names)`
unfoldable pub join_slash : List Text → Text
join_slash [] = []
join_slash (name ∷ []) = name
join_slash (name ∷ other ∷ names) = name ++ b'/' ∷ join_slash (other ∷ names)

unfoldable pub vlan_group_name : List Text → Text → Text
vlan_group_name racks category = join_slash (sorted racks) ++ b'-' ∷ category

-- `names[p.switch_system_name] = name` for each port of a group
unfoldable pub name_switches : Text → List InspectedPort → Dict Text → Dict Text
name_switches name [] names = names
name_switches name (p ∷ ports) names =
    name_switches name ports (put p.switch_system_name name names)

unfoldable pub name_groups : Groups → Dict Text → Result Error (Dict Text)
name_groups [] names = ok names
name_groups ((category, ports) ∷ groups) names = do
  racks ← rack_names ports
  name_groups groups (name_switches (vlan_group_name racks category) ports names)

unfoldable pub vlan_group_names : List InspectedPort → Dict Text → Result Error (Dict Text)
vlan_group_names ports mapping = do
  assert_consistent_data_center ports
  assert_single_or_paired_racks ports
  assert_switch_names_have_known_suffixes ports mapping
  groups ← group_by_switch_category ports mapping
  assert_redundant_network_connections groups
  name_groups groups []
