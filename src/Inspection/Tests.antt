-- ===== src/Inspection/Tests.antt =====
-- Tests of the inspection hooks, and the theorems at concrete inputs.
use understack.Prelude.{
  ◌++◌, some, opt_text_eq, err, all, is_digit, split_last, ◌≡◌, refl, true, not, ◌&&◌, ◌||◌, List,
  [], ◌∷◌, map, any, filter, is_nil, none, Text, codes, text_eq, contains, Dict, get, put, sorted,
  insert_text, text_before, distinct, split_on, split_last, lower, dict_of, arith, ok, upper, any,
}
use understack.Inspection.Topology.{
  InspectedPort, ParsedName, vlan_group_names, assert_consistent_data_center, data_centers, each,
  parsed_name, parsed_parts, parse_switch_name, assert_single_or_paired_racks, rack_names,
  assert_switch_names_have_known_suffixes, group_by_switch_category, group_from, category_of,
  ports_in, assert_redundant_network_connections, name_groups, name_switches, vlan_group_name,
  join_slash,
}
use understack.Inspection.Topology.Grouping.{IsCabled, vlan_group_names-IsCabled}
use understack.Inspection.Ports.{
  port_attrs, set_port_attributes, pxe_switch_names, network_groups, first_switches, add_switch,
  last_part, is_trait_suffix, set_node_traits, is_our_trait, trait_name, normalise_switch_name,
  ends_with, drop_suffix, drop_prefix,
}
use understack.Inspection.Ports.Traits.{set_node_traits_lem}
use understack.Inspection.Chassis.{
  SystemVendor, set_chassis_trait, extract_chassis_model, extract_manufacturer, manufacturer_slug,
  has_part, underscored, after_parens, without_parens, chassis_trait_name, set_prefixed_traits,
  check_node_name, identity_crisis,
}
use understack.Inspection.Chassis.Overwrites.{set_chassis_trait-overwrites}
use understack.Inspection.Ports.Network.{port_attrs-clear_unwanted_pxe}
use understack.Inspection.NaturalOrder.{
  first_switch, natural_sorted_switch_names, insert_name, key_before, natural_sort_key,
  split_numbers, add_digit, int_from, numbers_before,
}
use understack.Inspection.BiosNames.{
  clear_unwanted_pxe, BaremetalPort, Interface, name_ports, interface_names_of,
}
use understack.Inspection.BiosNames.Hook.{name_ports-any, name_ports-again, HasNames}

abbrev port_at : Text → Text → InspectedPort
port_at nic switch = record {
  mac_address = codes "aa:bb:cc:dd:ee:0";
  name = nic;
  switch_system_name = switch;
  switch_port_id = codes "Ethernet1/1";
  switch_chassis_id = codes "f0:00";
}

abbrev cabled : List InspectedPort
cabled = port_at (codes "a") (codes "r1-1.ord1") ∷ port_at (codes "b") (codes "r2-1.ord1") ∷ []

abbrev mapping : Dict Text
mapping = (codes "1", codes "network") ∷ []

abbrev names : Dict Text
names = (codes "r1-1.ord1", codes "r1/r2-network") ∷ (codes "r2-1.ord1", codes "r1/r2-network") ∷ []

test_vlan_group_names : vlan_group_names cabled mapping ≡ ok names
unfolding vlan_group_names assert_consistent_data_center data_centers each parsed_name parsed_parts
    parse_switch_name assert_single_or_paired_racks rack_names
    assert_switch_names_have_known_suffixes group_by_switch_category group_from category_of ports_in
    assert_redundant_network_connections name_groups name_switches vlan_group_name join_slash get
    put distinct contains text_eq sorted insert_text text_before split_on split_last
test_vlan_group_names = refl

vlan_group_names-IsCabled_example : (parsed : List ParsedName) × IsCabled cabled mapping parsed
vlan_group_names-IsCabled_example =
    vlan_group_names-IsCabled cabled mapping names test_vlan_group_names

test_normalise : normalise_switch_name (codes "A1-1.ORD1") ≡ codes "a1-1.ord1.rackspace.net"
unfolding normalise_switch_name ends_with drop_suffix drop_prefix lower
test_normalise = refl

set_node_traits_lem_example :
    contains
      (codes "CUSTOM_OLD_SWITCH")
      (set_node_traits (codes "CUSTOM_OLD_SWITCH" ∷ []) (codes "r1-storage" ∷ []))
    ≡ ((contains (codes "CUSTOM_OLD_SWITCH") (codes "CUSTOM_OLD_SWITCH" ∷ [])
          && not (is_our_trait (codes "CUSTOM_OLD_SWITCH")))
        || contains
            (codes "CUSTOM_OLD_SWITCH")
            (map trait_name (filter (λ g. not (is_nil g)) (codes "r1-storage" ∷ []))))
set_node_traits_lem_example =
    set_node_traits_lem (codes "CUSTOM_OLD_SWITCH") (codes "CUSTOM_OLD_SWITCH" ∷ [])
      (codes "r1-storage" ∷ [])

abbrev nic : Interface
nic = record { mac_address = codes "aa"; name = codes "NIC.Slot.1" }

abbrev port : BaremetalPort
port = record {
  address = codes "AA";
  name = none;
  extra = [];
  physical_network = none;
  category = none;
  local_link_connection = [];
  pxe_enabled = true;
}

name_ports-any_example :
    any (λ p. p.pxe_enabled) (name_ports (nic ∷ []) (codes "n") (port ∷ [])).0 ≡ true
name_ports-any_example = name_ports-any nic [] (codes "n") port []

nic-HasNames : HasNames (interface_names_of (nic ∷ []))
unfolding HasNames interface_names_of dict_of put get upper
nic-HasNames mac h = ground arith

name_ports-again_example :
    name_ports (nic ∷ []) (codes "n") (name_ports (nic ∷ []) (codes "n") (port ∷ [])).0
    ≡ ((name_ports (nic ∷ []) (codes "n") (port ∷ [])).0, [])
name_ports-again_example = name_ports-again nic [] (codes "n") port [] nic-HasNames

abbrev dell : SystemVendor
dell = record {
  product_name = some (codes "PowerEdge R7615 (SKU=0AF7)");
  manufacturer = some (codes "Dell Inc.");
  serial_number = some (codes "AN3");
}

abbrev dell_trait : Text
dell_trait = codes "CUSTOM_DELL_POWEREDGE_R7615"

-- The trait of the storage network is lost.
test_overwritten :
    set_chassis_trait dell (set_node_traits [] (codes "r1-storage" ∷ [])) ≡ ok (dell_trait ∷ [])
unfolding set_node_traits is_our_trait trait_name drop_prefix contains text_eq filter upper
    set_chassis_trait extract_chassis_model extract_manufacturer manufacturer_slug has_part
    underscored after_parens without_parens chassis_trait_name set_prefixed_traits split_last
    last_part all
test_overwritten = refl

-- The name that the documentation expects is refused.
test_check_node_name : check_node_name (some (codes "Dell_AN3")) dell ≡ err identity_crisis
unfolding check_node_name opt_text_eq text_eq
test_check_node_name = refl

abbrev odd : SystemVendor
odd = record {
  product_name = some (codes "Switch");
  manufacturer = some (codes "Dell Inc.");
  serial_number = none;
}

abbrev odd_trait : Text
odd_trait = codes "CUSTOM_DELL_SWITCH"

odd_traits :
    set_chassis_trait odd (set_node_traits [] (codes "r1-storage" ∷ [])) ≡ ok (odd_trait ∷ [])
unfolding set_node_traits is_our_trait trait_name drop_prefix contains text_eq filter upper
    set_chassis_trait extract_chassis_model extract_manufacturer manufacturer_slug has_part
    underscored after_parens without_parens chassis_trait_name set_prefixed_traits split_last
    last_part all
odd_traits = refl

odd_is_ours : is_our_trait odd_trait ≡ true
unfolding is_our_trait drop_prefix drop_suffix is_trait_suffix all is_digit
odd_is_ours = refl

odd_is_there : contains odd_trait (odd_trait ∷ []) ≡ true
unfolding contains text_eq
odd_is_there = refl

set_chassis_trait-overwrites_example :
    (model : Text) × (manufacturer : Text) × (extract_chassis_model odd ≡ ok model)
    × (extract_manufacturer odd ≡ ok manufacturer)
    × (odd_trait ≡ codes "CUSTOM_" ++ chassis_trait_name manufacturer model)
set_chassis_trait-overwrites_example =
    set_chassis_trait-overwrites odd [] (codes "r1-storage" ∷ []) (odd_trait ∷ []) odd_trait
      odd_traits odd_is_ours odd_is_there

test_natural :
    natural_sorted_switch_names (codes "a10-1" ∷ codes "a2-2" ∷ codes "a2-1" ∷ [])
    ≡ codes "a2-1" ∷ codes "a2-2" ∷ codes "a10-1" ∷ []
unfolding natural_sorted_switch_names insert_name key_before natural_sort_key split_numbers
    add_digit int_from numbers_before text_eq text_before is_digit
test_natural = refl

abbrev by_mac : Dict InspectedPort
by_mac = (codes "AA", port_at (codes "a") (codes "r1-1.ord1")) ∷ []

-- Its group has two switches; the first in the natural order gets the flag.
port_flag : (port_attrs by_mac names port).pxe_enabled ≡ true
unfolding port_attrs set_port_attributes get text_eq contains pxe_switch_names network_groups
    first_switches add_switch put first_switch natural_sorted_switch_names insert_name key_before
    natural_sort_key split_numbers add_digit int_from numbers_before text_before is_digit ends_with
    drop_suffix drop_prefix
port_flag = refl

port_attrs-clear_unwanted_pxe_example : clear_unwanted_pxe (port_attrs by_mac names port) ≡ none
port_attrs-clear_unwanted_pxe_example =
    port_attrs-clear_unwanted_pxe cabled mapping names by_mac port test_vlan_group_names port_flag
