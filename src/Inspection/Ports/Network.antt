-- ===== src/Inspection/Ports/Network.antt =====
-- A port that gets the PXE flag has a physical network, so the BIOS name hook leaves the flag.
use understack.Prelude.{
  some-injective, ◌≡◌, ◌≢◌, refl, sym, true, List, [], ◌∷◌, Option, none, some, Text, codes,
  text_eq, text_eq_iff, contains, Dict, get, All, Result, ok, >>=-eq-ok, arith, Option-cases, inl,
  inr, subst, Bool-cases,
}
use understack.Inspection.Topology.{
  InspectedPort, Groups, Error, name_switches, name_groups, rack_names, vlan_group_name,
  vlan_group_names, assert_consistent_data_center, assert_single_or_paired_racks,
  assert_switch_names_have_known_suffixes, assert_redundant_network_connections,
  group_by_switch_category,
}
use understack.Inspection.Topology.Grouping.{both-ok}
use understack.Inspection.NaturalOrder.{natural_sorted_switch_names, first_switch}
use understack.Inspection.BiosNames.{BaremetalPort, clear_unwanted_pxe, is_set}
use understack.Inspection.Ports.{
  ends_with, drop_suffix, drop_prefix, network_groups, first_switches, pxe_switch_names, port_attrs,
  set_port_attributes, clear_port_attributes, physical_network_for,
}
use understack.Inspection.Ports.Pxe.{
  IsDict, name_switches-IsDict, entries-Finds, is_network, IsNetwork, EachAll,
  network_groups-EachAll, sorted-All,
}

ok-injective : (a b : Dict Text) → ◌≡◌ {A = Result Error (Dict Text)} (ok a) (ok b) → a ≡ b
ok-injective a b h = cc

name_groups-IsDict :
    (groups : Groups) (names result : Dict Text)
    → IsDict names
    → name_groups groups names ≡ ok result
    → IsDict result
unfolding name_groups
name_groups-IsDict [] names result d h = subst IsDict (ok-injective names result h) d
name_groups-IsDict ((category, ports) ∷ groups) names result d h =
    let (racks, e, rest) = >>=-eq-ok (rack_names ports) _ h in
    name_groups-IsDict groups (name_switches (vlan_group_name racks category) ports names) result
      (name_switches-IsDict (vlan_group_name racks category) ports names d) rest

no_names : IsDict {V = Text} []
unfolding IsDict
no_names = tt

vlan_group_names-IsDict :
    (ports : List InspectedPort) (mapping names : Dict Text)
    → vlan_group_names ports mapping ≡ ok names
    → IsDict names
unfolding vlan_group_names
vlan_group_names-IsDict ports mapping names h =
    let (a, h1) = both-ok (assert_consistent_data_center ports) _ h in
    let (b, h2) = both-ok (assert_single_or_paired_racks ports) _ h1 in
    let (c, h3) = both-ok (assert_switch_names_have_known_suffixes ports mapping) _ h2 in
    let (groups, g, h4) = >>=-eq-ok (group_by_switch_category ports mapping) _ h3 in
    let (d, h5) = both-ok (assert_redundant_network_connections groups) _ h4 in
    name_groups-IsDict groups [] names no_names h5

head-All :
    (P : Text → Type 0) (names : List Text) (s : Text)
    → All P names
    → ◌≡◌ {A = Option Text} (elim names [ [] ↦ none | n ∷ others ↦ some n ]) (some s)
    → P s
head-All P [] s h e = cc
head-All P (n ∷ others) s (here, later) e = subst P (some-injective n s e) here

first_switch-All :
    (P : Text → Type 0) (names : List Text) (s : Text)
    → All P names
    → first_switch names ≡ some s
    → P s
unfolding first_switch
first_switch-All P names s h e =
    head-All P (natural_sorted_switch_names names) s (sorted-All P names h) e

first_switches-All :
    (P : Text → Type 0) (groups : Dict (List Text))
    → EachAll P groups
    → All P (first_switches groups)
unfolding first_switches
first_switches-All P [] h = tt
first_switches-All P ((g, names) ∷ groups) (here, later) =
    elim (Option-cases (first_switch names)) [
      | inl e ↦ rw (first_switches, e) (first_switches-All P groups later)
      | inr (s, e) ↦
          rw (first_switches, e)
            (first_switch-All P names s here e, first_switches-All P groups later)
    ]

contains-All :
    (P : Text → Type 0) (names : List Text) (s : Text) → All P names → contains s names ≡ true → P s
unfolding contains
contains-All P [] s h c = cc
contains-All P (n ∷ names) s (here, later) c = elim (Bool-cases (text_eq n s)) [
  | inl e ↦ subst P ((text_eq_iff n s).0 e) here
  | inr e ↦ contains-All P names s later (ground arith)
]

pxe_switch-IsNetwork :
    (vlan_groups : Dict Text) (s : Text)
    → IsDict vlan_groups
    → contains s (pxe_switch_names vlan_groups) ≡ true
    → IsNetwork vlan_groups s
unfolding pxe_switch_names
pxe_switch-IsNetwork vlan_groups s d c =
    contains-All (IsNetwork vlan_groups) (first_switches (network_groups [] vlan_groups)) s
      (first_switches-All (IsNetwork vlan_groups) (network_groups [] vlan_groups)
        (network_groups-EachAll vlan_groups [] vlan_groups tt (entries-Finds vlan_groups d)))
      c

empty-network : ends_with [] (codes "-network") ≢ true
unfolding ends_with drop_suffix drop_prefix
empty-network h = cc

network_is_set :
    (vlan_group : Option Text)
    → is_network vlan_group ≡ true
    → is_set (physical_network_for vlan_group) ≡ true
unfolding physical_network_for
network_is_set none h = cc
network_is_set (some []) h = elim (empty-network h) [ ]
network_is_set (some (c ∷ s)) h = rw h refl

flag_stays :
    (port : BaremetalPort) → is_set port.physical_network ≡ true → clear_unwanted_pxe port ≡ none
unfolding clear_unwanted_pxe
flag_stays port h = rw h refl

attrs_absent :
    (by_mac : Dict InspectedPort) (vlan_groups : Dict Text) (port : BaremetalPort)
    → get port.address by_mac ≡ none
    → port_attrs by_mac vlan_groups port ≡ clear_port_attributes port
unfolding port_attrs clear_port_attributes
attrs_absent by_mac vlan_groups port e = rw (port_attrs, e) refl

attrs_present :
    (by_mac : Dict InspectedPort) (vlan_groups : Dict Text) (port : BaremetalPort)
    (p : InspectedPort)
    → get port.address by_mac ≡ some p
    → port_attrs by_mac vlan_groups port
      ≡ set_port_attributes p
          (get p.switch_system_name vlan_groups)
          (contains p.switch_system_name (pxe_switch_names vlan_groups))
          port
unfolding port_attrs set_port_attributes
attrs_present by_mac vlan_groups port p e = rw (port_attrs, e) refl

-- With the flag set, the physical network is set.
HasNetwork : BaremetalPort → Type 0
HasNetwork port = port.pxe_enabled ≡ true → is_set port.physical_network ≡ true

cleared-HasNetwork : (port : BaremetalPort) → HasNetwork (clear_port_attributes port)
unfolding HasNetwork clear_port_attributes
cleared-HasNetwork port h = cc

set-HasNetwork :
    (vlan_groups : Dict Text) (port : BaremetalPort) (p : InspectedPort)
    → IsDict vlan_groups
    → HasNetwork (
        set_port_attributes p
          (get p.switch_system_name vlan_groups)
          (contains p.switch_system_name (pxe_switch_names vlan_groups))
          port)
unfolding HasNetwork set_port_attributes IsNetwork
set-HasNetwork vlan_groups port p d h =
    network_is_set (get p.switch_system_name vlan_groups)
      (pxe_switch-IsNetwork vlan_groups p.switch_system_name d h)

attrs-HasNetwork :
    (by_mac : Dict InspectedPort) (vlan_groups : Dict Text) (port : BaremetalPort)
    → IsDict vlan_groups
    → HasNetwork (port_attrs by_mac vlan_groups port)
attrs-HasNetwork by_mac vlan_groups port d = elim (Option-cases (get port.address by_mac)) [
  | inl e ↦
      subst HasNetwork (sym (attrs_absent by_mac vlan_groups port e)) (cleared-HasNetwork port)
  | inr (p, e) ↦
      subst HasNetwork (sym (attrs_present by_mac vlan_groups port p e))
        (set-HasNetwork vlan_groups port p d)
]

-- With the VLAN groups that `vlan_group_names` returns, a port that the LLDP hook gives the PXE
-- flag also has a physical network then, so that the BIOS name hook leaves its flag alone.
pub port_attrs-clear_unwanted_pxe :
    (inspected : List InspectedPort) (mapping vlan_groups : Dict Text)
    (ports_by_mac : Dict InspectedPort) (port : BaremetalPort)
    → vlan_group_names inspected mapping ≡ ok vlan_groups
    → (port_attrs ports_by_mac vlan_groups port).pxe_enabled ≡ true
    → clear_unwanted_pxe (port_attrs ports_by_mac vlan_groups port) ≡ none
unfolding HasNetwork
port_attrs-clear_unwanted_pxe inspected mapping vlan_groups ports_by_mac port h pxe =
    flag_stays (port_attrs ports_by_mac vlan_groups port) (
      attrs-HasNetwork ports_by_mac vlan_groups port
        (vlan_group_names-IsDict inspected mapping vlan_groups h) pxe)
