-- ===== src/Inspection/BiosNames.antt =====
-- The BIOS names of ports: `PortBiosNameHook` of
-- python/ironic-understack/ironic_understack/port_bios_name_hook.py.
-- A port that is saved is added to a log; a save that raises ends the hook, after the saves
-- that stand before it in the log. The values of `extra` that the code reads are texts. The node
-- has a name: for one without, Python raises TypeError at the first name it builds.
pub mod Hook
use understack.Prelude.{
  ℕ, Bool, true, false, not, ◌&&◌, ◌||◌, if◌then◌else◌, List, [], ◌∷◌, ◌++◌, map, any, filter,
  is_nil, Option, none, some, Text, codes, text_eq, opt_text_eq, upper, Dict, get, put, dict_of,
}

-- A port in Ironic, as far as the inspection hooks read or change it.
pub record BaremetalPort : Type 0 where
  pub address : Text
  pub name : Option Text
  pub extra : Dict Text
  pub physical_network : Option Text
  pub category : Option Text
  pub local_link_connection : Dict Text
  pub pxe_enabled : Bool

-- One of the inventory's interfaces.
pub record Interface : Type 0 where
  pub mac_address : Text
  pub name : Text

-- `bool(value)`
abbrev pub is_set : Option Text → Bool
is_set none = false
is_set (some []) = false
is_set (some (c ∷ s)) = true

-- `d.pop(k, None)`
unfoldable pub pop_key : Text → Dict Text → Dict Text
pop_key k d = filter (λ e. not (text_eq e.0 k)) d

abbrev pub bios_name_key : Text
bios_name_key = codes "bios_name"

unfoldable pub required_extra : Option Text → Dict Text → Dict Text
required_extra none extra = pop_key bios_name_key extra
required_extra (some []) extra = pop_key bios_name_key extra
required_extra (some (c ∷ s)) extra = put bios_name_key (c ∷ s) extra

-- Each `_set…` and `_clear…` is the port that is saved, if one is.
unfoldable pub set_port_extra : Option Text → BaremetalPort → Option BaremetalPort
set_port_extra required_bios_name port =
    if opt_text_eq (get bios_name_key port.extra) required_bios_name
    then none
    else some (record port { extra = required_extra required_bios_name port.extra })

unfoldable pub set_port_name : Option Text → Text → BaremetalPort → Option BaremetalPort
set_port_name none node_name port = none
set_port_name (some []) node_name port = none
set_port_name (some (c ∷ s)) node_name port =
    let required = some (node_name ++ b':' ∷ c ∷ s) in
    if opt_text_eq port.name required then none else some (record port { name = required })

unfoldable pub clear_unwanted_pxe : BaremetalPort → Option BaremetalPort
clear_unwanted_pxe port =
    if is_set port.physical_network
    then none
    else if not port.pxe_enabled
    then none
    else some (record port { pxe_enabled = false })

unfoldable pub set_port_pxe_placeholder : BaremetalPort → BaremetalPort
set_port_pxe_placeholder port = record port {
  pxe_enabled = true;
  physical_network = some (codes "enrol");
  local_link_connection =
      (codes "port_id", codes "None")
      ∷ (codes "switch_id", codes "00:00:00:00:00:00")
      ∷ (codes "switch_info", codes "None")
      ∷ [];
}

-- A port, and what was saved of it.
abbrev pub Saved : Type 0
Saved = BaremetalPort × List BaremetalPort

-- `port.save()` after a change
abbrev pub save : Option BaremetalPort → Saved → Saved
save none (port, saves) = (port, saves)
save (some changed) (port, saves) = (changed, saves ++ changed ∷ [])

-- One round of the loop over the ports.
unfoldable pub update_port : Dict Text → Text → BaremetalPort → Saved
update_port interface_names node_name port =
    let bios_name = get (upper port.address) interface_names in
    let extra_set = save (set_port_extra bios_name port) (port, []) in
    let name_set = save (set_port_name bios_name node_name extra_set.0) extra_set in
    save (clear_unwanted_pxe name_set.0) name_set

unfoldable pub update_ports :
    Dict Text → Text → List BaremetalPort → List BaremetalPort × List BaremetalPort
update_ports interface_names node_name [] = ([], [])
update_ports interface_names node_name (port ∷ ports) =
    let updated = update_port interface_names node_name port in
    let rest = update_ports interface_names node_name ports in
    (updated.0 ∷ rest.0, updated.1 ++ rest.1)

unfoldable pub with_placeholder :
    List BaremetalPort × List BaremetalPort → List BaremetalPort × List BaremetalPort
with_placeholder ([], saves) = ([], saves)
with_placeholder (port ∷ ports, saves) =
    if any (λ p. p.pxe_enabled) (port ∷ ports)
    then (port ∷ ports, saves)
    else (set_port_pxe_placeholder port ∷ ports, saves ++ set_port_pxe_placeholder port ∷ [])

-- {i["mac_address"].upper(): i["name"] for i in inspected_interfaces}
unfoldable pub interface_names_of : List Interface → Dict Text
interface_names_of interfaces = dict_of (map (λ i. (upper i.mac_address, i.name)) interfaces)

-- `__call__`: the ports afterwards, and the saves.
unfoldable pub name_ports :
    List Interface → Text → List BaremetalPort → List BaremetalPort × List BaremetalPort
name_ports [] node_name ports = (ports, [])
name_ports (i ∷ interfaces) node_name ports =
    with_placeholder (update_ports (interface_names_of (i ∷ interfaces)) node_name ports)
