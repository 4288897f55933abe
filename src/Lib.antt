-- ===== src/Lib.antt =====
-- UnderStack: parts of the Python code that configures networks and bare metal for OpenStack.
--
-- The repository is a set of plugins and workflows that are deployed side by side. Modelled here:
--
-- Vni: the neutron plugin's allocation of VNIs to routers, in
--   python/neutron-understack/neutron_understack/l3_router/understack_vni_db.py over the table of
--   python/neutron-understack/neutron_understack/db/understack_vni.py.
--   Vni.Ranges reads and merges the configured ranges (`parse_vni_ranges`, `_merge_ranges`);
--   Vni.Table holds the rows and the queries, among them `_find_never_used_vni`; Vni.Allocator has
--   the methods of `UnderstackVniDbHelper`. A method takes the table that its transaction has
--   locked and returns it with the result, so calls follow one another.
--   The bounds MIN_VNI and MAX_VNI are neutron_lib's, and parameters.
-- Netdev: the enrollment of network devices in Ironic, in
--   python/understack-workflows/understack_workflows/netdev_reconciler.py. Netdev.Ports checks the
--   request (`build_netdev_ports`), Netdev.Plan decides what a port needs (`plan_netdev_port`), and
--   Netdev.Enroll makes the calls (`enroll`, with `transition` of
--   python/understack-workflows/understack_workflows/ironic_node.py). Ironic is a parameter, a
--   record of functions on a state of its own that may answer anything; every call that may change
--   something is written to a log, and the theorems speak of the log.
--
-- Inspection: what Ironic's inspection hooks make of a node's ports, in
--   python/ironic-understack/ironic_understack. Inspection.Topology has inspected_port.py and
--   vlan_group_name_convention.py; Inspection.Ports has the hook of
--   inspect_hook_update_baremetal_ports.py, which uses them, and Inspection.NaturalOrder its order
--   of switch names; Inspection.BiosNames has the hook of port_bios_name_hook.py, of redfish
--   inspection; Inspection.Chassis has inspect_hook_chassis_model.py and
--   inspect_hook_node_name_check.py. Whether Ironic saves a port is a parameter of the LLDP hook;
--   the BIOS name hook logs its saves.
-- Flavor: the resource class of an inspected node, in
--   python/ironic-understack/ironic_understack/flavor_matcher and resource_class.py.
-- Neutron: the trunks of the neutron plugin, in python/neutron-understack/neutron_understack.
--   Neutron.Ranges has the VLAN ids that utils.py allows to tenants; Neutron.Tables has neutron's
--   ports, segments and binding levels and what utils.py does with them; Neutron.NetworkNode has
--   the search of utils.py for the network node's trunk, with its cache; Neutron.Trunks has the
--   handlers of trunk.py. A handler takes the tables and gives them back, whether it returns or
--   raises. Neutron's type manager, which allocates and releases segments, is a parameter, and
--   Neutron.Tables.Invariant.IsDocumented says what is relied on. Calls of undersync are recorded.
--   Neutron.Mechanism has the handlers of neutron_understack_mech.py that bind, unbind and remove
--   a baremetal port, over the same tables; they call the trunk driver for the parent of a trunk.
--   Neutron.Adoption has ironic.py's adoption and release of a network appliance for a router, and
--   the handlers of l3_router/palo_alto.py that call it; Ironic is a parameter, whose calls may
--   raise with any effect, and Neutron.Adoption.Returns.IsDocumented says what a call does that
--   returns.
-- Ucvni: the ranges of a UCVNI group in Nautobot and their change with neutron's segment ranges, in
--   python/understack-workflows/understack_workflows/main/sync_ucvni_group_range.py.
-- ProvisionState: the statuses of Ironic's states in Nautobot, in
--   python/understack-workflows/understack_workflows/ironic/provision_state_mapper.py.
--
-- Texts are lists of code points; case, white space and digits are those of ASCII. Dicts are
-- association lists in the order of insertion. Every function is structural recursion. Only the
-- printing of a number in Ucvni has fuel, one more than the number: each step takes a digit off,
-- so that it is enough.
--
-- Not modelled: log messages and the wording of exceptions; the database's own work (locks,
-- flushes, the clock of `allocated_at`); HTTP and JSON, which are parameters where the code
-- relies on them; the YAML files of the device types; and the parts of the repository that are
-- mostly calls of other services: the neutron plugin's routers, the nova and
-- cinder plugins, the event handlers, the NetApp services and the synchronisation with Nautobot.
mod Prelude
pub mod Vni
pub mod Netdev
pub mod ProvisionState
pub mod Inspection
pub mod Flavor
pub mod Neutron
pub mod Ucvni
