-- ===== src/Inspection.antt =====
-- Ironic's inspection hooks of UnderStack, in python/ironic-understack/ironic_understack: the
-- topology that LLDP shows, and what the hooks make of a node's ports and traits.
pub mod Topology
pub mod NaturalOrder
pub mod Ports
pub mod BiosNames
pub mod Chassis
mod Tests
