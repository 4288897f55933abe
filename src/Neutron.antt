-- ===== src/Neutron.antt =====
-- The neutron plugin's trunks and segments: python/neutron-understack/neutron_understack.
pub mod Ranges
pub mod NetworkNode
pub mod Tables
pub mod Trunks
pub mod Mechanism
pub mod Adoption
mod Tests
