-- ===== src/Netdev.antt =====
-- The enrollment of network devices in Ironic:
-- python/understack-workflows/understack_workflows/netdev_reconciler.py.
pub mod Ports
pub mod Plan
pub mod Enroll
mod Tests
