-- ===== src/Vni.antt =====
-- The allocation of VNIs to routers: neutron_understack/l3_router/understack_vni_db.py and
-- neutron_understack/db/understack_vni.py, below python/neutron-understack.
pub mod Ranges
pub mod Table
pub mod Allocator
mod Tests
