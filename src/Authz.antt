-- ===== src/Authz.antt =====
-- Who may do what (apps/canvas-api/src/authz): permissions, roles, bindings and their cache.
pub mod Types
pub mod Catalog
pub mod Resolve
pub mod Bindings
pub mod Guard
pub mod Bootstrap
pub mod Cache
pub mod Computed
pub mod Allowed
pub mod Assigned
pub mod Runs
pub mod Coherent
pub mod Seeded
pub mod Supers
pub mod SuperRuns
pub mod Tests
