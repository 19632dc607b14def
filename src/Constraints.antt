-- ===== src/Constraints.antt =====
-- Parameter schemas and their constraints (packages/constraint-engine/src).
pub mod Values
pub mod Condition
pub mod Schema
pub mod Engine
pub mod Reconcile
pub mod Validate
pub mod InForce
pub mod Tests
