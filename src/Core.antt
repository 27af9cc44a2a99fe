-- ===== src/Core.antt =====
-- core/: the domain model, error values, and the interfaces that the components implement.
pub mod Result
pub mod Dict
pub mod Route
pub mod Interfaces
pub mod Reconciler
pub mod Orchestrator
pub mod Desired
pub mod Trigger
