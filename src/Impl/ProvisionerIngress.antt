-- ===== src/Impl/ProvisionerIngress.antt =====
-- impl/provisioner-ingress: routes packed as rules into Kubernetes Ingresses. `Types` has the
-- Kubernetes objects that the code reads and writes, the mapper's interface and the API's; `Patches`
-- the JSON patches that are sent; `Single`, `Batch` and `Listing` the operations.
pub mod Types
pub mod Patches
pub mod Single
pub mod Batch
pub mod Removal
pub mod Listing
pub mod Examples
