-- ===== src/Cmd/Wiring.antt =====
-- cmd/routes-provisioner/main.go: which components the program is put together from.
pub mod Parts
pub mod Sources
pub mod Issuers
pub mod Gateways
pub mod Election
pub mod Program
pub mod Ready
pub mod Components
pub mod Complete
pub mod Start
mod Examples
