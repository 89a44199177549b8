-- ===== src/Kube.antt =====
-- The parts of Kubernetes that the operator works against.
pub mod Value
pub mod Diff
pub mod Api
pub mod Object
pub mod Server
pub mod World
pub mod Calls
pub mod Model
