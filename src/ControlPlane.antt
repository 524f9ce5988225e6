-- ===== src/ControlPlane.antt =====
-- The control plane: hosts, labs, containers and projects in a database, and the lab hosts behind HTTP.
pub mod Rows
pub mod Session
pub mod Helpers
pub mod Reconcile
pub mod Capacity
pub mod Connection
pub mod Scheduling
pub mod Labs
pub mod Secrets
