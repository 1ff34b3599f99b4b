-- ===== src/Pipeline.antt =====
-- Package pipeline (internal/pipeline), with the views of containers that it takes from the package
-- docker.
pub mod Docker
pub mod Volumes
pub mod Manage
pub mod Creds
pub mod Discover
pub mod Phases
pub mod Reconcile
