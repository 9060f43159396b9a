-- ===== src/Lifecycle.antt =====
-- The control plane: internal/lifecycle.
pub mod Errors
pub mod Env
pub mod Store
pub mod Vaults
pub mod Plans
pub mod Rotate
pub mod Retire
pub mod Use
pub mod Register
pub mod Provision
pub mod Boot
pub mod Queries
pub mod Operations
pub mod Sweep
pub mod Lease
pub mod Redaction
pub mod Integration
