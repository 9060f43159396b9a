-- ===== src/Provider.antt =====
-- The provider layer: internal/provider.
pub mod Scope
pub mod Multicloud
pub mod Simulators
