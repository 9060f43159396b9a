-- ===== src/Web.antt =====
-- The web server's guards: internal/web.
pub mod Rate
pub mod Auth
