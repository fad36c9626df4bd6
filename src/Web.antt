-- ===== src/Web.antt =====
-- The local web interface, internal/web: its downloads (sync.go).
pub mod Jobs
