-- ===== src/Snapshot.antt =====
-- Snapshots of a database, internal/snapshot: the index of a portal (index.go), and the download of one
-- with its manifest (consumer.go, manifest.go).
pub mod Index
pub mod Fetch
mod Examples
