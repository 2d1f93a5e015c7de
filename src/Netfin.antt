-- ===== src/Netfin.antt =====
-- The backup sidecar (netfin).
pub mod Excluder
pub mod Disk
pub mod Filesync
pub mod Pending
pub mod Reconcile
pub mod Walk
pub mod Flush
pub mod Config
pub mod Watching
pub mod Repl
pub mod Restore
