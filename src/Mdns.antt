-- ===== src/Mdns.antt =====
-- The mDNS responder (minimdnsd/cmd/minimdnsd/main.go).
pub mod Hostname
pub mod Name
pub mod Query
pub mod Response
pub mod Iface
pub mod Server
