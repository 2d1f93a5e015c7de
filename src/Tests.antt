-- ===== src/Tests.antt =====
-- Runs of the definitions at concrete inputs, and the theorems at such inputs.
mod Mdns
mod Geo
mod Netfin
mod Walk
mod Openwrt
mod Rewriters
mod Camera
mod Http
mod Tunnel
mod Resolv
mod Config
mod Watching
mod Repl
mod Restore
mod Acmesh
