-- ===== src/Geo.antt =====
-- The SNI proxy by geosite rules (geo-sni-proxy).
pub mod Tls
pub mod Socks
pub mod Http
pub mod Tunnel
pub mod Rewrite
pub mod Resolv
