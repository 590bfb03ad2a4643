-- ===== src/Server.antt =====
-- The relay server, server/src: one module for each source file.
pub mod Error
pub mod Config
pub mod Db
pub mod Tunnels
pub mod State
pub mod Headers
pub mod Auth
pub mod Listeners
pub mod Devices
pub mod Gateway
pub mod Bridge
pub mod Udp
pub mod GeoIp
pub mod Carrier
pub mod Cleanup
pub mod Api
