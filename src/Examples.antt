-- ===== src/Examples.antt =====
-- Concrete values and the theorems at them; the parameters of the model are concrete functions here.
pub mod Data
mod Wire
mod Access
mod Connections
mod Tunnels
mod Relays
mod Udp
mod Geo
mod Passwords
mod Created
mod Opening
mod Tables
pub mod Commands
mod Reconnect
mod Configure
