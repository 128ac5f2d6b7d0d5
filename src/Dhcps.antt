-- ===== src/Dhcps.antt =====
-- The DHCP server, apps/dhcps/dhcps.c: option bytes, the lease table, the message handlers, and
-- runs of the server.
pub mod Types
pub mod Options
pub mod Leases
pub mod Server
mod SmallServer
mod Tests
mod LeaseTests
mod HandshakeTests
mod PartTests
