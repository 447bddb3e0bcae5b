-- ===== src/Net.antt =====
-- The network side's pure decisions: acquiring a DHCP lease (net_dhcp.c) and choosing the interface
-- of an outbound packet (net_route.c).
pub mod Dhcp
pub mod Route
mod Tests
