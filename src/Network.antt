-- ===== src/Network.antt =====
-- src/networking and src/networking_advanced: load balancing and the ports of streaming.
pub mod Balancer
pub mod Ports
pub mod Selection
pub mod Turns
pub mod Counting
pub mod Leases
pub mod Probing
pub mod Policies
