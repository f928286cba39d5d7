-- ===== src/Server.antt =====
-- agents/linux/tcpra_server_agent.c: the cache of reports and the answers to control requests.
pub mod State
pub mod Cache
pub mod Index
pub mod Schedule
pub mod Observe
pub mod Control
pub mod Kept
pub mod Delivery
pub mod Serving
pub mod Worker
pub mod Mutual
pub mod Tests
