-- ===== src/Client.antt =====
-- agents/linux/tcpra_client_agent.c: the gate on the client's packets.
pub mod State
pub mod Table
pub mod Held
pub mod Sessions
pub mod Audit
pub mod Action
pub mod AuditMode
pub mod Gated
pub mod Handler
pub mod Decision
pub mod Expiry
pub mod Control
pub mod Attested
pub mod ControlTests
pub mod Gate
pub mod Scenario
pub mod Tests
