-- ===== src/Windows/Bounds.antt =====
-- agents/windows/tcpra_agent_c.c stays inside its packets and buffers, and within their limits.
pub mod Buffer
pub mod Hello
pub mod Session
pub mod Inspect
