-- ===== src/Windows/Run.antt =====
-- agents/windows/tcpra_agent_c.c: the life of a session whose server is to be attested.
pub mod Decision
pub mod Approval
pub mod Life
