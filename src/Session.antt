-- ===== src/Session.antt =====
-- pkg/session: the framing engine, the sessions around it and the connection sequence.
pub mod Ring
pub mod Core
pub mod Lengths
pub mod Servers
pub mod Fsm
