-- ===== src/Session/Fsm.antt =====
-- pkg/session/fsm.go and fsm_parse.go: the connection through the login, the char and the map
-- server.
pub mod LoginAccept
pub mod Packets
pub mod Wire
pub mod Login
pub mod Char
pub mod Map
pub mod Connect
mod Tests
