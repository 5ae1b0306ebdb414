-- ===== src/Encode.antt =====
-- pkg/encode: the packets that the client sends.
pub mod Cases
pub mod Shuffle
pub mod Requests
