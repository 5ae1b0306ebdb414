-- ===== src/Decode.antt =====
-- pkg/decode: hand-written decoders. A read out of range is a panic of the Go program, `none`.
pub mod Characters
