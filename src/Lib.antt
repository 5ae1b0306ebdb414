-- ===== src/Lib.antt =====
-- rathena-client: a client library for the packet protocol of rAthena servers. It cuts received
-- bytes into packets by a length table for the client version, hands each packet to a callback,
-- and hides packet ids on the way out.
--
-- Parts and files
--   Shared             helpers: Boolean tests, lists over native numbers, machine words, bit laws,
--                      byte fields and the reads of these that are in range
--   Packing            pkg/packing/packing.go: the packed 3-byte and 6-byte position formats
--   Session.Ring       pkg/session/session.go: recentRing, the last dispatched packets
--   Session.Core       pkg/session/session.go: sessionCore and feed. Core/Stream holds the frames
--                      of a byte stream with no session around them, the specification; Refinement
--                      and Feed relate the loop to it; Frames describes a packet on the wire by its
--                      bytes alone; Chunks and Outcomes hold the contract of feed
--   Session.Lengths    pkg/session/lengths_*.go: the length tables, one file for each group of
--                      assignments, and the overrides of the map table
--   Session.Servers    pkg/session/login.go, char.go, map.go, obfuscation.go, obfuscation_keys.go
--   Session.Fsm        pkg/session/fsm.go and fsm_parse.go: LoginAccept is parseLoginAccept, Packets
--                      the packets that the connection sequence encodes, beside pkg/encode, Wire
--                      writing and feeding with a deadline, Login the login phase, Char the char
--                      phase (its state, Handlers, and Run, which is runCharPhase around them),
--                      Map the map phase in the same way, and Connect the function Connect, which
--                      runs the three one after the other
--   Decode             pkg/decode/character_info.go and helpers.go: the character list
--   Encode             pkg/encode: Shuffle is shuffle_map.go, one definition for each packet version,
--                      Requests the nine encoders whose packet id depends on the version
--
-- State. A session is a record; its callbacks are functions on an environment that stands for all
-- they can reach, so a handler returns the new environment. A slice is a list of bytes, and a read
-- out of range is a panic (`none`, or the outcome `panic`). The size of the backing array of the
-- receive buffer is kept, since Go's copy cuts what does not fit.
--
-- A network connection is a parameter: the finite list of the reads that arrive in time, after which
-- the deadline passes, and what each SetDeadline and Write returns. io.ReadFull of the standard
-- library is read_full over these reads. feedUntil and the loops of the phases renew the deadline with
-- each read and have no limit of their own, so nothing here says that a phase ends: a server that
-- keeps sending keeps it running.
--
-- Fuel. The loop of feed takes one more round than the receive buffer has bytes; each round takes
-- at least one byte off it. parseLoginAccept takes one more than the payload has bytes. The loop that
-- feeds a session recurses on the connection's reads: a round takes one off, or ends in an error.
--
-- Not modelled. Callbacks that call back into the session that runs them; the aliasing of strings
-- and slices with the receive buffer; time, which is a parameter; the text of errors. The other
-- encoders and decoders of most single packets and the code generator have no model here.
pub mod Shared
pub mod Packing
pub mod Encode
pub mod Decode
pub mod Session
