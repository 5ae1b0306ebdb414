-- ===== src/Session/Core.antt =====
-- pkg/session/session.go: `sessionCore`, the framing engine of the three sessions. Callbacks act on
-- an environment `E` that stands for all they can reach: the connection, the state of the caller.
-- They do not call back into the session that runs them. `now` is the clock that `time.Now` reads,
-- and `V` the type of the events and requests that a trace event carries as `interface{}`.
-- A slice is the list of its bytes: aliasing of the receive buffer is not modelled, but the size of
-- the backing array is, since `copy` into it cuts what does not fit.
pub mod Framing
pub mod Stream
pub mod Segments
pub mod Refinement
pub mod Feed
pub mod Frames
pub mod Chunks
pub mod Outcomes
pub mod Callbacks
mod Tests
use rathena_client.Shared.{
  ℕ, zero, suc, ◌+◌, ◌%◌, ◌^◌, Bool, true, false, Option, none, some, List, [], ◌++◌, length, take,
  drop, ltb, if◌then◌else◌, Bytes, le_u16, ℤ, pos, negsuc, u64,
}
use rathena_client.Session.Ring.{RecentRing, DispatchedPacket, push, snapshot}

pub record UnknownPacketEvent : Type 0 where
  pub id : ℕ
  pub packetver : ℕ
  pub time : ℕ
  pub recent_packets : List DispatchedPacket
  pub raw_buffer : Bytes

pub data TraceEvent (V : Type 0) : Type 0 where
  wire_inbound : (id : ℕ) → (frame : Bytes) → (packetver : ℕ) → (time : ℕ) → TraceEvent V
  wire_outbound : (action : ℕ) → (frame : Bytes) → (packetver : ℕ) → (time : ℕ) → TraceEvent V
  semantic_in : (action : ℕ) → (id : ℕ) → (event : V) → (frame : Bytes) → TraceEvent V
  semantic_out : (action : ℕ) → (request : V) → (frame : Bytes) → TraceEvent V
  unknown_packet : UnknownPacketEvent → TraceEvent V

abbrev pub HandlerFunc : Type 0 → Type 0
HandlerFunc E = Bytes → ℕ → E → E

-- `buf_size` is the length of the backing array `buf`, `recv_buf` the active slice.
pub record SessionCore (E V : Type 0) : Type 0 where
  pub packetver : ℕ
  pub buf_size : ℕ
  pub recv_buf : Bytes
  pub lengths : ℕ → ℤ
  pub handlers : ℕ → Option (HandlerFunc E)
  pub on_unknown_packet : Option (UnknownPacketEvent → E → E)
  pub recent : RecentRing
  pub faulted : Bool
  pub trace : Option (TraceEvent V → E → E)
  pub unhandled_packets : ℕ

-- What the head of the loop body finds in the receive buffer. `negative` is a length below -1 in the
-- table: the slice expression with it panics.
pub data Next : Type 0 where
  wait : Next
  corrupt : ℕ → Next
  unknown : ℕ → Next
  negative : ℕ → Next
  frame : ℕ → ℕ → Next

-- The test of step 2c, for a frame of `n` bytes.
unfoldable pub complete : Bytes → ℕ → ℕ → Next
complete bs id n = if ltb (length bs) n then wait else frame id n

-- Step 2b, by the table's entry.
unfoldable pub frame_len : Bytes → ℕ → ℤ → Next
unfolding complete
frame_len bs id (pos zero) = unknown id
frame_len bs id (pos (suc n)) = complete bs id (suc n)
frame_len bs id (negsuc zero) =
    if ltb (length bs) 4
    then wait
    else if ltb (le_u16 bs 2) 4
    then corrupt id
    else complete bs id (le_u16 bs 2)
frame_len bs id (negsuc (suc n)) = negative id

-- The loop condition and the steps 2a to 2c.
unfoldable pub next_frame : (ℕ → ℤ) → Bytes → Next
unfolding frame_len
next_frame lengths bs =
    if ltb (length bs) 2 then wait else frame_len bs (le_u16 bs 0) (lengths (le_u16 bs 0))

-- How the loop ended.
pub data Stop : Type 0 where
  waiting : Stop
  at_corrupt : ℕ → Stop
  at_unknown : ℕ → Stop
  at_negative : Stop
  out_of_fuel : Stop

-- What `feed` returns: nil, `ErrUnknownPacket{ID}`, or a panic.
pub data FeedError : Type 0 where
  no_error : FeedError
  err_unknown_packet : ℕ → FeedError
  panic : FeedError

-- A callback that may be nil.
abbrev pub call : {E A : Type 0} → Option (A → E → E) → A → E → E
call none a e = e
call (some f) a e = f a e

module _ {E V : Type 0} where
  -- Step 3: `copy` to the front of the backing array.
  unfoldable pub compact : SessionCore E V → SessionCore E V
  compact c = record c { recv_buf = take c.buf_size c.recv_buf }

  unfoldable pub feed_end :
      Stop → SessionCore E V → E → record { core : SessionCore E V; env : E; error : FeedError }
  unfolding compact
  feed_end waiting c e = record { core = compact c; env = e; error = no_error }
  feed_end (at_unknown id) c e = record { core = compact c; env = e; error = no_error }
  feed_end (at_corrupt id) c e = record { core = c; env = e; error = err_unknown_packet id }
  feed_end _ c e = record { core = c; env = e; error = panic }

  -- Step 1: `append(c.recvBuf, data...)`.
  abbrev pub append_data : SessionCore E V → Bytes → SessionCore E V
  append_data c bs = record c { recv_buf = c.recv_buf ++ bs }

module _ {E V : Type 0} (now : E → ℕ) where
  -- Step 2d: the trace of the frame, then the handler or the counter.
  unfoldable pub dispatch :
      Option (HandlerFunc E) → SessionCore E V → Bytes → E → SessionCore E V × E
  dispatch none c data_ e = (record c { unhandled_packets = u64 (c.unhandled_packets + 1) }, e)
  dispatch (some fn) c data_ e = (c, fn data_ c.packetver e)

  -- Steps 2d and 2e, for a complete frame of `n` bytes.
  unfoldable pub deliver : SessionCore E V → E → ℕ → ℕ → SessionCore E V × E
  unfolding dispatch
  deliver c e id n =
      let data_ = take n c.recv_buf in
      let traced = call c.trace (wire_inbound id data_ c.packetver (now e)) e in
      let (c', e') = dispatch (c.handlers id) c data_ traced in
      (record c' { recent = push c'.recent id data_; recv_buf = drop n c'.recv_buf }, e')

  -- The case of a packet that is not in the table.
  unfoldable pub report_unknown : SessionCore E V → E → ℕ → SessionCore E V × E
  report_unknown c e id =
      let ev : UnknownPacketEvent = record {
        id = id;
        packetver = c.packetver;
        time = now e;
        recent_packets = snapshot c.recent;
        raw_buffer = c.recv_buf;
      } in
      (record c { recv_buf = [] }, call c.trace (unknown_packet ev) (call c.on_unknown_packet ev e))

  -- The loop of `feed`, on fuel.
  unfoldable pub feed_loop :
      ℕ → SessionCore E V → E → record { core : SessionCore E V; env : E; stop : Stop }
  feed_loop zero c e = record { core = c; env = e; stop = out_of_fuel }
  feed_loop (suc fuel) c e = elim (next_frame c.lengths c.recv_buf) [
    | wait ↦ record { core = c; env = e; stop = waiting }
    | corrupt id ↦ record { core = record c { faulted = true }; env = e; stop = at_corrupt id }
    | unknown id ↦
        let (c', e') = report_unknown c e id in record { core = c'; env = e'; stop = at_unknown id }
    | negative id ↦ record { core = c; env = e; stop = at_negative }
    | frame id n ↦ let (c', e') = deliver c e id n in feed_loop fuel c' e'
  ]

  -- Every round takes at least one byte off the buffer, so its length is fuel enough.
  unfoldable pub run_loop :
      SessionCore E V → E → record { core : SessionCore E V; env : E; stop : Stop }
  unfolding feed_loop
  run_loop c e = feed_loop (suc (length c.recv_buf)) c e

  unfoldable pub feed :
      SessionCore E V → E → Bytes → record { core : SessionCore E V; env : E; error : FeedError }
  unfolding feed_end run_loop
  feed c e bs =
      if c.faulted
      then record { core = c; env = e; error = no_error }
      else let r = run_loop (append_data c bs) e in feed_end r.stop r.core r.env
