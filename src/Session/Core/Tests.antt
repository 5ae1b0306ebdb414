-- ===== src/Session/Core/Tests.antt =====
-- Runs of the framing engine over a small table, and its theorems at concrete streams. The
-- environment is the list of what the callbacks were given.
use rathena_client.Shared.{
  ℕ, ◌+◌, ◌<◌, ◌≡◌, refl, arith, true, false, none, some, List, [], ◌∷◌, ◌++◌, length, replicate,
  take, Bytes, ℤ, pos, negsuc, ◌==◌, if◌then◌else◌, keep_last, ◌%◌, ◌^◌,
}
use rathena_client.Session.Ring.{empty_ring, snapshot}
use rathena_client.Session.Ring.History.{IsRing-empty_ring, shown}
use rathena_client.Session.Core.{
  SessionCore, unknown_packet, feed, deliver, dispatch, next_frame, waiting, at_unknown, at_corrupt,
  no_error, err_unknown_packet, call,
}
use rathena_client.Session.Core.Framing.{Fits}
use rathena_client.Session.Core.Stream.{parse}
use rathena_client.Session.Core.Segments.{frame_bytes}
use rathena_client.Session.Core.Frames.{Frames, IsFront, feed-Frames}
use rathena_client.Session.Core.Refinement.{serve, handle_all, with_rest}
use rathena_client.Session.Core.Feed.{IsReady, feed-serve, ended}
use rathena_client.Session.Core.Chunks.{stream, feed_all, feed_all-concat, feed-IsReady}
use rathena_client.Session.Core.Outcomes.{
  feed-at_unknown, feed-at_corrupt, feed_loses, unhandled, unhandled_packets-feed, unknown_event,
}

-- Id 1 has frames of three bytes, id 2 is variable, all other ids are unknown.
abbrev small_table : ℕ → ℤ
small_table id = if id == 1 then pos 3 else if id == 2 then negsuc 0 else pos 0

abbrev Log : Type 0
Log = List Bytes

abbrev small : ℕ → SessionCore Log Unit
small size = record {
  packetver = 20200401;
  buf_size = size;
  recv_buf = [];
  lengths = small_table;
  handlers = λ id. if id == 1 then some (λ data_ pv log. data_ ∷ log) else none;
  on_unknown_packet = some (λ ev log. ev.raw_buffer ∷ log);
  recent = empty_ring;
  faulted = false;
  trace = none;
  unhandled_packets = 0;
}

abbrev clock : Log → ℕ
clock log = length log

abbrev two_frames : Bytes
two_frames = 1 ∷ 0 ∷ 7 ∷ 2 ∷ 0 ∷ 5 ∷ 0 ∷ 9 ∷ 1 ∷ []

two_frames_run : (feed clock (small 64) [] two_frames).env ≡ (1 ∷ 0 ∷ 7 ∷ []) ∷ []
unfolding feed next_frame deliver dispatch
two_frames_run = refl

small-Fits : Fits small_table 65536
small-Fits = record { fixed = λ id n e. ground arith; variable = omega arith }

small-IsReady : IsReady (small 65536)
unfolding next_frame
small-IsReady = record { sound = refl; fits = small-Fits; bytes = tt; waits = refl }

two_frames_wait : (stream (small 65536) two_frames).stop ≡ waiting
unfolding parse next_frame
two_frames_wait = refl

abbrev cut_reads : List Bytes
cut_reads = (1 ∷ []) ∷ (0 ∷ 7 ∷ 2 ∷ []) ∷ (0 ∷ 5 ∷ 0 ∷ 9 ∷ 1 ∷ []) ∷ []

feed_all-concat_example :
    feed_all clock (small 65536) [] cut_reads
    ≡ ((feed clock (small 65536) [] two_frames).core, (feed clock (small 65536) [] two_frames).env)
feed_all-concat_example =
    feed_all-concat clock (small 65536) [] cut_reads small-IsReady (omega arith) two_frames_wait

feed-IsReady_example : IsReady (feed clock (small 65536) [] two_frames).core
feed-IsReady_example =
    feed-IsReady clock (small 65536) [] small-IsReady two_frames (omega arith) two_frames_wait

feed-serve_example :
    feed clock (small 64) [] two_frames
    ≡ ended clock (serve clock (parse small_table two_frames) (small 64, []))
feed-serve_example = feed-serve clock (small 64) [] two_frames refl

-- What `two_frames` consists of.
abbrev both : List (ℕ × Bytes)
both = (1, 1 ∷ 0 ∷ 7 ∷ []) ∷ (2, 2 ∷ 0 ∷ 5 ∷ 0 ∷ 9 ∷ []) ∷ []

both-Frames : Frames small_table both
both-Frames = (
  record { header = refl; size = (omega arith, refl) },
  (record { header = refl; size = (omega arith, refl) }, tt),
)

one_byte-IsFront : IsFront small_table (1 ∷ [])
one_byte-IsFront = record {
  id = 1;
  missing = 0 ∷ 7 ∷ [];
  some_missing = omega arith;
  whole = record { header = refl; size = (omega arith, refl) };
}

two_frames-split : two_frames ≡ frame_bytes both ++ (1 ∷ [])
unfolding frame_bytes
two_frames-split = refl

feed-Frames_example :
    let m = handle_all clock both (small 64, []) in
    feed clock (small 64) [] two_frames
    ≡ record { core = with_rest (m.0) (1 ∷ []); env = m.1; error = no_error }
feed-Frames_example =
    feed-Frames clock (small 64) [] two_frames both (1 ∷ []) refl both-Frames one_byte-IsFront
      two_frames-split

-- A known frame, then id 9, which is not in the table, then what would be a known frame.
abbrev with_unknown : Bytes
with_unknown = 1 ∷ 0 ∷ 7 ∷ 9 ∷ 0 ∷ 1 ∷ 0 ∷ 8 ∷ []

with_unknown_stops : (stream (small 64) with_unknown).stop ≡ at_unknown 9
unfolding parse next_frame
with_unknown_stops = refl

feed-at_unknown_example :
    let m = handle_all clock (stream (small 64) with_unknown).frames (small 64, []) in
    let ev =
      unknown_event clock m 9
        (stream (small 64) with_unknown).rest
        (keep_last 3 (snapshot empty_ring ++ shown (stream (small 64) with_unknown).frames)) in
    feed clock (small 64) [] with_unknown ≡ record {
      core = with_rest (m.0) [];
      env = call (m.0).trace (unknown_packet ev) (call (m.0).on_unknown_packet ev (m.1));
      error = no_error;
    }
feed-at_unknown_example =
    feed-at_unknown clock (small 64) [] with_unknown 9 refl IsRing-empty_ring with_unknown_stops

-- A variable frame that says three bytes.
abbrev with_corrupt : Bytes
with_corrupt = 2 ∷ 0 ∷ 3 ∷ 0 ∷ []

with_corrupt_stops : (stream (small 64) with_corrupt).stop ≡ at_corrupt 2
unfolding parse next_frame
with_corrupt_stops = refl

feed-at_corrupt_example :
    let r = feed clock (small 64) [] with_corrupt in
    (r.error ≡ err_unknown_packet 2)
    × (r.core.faulted ≡ true)
    × (feed clock r.core [] two_frames ≡ record { core = r.core; env = []; error = no_error })
feed-at_corrupt_example =
    feed-at_corrupt clock (small 64) [] with_corrupt two_frames 2 [] refl with_corrupt_stops

-- A frame of 100 bytes, of which 70 have arrived, in a buffer of 64.
abbrev long_frame : Bytes
long_frame = 2 ∷ 0 ∷ 100 ∷ 0 ∷ replicate 66 5

long_frame_waits : (stream (small 64) long_frame).stop ≡ waiting
unfolding parse next_frame
long_frame_waits = refl

long_frame_rest : length (stream (small 64) long_frame).rest ≡ 70
unfolding parse next_frame
long_frame_rest = refl

feed_loses_example :
    ((feed clock (small 64) [] long_frame).core.recv_buf
      ≡ take 64 (stream (small 64) long_frame).rest)
    × (length (feed clock (small 64) [] long_frame).core.recv_buf
        < length (stream (small 64) long_frame).rest)
    × ((feed clock (small 64) [] long_frame).error ≡ no_error)
feed_loses_example =
    feed_loses clock (small 64) [] long_frame refl long_frame_waits (omega (arith, long_frame_rest))

unhandled_packets-feed_example :
    (feed clock (small 64) [] two_frames).core.unhandled_packets % 2 ^ 64
    ≡ (0 + unhandled (small 64).handlers (stream (small 64) two_frames).frames) % 2 ^ 64
unhandled_packets-feed_example = unhandled_packets-feed clock (small 64) [] two_frames refl

one_unhandled : unhandled (small 64).handlers (stream (small 64) two_frames).frames ≡ 1
unfolding unhandled parse next_frame
one_unhandled = refl
