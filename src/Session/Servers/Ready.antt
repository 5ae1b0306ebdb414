-- ===== src/Session/Servers/Ready.antt =====
-- The sessions as they are constructed: what their tables and buffers give the framing engine.
use rathena_client.Shared.{
  ℕ, ◌≡◌, ◌≢◌, ◌⊎◌, inl, inr, refl, arith, Option, List, Bytes, IsBytes, All, concat,
}
use rathena_client.Session.Core.{
  SessionCore, HandlerFunc, UnknownPacketEvent, TraceEvent, panic, feed, next_frame, waiting,
}
use rathena_client.Session.Core.Feed.{IsReady}
use rathena_client.Session.Core.Chunks.{stream, feed_all, feed_all-concat}
use rathena_client.Session.Core.Outcomes.{feed-ne-panic}
use rathena_client.Session.Lengths.Laws.{
  map_table, map_table-IsLength, populate_login_lengths-IsLength, populate_char_lengths-IsLength,
  NoneBelow-of_IsLength, Fits-of_IsLength,
}
use rathena_client.Session.Servers.{new_login_session, new_char_session, new_map_session}

-- A session with its callbacks set: what `registerHandler`, `SetUnknownPacketHandler` and
-- `SetTraceFunc` change.
abbrev pub with_callbacks :
    {E V : Type 0}
    → SessionCore E V
    → (ℕ → Option (HandlerFunc E))
    → Option (UnknownPacketEvent → E → E)
    → Option (TraceEvent V → E → E)
    → SessionCore E V
with_callbacks c handlers unknown trace = record c {
  handlers = handlers;
  on_unknown_packet = unknown;
  trace = trace;
}

module _ {E V : Type 0} (handlers : ℕ → Option (HandlerFunc E))
    (unknown : Option (UnknownPacketEvent → E → E)) (trace : Option (TraceEvent V → E → E)) where
  abbrev map_core : ℕ → SessionCore E V
  map_core pv = with_callbacks (new_map_session pv).core handlers unknown trace

  map_core-IsReady : (pv : ℕ) → IsReady (map_core pv)
  unfolding new_map_session next_frame
  map_core-IsReady pv = record {
    sound = refl;
    fits = Fits-of_IsLength (map_table pv) 65536 (omega arith) (map_table-IsLength pv);
    bytes = tt;
    waits = refl;
  }

  -- A map session of any packet version, with any callbacks: where the stream has no unknown and no
  -- corrupt packet, the reads may cut it anywhere, and the state and the calls of the callbacks are
  -- those of one read of all of it.
  pub map_session_reads :
      (now : E → ℕ) (pv : ℕ) (e : E) (reads : List Bytes)
      → All IsBytes reads
      → (stream
          (with_callbacks (new_map_session pv).core handlers unknown trace)
          (concat reads)).stop
        ≡ waiting
      → let c = with_callbacks (new_map_session pv).core handlers unknown trace in
        feed_all now c e reads
        ≡ ((feed now c e (concat reads)).core, (feed now c e (concat reads)).env)
  map_session_reads now pv e reads bytes w =
      feed_all-concat now (map_core pv) e reads (map_core-IsReady pv) bytes w

-- The table of a session is the one of a login, a char or a map session of some packet version.
abbrev pub HasServerTable : {E V : Type 0} → SessionCore E V → Type 0
HasServerTable {E} {V} c =
    (pv : ℕ) × ((c.lengths ≡ (new_login_session {E = E} {V = V} pv).lengths)
      ⊎ ((c.lengths ≡ (new_char_session {E = E} {V = V} pv).lengths)
          ⊎ (c.lengths ≡ (new_map_session {E = E} {V = V} pv).core.lengths)))

-- With the generated tables of any packet version, in whatever state the session is and whatever
-- arrives, `feed` of a login, char or map session ends without a panic.
pub server_feed-ne-panic :
    {E V : Type 0} (now : E → ℕ) (c : SessionCore E V) (e : E) (bs : Bytes)
    → HasServerTable c
    → (feed now c e bs).error ≢ panic
unfolding new_login_session new_char_session new_map_session
server_feed-ne-panic now c e bs (pv, inl login) =
    feed-ne-panic now c e bs
      (rw login (NoneBelow-of_IsLength _ (populate_login_lengths-IsLength pv)))
server_feed-ne-panic now c e bs (pv, inr (inl char)) =
    feed-ne-panic now c e bs (rw char (NoneBelow-of_IsLength _ (populate_char_lengths-IsLength pv)))
server_feed-ne-panic now c e bs (pv, inr (inr map)) =
    feed-ne-panic now c e bs (rw map (NoneBelow-of_IsLength _ (map_table-IsLength pv)))
