-- ===== src/Session/Core/Outcomes.antt =====
-- What `feed` does at the end of its loop: the unknown packet, the corrupt length, the panic, the
-- cut of a buffer that is too long; and what it counts and records on the way.
use rathena_client.Shared.{
  ℕ, ◌+◌, ◌%◌, ◌^◌, ◌<◌, ◌≡◌, ◌≢◌, refl, ap, ◌∙◌, arith, true, false, Option, none, some, List, [],
  ◌∷◌, ◌++◌, length, take, Bytes, length-take, take_of_le, keep_last, Bool-cases, inl, inr,
}
use rathena_client.Session.Ring.{RecentRing, DispatchedPacket, push, snapshot}
use rathena_client.Session.Ring.Push.{IsRing}
use rathena_client.Session.Ring.History.{push_all, shown, snapshot-push_all}
use rathena_client.Session.Core.{
  Stop, waiting, at_corrupt, at_unknown, at_negative, out_of_fuel, FeedError, no_error,
  err_unknown_packet, panic, SessionCore, HandlerFunc, feed, feed_end, UnknownPacketEvent,
  unknown_packet, call, dispatch, wire_inbound, report_unknown,
}
use rathena_client.Session.Core.Framing.{NoneBelow}
use rathena_client.Session.Core.Segments.{parse-ne-fuel, parse-ne-negative}
use rathena_client.Session.Core.Refinement.{with_rest, handle, handle_all, finish, serve}
use rathena_client.Session.Core.Feed.{ended, feed-serve, handle_all-SameSetup}
use rathena_client.Session.Core.Chunks.{stream}

-- The frames that have no handler.
unfoldable pub unhandled : {E : Type 0} → (ℕ → Option (HandlerFunc E)) → List (ℕ × Bytes) → ℕ
unhandled handlers [] = 0
unhandled handlers ((id, data_) ∷ fs) =
    (elim (handlers id) [ none ↦ 1 | some fn ↦ 0 ]) + unhandled handlers fs

module _ {E V : Type 0} (now : E → ℕ) where
  dispatch-recent :
      (o : Option (HandlerFunc E)) (c : SessionCore E V) (data_ : Bytes) (e : E)
      → (dispatch now o c data_ e).0.recent ≡ c.recent
  unfolding dispatch
  dispatch-recent none c data_ e = refl
  dispatch-recent (some fn) c data_ e = refl

  -- The ring has seen every frame.
  recent-handle_all :
      (fs : List (ℕ × Bytes)) (m : SessionCore E V × E)
      → (handle_all now fs m).0.recent ≡ push_all (m.0).recent fs
  unfolding handle_all push_all
  recent-handle_all [] m = refl
  recent-handle_all ((id, data_) ∷ fs) (c, e) =
      recent-handle_all fs (handle now id data_ (c, e))
      ∙ ap (λ (r : RecentRing). push_all (push r id data_) fs)
          (dispatch-recent (c.handlers id) c data_
            (call c.trace (wire_inbound id data_ c.packetver (now e)) e))

  dispatch-count :
      (o : Option (HandlerFunc E)) (c : SessionCore E V) (data_ : Bytes) (e : E)
      → (dispatch now o c data_ e).0.unhandled_packets % 2 ^ 64
        ≡ (c.unhandled_packets + (elim o [ none ↦ 1 | some fn ↦ 0 ])) % 2 ^ 64
  unfolding dispatch
  dispatch-count none c data_ e = omega arith
  dispatch-count (some fn) c data_ e = omega arith

  dispatch-handlers :
      (o : Option (HandlerFunc E)) (c : SessionCore E V) (data_ : Bytes) (e : E)
      → (dispatch now o c data_ e).0.handlers ≡ c.handlers
  unfolding dispatch
  dispatch-handlers none c data_ e = refl
  dispatch-handlers (some fn) c data_ e = refl

  count-handle_all :
      (fs : List (ℕ × Bytes)) (m : SessionCore E V × E)
      → (handle_all now fs m).0.unhandled_packets % 2 ^ 64
        ≡ ((m.0).unhandled_packets + unhandled (m.0).handlers fs) % 2 ^ 64
  unfolding handle_all unhandled
  count-handle_all [] m = omega arith
  count-handle_all ((id, data_) ∷ fs) (c, e) =
      let traced = call c.trace (wire_inbound id data_ c.packetver (now e)) e in
      let same : (handle now id data_ (c, e)).0.handlers ≡ c.handlers =
        dispatch-handlers (c.handlers id) c data_ traced in
      omega (
        arith,
        count-handle_all fs (handle now id data_ (c, e)),
        dispatch-count (c.handlers id) c data_ traced,
        ap (λ (h : ℕ → Option (HandlerFunc E)). unhandled h fs) same,
      )

  -- The event that reports an unknown packet, for the machine that has handled what came before.
  abbrev pub unknown_event :
      SessionCore E V × E → ℕ → Bytes → List DispatchedPacket → UnknownPacketEvent
  unknown_event (c, e) id raw recent = record {
    id = id;
    packetver = c.packetver;
    time = now e;
    recent_packets = recent;
    raw_buffer = raw;
  }

  -- At an id that is not in the table, `feed` returns no error, empties the buffer, and calls the
  -- callback and then the trace with one event: the id, the last three packets of all dispatched so
  -- far, and every byte from the unknown id on.
  pub feed-at_unknown :
      (c : SessionCore E V) (e : E) (bs : Bytes) (id : ℕ)
      → c.faulted ≡ false
      → IsRing c.recent
      → (stream c bs).stop ≡ at_unknown id
      → let m = handle_all now (stream c bs).frames (c, e) in
        let ev =
          unknown_event m id
            (stream c bs).rest
            (keep_last 3 (snapshot c.recent ++ shown (stream c bs).frames)) in
        feed now c e bs ≡ record {
          core = with_rest (m.0) [];
          env = call (m.0).trace (unknown_packet ev) (call (m.0).on_unknown_packet ev (m.1));
          error = no_error;
        }
  unfolding serve feed_end report_unknown
  feed-at_unknown c e bs id sound ring s =
      let p = stream c bs in
      let m = handle_all now p.frames (c, e) in
      let result : Bytes
          → List DispatchedPacket
          → record { core : SessionCore E V; env : E; error : FeedError } =
        λ r recent. record {
          core = with_rest (m.0) r;
          env =
              call (m.0).trace (unknown_packet (unknown_event m id p.rest recent))
                (call (m.0).on_unknown_packet (unknown_event m id p.rest recent) (m.1));
          error = no_error;
        } in
      feed-serve now c e bs sound
      ∙ ap (λ (t : Stop). ended now (finish now t (with_rest (m.0) p.rest) (m.1))) s
      ∙ ap (result (take (m.0).buf_size [])) (
          ap snapshot (recent-handle_all p.frames (c, e))
          ∙ snapshot-push_all c.recent p.frames ring)
      ∙ ap (λ r. result r (keep_last 3 (snapshot c.recent ++ shown p.frames)))
          (take_of_le (m.0).buf_size [] (omega arith))

  feed-faulted :
      (c : SessionCore E V) (e : E) (bs : Bytes)
      → c.faulted ≡ true
      → feed now c e bs ≡ record { core = c; env = e; error = no_error }
  unfolding feed
  feed-faulted c e bs h = simp h

  -- A variable frame with a length below 4 faults the session: `feed` returns the error once, and
  -- every later call returns no error and changes nothing, whatever arrives.
  pub feed-at_corrupt :
      (c : SessionCore E V) (e : E) (bs more : Bytes) (id : ℕ) (e' : E)
      → c.faulted ≡ false
      → (stream c bs).stop ≡ at_corrupt id
      → let r = feed now c e bs in
        (r.error ≡ err_unknown_packet id)
        × (r.core.faulted ≡ true)
        × (feed now r.core e' more ≡ record { core = r.core; env = e'; error = no_error })
  unfolding serve feed_end
  feed-at_corrupt c e bs more id e' sound s =
      let p = stream c bs in
      let m = handle_all now p.frames (c, e) in
      let r : feed now c e bs ≡ record {
        core = record (m.0) { recv_buf = p.rest; faulted = true };
        env = m.1;
        error = err_unknown_packet id;
      } =
        feed-serve now c e bs sound
        ∙ ap (λ (t : Stop). ended now (finish now t (with_rest (m.0) p.rest) (m.1))) s in
      let faulted : (feed now c e bs).core.faulted ≡ true = ap (λ t. t.core.faulted) r in
      (ap (λ t. t.error) r, faulted, feed-faulted (feed now c e bs).core e' more faulted)

  -- With a table whose entries are all at least -1, `feed` never panics and never runs out of
  -- rounds: it returns nil, or the error of a corrupt length.
  pub feed-ne-panic :
      (c : SessionCore E V) (e : E) (bs : Bytes)
      → NoneBelow c.lengths
      → (feed now c e bs).error ≢ panic
  unfolding serve feed_end
  feed-ne-panic c e bs table = elim (Bool-cases c.faulted) [
    | inl faulted ↦ rw (feed-faulted c e bs faulted) (λ q. cc)
    | inr sound ↦
        let p = stream c bs in
        let m = handle_all now p.frames (c, e) in
        rw (feed-serve now c e bs sound) (
          no_panic p.stop (with_rest (m.0) p.rest) (m.1)
            (parse-ne-fuel c.lengths (c.recv_buf ++ bs))
            (parse-ne-negative c.lengths table (c.recv_buf ++ bs)))
  ]
    where
      no_panic :
          (t : Stop) (c' : SessionCore E V) (e' : E)
          → t ≢ out_of_fuel
          → t ≢ at_negative
          → (ended now (finish now t c' e')).error ≢ panic
      no_panic waiting c' e' f n = λ q. cc
      no_panic (at_corrupt id) c' e' f n = λ q. cc
      no_panic (at_unknown id) c' e' f n = λ q. cc
      no_panic at_negative c' e' f n = absurd (n refl)
      no_panic out_of_fuel c' e' f n = absurd (f refl)

  -- Where a read ends inside a frame of which more bytes have arrived than the backing array has
  -- room for, the bytes past its end are lost: what is left is shorter than what was received.
  pub feed_loses :
      (c : SessionCore E V) (e : E) (bs : Bytes)
      → c.faulted ≡ false
      → (stream c bs).stop ≡ waiting
      → c.buf_size < length (stream c bs).rest
      → ((feed now c e bs).core.recv_buf ≡ take c.buf_size (stream c bs).rest)
        × (length (feed now c e bs).core.recv_buf < length (stream c bs).rest)
        × ((feed now c e bs).error ≡ no_error)
  unfolding serve feed_end
  feed_loses c e bs sound w long =
      let p = stream c bs in
      let m = handle_all now p.frames (c, e) in
      let setup = handle_all-SameSetup now p.frames (c, e) in
      let r =
        feed-serve now c e bs sound
        ∙ ap (λ (t : Stop). ended now (finish now t (with_rest (m.0) p.rest) (m.1))) w in
      let cut : (feed now c e bs).core.recv_buf ≡ take c.buf_size p.rest =
        ap (λ t. t.core.recv_buf) r ∙ ap (λ (n : ℕ). take n p.rest) setup.buf_size in
      (cut, omega (arith, ap length cut, length-take c.buf_size p.rest), ap (λ t. t.error) r)

  -- In a session that is not faulted, one `feed` raises the counter of unhandled packets, taken
  -- modulo 2 ^ 64, by the number of the new frames whose id has no handler.
  pub unhandled_packets-feed :
      (c : SessionCore E V) (e : E) (bs : Bytes)
      → c.faulted ≡ false
      → (feed now c e bs).core.unhandled_packets % 2 ^ 64
        ≡ (c.unhandled_packets + unhandled c.handlers (stream c bs).frames) % 2 ^ 64
  unfolding serve feed_end report_unknown
  unhandled_packets-feed c e bs sound =
      let p = stream c bs in
      let m = handle_all now p.frames (c, e) in
      rw (feed-serve now c e bs sound)
        (same p.stop (with_rest (m.0) p.rest) (m.1) ∙ count-handle_all p.frames (c, e))
    where
      same :
          (t : Stop) (c' : SessionCore E V) (e' : E)
          → (ended now (finish now t c' e')).core.unhandled_packets % 2 ^ 64
            ≡ c'.unhandled_packets % 2 ^ 64
      same waiting c' e' = refl
      same (at_corrupt id) c' e' = refl
      same (at_unknown id) c' e' = refl
      same at_negative c' e' = refl
      same out_of_fuel c' e' = refl
