-- ===== src/Session/Core/Feed.antt =====
-- `feed` as a whole: the invariant of a session between two reads, and what the cut of a stream
-- into reads cannot change.
use rathena_client.Shared.{
  ℕ, suc, ◌≡◌, refl, ap, ◌∙◌, Bool, false, if◌then◌else◌, Option, none, some, List, [], ◌∷◌, ◌++◌,
  length, Bytes, IsBytes, IsByte, All, ℤ,
}
use rathena_client.Session.Core.{
  wait, next_frame, Stop, FeedError, no_error, SessionCore, HandlerFunc, call, wire_inbound,
  dispatch, feed, run_loop, feed_end, append_data,
}
use rathena_client.Session.Core.Framing.{Fits}
use rathena_client.Session.Core.Stream.{parse}
use rathena_client.Session.Core.Segments.{frame_bytes, frame_bytes-parse}
use rathena_client.Session.Core.Refinement.{
  handle, handle_all, serve, serve-with_rest, feed_loop-serve,
}

-- A session between two calls of `feed`: not faulted, with the beginning of one frame in a buffer
-- that holds any frame.
pub record IsReady {E V : Type 0} (c : SessionCore E V) : Type 0 where
  pub sound : c.faulted ≡ false
  pub fits : Fits c.lengths c.buf_size
  pub bytes : IsBytes c.recv_buf
  pub waits : next_frame c.lengths c.recv_buf ≡ wait

All-append_right {ℓ κ} :
    {A : Type ℓ} (P : A → Type κ) (xs ys : List A) → All P (xs ++ ys) → All P ys
All-append_right P [] ys h = h
All-append_right P (x ∷ xs) ys h = All-append_right P xs ys h.1

pub rest-IsBytes : (lengths : ℕ → ℤ) (bs : Bytes) → IsBytes bs → IsBytes (parse lengths bs).rest
rest-IsBytes lengths bs h =
    All-append_right IsByte (frame_bytes (parse lengths bs).frames) (parse lengths bs).rest
      (rw (frame_bytes-parse lengths bs) h)

module _ {E V : Type 0} (now : E → ℕ) where
  -- How `feed` returns from its loop.
  abbrev pub ended :
      record { core : SessionCore E V; env : E; stop : Stop }
      → record { core : SessionCore E V; env : E; error : FeedError }
  ended r = feed_end r.stop r.core r.env

  -- In a session that is not faulted, `feed` does what the stream says: it handles the frames of
  -- the buffered and the new bytes, each once and in order, keeps the rest, and ends as the end of
  -- the parse asks for.
  pub feed-serve :
      (c : SessionCore E V) (e : E) (bs : Bytes)
      → c.faulted ≡ false
      → feed now c e bs ≡ ended (serve now (parse c.lengths (c.recv_buf ++ bs)) (c, e))
  unfolding feed run_loop parse
  feed-serve c e bs h =
      let looped = run_loop now (append_data c bs) e in
      ap (λ (b : Bool). if b then record { core = c; env = e; error = no_error } else ended looped)
        h
      ∙ (ap ended (
          feed_loop-serve now (suc (length (c.recv_buf ++ bs))) (append_data c bs) e
          ∙ serve-with_rest now (parse c.lengths (c.recv_buf ++ bs)) (c.recv_buf ++ bs) c e))

  pub handle_all-append :
      (fs gs : List (ℕ × Bytes)) (m : SessionCore E V × E)
      → handle_all now (fs ++ gs) m ≡ handle_all now gs (handle_all now fs m)
  unfolding handle_all
  handle_all-append [] gs m = refl
  handle_all-append ((id, data_) ∷ fs) gs m = handle_all-append fs gs (handle now id data_ m)

  -- The fields that no frame changes.
  pub record SameSetup (c d : SessionCore E V) : Type 0 where
    pub lengths : d.lengths ≡ c.lengths
    pub buf_size : d.buf_size ≡ c.buf_size
    pub faulted : d.faulted ≡ c.faulted
    pub packetver : d.packetver ≡ c.packetver

  dispatch-SameSetup :
      (o : Option (HandlerFunc E)) (c : SessionCore E V) (data_ : Bytes) (e : E)
      → SameSetup c (dispatch now o c data_ e).0
  unfolding dispatch
  dispatch-SameSetup none c data_ e = record {
    lengths = refl;
    buf_size = refl;
    faulted = refl;
    packetver = refl;
  }
  dispatch-SameSetup (some fn) c data_ e = record {
    lengths = refl;
    buf_size = refl;
    faulted = refl;
    packetver = refl;
  }

  handle-SameSetup :
      (id : ℕ) (data_ : Bytes) (m : SessionCore E V × E) → SameSetup (m.0) (handle now id data_ m).0
  unfolding handle
  handle-SameSetup id data_ (c, e) =
      let s =
        dispatch-SameSetup (c.handlers id) c data_
          (call c.trace (wire_inbound id data_ c.packetver (now e)) e) in
      record {
        lengths = s.lengths;
        buf_size = s.buf_size;
        faulted = s.faulted;
        packetver = s.packetver;
      }

  pub handle_all-SameSetup :
      (fs : List (ℕ × Bytes)) (m : SessionCore E V × E) → SameSetup (m.0) (handle_all now fs m).0
  unfolding handle_all
  handle_all-SameSetup [] m = record {
    lengths = refl;
    buf_size = refl;
    faulted = refl;
    packetver = refl;
  }
  handle_all-SameSetup ((id, data_) ∷ fs) m =
      let s = handle-SameSetup id data_ m in
      let t = handle_all-SameSetup fs (handle now id data_ m) in
      record {
        lengths = t.lengths ∙ s.lengths;
        buf_size = t.buf_size ∙ s.buf_size;
        faulted = t.faulted ∙ s.faulted;
        packetver = t.packetver ∙ s.packetver;
      }
