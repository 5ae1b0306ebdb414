-- ===== src/Session/Core/Refinement.antt =====
-- The loop of `feed` against the frames of the stream: it handles each frame of the parse once and
-- in order, and then does what the end of the parse asks for.
use rathena_client.Shared.{
  ℕ, zero, suc, ◌≡◌, refl, ap, ◌∙◌, true, Option, none, some, List, [], ◌∷◌, take, drop, Bytes, ℤ,
}
use rathena_client.Session.Ring.{push}
use rathena_client.Session.Core.{
  Next, wait, corrupt, unknown, negative, frame, next_frame, Stop, at_corrupt, at_unknown,
  SessionCore, HandlerFunc, wire_inbound, call, dispatch, deliver, report_unknown, feed_loop,
}
use rathena_client.Session.Core.Stream.{Parse, parse_loop}

module _ {E V : Type 0} where
  -- The session with other bytes left in its buffer.
  abbrev pub with_rest : SessionCore E V → Bytes → SessionCore E V
  with_rest c r = record c { recv_buf = r }

  dispatch-with_rest :
      (o : Option (HandlerFunc E)) (c : SessionCore E V) (r data_ : Bytes) (e : E) (now : E → ℕ)
      → dispatch now o (with_rest c r) data_ e
        ≡ (with_rest (dispatch now o c data_ e).0 r, (dispatch now o c data_ e).1)
  unfolding dispatch
  dispatch-with_rest none c r data_ e now = refl
  dispatch-with_rest (some fn) c r data_ e now = refl

module _ {E V : Type 0} (now : E → ℕ) where
  -- Trace, handler or counter, and ring: all that one frame does.
  unfoldable pub handle : ℕ → Bytes → SessionCore E V × E → SessionCore E V × E
  handle id data_ (c, e) =
      let traced = call c.trace (wire_inbound id data_ c.packetver (now e)) e in
      let (c', e') = dispatch now (c.handlers id) c data_ traced in
      (record c' { recent = push c'.recent id data_ }, e')

  unfoldable pub handle_all : List (ℕ × Bytes) → SessionCore E V × E → SessionCore E V × E
  unfolding handle
  handle_all [] m = m
  handle_all ((id, data_) ∷ fs) m = handle_all fs (handle id data_ m)

  unfoldable pub finish :
      Stop → SessionCore E V → E → record { core : SessionCore E V; env : E; stop : Stop }
  finish (at_corrupt id) c e = record {
    core = record c { faulted = true };
    env = e;
    stop = at_corrupt id;
  }
  finish (at_unknown id) c e =
      let (c', e') = report_unknown now c e id in
      record { core = c'; env = e'; stop = at_unknown id }
  finish s c e = record { core = c; env = e; stop = s }

  unfoldable pub serve :
      Parse → SessionCore E V × E → record { core : SessionCore E V; env : E; stop : Stop }
  unfolding handle_all finish
  serve p m = let (c, e) = handle_all p.frames m in finish p.stop (with_rest c p.rest) e

  pub handle-with_rest :
      (id : ℕ) (data_ r : Bytes) (c : SessionCore E V) (e : E)
      → handle id data_ (with_rest c r, e)
        ≡ (with_rest (handle id data_ (c, e)).0 r, (handle id data_ (c, e)).1)
  unfolding handle
  handle-with_rest id data_ r c e =
      ap (λ (m : SessionCore E V × E). (record (m.0) { recent = push (m.0).recent id data_ }, m.1))
        (dispatch-with_rest (c.handlers id) c r data_
          (call c.trace (wire_inbound id data_ c.packetver (now e)) e) now)

  pub handle_all-with_rest :
      (fs : List (ℕ × Bytes)) (r : Bytes) (c : SessionCore E V) (e : E)
      → handle_all fs (with_rest c r, e)
        ≡ (with_rest (handle_all fs (c, e)).0 r, (handle_all fs (c, e)).1)
  unfolding handle_all
  handle_all-with_rest [] r c e = refl
  handle_all-with_rest ((id, data_) ∷ fs) r c e =
      ap (handle_all fs) (handle-with_rest id data_ r c e)
      ∙ handle_all-with_rest fs r (handle id data_ (c, e)).0 (handle id data_ (c, e)).1

  dispatch-lengths :
      (o : Option (HandlerFunc E)) (c : SessionCore E V) (data_ : Bytes) (e : E)
      → (dispatch now o c data_ e).0.lengths ≡ c.lengths
  unfolding dispatch
  dispatch-lengths none c data_ e = refl
  dispatch-lengths (some fn) c data_ e = refl

  dispatch-recv_buf :
      (o : Option (HandlerFunc E)) (c : SessionCore E V) (data_ : Bytes) (e : E)
      → (dispatch now o c data_ e).0.recv_buf ≡ c.recv_buf
  unfolding dispatch
  dispatch-recv_buf none c data_ e = refl
  dispatch-recv_buf (some fn) c data_ e = refl

  deliver-handle :
      (c : SessionCore E V) (e : E) (id n : ℕ)
      → deliver now c e id n ≡ (
        with_rest (handle id (take n c.recv_buf) (c, e)).0 (drop n c.recv_buf),
        (handle id (take n c.recv_buf) (c, e)).1,
      )
  unfolding deliver handle
  deliver-handle c e id n =
      let data_ = take n c.recv_buf in
      let traced = call c.trace (wire_inbound id data_ c.packetver (now e)) e in
      ap
        (λ (r : Bytes).
          (with_rest (handle id data_ (c, e)).0 (drop n r), (handle id data_ (c, e)).1))
        (dispatch-recv_buf (c.handlers id) c data_ traced)

  handle-lengths :
      (id : ℕ) (data_ : Bytes) (c : SessionCore E V) (e : E)
      → (handle id data_ (c, e)).0.lengths ≡ c.lengths
  unfolding handle
  handle-lengths id data_ c e = dispatch-lengths (c.handlers id) c data_ _

  pub serve-with_rest :
      (p : Parse) (r : Bytes) (c : SessionCore E V) (e : E)
      → serve p (with_rest c r, e) ≡ serve p (c, e)
  unfolding serve
  serve-with_rest p r c e =
      ap (λ (m : SessionCore E V × E). finish p.stop (with_rest (m.0) p.rest) m.1)
        (handle_all-with_rest p.frames r c e)

  -- Serving a parse from the second frame on.
  serve-frame :
      (fuel : ℕ) (c : SessionCore E V) (e : E) (id n : ℕ)
      → ((c' : SessionCore E V) (e' : E)
          → feed_loop now fuel c' e' ≡ serve (parse_loop fuel c'.lengths c'.recv_buf) (c', e'))
      → feed_loop now fuel (deliver now c e id n).0 (deliver now c e id n).1
        ≡ serve
            (parse_loop fuel c.lengths (drop n c.recv_buf))
            (handle id (take n c.recv_buf) (c, e))
  serve-frame fuel c e id n ih =
      let h = handle id (take n c.recv_buf) (c, e) in
      let p = parse_loop fuel c.lengths (drop n c.recv_buf) in
      ap (λ (m : SessionCore E V × E). feed_loop now fuel (m.0) m.1) (deliver-handle c e id n)
      ∙ ih (with_rest (h.0) (drop n c.recv_buf)) (h.1)
      ∙ ap
          (λ (l : ℕ → ℤ).
            serve (parse_loop fuel l (drop n c.recv_buf))
              (with_rest (h.0) (drop n c.recv_buf), h.1))
          (handle-lengths id (take n c.recv_buf) c e)
      ∙ serve-with_rest p (drop n c.recv_buf) (h.0) (h.1)

  loop_step :
      (fuel : ℕ) (c : SessionCore E V) (e : E) (v : Next)
      → next_frame c.lengths c.recv_buf ≡ v
      → ((c' : SessionCore E V) (e' : E)
          → feed_loop now fuel c' e' ≡ serve (parse_loop fuel c'.lengths c'.recv_buf) (c', e'))
      → feed_loop now (suc fuel) c e ≡ serve (parse_loop (suc fuel) c.lengths c.recv_buf) (c, e)
  unfolding feed_loop parse_loop serve finish handle_all
  loop_step fuel c e wait p ih = rw (p, feed_loop, parse_loop)
  loop_step fuel c e (corrupt id) p ih = rw (p, feed_loop, parse_loop)
  loop_step fuel c e (unknown id) p ih = rw (p, feed_loop, parse_loop)
  loop_step fuel c e (negative id) p ih = rw (p, feed_loop, parse_loop)
  loop_step fuel c e (frame id n) p ih =
      rw (p, feed_loop, parse_loop) (serve-frame fuel c e id n ih)

  -- On any fuel, the loop is the parse of the buffer on that fuel, served frame by frame.
  pub feed_loop-serve :
      (fuel : ℕ) (c : SessionCore E V) (e : E)
      → feed_loop now fuel c e ≡ serve (parse_loop fuel c.lengths c.recv_buf) (c, e)
  unfolding feed_loop parse_loop serve finish handle_all
  feed_loop-serve zero c e = refl
  feed_loop-serve (suc fuel) c e =
      loop_step fuel c e (next_frame c.lengths c.recv_buf) refl (feed_loop-serve fuel)
