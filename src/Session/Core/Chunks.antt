-- ===== src/Session/Core/Chunks.antt =====
-- The contract of `feed` towards the connection: reads may cut the stream anywhere.
use rathena_client.Shared.{
  ℕ, ◌<◌, ◌≡◌, ◌≢◌, refl, ap, sym, ◌∙◌, arith, List, [], ◌∷◌, ◌++◌, length, take, concat, Bytes,
  IsBytes, IsByte, All, All-append, ℤ, take_of_le, append_assoc, append-nil,
}
use rathena_client.Session.Core.{
  Stop, waiting, at_corrupt, at_unknown, at_negative, out_of_fuel, no_error, SessionCore, feed,
  feed_end,
}
use rathena_client.Session.Core.Framing.{wait-lt}
use rathena_client.Session.Core.Stream.{Parse, prepend, parse, parse-wait, stopped}
use rathena_client.Session.Core.Segments.{rest_waits, parse-append, parse-append_stopped}
use rathena_client.Session.Core.Refinement.{with_rest, handle_all, finish, serve, serve-with_rest}
use rathena_client.Session.Core.Feed.{
  IsReady, rest-IsBytes, ended, feed-serve, handle_all-append, handle_all-SameSetup,
}

-- What the session has seen of the stream, with the new bytes.
abbrev pub stream : {E V : Type 0} → SessionCore E V → Bytes → Parse
stream c bs = parse c.lengths (c.recv_buf ++ bs)

module _ {E V : Type 0} (now : E → ℕ) (c : SessionCore E V) (e : E) where
  -- The frames of the new bytes, handled.
  abbrev served : Bytes → SessionCore E V × E
  served bs = handle_all now (stream c bs).frames (c, e)

  module _ (ready : IsReady c) (bs : Bytes) (bytes : IsBytes bs) where
    stream_rest-IsBytes : IsBytes (stream c bs).rest
    stream_rest-IsBytes =
        rest-IsBytes c.lengths (c.recv_buf ++ bs)
          (All-append IsByte c.recv_buf bs ready.bytes bytes)

    -- A read that ends inside a frame leaves its beginning in the buffer, whole.
    pub feed-waiting :
        (stream c bs).stop ≡ waiting
        → feed now c e bs ≡ record {
          core = with_rest (served bs).0 (stream c bs).rest;
          env = (served bs).1;
          error = no_error;
        }
    unfolding serve feed_end
    feed-waiting w =
        let setup = handle_all-SameSetup now (stream c bs).frames (c, e) in
        let short : length (stream c bs).rest < c.buf_size =
          wait-lt c.lengths c.buf_size (stream c bs).rest ready.fits stream_rest-IsBytes
            (rest_waits c.lengths (c.recv_buf ++ bs) w) in
        let kept : take (served bs).0.buf_size (stream c bs).rest ≡ (stream c bs).rest =
          take_of_le _ (stream c bs).rest (omega (arith, setup.buf_size)) in
        feed-serve now c e bs ready.sound
        ∙ ap
            (λ (s : Stop).
              ended now (finish now s (with_rest (served bs).0 (stream c bs).rest) (served bs).1))
            w
        ∙ ap
            (λ (r : Bytes). record {
              core = with_rest (served bs).0 r;
              env = (served bs).1;
              error = no_error;
            })
            kept

    -- A read that ends inside a frame leaves a ready session ready: not faulted, with a buffer that
    -- is the beginning of one frame and fits the backing array.
    pub feed-IsReady : (stream c bs).stop ≡ waiting → IsReady (feed now c e bs).core
    feed-IsReady w =
        let setup = handle_all-SameSetup now (stream c bs).frames (c, e) in
        rw (feed-waiting w) (record {
          sound = setup.faulted ∙ ready.sound;
          fits = rw (setup.lengths, setup.buf_size) ready.fits;
          bytes = stream_rest-IsBytes;
          waits = rw setup.lengths (rest_waits c.lengths (c.recv_buf ++ bs) w);
        })

module _ {E V : Type 0} (now : E → ℕ) where
  -- Reading `more` after `bs` is reading both at once.
  pub feed-append :
      (c : SessionCore E V) (e : E) (bs more : Bytes)
      → IsReady c
      → IsBytes bs
      → (stream c bs).stop ≡ waiting
      → feed now c e (bs ++ more) ≡ feed now (feed now c e bs).core (feed now c e bs).env more
  unfolding serve
  feed-append c e bs more ready bytes w =
      let p = stream c bs in
      let m = handle_all now p.frames (c, e) in
      let q = parse c.lengths (p.rest ++ more) in
      let setup = handle_all-SameSetup now p.frames (c, e) in
      let first = feed-waiting now c e ready bs bytes w in
      let whole : stream c (bs ++ more) ≡ prepend p.frames q =
        ap (parse c.lengths) (sym (append_assoc c.recv_buf bs more))
        ∙ parse-append c.lengths (c.recv_buf ++ bs) more w in
      let both : feed now c e (bs ++ more) ≡ ended now (serve now q m) =
        feed-serve now c e (bs ++ more) ready.sound
        ∙ ap (λ (t : Parse). ended now (serve now t (c, e))) whole
        ∙ ap
            (λ (n : SessionCore E V × E).
              ended now (finish now q.stop (with_rest (n.0) q.rest) (n.1)))
            (handle_all-append now p.frames q.frames (c, e)) in
      let second : feed now (with_rest (m.0) p.rest) (m.1) more ≡ ended now (serve now q m) =
        feed-serve now (with_rest (m.0) p.rest) (m.1) more (setup.faulted ∙ ready.sound)
        ∙ ap
            (λ (l : ℕ → ℤ).
              ended now (serve now (parse l (p.rest ++ more)) (with_rest (m.0) p.rest, m.1)))
            setup.lengths
        ∙ ap (ended now) (serve-with_rest now q p.rest (m.0) (m.1)) in
      both ∙ sym second ∙ sym (ap (λ r. feed now r.core r.env more) first)

  -- The reads of a connection, one `feed` each.
  pub feed_all : SessionCore E V → E → List Bytes → SessionCore E V × E
  feed_all c e [] = (c, e)
  feed_all c e (bs ∷ rest) = let r = feed now c e bs in feed_all r.core r.env rest

  feed-nil :
      (c : SessionCore E V) (e : E)
      → IsReady c
      → feed now c e [] ≡ record { core = c; env = e; error = no_error }
  unfolding handle_all
  feed-nil c e ready =
      let nothing : stream c [] ≡ stopped c.recv_buf waiting =
        ap (parse c.lengths) (append-nil c.recv_buf)
        ∙ parse-wait c.lengths c.recv_buf ready.waits in
      feed-waiting now c e ready [] tt (ap (λ p. p.stop) nothing)
      ∙ ap
          (λ (p : Parse). record {
            core = with_rest (handle_all now p.frames (c, e)).0 p.rest;
            env = (handle_all now p.frames (c, e)).1;
            error = no_error;
          })
          nothing

  -- A stream that waits at its end waits at every cut.
  prefix_waits :
      (c : SessionCore E V) (bs more : Bytes)
      → (stream c (bs ++ more)).stop ≡ waiting
      → (stream c bs).stop ≡ waiting
  prefix_waits c bs more w = go (stream c bs).stop refl
    where
      whole : parse c.lengths ((c.recv_buf ++ bs) ++ more) ≡ stream c (bs ++ more)
      whole = ap (parse c.lengths) (append_assoc c.recv_buf bs more)

      same : (stream c bs).stop ≢ waiting → (stream c (bs ++ more)).stop ≡ (stream c bs).stop
      same h =
          ap (λ p. p.stop) (sym whole ∙ parse-append_stopped c.lengths (c.recv_buf ++ bs) more h)

      go : (s : Stop) → (stream c bs).stop ≡ s → (stream c bs).stop ≡ waiting
      go waiting e = e
      go (at_corrupt id) e = sym (same (λ q. cc)) ∙ w
      go (at_unknown id) e = sym (same (λ q. cc)) ∙ w
      go at_negative e = sym (same (λ q. cc)) ∙ w
      go out_of_fuel e = sym (same (λ q. cc)) ∙ w

  later_waits :
      (c : SessionCore E V) (e : E) (bs more : Bytes)
      → IsReady c
      → IsBytes bs
      → (stream c bs).stop ≡ waiting
      → (stream c (bs ++ more)).stop ≡ waiting
      → (stream (feed now c e bs).core more).stop ≡ waiting
  later_waits c e bs more ready bytes first w =
      let p = stream c bs in
      let setup = handle_all-SameSetup now p.frames (c, e) in
      let whole : stream c (bs ++ more) ≡ prepend p.frames (parse c.lengths (p.rest ++ more)) =
        ap (parse c.lengths) (sym (append_assoc c.recv_buf bs more))
        ∙ parse-append c.lengths (c.recv_buf ++ bs) more first in
      ap (λ r. (stream r.core more).stop) (feed-waiting now c e ready bs bytes first)
      ∙ ap (λ (l : ℕ → ℤ). (parse l (p.rest ++ more)).stop) setup.lengths
      ∙ sym (ap (λ t. t.stop) whole)
      ∙ w

  -- Where a stream meets no unknown or corrupt packet, every way to cut it into reads leads a ready
  -- session to the same state and the same calls of the callbacks as one read of all of it.
  pub feed_all-concat :
      (c : SessionCore E V) (e : E) (reads : List Bytes)
      → IsReady c
      → All IsBytes reads
      → (stream c (concat reads)).stop ≡ waiting
      → feed_all c e reads ≡ ((feed now c e (concat reads)).core, (feed now c e (concat reads)).env)
  unfolding feed_all
  feed_all-concat c e [] ready bytes w = sym (ap (λ r. (r.core, r.env)) (feed-nil c e ready))
  feed_all-concat c e (bs ∷ reads) ready bytes w =
      let first = prefix_waits c bs (concat reads) w in
      let r = feed now c e bs in
      feed_all-concat r.core r.env reads (feed-IsReady now c e ready bs (bytes.0) first) (bytes.1)
        (later_waits c e bs (concat reads) ready (bytes.0) first w)
      ∙ sym (ap (λ t. (t.core, t.env)) (feed-append c e bs (concat reads) ready (bytes.0) first))
