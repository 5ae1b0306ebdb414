-- ===== src/Session/Core/Callbacks.antt =====
-- What all callbacks of a session keep, `feed` keeps. A callback may rely on what is known of the
-- frames that the session cuts from its buffer.
use rathena_client.Shared.{
  ℕ, zero, suc, ◌≡◌, refl, ◌∙◌, Bool, true, false, if◌then◌else◌, Option, none, some, [], ◌++◌,
  length, take, drop, Bytes, ℤ,
}
use rathena_client.Session.Core.{
  Next, wait, corrupt, unknown, negative, frame, next_frame, Stop, at_corrupt, at_unknown, waiting,
  at_negative, out_of_fuel, UnknownPacketEvent, TraceEvent, FeedError, no_error, SessionCore,
  HandlerFunc, wire_inbound, call, dispatch, deliver, report_unknown, feed_loop, run_loop, feed,
  feed_end, append_data, compact,
}

-- A frame's handler, where there is one.
abbrev pub handled_by : {E : Type 0} → Option (HandlerFunc E) → Bytes → ℕ → E → E
handled_by none data_ pv e = e
handled_by (some fn) data_ pv e = fn data_ pv e

pub both_branches :
    {A : Type 0} (P : A → Type 0) (b : Bool) (x y : A) → P x → P y → P (if b then x else y)
both_branches P true x y p q = p
both_branches P false x y p q = q

pub by_test :
    {A : Type 0} (P : A → Type 0) (b : Bool) (x y : A)
    → (b ≡ true → P x)
    → (b ≡ false → P y)
    → P (if b then x else y)
by_test P true x y p q = p refl
by_test P false x y p q = q refl

-- What is known of the bytes of the buffer, and of a frame cut from it.
pub record Cuts (lengths : ℕ → ℤ) (size : ℕ) (Buf : Bytes → Type 0) (From : ℕ → Bytes → Type 0)
    : Type 0 where
  pub cut :
      (bs : Bytes) (id n : ℕ) → Buf bs → next_frame lengths bs ≡ frame id n → From id (take n bs)
  pub rest : (bs : Bytes) (n : ℕ) → Buf bs → Buf (drop n bs)
  pub empty : (bs : Bytes) → Buf bs → Buf []
  pub short : (bs : Bytes) → Buf bs → Buf (take size bs)

module _ {E V : Type 0} (lengths : ℕ → ℤ) (size : ℕ) (From : ℕ → Bytes → Type 0)
    (Inv : E → Type 0) where
  pub record Keeps (c : SessionCore E V) : Type 0 where
    pub table : c.lengths ≡ lengths
    pub room : c.buf_size ≡ size
    pub traced : (ev : TraceEvent V) (e : E) → Inv e → Inv (call c.trace ev e)
    pub reported : (ev : UnknownPacketEvent) (e : E) → Inv e → Inv (call c.on_unknown_packet ev e)
    pub handled :
        (id : ℕ) (data_ : Bytes) (pv : ℕ) (e : E)
        → From id data_
        → Inv e
        → Inv (handled_by (c.handlers id) data_ pv e)

  -- The state of a loop that has not stopped.
  pub record Holds (Buf : Bytes → Type 0) (c : SessionCore E V) (e : E) : Type 0 where
    pub keeps : Keeps c
    pub inv : Inv e
    pub buffer : Buf c.recv_buf

  dispatch-Keeps :
      (now : E → ℕ) (o : Option (HandlerFunc E)) (c : SessionCore E V) (data_ : Bytes) (e : E)
      → Keeps c
      → Inv (handled_by o data_ c.packetver e)
      → Keeps (dispatch now o c data_ e).0
        × Inv (dispatch now o c data_ e).1
        × ((dispatch now o c data_ e).0.recv_buf ≡ c.recv_buf)
  unfolding dispatch
  dispatch-Keeps now none c data_ e k h = (
    record {
      table = k.table;
      room = k.room;
      traced = k.traced;
      reported = k.reported;
      handled = k.handled;
    },
    h,
    refl,
  )
  dispatch-Keeps now (some fn) c data_ e k h = (k, h, refl)

  dispatch-faulted :
      (now : E → ℕ) (o : Option (HandlerFunc E)) (c : SessionCore E V) (data_ : Bytes) (e : E)
      → (dispatch now o c data_ e).0.faulted ≡ c.faulted
  unfolding dispatch
  dispatch-faulted now none c data_ e = refl
  dispatch-faulted now (some fn) c data_ e = refl

  module _ (Buf : Bytes → Type 0) (cuts : Cuts lengths size Buf From) (now : E → ℕ) where
    deliver-Holds :
        (c : SessionCore E V) (e : E) (id n : ℕ)
        → next_frame c.lengths c.recv_buf ≡ frame id n
        → Holds Buf c e
        → Holds Buf (deliver now c e id n).0 (deliver now c e id n).1
    unfolding deliver
    deliver-Holds c e id n p h =
        let k = h.keeps in
        let data_ = take n c.recv_buf in
        let ev = wire_inbound id data_ c.packetver (now e) in
        let from = cuts.cut c.recv_buf id n h.buffer (rw (← k.table) p) in
        let (k', i', same) =
          dispatch-Keeps now (c.handlers id) c data_ (call c.trace ev e) k
            (k.handled id data_ c.packetver (call c.trace ev e) from (k.traced ev e h.inv)) in
        record {
          keeps = record {
            table = k'.table;
            room = k'.room;
            traced = k'.traced;
            reported = k'.reported;
            handled = k'.handled;
          };
          inv = i';
          buffer = rw same (cuts.rest c.recv_buf n h.buffer);
        }

    deliver-faulted :
        (c : SessionCore E V) (e : E) (id n : ℕ) → (deliver now c e id n).0.faulted ≡ c.faulted
    unfolding deliver
    deliver-faulted c e id n = dispatch-faulted now (c.handlers id) c (take n c.recv_buf) _

    -- After the loop, and after `feed`: faulted only by a corrupt length.
    abbrev Sound : Stop → SessionCore E V → Type 0
    Sound (at_corrupt id) c = Unit
    Sound s c = c.faulted ≡ false

    feed_loop_step-Holds :
        (fuel : ℕ) (c : SessionCore E V) (e : E) (v : Next)
        → next_frame c.lengths c.recv_buf ≡ v
        → ((c' : SessionCore E V) (e' : E)
            → c'.faulted ≡ false
            → Holds Buf c' e'
            → let r = feed_loop now fuel c' e' in Holds Buf r.core r.env × Sound r.stop r.core)
        → c.faulted ≡ false
        → Holds Buf c e
        → let r = feed_loop now (suc fuel) c e in Holds Buf r.core r.env × Sound r.stop r.core
    unfolding feed_loop report_unknown
    feed_loop_step-Holds fuel c e wait p ih s h = rw (p, feed_loop) (h, s)
    feed_loop_step-Holds fuel c e (corrupt id) p ih s h =
        let k = h.keeps in
        rw (p, feed_loop)
          (
            record {
              keeps = record {
                table = k.table;
                room = k.room;
                traced = k.traced;
                reported = k.reported;
                handled = k.handled;
              };
              inv = h.inv;
              buffer = h.buffer;
            },
            tt,
          )
    feed_loop_step-Holds fuel c e (unknown id) p ih s h =
        let k = h.keeps in
        rw (p, feed_loop)
          (
            record {
              keeps = record {
                table = k.table;
                room = k.room;
                traced = k.traced;
                reported = k.reported;
                handled = k.handled;
              };
              inv = k.traced _ _ (k.reported _ e h.inv);
              buffer = cuts.empty c.recv_buf h.buffer;
            },
            s,
          )
    feed_loop_step-Holds fuel c e (negative id) p ih s h = rw (p, feed_loop) (h, s)
    feed_loop_step-Holds fuel c e (frame id n) p ih s h =
        rw (p, feed_loop)
          (ih (deliver now c e id n).0 (deliver now c e id n).1 (deliver-faulted c e id n ∙ s)
            (deliver-Holds c e id n p h))

    feed_loop-Holds :
        (fuel : ℕ) (c : SessionCore E V) (e : E)
        → c.faulted ≡ false
        → Holds Buf c e
        → let r = feed_loop now fuel c e in Holds Buf r.core r.env × Sound r.stop r.core
    unfolding feed_loop
    feed_loop-Holds zero c e s h = (h, s)
    feed_loop-Holds (suc fuel) c e s h =
        feed_loop_step-Holds fuel c e (next_frame c.lengths c.recv_buf) refl (feed_loop-Holds fuel)
          s h

    compacted : (c : SessionCore E V) (e : E) → Holds Buf c e → Holds Buf (compact c) e
    unfolding compact
    compacted c e h =
        let k = h.keeps in
        record {
          keeps = record {
            table = k.table;
            room = k.room;
            traced = k.traced;
            reported = k.reported;
            handled = k.handled;
          };
          inv = h.inv;
          buffer = rw k.room (cuts.short c.recv_buf h.buffer);
        }

    abbrev After : record { core : SessionCore E V; env : E; error : FeedError } → Type 0
    After r = Holds Buf r.core r.env × (r.error ≡ no_error → r.core.faulted ≡ false)

    sound_branch :
        (b : Bool)
        → b ≡ false
        → (x y : record { core : SessionCore E V; env : E; error : FeedError }) → After y
        → After (if b then x else y)
    sound_branch true p x y h = absurd cc
    sound_branch false p x y h = h

    -- The end of `feed` keeps it, and only an error leaves the session faulted.
    feed_end-Holds :
        (t : Stop) (c : SessionCore E V) (e : E)
        → Holds Buf c e
        → Sound t c
        → let r = feed_end t c e in
          Holds Buf r.core r.env × (r.error ≡ no_error → r.core.faulted ≡ false)
    unfolding feed_end
    feed_end-Holds waiting c e h s = (compacted c e h, λ q. s)
    feed_end-Holds (at_unknown id) c e h s = (compacted c e h, λ q. s)
    feed_end-Holds (at_corrupt id) c e h s = (h, λ q. absurd cc)
    feed_end-Holds at_negative c e h s = (h, λ q. absurd cc)
    feed_end-Holds out_of_fuel c e h s = (h, λ q. absurd cc)

    -- What the callbacks keep, and what is known of the buffer and the new bytes, holds after `feed`
    -- of a session that is not faulted.
    pub feed-Holds :
        (c : SessionCore E V) (e : E) (bs : Bytes)
        → c.faulted ≡ false
        → Keeps c
        → Inv e
        → Buf (c.recv_buf ++ bs)
        → let r = feed now c e bs in
          Holds Buf r.core r.env × (r.error ≡ no_error → r.core.faulted ≡ false)
    unfolding feed run_loop
    feed-Holds c e bs s k i b =
        let r = run_loop now (append_data c bs) e in
        let (h, t) =
          feed_loop-Holds (suc (length (c.recv_buf ++ bs))) (append_data c bs) e s (record {
            keeps = record {
              table = k.table;
              room = k.room;
              traced = k.traced;
              reported = k.reported;
              handled = k.handled;
            };
            inv = i;
            buffer = b;
          }) in
        sound_branch c.faulted s (record { core = c; env = e; error = no_error })
          (feed_end r.stop r.core r.env) (feed_end-Holds r.stop r.core r.env h t)
