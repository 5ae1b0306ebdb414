-- ===== src/Session/Core/Frames.antt =====
-- A packet on the wire, described without the framing engine: its first two bytes are its id, and its
-- length is the table's, or the one that the next two bytes give where the table has -1.
use rathena_client.Shared.{
  ℕ, zero, suc, ◌+◌, ◌≤◌, ◌<◌, ◌≡◌, ◌≢◌, refl, sym, ap, ◌∙◌, arith, false, List, [], ◌∷◌, ◌++◌,
  append_assoc, length, length-append, length-take, get_or, get_or-append, take, take-length_append,
  drop-length_append, ltb, Bytes, All, le_u16, ℤ, pos, negsuc, Bool-cases, inl, inr,
}
use rathena_client.Session.Core.{
  SessionCore, no_error, wait, frame, waiting, complete, frame_len, next_frame, feed, feed_end,
  compact,
}
use rathena_client.Session.Core.Framing.{frame_bounds}
use rathena_client.Session.Core.Stream.{parse, parse-frame, parse-stop, prepend}
use rathena_client.Session.Core.Segments.{frame_bytes}
use rathena_client.Session.Core.Refinement.{handle_all, serve, with_rest, finish}
use rathena_client.Session.Core.Feed.{feed-serve, ended, handle_all-SameSetup}

-- The length of the bytes is the entry's, or the one that they declare.
abbrev pub HasLength : ℤ → Bytes → Type 0
HasLength (pos n) data_ = (2 ≤ n) × (length data_ ≡ n)
HasLength (negsuc zero) data_ = (4 ≤ length data_) × (length data_ ≡ le_u16 data_ 2)
HasLength (negsuc (suc n)) data_ = ⊥

pub record IsFrame (lengths : ℕ → ℤ) (id : ℕ) (data_ : Bytes) : Type 0 where
  pub header : id ≡ le_u16 data_ 0
  pub size : HasLength (lengths id) data_

-- The beginning of a packet of which at least a byte is missing.
pub record IsFront (lengths : ℕ → ℤ) (bs : Bytes) : Type 0 where
  pub id : ℕ
  pub missing : Bytes
  pub some_missing : 1 ≤ length missing
  pub whole : IsFrame lengths id (bs ++ missing)

le_u16-front : (bs more : Bytes) (i : ℕ) → i + 2 ≤ length bs → le_u16 (bs ++ more) i ≡ le_u16 bs i
le_u16-front bs more i h =
    rw (get_or-append bs more i 0 (omega arith), get_or-append bs more (i + 1) 0 (omega arith))

size-least : (z : ℤ) (data_ : Bytes) → HasLength z data_ → 2 ≤ length data_
size-least (pos n) data_ h = omega (arith, h)
size-least (negsuc zero) data_ h = omega (arith, h)
size-least (negsuc (suc n)) data_ h = elim h [ ]

frame_len-whole :
    (data_ more : Bytes) (id : ℕ) (z : ℤ)
    → HasLength z data_
    → frame_len (data_ ++ more) id z ≡ frame id (length data_)
unfolding frame_len complete
frame_len-whole data_ more id (pos zero) h = absurd (omega (arith, h))
frame_len-whole data_ more id (pos (suc n)) h = ground (arith, length-append data_ more, h)
frame_len-whole data_ more id (negsuc zero) h =
    ground (arith, length-append data_ more, le_u16-front data_ more 2, h)
frame_len-whole data_ more id (negsuc (suc n)) h = elim h [ ]

-- A packet at the front is the next frame, whatever stands behind it.
next_frame-whole :
    (lengths : ℕ → ℤ) (id : ℕ) (data_ more : Bytes)
    → IsFrame lengths id data_
    → next_frame lengths (data_ ++ more) ≡ frame id (length data_)
unfolding next_frame
next_frame-whole lengths id data_ more h =
    let least = size-least (lengths id) data_ h.size in
    let long : ltb (length (data_ ++ more)) 2 ≡ false = ground (arith, length-append data_ more) in
    let same : le_u16 (data_ ++ more) 0 ≡ id =
      le_u16-front data_ more 0 (omega arith) ∙ sym h.header in
    rw (long, same) (frame_len-whole data_ more id (lengths id) h.size)

frame_len-front :
    (bs more : Bytes) (id : ℕ) (z : ℤ)
    → 2 ≤ length bs
    → 1 ≤ length more
    → HasLength z (bs ++ more)
    → frame_len bs id z ≡ wait
unfolding frame_len complete
frame_len-front bs more id (pos zero) l m h = absurd (omega (arith, h))
frame_len-front bs more id (pos (suc n)) l m h = ground (arith, length-append bs more, h)
frame_len-front bs more id (negsuc zero) l m h =
    ground (arith, length-append bs more, le_u16-front bs more 2, h)
frame_len-front bs more id (negsuc (suc n)) l m h = elim h [ ]

next_frame-front :
    (lengths : ℕ → ℤ) (bs : Bytes) → IsFront lengths bs → next_frame lengths bs ≡ wait
unfolding next_frame
next_frame-front lengths bs h = elim (Bool-cases (ltb (length bs) 2)) [
  | inl short ↦ rw short
  | inr long ↦
      let two : 2 ≤ length bs = ground arith in
      let same : le_u16 bs 0 ≡ h.id = sym (le_u16-front bs h.missing 0 two) ∙ sym h.whole.header in
      rw (long, same)
        (frame_len-front bs h.missing h.id (lengths h.id) two h.some_missing h.whole.size)
]

abbrev pub Frames : (ℕ → ℤ) → List (ℕ × Bytes) → Type 0
Frames lengths fs = All (λ f. IsFrame lengths f.0 f.1) fs

parse-frames :
    (lengths : ℕ → ℤ) (fs : List (ℕ × Bytes)) (rest : Bytes)
    → Frames lengths fs
    → IsFront lengths rest
    → parse lengths (frame_bytes fs ++ rest) ≡ record { frames = fs; rest = rest; stop = waiting }
unfolding frame_bytes
parse-frames lengths [] rest h front =
    parse-stop lengths rest wait (next_frame-front lengths rest front) (λ id n q. cc)
parse-frames lengths ((id, data_) ∷ fs) rest h front =
    let behind = frame_bytes fs ++ rest in
    let here = next_frame-whole lengths id data_ behind h.0 in
    ap (parse lengths) (append_assoc data_ (frame_bytes fs) rest)
    ∙ parse-frame lengths (data_ ++ behind) id (length data_) here
    ∙ (rw (take-length_append data_ behind, drop-length_append data_ behind)
        (ap (prepend ((id, data_) ∷ [])) (parse-frames lengths fs rest h.1 front)))

get_or-take : (n : ℕ) (bs : Bytes) (i : ℕ) → i < n → get_or (take n bs) i 0 ≡ get_or bs i 0
get_or-take zero bs i h = absurd (omega arith)
get_or-take (suc n) [] i h = refl
get_or-take (suc n) (b ∷ bs) zero h = refl
get_or-take (suc n) (b ∷ bs) (suc i) h = get_or-take n bs i (omega arith)

le_u16-take : (n : ℕ) (bs : Bytes) (i : ℕ) → i + 2 ≤ n → le_u16 (take n bs) i ≡ le_u16 bs i
le_u16-take n bs i h = rw (get_or-take n bs i (omega arith), get_or-take n bs (i + 1) (omega arith))

-- A frame that the engine cuts is a packet of the table, where no entry is 1.
frame_len-HasLength :
    (bs : Bytes) (i : ℕ) (z : ℤ) (id n : ℕ)
    → z ≢ pos 1
    → frame_len bs i z ≡ frame id n
    → HasLength z (take n bs)
unfolding frame_len complete
frame_len-HasLength bs i (pos zero) id n one e = absurd cc
frame_len-HasLength bs i (pos (suc zero)) id n one e = absurd (one refl)
frame_len-HasLength bs i (pos (suc (suc m))) id n one e = ground (arith, length-take n bs)
frame_len-HasLength bs i (negsuc zero) id n one e =
    ground (arith, length-take n bs, le_u16-take n bs 2)
frame_len-HasLength bs i (negsuc (suc m)) id n one e = absurd cc

pub next_frame-IsFrame :
    (lengths : ℕ → ℤ) (bs : Bytes) (id n : ℕ)
    → lengths id ≢ pos 1
    → next_frame lengths bs ≡ frame id n
    → IsFrame lengths id (take n bs)
unfolding next_frame
next_frame-IsFrame lengths bs id n one e =
    let same : id ≡ le_u16 bs 0 = (frame_bounds lengths bs id n e).2 in
    elim (Bool-cases (ltb (length bs) 2)) [
      | inl short ↦ absurd (cc (rw short at e))
      | inr long ↦
          let cut : frame_len bs (le_u16 bs 0) (lengths (le_u16 bs 0)) ≡ frame id n =
            rw long at e in
          let size : HasLength (lengths id) (take n bs) =
            frame_len-HasLength bs id (lengths id) id n one (rw (← same) at cut) in
          record {
            header =
                same
                ∙ sym (
                    le_u16-take n bs 0
                      (omega (arith, size-least (lengths id) (take n bs) size, length-take n bs)));
            size = size;
          }
    ]

module _ {E V : Type 0} (now : E → ℕ) where
  serve-frames :
      (fs : List (ℕ × Bytes)) (rest : Bytes) (c : SessionCore E V) (e : E)
      → let m = handle_all now fs (c, e) in
        ended now (serve now (record { frames = fs; rest = rest; stop = waiting }) (c, e))
        ≡ record { core = with_rest (m.0) (take c.buf_size rest); env = m.1; error = no_error }
  unfolding serve finish feed_end compact
  serve-frames fs rest c e =
      let m = handle_all now fs (c, e) in
      ap (λ k. record { core = with_rest (m.0) (take k rest); env = m.1; error = no_error })
        (handle_all-SameSetup now fs (c, e)).buf_size

  -- In a session that is not faulted, where the buffered and the new bytes are packets of the length
  -- table one after the other, with an incomplete packet behind them, `feed` hands over exactly
  -- these packets, each once and in order, and returns no error with the incomplete packet in the
  -- buffer, up to the buffer's size.
  pub feed-Frames :
      (c : SessionCore E V) (e : E) (bs : Bytes) (fs : List (ℕ × Bytes)) (rest : Bytes)
      → c.faulted ≡ false
      → Frames c.lengths fs
      → IsFront c.lengths rest
      → c.recv_buf ++ bs ≡ frame_bytes fs ++ rest
      → let m = handle_all now fs (c, e) in
        feed now c e bs
        ≡ record { core = with_rest (m.0) (take c.buf_size rest); env = m.1; error = no_error }
  feed-Frames c e bs fs rest sound h front split =
      feed-serve now c e bs sound
      ∙ ap (λ t. ended now (serve now t (c, e)))
          (ap (parse c.lengths) split ∙ parse-frames c.lengths fs rest h front)
      ∙ serve-frames fs rest c e
