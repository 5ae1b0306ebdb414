-- ===== src/Session/Core/Framing.antt =====
-- Where a frame ends: `next_frame` looks only at the front of the buffer, finds at least one byte
-- that is there, and waits only while less than one frame has arrived.
use rathena_client.Shared.{
  ℕ, zero, suc, ◌+◌, ◌≤◌, ◌<◌, ◌≡◌, ◌≢◌, refl, arith, false, [], ◌∷◌, ◌++◌, length, get_or, ltb,
  Bytes, IsBytes, le_u16, ℤ, pos, negsuc, length-append, get_or-append, Bool-cases, ltb→lt, inl,
  inr,
}
use rathena_client.Session.Core.{wait, unknown, negative, frame, complete, frame_len, next_frame}

complete_bounds :
    (bs : Bytes) (k id n i : ℕ)
    → 1 ≤ k
    → complete bs i k ≡ frame id n
    → (1 ≤ n) × (n ≤ length bs) × (id ≡ i) × (n ≡ k)
unfolding complete
complete_bounds bs k id n i h e = ground arith

frame_len_bounds :
    (bs : Bytes) (i : ℕ) (z : ℤ) (id n : ℕ)
    → frame_len bs i z ≡ frame id n
    → (1 ≤ n) × (n ≤ length bs) × (id ≡ i)
unfolding frame_len
frame_len_bounds bs i (pos zero) id n e = cc
frame_len_bounds bs i (pos (suc m)) id n e = ground arith
frame_len_bounds bs i (negsuc zero) id n e = ground arith
frame_len_bounds bs i (negsuc (suc m)) id n e = cc

-- A complete frame has at least one byte, lies in the buffer, and has the id of its first bytes.
pub frame_bounds :
    (lengths : ℕ → ℤ) (bs : Bytes) (id n : ℕ)
    → next_frame lengths bs ≡ frame id n
    → (1 ≤ n) × (n ≤ length bs) × (id ≡ le_u16 bs 0)
unfolding next_frame
frame_bounds lengths bs id n e = elim (Bool-cases (ltb (length bs) 2)) [
  | inl short ↦ absurd (wait_not_frame (rw short at e))
  | inr long ↦ frame_len_bounds bs (le_u16 bs 0) (lengths (le_u16 bs 0)) id n (rw long at e)
]
  where
    wait_not_frame : wait ≡ frame id n → ⊥
    wait_not_frame p = cc

le_u16-append : (bs more : Bytes) (i : ℕ) → i + 2 ≤ length bs → le_u16 (bs ++ more) i ≡ le_u16 bs i
le_u16-append bs more i h =
    rw (get_or-append bs more i 0 (omega arith), get_or-append bs more (i + 1) 0 (omega arith))

frame_len-append :
    (bs more : Bytes) (i : ℕ) (z : ℤ)
    → frame_len bs i z ≢ wait
    → frame_len (bs ++ more) i z ≡ frame_len bs i z
unfolding frame_len
frame_len-append bs more i (pos zero) h = refl
frame_len-append bs more i (pos (suc m)) h = ground (arith, length-append bs more)
frame_len-append bs more i (negsuc zero) h =
    ground (arith, length-append bs more, le_u16-append bs more 2)
frame_len-append bs more i (negsuc (suc m)) h = refl

-- Once the front of the buffer decides, more bytes behind it change nothing.
pub next_frame-append :
    (lengths : ℕ → ℤ) (bs more : Bytes)
    → next_frame lengths bs ≢ wait
    → next_frame lengths (bs ++ more) ≡ next_frame lengths bs
unfolding next_frame
next_frame-append lengths bs more h = elim (Bool-cases (ltb (length bs) 2)) [
  | inl short ↦ absurd (h (rw short))
  | inr long ↦
      let longer : ltb (length (bs ++ more)) 2 ≡ false = ground (arith, length-append bs more) in
      let id : le_u16 (bs ++ more) 0 ≡ le_u16 bs 0 = le_u16-append bs more 0 (ground arith) in
      let decides : frame_len bs (le_u16 bs 0) (lengths (le_u16 bs 0)) ≢ wait =
        λ e. h (rw (long, e)) in
      rw (longer, long, id) (frame_len-append bs more (le_u16 bs 0) (lengths (le_u16 bs 0)) decides)
]

-- Every length of the table fits a buffer of `size` bytes, and so does the longest variable frame.
pub record Fits (lengths : ℕ → ℤ) (size : ℕ) : Type 0 where
  pub fixed : (id n : ℕ) → lengths id ≡ pos n → n ≤ size
  pub variable : 65535 ≤ size

get_or-lt : (bs : Bytes) (i : ℕ) → IsBytes bs → get_or bs i 0 < 256
get_or-lt [] i h = omega arith
get_or-lt (b ∷ bs) zero h = h.0
get_or-lt (b ∷ bs) (suc i) h = get_or-lt bs i h.1

wait-lt_at :
    (lengths : ℕ → ℤ) (size i : ℕ) (bs : Bytes) (z : ℤ)
    → Fits lengths size
    → IsBytes bs
    → lengths i ≡ z
    → frame_len bs i z ≡ wait
    → length bs < size
unfolding frame_len
wait-lt_at lengths size i bs (pos zero) f b p e = absurd (impossible e)
  where
    impossible : unknown i ≡ wait → ⊥
    impossible q = cc
wait-lt_at lengths size i bs (pos (suc m)) f b p e = ground (arith, f.fixed i (suc m) p)
wait-lt_at lengths size i bs (negsuc zero) f b p e =
    ground (arith, f.variable, get_or-lt bs 2 b, get_or-lt bs 3 b)
wait-lt_at lengths size i bs (negsuc (suc m)) f b p e = absurd (impossible e)
  where
    impossible : negative i ≡ wait → ⊥
    impossible q = cc

-- A buffer that waits for the rest of a frame is shorter than the longest frame.
pub wait-lt :
    (lengths : ℕ → ℤ) (size : ℕ) (bs : Bytes)
    → Fits lengths size
    → IsBytes bs
    → next_frame lengths bs ≡ wait
    → length bs < size
unfolding next_frame
wait-lt lengths size bs f b e = elim (Bool-cases (ltb (length bs) 2)) [
  | inl short ↦ omega (arith, ltb→lt (length bs) 2 short, f.variable)
  | inr long ↦
      wait-lt_at lengths size (le_u16 bs 0) bs (lengths (le_u16 bs 0)) f b refl (rw long at e)
]

-- No entry of the table is below -1.
abbrev pub NoneBelow : (ℕ → ℤ) → Type 0
NoneBelow lengths = (id n : ℕ) → lengths id ≢ negsuc (suc n)

frame_len-ne-negative :
    (bs : Bytes) (i : ℕ) (z : ℤ) (id : ℕ)
    → ((n : ℕ) → z ≢ negsuc (suc n))
    → frame_len bs i z ≢ negative id
unfolding frame_len
frame_len-ne-negative bs i (pos zero) id h = λ e. cc
frame_len-ne-negative bs i (pos (suc m)) id h = λ e. ground arith
frame_len-ne-negative bs i (negsuc zero) id h = λ e. ground arith
frame_len-ne-negative bs i (negsuc (suc m)) id h = absurd (h m refl)

pub next_frame-ne-negative :
    (lengths : ℕ → ℤ) (bs : Bytes) (id : ℕ)
    → NoneBelow lengths
    → next_frame lengths bs ≢ negative id
unfolding next_frame
next_frame-ne-negative lengths bs id h = elim (Bool-cases (ltb (length bs) 2)) [
  | inl short ↦ rw short (λ e. cc)
  | inr long ↦
      rw long (frame_len-ne-negative bs (le_u16 bs 0) (lengths (le_u16 bs 0)) id (h (le_u16 bs 0)))
]
