-- ===== src/Session/Core/Segments.antt =====
-- How the parse of a stream depends on where the stream was cut into reads.
use rathena_client.Shared.{
  ℕ, suc, ◌≤◌, ◌≡◌, ◌≢◌, refl, ap, sym, ◌∙◌, arith, List, [], ◌∷◌, ◌++◌, length, take, drop, Bytes,
  ℤ, take-append, drop-append, take-append-drop, append_assoc,
}
use rathena_client.Session.Core.{
  Next, wait, corrupt, unknown, negative, frame, next_frame, waiting, at_negative, out_of_fuel,
}
use rathena_client.Session.Core.Framing.{
  frame_bounds, next_frame-append, NoneBelow, next_frame-ne-negative,
}
use rathena_client.Session.Core.Stream.{
  Parse, prepend, parse, parse-frame, parse-stop, decided, stream_induction,
}

-- The bytes of the frames, in order.
unfoldable pub frame_bytes : List (ℕ × Bytes) → Bytes
frame_bytes [] = []
frame_bytes ((id, data_) ∷ fs) = data_ ++ frame_bytes fs

-- The same parse with more bytes left over.
abbrev pub and_rest : Parse → Bytes → Parse
and_rest p more = record p { rest = p.rest ++ more }

module _ (lengths : ℕ → ℤ) where
  -- Induction, started with enough fuel.
  on_stream {κ} :
      (P : Bytes → Type κ)
      → ((bs : Bytes) (v : Next) → next_frame lengths bs ≡ v → ((id n : ℕ) → v ≢ frame id n) → P bs)
      → ((bs : Bytes) (id n : ℕ) → next_frame lengths bs ≡ frame id n → P (drop n bs) → P bs)
      → (bs : Bytes) → P bs
  on_stream P base step bs = stream_induction lengths P base step (suc (length bs)) bs (omega arith)

  -- No byte of a stream is lost, doubled or moved: the bytes of its frames, in order, followed by
  -- the rest, are the stream.
  pub frame_bytes-parse :
      (bs : Bytes) → frame_bytes (parse lengths bs).frames ++ (parse lengths bs).rest ≡ bs
  frame_bytes-parse =
      on_stream (λ bs. frame_bytes (parse lengths bs).frames ++ (parse lengths bs).rest ≡ bs)
        (λ bs v e h. rw (parse-stop lengths bs v e h) (unfold frame_bytes in refl))
        λ bs id n e ih. rw (parse-frame lengths bs id n e) (
          unfold frame_bytes in
          append_assoc (take n bs) (frame_bytes (parse lengths (drop n bs)).frames)
            (parse lengths (drop n bs)).rest
          ∙ ap (λ t. take n bs ++ t) ih
          ∙ take-append-drop n bs)

  decided-ne-fuel : (v : Next) → ((id n : ℕ) → v ≢ frame id n) → decided v ≢ out_of_fuel
  decided-ne-fuel wait h = λ e. cc
  decided-ne-fuel (corrupt id) h = λ e. cc
  decided-ne-fuel (unknown id) h = λ e. cc
  decided-ne-fuel (negative id) h = λ e. cc
  decided-ne-fuel (frame id n) h = absurd (h id n refl)

  pub parse-ne-fuel : (bs : Bytes) → (parse lengths bs).stop ≢ out_of_fuel
  parse-ne-fuel =
      on_stream (λ bs. (parse lengths bs).stop ≢ out_of_fuel)
        (λ bs v e h. rw (parse-stop lengths bs v e h) (decided-ne-fuel v h))
        λ bs id n e ih. rw (parse-frame lengths bs id n e) ih

  decided-waiting : (v : Next) → ((id n : ℕ) → v ≢ frame id n) → decided v ≡ waiting → v ≡ wait
  decided-waiting wait h e = refl
  decided-waiting (corrupt id) h e = cc
  decided-waiting (unknown id) h e = cc
  decided-waiting (negative id) h e = cc
  decided-waiting (frame id n) h e = absurd (h id n refl)

  -- What a waiting parse leaves is the beginning of one frame.
  pub rest_waits :
      (bs : Bytes)
      → (parse lengths bs).stop ≡ waiting
      → next_frame lengths (parse lengths bs).rest ≡ wait
  rest_waits =
      on_stream
        (λ bs.
          (parse lengths bs).stop ≡ waiting → next_frame lengths (parse lengths bs).rest ≡ wait)
        (λ bs v e h s.
          rw (parse-stop lengths bs v e h)
            (e ∙ decided-waiting v h (sym (ap (λ p. p.stop) (parse-stop lengths bs v e h)) ∙ s)))
        λ bs id n e ih. rw (parse-frame lengths bs id n e) ih

  append_stop :
      (bs more : Bytes) (v : Next)
      → next_frame lengths bs ≡ v
      → ((id n : ℕ) → v ≢ frame id n)
      → v ≢ wait
      → parse lengths (bs ++ more) ≡ and_rest (parse lengths bs) more
  append_stop bs more v e h w =
      parse-stop lengths (bs ++ more) v (next_frame-append lengths bs more (λ q. w (sym e ∙ q)) ∙ e)
        h
      ∙ sym (ap (λ p. and_rest p more) (parse-stop lengths bs v e h))

  append_frame :
      (bs more : Bytes) (id n : ℕ)
      → next_frame lengths bs ≡ frame id n
      → parse lengths (bs ++ more)
        ≡ prepend ((id, take n bs) ∷ []) (parse lengths (drop n bs ++ more))
  append_frame bs more id n e =
      let fits : n ≤ length bs = (frame_bounds lengths bs id n e).1 in
      let longer : next_frame lengths (bs ++ more) ≡ frame id n =
        next_frame-append lengths bs more (λ q. frame-ne-wait (sym e ∙ q)) ∙ e in
      parse-frame lengths (bs ++ more) id n longer
      ∙ (rw (take-append n bs more fits, drop-append n bs more fits))
    where
      frame-ne-wait : frame id n ≡ wait → ⊥
      frame-ne-wait q = cc

  -- More bytes behind a stream that waits continue the frames that it had.
  pub parse-append :
      (bs more : Bytes)
      → (parse lengths bs).stop ≡ waiting
      → parse lengths (bs ++ more)
        ≡ prepend (parse lengths bs).frames (parse lengths ((parse lengths bs).rest ++ more))
  parse-append bs more =
      on_stream
        (λ b.
          (parse lengths b).stop ≡ waiting
          → parse lengths (b ++ more)
            ≡ prepend (parse lengths b).frames (parse lengths ((parse lengths b).rest ++ more)))
        (λ b v e h s. rw (parse-stop lengths b v e h))
        (λ b id n e ih s.
          append_frame b more id n e
          ∙ (rw (parse-frame lengths b id n e) (
              ap (prepend ((id, take n b) ∷ []))
                (ih (sym (ap (λ p. p.stop) (parse-frame lengths b id n e)) ∙ s)))))
        bs

  decided-stopped : (v : Next) → decided v ≢ waiting → v ≢ wait
  decided-stopped wait h e = h refl
  decided-stopped (corrupt id) h e = cc
  decided-stopped (unknown id) h e = cc
  decided-stopped (negative id) h e = cc
  decided-stopped (frame id n) h e = cc

  -- Behind a stream that has stopped for good nothing more is read.
  pub parse-append_stopped :
      (bs more : Bytes)
      → (parse lengths bs).stop ≢ waiting
      → parse lengths (bs ++ more) ≡ and_rest (parse lengths bs) more
  parse-append_stopped bs more =
      on_stream
        (λ b.
          (parse lengths b).stop ≢ waiting
          → parse lengths (b ++ more) ≡ and_rest (parse lengths b) more)
        (λ b v e h s.
          append_stop b more v e h
            (decided-stopped v (λ q. s (ap (λ p. p.stop) (parse-stop lengths b v e h) ∙ q))))
        (λ b id n e ih s.
          append_frame b more id n e
          ∙ (rw (parse-frame lengths b id n e) (
              ap (prepend ((id, take n b) ∷ []))
                (ih (λ q. s (ap (λ p. p.stop) (parse-frame lengths b id n e) ∙ q))))))
        bs

  decided-ne-negative :
      (v : Next)
      → ((id : ℕ) → v ≢ negative id)
      → ((id n : ℕ) → v ≢ frame id n)
      → decided v ≢ at_negative
  decided-ne-negative wait k h = λ e. cc
  decided-ne-negative (corrupt id) k h = λ e. cc
  decided-ne-negative (unknown id) k h = λ e. cc
  decided-ne-negative (negative id) k h = absurd (k id refl)
  decided-ne-negative (frame id n) k h = absurd (h id n refl)

  pub parse-ne-negative : NoneBelow lengths → (bs : Bytes) → (parse lengths bs).stop ≢ at_negative
  parse-ne-negative k =
      on_stream (λ bs. (parse lengths bs).stop ≢ at_negative)
        (λ bs v e h.
          rw (parse-stop lengths bs v e h)
            (decided-ne-negative v (λ id q. next_frame-ne-negative lengths bs id k (e ∙ q)) h))
        λ bs id n e ih. rw (parse-frame lengths bs id n e) ih
