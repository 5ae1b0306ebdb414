-- ===== src/Session/Core/Stream.antt =====
-- The frames of a byte stream, with no session around them: what the stream promises to a client.
-- `parse` cuts frames off the front until `next_frame` finds none.
use rathena_client.Shared.{
  ℕ, zero, suc, ◌<◌, ◌≡◌, ◌≢◌, refl, ap, arith, List, [], ◌∷◌, ◌++◌, length, take, drop, Bytes, ℤ,
  length-drop,
}
use rathena_client.Session.Core.{
  Next, wait, corrupt, unknown, negative, frame, next_frame, Stop, waiting, at_corrupt, at_unknown,
  at_negative, out_of_fuel,
}
use rathena_client.Session.Core.Framing.{frame_bounds}

pub record Parse : Type 0 where
  pub frames : List (ℕ × Bytes)
  pub rest : Bytes
  pub stop : Stop

abbrev pub stopped : Bytes → Stop → Parse
stopped bs s = record { frames = []; rest = bs; stop = s }

abbrev pub prepend : List (ℕ × Bytes) → Parse → Parse
prepend fs p = record p { frames = fs ++ p.frames }

unfoldable pub parse_loop : ℕ → (ℕ → ℤ) → Bytes → Parse
parse_loop zero lengths bs = stopped bs out_of_fuel
parse_loop (suc fuel) lengths bs = elim (next_frame lengths bs) [
  | wait ↦ stopped bs waiting
  | corrupt id ↦ stopped bs (at_corrupt id)
  | unknown id ↦ stopped bs (at_unknown id)
  | negative id ↦ stopped bs at_negative
  | frame id n ↦ prepend ((id, take n bs) ∷ []) (parse_loop fuel lengths (drop n bs))
]

unfoldable pub parse : (ℕ → ℤ) → Bytes → Parse
unfolding parse_loop
parse lengths bs = parse_loop (suc (length bs)) lengths bs

-- How the loop ends on a front of the buffer that is no frame.
abbrev pub decided : Next → Stop
decided wait = waiting
decided (corrupt id) = at_corrupt id
decided (unknown id) = at_unknown id
decided (negative id) = at_negative
decided (frame id n) = out_of_fuel

-- What remains after a frame is shorter.
pub drop-lt :
    (lengths : ℕ → ℤ) (bs : Bytes) (id n : ℕ)
    → next_frame lengths bs ≡ frame id n
    → length (drop n bs) < length bs
drop-lt lengths bs id n e = omega (arith, frame_bounds lengths bs id n e, length-drop n bs)

module _ (lengths : ℕ → ℤ) where
  fuel_step :
      (f g : ℕ) (bs : Bytes) (v : Next)
      → next_frame lengths bs ≡ v
      → ((id n : ℕ)
          → v ≡ frame id n
          → parse_loop f lengths (drop n bs) ≡ parse_loop g lengths (drop n bs))
      → parse_loop (suc f) lengths bs ≡ parse_loop (suc g) lengths bs
  unfolding parse_loop
  fuel_step f g bs wait e ih = rw (e, parse_loop)
  fuel_step f g bs (corrupt id) e ih = rw (e, parse_loop)
  fuel_step f g bs (unknown id) e ih = rw (e, parse_loop)
  fuel_step f g bs (negative id) e ih = rw (e, parse_loop)
  fuel_step f g bs (frame id n) e ih =
      rw (e, parse_loop) (ap (prepend ((id, take n bs) ∷ [])) (ih id n refl))

  -- Any fuel above the length of the stream gives the same parse.
  pub parse_fuel :
      (f g : ℕ) (bs : Bytes)
      → length bs < f
      → length bs < g
      → parse_loop f lengths bs ≡ parse_loop g lengths bs
  parse_fuel zero g bs h k = absurd (omega arith)
  parse_fuel (suc f) zero bs h k = absurd (omega arith)
  parse_fuel (suc f) (suc g) bs h k = fuel_step f g bs (next_frame lengths bs) refl λ id n e.
      let shorter : length (drop n bs) < length bs = drop-lt lengths bs id n e in
      parse_fuel f g (drop n bs) (omega arith) (omega arith)

  -- One round of the loop, with no fuel left in it.
  pub parse-frame :
      (bs : Bytes) (id n : ℕ)
      → next_frame lengths bs ≡ frame id n
      → parse lengths bs ≡ prepend ((id, take n bs) ∷ []) (parse lengths (drop n bs))
  unfolding parse parse_loop
  parse-frame bs id n e =
      let shorter : length (drop n bs) < length bs = drop-lt lengths bs id n e in
      rw (e, parse, parse_loop)
        (ap (prepend ((id, take n bs) ∷ []))
          (parse_fuel (length bs) (suc (length (drop n bs))) (drop n bs) shorter (omega arith)))

  pub parse-wait :
      (bs : Bytes) → next_frame lengths bs ≡ wait → parse lengths bs ≡ stopped bs waiting
  unfolding parse parse_loop
  parse-wait bs e = rw (e, parse, parse_loop)

  pub parse-stop :
      (bs : Bytes) (v : Next)
      → next_frame lengths bs ≡ v
      → ((id n : ℕ) → v ≢ frame id n)
      → parse lengths bs ≡ stopped bs (decided v)
  unfolding parse parse_loop
  parse-stop bs wait e h = rw (e, parse, parse_loop)
  parse-stop bs (corrupt id) e h = rw (e, parse, parse_loop)
  parse-stop bs (unknown id) e h = rw (e, parse, parse_loop)
  parse-stop bs (negative id) e h = rw (e, parse, parse_loop)
  parse-stop bs (frame id n) e h = absurd (h id n refl)

  -- Induction over the frames of a stream.
  pub stream_induction {κ} :
      (P : Bytes → Type κ)
      → ((bs : Bytes) (v : Next) → next_frame lengths bs ≡ v → ((id n : ℕ) → v ≢ frame id n) → P bs)
      → ((bs : Bytes) (id n : ℕ) → next_frame lengths bs ≡ frame id n → P (drop n bs) → P bs)
      → (fuel : ℕ) (bs : Bytes) → length bs < fuel
      → P bs
  stream_induction P base step zero bs h = absurd (omega arith)
  stream_induction P base step (suc fuel) bs h =
      go (next_frame lengths bs) refl
        λ n lt. stream_induction P base step fuel (drop n bs) (omega arith)
    where
      go :
          (v : Next)
          → next_frame lengths bs ≡ v
          → ((n : ℕ) → length (drop n bs) < length bs → P (drop n bs))
          → P bs
      go wait e ih = base bs wait e (λ id n q. cc)
      go (corrupt i) e ih = base bs (corrupt i) e (λ id n q. cc)
      go (unknown i) e ih = base bs (unknown i) e (λ id n q. cc)
      go (negative i) e ih = base bs (negative i) e (λ id n q. cc)
      go (frame i n) e ih = step bs i n e (ih n (drop-lt lengths bs i n e))
