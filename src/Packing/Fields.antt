-- ===== src/Packing/Fields.antt =====
-- The packed formats as sums: each field's place in the bytes, with no bit operation left.
use rathena_client.Shared.{
  ℕ, ◌+◌, ◌*◌, ◌/◌, ◌%◌, ◌<◌, ◌≡◌, arith, [], ◌∷◌, bit_and, bit_or, u8, u16, ◌<<◌, ◌>>◌,
  bit_or-shift, bit_and-ones, bit_and-digit, some, IsByte, Bytes,
}
use rathena_client.Packing.{
  MoveData, decode_pos_dir, encode_pos_dir, decode_move_data, encode_move_data,
}

or-shift_two : (a r : ℕ) → r < 4 → bit_or (u16 (a << 2)) r ≡ a % 16384 * 4 + r
or-shift_two a r h =
    let cut : u16 (a << 2) ≡ (a % 16384) << 2 = omega arith in
    rw cut (bit_or-shift 2 (a % 16384) r h)

or-shift_four : (a r : ℕ) → r < 16 → bit_or (u16 (a << 4)) r ≡ a % 4096 * 16 + r
or-shift_four a r h =
    let cut : u16 (a << 4) ≡ (a % 4096) << 4 = omega arith in rw cut (bit_or-shift 4 (a % 4096) r h)

or-shift_six : (a r : ℕ) → r < 64 → bit_or (u16 (a << 6)) r ≡ a % 1024 * 64 + r
or-shift_six a r h =
    let cut : u16 (a << 6) ≡ (a % 1024) << 6 = omega arith in rw cut (bit_or-shift 6 (a % 1024) r h)

or-shift_eight : (a r : ℕ) → r < 256 → bit_or (u16 (a << 8)) r ≡ a % 256 * 256 + r
or-shift_eight a r h =
    let cut : u16 (a << 8) ≡ (a % 256) << 8 = omega arith in rw cut (bit_or-shift 8 (a % 256) r h)

mask_two : (a : ℕ) → bit_and a 0x03 ≡ a % 4
mask_two a = bit_and-ones 2 a

mask_four : (a : ℕ) → bit_and a 0x0f ≡ a % 16
mask_four a = bit_and-ones 4 a

mask_six : (a : ℕ) → bit_and a 0x3f ≡ a % 64
mask_six a = bit_and-ones 6 a

mask_eight : (a : ℕ) → bit_and a 0xff ≡ a % 256
mask_eight a = bit_and-ones 8 a

pub pos_dir_of_bytes :
    (a b c : ℕ) (rest : Bytes)
    → IsByte a
    → IsByte b
    → IsByte c
    → decode_pos_dir (a ∷ b ∷ c ∷ rest)
      ≡ some (record { x = a * 4 + b / 64; y = b % 64 * 16 + c / 16; dir = c % 16 })
unfolding decode_pos_dir
pos_dir_of_bytes a b c rest ha hb hc = ground (
  arith,
  mask_eight a,
  mask_six b,
  mask_four c,
  or-shift_two (bit_and a 0xff) (b >> 6) (omega arith),
  or-shift_four (bit_and b 0x3f) (c >> 4) (omega arith),
)

pub bytes_of_pos_dir :
    (x y dir : ℕ)
    → encode_pos_dir x y dir
      ≡ (x / 4 % 256) ∷ (x % 4 * 64 + y / 16 % 64) ∷ (y % 16 * 16 + dir % 16) ∷ []
unfolding encode_pos_dir
bytes_of_pos_dir x y dir = ground (
  arith,
  mask_six (y >> 4),
  mask_four dir,
  or-shift_six x (bit_and (y >> 4) 0x3f) (omega (arith, mask_six (y >> 4))),
  or-shift_four y (bit_and dir 0x0f) (omega (arith, mask_four dir)),
)

mask_high : (a : ℕ) → bit_and a 0xf0 >> 4 ≡ a / 16 % 16
mask_high a = omega (
  arith,
  bit_and-digit a 0xf0,
  bit_and-digit (a / 2) 0x78,
  bit_and-digit (a / 2 / 2) 0x3c,
  bit_and-digit (a / 2 / 2 / 2) 0x1e,
  mask_four (a / 2 / 2 / 2 / 2),
)

pub move_data_of_bytes :
    (a b c d e f : ℕ) (rest : Bytes)
    → IsByte a
    → IsByte b
    → IsByte c
    → IsByte d
    → IsByte e
    → IsByte f
    → decode_move_data (a ∷ b ∷ c ∷ d ∷ e ∷ f ∷ rest)
      ≡ some (record {
        from_x = a * 4 + b / 64;
        from_y = b % 64 * 16 + c / 16;
        to_x = c % 16 * 64 + d / 4;
        to_y = d % 4 * 256 + e;
        sx0 = f / 16;
        sy0 = f % 16;
      })
unfolding decode_move_data
move_data_of_bytes a b c d e f rest ha hb hc hd he hf = ground (
  arith,
  mask_eight a,
  mask_six b,
  mask_four c,
  mask_two d,
  mask_high f,
  mask_four f,
  or-shift_two (bit_and a 0xff) (b >> 6) (omega arith),
  or-shift_four (bit_and b 0x3f) (c >> 4) (omega arith),
  or-shift_six (bit_and c 0x0f) (d >> 2) (omega arith),
  or-shift_eight (bit_and d 0x03) e he,
)

or-shift_byte : (a r : ℕ) → r < 16 → bit_or (u8 (a << 4)) r ≡ a % 16 * 16 + r
or-shift_byte a r h =
    let cut : u8 (a << 4) ≡ (a % 16) << 4 = omega arith in rw cut (bit_or-shift 4 (a % 16) r h)

pub bytes_of_move_data :
    (m : MoveData)
    → encode_move_data m
      ≡ (m.from_x / 4 % 256)
        ∷ (m.from_x % 4 * 64 + m.from_y / 16 % 64)
        ∷ (m.from_y % 16 * 16 + m.to_x / 64 % 16)
        ∷ (m.to_x % 64 * 4 + m.to_y / 256 % 4)
        ∷ (m.to_y % 256)
        ∷ (m.sx0 % 16 * 16 + m.sy0 % 16)
        ∷ []
unfolding encode_move_data
bytes_of_move_data m = ground (
  arith,
  mask_six (m.from_y >> 4),
  mask_four (m.to_x >> 6),
  mask_two (m.to_y >> 8),
  mask_four m.sx0,
  mask_four m.sy0,
  or-shift_six m.from_x (bit_and (m.from_y >> 4) 0x3f) (omega (arith, mask_six (m.from_y >> 4))),
  or-shift_four m.from_y (bit_and (m.to_x >> 6) 0x0f) (omega (arith, mask_four (m.to_x >> 6))),
  or-shift_two m.to_x (bit_and (m.to_y >> 8) 0x03) (omega (arith, mask_two (m.to_y >> 8))),
  or-shift_byte (bit_and m.sx0 0x0f) (bit_and m.sy0 0x0f) (omega (arith, mask_four m.sy0)),
)
