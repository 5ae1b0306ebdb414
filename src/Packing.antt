-- ===== src/Packing.antt =====
-- pkg/packing/packing.go: the two packed position formats. A slice is a list of bytes, and an
-- index out of range is a panic, `none`. Every conversion and every shift that the code writes is
-- kept, with the width of its type.
pub mod Fields
pub mod RoundTrip
mod Tests
use rathena_client.Shared.{
  ℕ, ◌+◌, Option, none, some, List, [], ◌∷◌, bit_and, bit_or, get_elem?, u8, u16, ◌<<◌, ◌>>◌, Bytes,
  ◌>>=◌,
}

pub record PosDir : Type 0 where
  pub x : ℕ
  pub y : ℕ
  pub dir : ℕ

pub record MoveData : Type 0 where
  pub from_x : ℕ
  pub from_y : ℕ
  pub to_x : ℕ
  pub to_y : ℕ
  pub sx0 : ℕ
  pub sy0 : ℕ

unfoldable pub decode_pos_dir : Bytes → Option PosDir
decode_pos_dir bs = do
  d0 ← get_elem? bs 0
  d1 ← get_elem? bs 1
  d2 ← get_elem? bs 2
  some (record {
    x = bit_or (u16 (bit_and d0 0xff << 2)) (d1 >> 6);
    y = bit_or (u16 (bit_and d1 0x3f << 4)) (d2 >> 4);
    dir = bit_and d2 0x0f;
  })

unfoldable pub encode_pos_dir : ℕ → ℕ → ℕ → Bytes
encode_pos_dir x y dir =
    u8 (x >> 2)
    ∷ u8 (bit_or (u16 (x << 6)) (bit_and (y >> 4) 0x3f))
    ∷ u8 (bit_or (u16 (y << 4)) (bit_and dir 0x0f))
    ∷ []

unfoldable pub decode_move_data : Bytes → Option MoveData
decode_move_data bs = do
  d0 ← get_elem? bs 0
  d1 ← get_elem? bs 1
  d2 ← get_elem? bs 2
  d3 ← get_elem? bs 3
  d4 ← get_elem? bs 4
  d5 ← get_elem? bs 5
  some (record {
    from_x = bit_or (u16 (bit_and d0 0xff << 2)) (d1 >> 6);
    from_y = bit_or (u16 (bit_and d1 0x3f << 4)) (d2 >> 4);
    to_x = bit_or (u16 (bit_and d2 0x0f << 6)) (d3 >> 2);
    to_y = bit_or (u16 (bit_and d3 0x03 << 8)) d4;
    sx0 = bit_and d5 0xf0 >> 4;
    sy0 = bit_and d5 0x0f;
  })

unfoldable pub encode_move_data : MoveData → Bytes
encode_move_data m =
    u8 (m.from_x >> 2)
    ∷ u8 (bit_or (u16 (m.from_x << 6)) (bit_and (m.from_y >> 4) 0x3f))
    ∷ u8 (bit_or (u16 (m.from_y << 4)) (bit_and (m.to_x >> 6) 0x0f))
    ∷ u8 (bit_or (u16 (m.to_x << 2)) (bit_and (m.to_y >> 8) 0x03))
    ∷ u8 m.to_y
    ∷ u8 (bit_or (u8 (bit_and m.sx0 0x0f << 4)) (bit_and m.sy0 0x0f))
    ∷ []
