-- ===== src/Packing/RoundTrip.antt =====
-- Both directions of both codecs of pkg/packing/packing.go.
use rathena_client.Shared.{
  ℕ, ◌+◌, ◌*◌, ◌/◌, ◌%◌, ◌≡◌, arith, [], ◌∷◌, ◌++◌, ◌∙◌, some, IsByte, Bytes,
}
use rathena_client.Packing.{
  PosDir, MoveData, decode_pos_dir, encode_pos_dir, decode_move_data, encode_move_data,
}
use rathena_client.Packing.Fields.{
  pos_dir_of_bytes, bytes_of_pos_dir, move_data_of_bytes, bytes_of_move_data,
}

-- Encoding any coordinates and direction, and decoding the three bytes with whatever follows them,
-- gives each coordinate cut to 10 bits and the direction cut to 4 bits: for 10-bit coordinates and
-- a 4-bit direction, the values themselves.
pub decode_pos_dir-encode_pos_dir :
    (x y dir : ℕ) (rest : Bytes)
    → decode_pos_dir (encode_pos_dir x y dir ++ rest)
      ≡ some (record { x = x % 1024; y = y % 1024; dir = dir % 16 })
decode_pos_dir-encode_pos_dir x y dir rest = rw (bytes_of_pos_dir x y dir) (
    pos_dir_of_bytes (x / 4 % 256) (x % 4 * 64 + y / 16 % 64) (y % 16 * 16 + dir % 16) rest
      (omega arith) (omega arith) (omega arith)
    ∙ ground arith)

-- Decoding three bytes does not fail, and encoding the decoded fields gives the same bytes back:
-- the format has no bit that the fields lose.
pub encode_pos_dir-decode_pos_dir :
    (a b c : ℕ)
    → IsByte a
    → IsByte b
    → IsByte c
    → (p : PosDir) × (decode_pos_dir (a ∷ b ∷ c ∷ []) ≡ some p)
      × (encode_pos_dir p.x p.y p.dir ≡ a ∷ b ∷ c ∷ [])
encode_pos_dir-decode_pos_dir a b c ha hb hc = (
  record { x = a * 4 + b / 64; y = b % 64 * 16 + c / 16; dir = c % 16 },
  pos_dir_of_bytes a b c [] ha hb hc,
  bytes_of_pos_dir (a * 4 + b / 64) (b % 64 * 16 + c / 16) (c % 16) ∙ ground arith,
)

-- Encoding any movement record and decoding the six bytes with whatever follows them gives each
-- coordinate cut to 10 bits and each sub-cell offset cut to 4 bits.
pub decode_move_data-encode_move_data :
    (m : MoveData) (rest : Bytes)
    → decode_move_data (encode_move_data m ++ rest)
      ≡ some (record {
        from_x = m.from_x % 1024;
        from_y = m.from_y % 1024;
        to_x = m.to_x % 1024;
        to_y = m.to_y % 1024;
        sx0 = m.sx0 % 16;
        sy0 = m.sy0 % 16;
      })
decode_move_data-encode_move_data m rest = rw (bytes_of_move_data m) (
    move_data_of_bytes (m.from_x / 4 % 256) (m.from_x % 4 * 64 + m.from_y / 16 % 64)
      (m.from_y % 16 * 16 + m.to_x / 64 % 16) (m.to_x % 64 * 4 + m.to_y / 256 % 4) (m.to_y % 256)
      (m.sx0 % 16 * 16 + m.sy0 % 16) rest (omega arith) (omega arith) (omega arith) (omega arith)
      (omega arith) (omega arith)
    ∙ ground arith)

-- Decoding six bytes does not fail, and encoding the decoded record gives the same bytes back.
pub encode_move_data-decode_move_data :
    (a b c d e f : ℕ)
    → IsByte a
    → IsByte b
    → IsByte c
    → IsByte d
    → IsByte e
    → IsByte f
    → (m : MoveData) × (decode_move_data (a ∷ b ∷ c ∷ d ∷ e ∷ f ∷ []) ≡ some m)
      × (encode_move_data m ≡ a ∷ b ∷ c ∷ d ∷ e ∷ f ∷ [])
encode_move_data-decode_move_data a b c d e f ha hb hc hd he hf =
    let m : MoveData = record {
      from_x = a * 4 + b / 64;
      from_y = b % 64 * 16 + c / 16;
      to_x = c % 16 * 64 + d / 4;
      to_y = d % 4 * 256 + e;
      sx0 = f / 16;
      sy0 = f % 16;
    } in
    (m, move_data_of_bytes a b c d e f [] ha hb hc hd he hf, bytes_of_move_data m ∙ ground arith)
