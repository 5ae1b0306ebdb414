-- ===== src/Packing/Tests.antt =====
-- Runs of the packed formats, and the round trips at concrete inputs.
use rathena_client.Shared.{◌≡◌, refl, arith, some, [], ◌∷◌, ◌++◌}
use rathena_client.Packing.{
  PosDir, MoveData, decode_pos_dir, encode_pos_dir, decode_move_data, encode_move_data,
}
use rathena_client.Packing.RoundTrip.{
  decode_pos_dir-encode_pos_dir, encode_pos_dir-decode_pos_dir, decode_move_data-encode_move_data,
  encode_move_data-decode_move_data,
}

abbrev walk : MoveData
walk = record { from_x = 150; from_y = 160; to_x = 1023; to_y = 7; sx0 = 8; sy0 = 8 }

walk_bytes : encode_move_data walk ≡ 37 ∷ 138 ∷ 15 ∷ 252 ∷ 7 ∷ 136 ∷ []
unfolding encode_move_data
walk_bytes = refl

decode_pos_dir-encode_pos_dir_example :
    decode_pos_dir (encode_pos_dir 53 111 4 ++ 9 ∷ []) ≡ some (record { x = 53; y = 111; dir = 4 })
decode_pos_dir-encode_pos_dir_example = decode_pos_dir-encode_pos_dir 53 111 4 (9 ∷ [])

encode_pos_dir-decode_pos_dir_example :
    (p : PosDir) × (decode_pos_dir (13 ∷ 70 ∷ 244 ∷ []) ≡ some p)
    × (encode_pos_dir p.x p.y p.dir ≡ 13 ∷ 70 ∷ 244 ∷ [])
encode_pos_dir-decode_pos_dir_example =
    encode_pos_dir-decode_pos_dir 13 70 244 (omega arith) (omega arith) (omega arith)

decode_move_data-encode_move_data_example :
    decode_move_data (encode_move_data walk ++ 1 ∷ []) ≡ some walk
decode_move_data-encode_move_data_example = decode_move_data-encode_move_data walk (1 ∷ [])

encode_move_data-decode_move_data_example :
    (m : MoveData) × (decode_move_data (37 ∷ 138 ∷ 15 ∷ 252 ∷ 7 ∷ 136 ∷ []) ≡ some m)
    × (encode_move_data m ≡ 37 ∷ 138 ∷ 15 ∷ 252 ∷ 7 ∷ 136 ∷ [])
encode_move_data-decode_move_data_example =
    encode_move_data-decode_move_data 37 138 15 252 7 136 (omega arith) (omega arith) (omega arith)
      (omega arith) (omega arith) (omega arith)
