-- ===== src/Session/Lengths/MapSince20250402.antt =====
-- pkg/session/lengths_map.go, lines 2293 to 2306: assignments of `populateMapLengths`.
use rathena_client.Shared.{List, [], ◌∷◌, pos, negsuc}
use rathena_client.Session.Lengths.Blocks.{Block}

abbrev pub map_since_20250402 : List Block
map_since_20250402 =
    (
      20250402,
      (0x07FD, pos 0)
          ∷ (0x07FE, pos 0)
          ∷ (0x0972, negsuc 0)
          ∷ (0x0973, pos 7)
          ∷ (0x0B76, pos 0)
          ∷ (0x0B8C, negsuc 0)
          ∷ (0x0BA4, pos 85)
          ∷ (0x0BA8, pos 7)
          ∷ (0x0BAF, pos 16)
          ∷ (0x0BB0, pos 9)
          ∷ (0x0BBA, pos 44)
          ∷ (0x0BF5, pos 6)
          ∷ [],
    )
    ∷ []
