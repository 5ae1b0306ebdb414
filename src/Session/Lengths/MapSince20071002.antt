-- ===== src/Session/Lengths/MapSince20071002.antt =====
-- pkg/session/lengths_map.go, lines 1090 to 1176: assignments of `populateMapLengths`.
use rathena_client.Shared.{List, [], ◌∷◌, pos, negsuc}
use rathena_client.Session.Lengths.Blocks.{Block}

abbrev pub map_since_20071002 : List Block
map_since_20071002 =
    (
      20071002,
      (0x00A3, pos 0)
          ∷ (0x00A4, pos 0)
          ∷ (0x00A5, pos 0)
          ∷ (0x00A6, pos 0)
          ∷ (0x0122, pos 0)
          ∷ (0x0123, pos 0)
          ∷ (0x01EE, negsuc 0)
          ∷ (0x01EF, negsuc 0)
          ∷ (0x0295, negsuc 0)
          ∷ (0x0296, negsuc 0)
          ∷ (0x0297, negsuc 0)
          ∷ (0x029A, pos 0)
          ∷ (0x02D4, pos 29)
          ∷ [],
    )
    ∷ (20071023, (0x02CB, pos 65) ∷ (0x02CD, pos 71) ∷ [])
    ∷ (20071106, (0x007C, pos 42) ∷ (0x022C, pos 65) ∷ (0x029B, pos 80) ∷ [])
    ∷ (
      20071113,
      (0x008A, pos 33)
          ∷ (0x00A0, pos 0)
          ∷ (0x00FE, pos 0)
          ∷ (0x02C6, pos 30)
          ∷ (0x02E1, pos 33)
          ∷ (0x08C8, pos 33)
          ∷ [],
    )
    ∷ (
      20071120,
      (0x02E2, pos 14)
          ∷ (0x02E3, pos 25)
          ∷ (0x02E4, pos 8)
          ∷ (0x02E5, pos 8)
          ∷ (0x02E6, pos 6)
          ∷ [],
    )
    ∷ (20071127, (0x02E7, negsuc 0) ∷ [])
    ∷ (20071211, (0x02D7, negsuc 0) ∷ [])
    ∷ (
      20080102,
      (0x0073, pos 0)
          ∷ (0x01EE, pos 0)
          ∷ (0x01EF, pos 0)
          ∷ (0x0295, pos 0)
          ∷ (0x0296, pos 0)
          ∷ (0x0297, pos 0)
          ∷ (0x02D0, negsuc 0)
          ∷ (0x02D1, negsuc 0)
          ∷ (0x02D2, negsuc 0)
          ∷ (0x02E8, negsuc 0)
          ∷ (0x02E9, negsuc 0)
          ∷ (0x02EA, negsuc 0)
          ∷ (0x02EB, pos 13)
          ∷ (0x02EC, pos 67)
          ∷ (0x02ED, pos 59)
          ∷ (0x02EE, pos 60)
          ∷ (0x02EF, pos 8)
          ∷ [],
    )
    ∷ (
      20080318,
      (0x02BF, negsuc 0)
          ∷ (0x02C0, negsuc 0)
          ∷ (0x02F0, pos 10)
          ∷ (0x02F1, pos 2)
          ∷ (0x02F2, pos 2)
          ∷ [],
    )
    ∷ (
      20080325,
      (0x02F3, negsuc 0)
          ∷ (0x02F4, negsuc 0)
          ∷ (0x02F5, negsuc 0)
          ∷ (0x02F6, negsuc 0)
          ∷ (0x02F7, negsuc 0)
          ∷ (0x02F8, negsuc 0)
          ∷ (0x02F9, negsuc 0)
          ∷ (0x02FA, negsuc 0)
          ∷ (0x02FB, negsuc 0)
          ∷ (0x02FC, negsuc 0)
          ∷ (0x02FD, negsuc 0)
          ∷ (0x02FE, negsuc 0)
          ∷ (0x02FF, negsuc 0)
          ∷ (0x0300, negsuc 0)
          ∷ [],
    )
    ∷ []
