-- ===== src/Session/Lengths/MapSince20060424.antt =====
-- pkg/session/lengths_map.go, lines 957 to 1089: assignments of `populateMapLengths`.
use rathena_client.Shared.{List, [], ◌∷◌, pos, negsuc}
use rathena_client.Session.Lengths.Blocks.{Block}

abbrev pub map_since_20060424 : List Block
map_since_20060424 =
    (
      20060424,
      (0x023E, pos 8)
          ∷ (0x0277, pos 84)
          ∷ (0x0278, pos 2)
          ∷ (0x0279, pos 2)
          ∷ (0x027A, negsuc 0)
          ∷ (0x027B, pos 14)
          ∷ (0x027C, pos 60)
          ∷ (0x027D, pos 62)
          ∷ (0x027E, negsuc 0)
          ∷ (0x027F, pos 8)
          ∷ (0x0280, pos 12)
          ∷ (0x0281, pos 4)
          ∷ (0x0282, pos 284)
          ∷ (0x0284, pos 14)
          ∷ (0x0285, pos 6)
          ∷ (0x0286, pos 4)
          ∷ (0x0288, pos 6)
          ∷ (0x0289, pos 8)
          ∷ (0x028B, negsuc 0)
          ∷ (0x028C, pos 46)
          ∷ (0x028D, pos 34)
          ∷ (0x028E, pos 4)
          ∷ (0x028F, pos 6)
          ∷ (0x0290, pos 4)
          ∷ (0x0292, pos 2)
          ∷ (0x0294, pos 10)
          ∷ (0x029C, pos 66)
          ∷ (0x029D, negsuc 0)
          ∷ (0x029E, pos 11)
          ∷ (0x029F, pos 3)
          ∷ (0x02A0, negsuc 0)
          ∷ (0x02A1, negsuc 0)
          ∷ (0x02A2, pos 8)
          ∷ [],
    )
    ∷ (20061023, (0x006D, pos 110) ∷ [])
    ∷ (20061218, (0x029A, pos 27) ∷ [])
    ∷ (
      20070108,
      (0x0072, pos 30)
          ∷ (0x0085, pos 14)
          ∷ (0x0089, pos 11)
          ∷ (0x008C, pos 17)
          ∷ (0x0094, pos 17)
          ∷ (0x009B, pos 35)
          ∷ (0x009F, pos 21)
          ∷ (0x00A2, pos 10)
          ∷ (0x00A7, pos 8)
          ∷ (0x00F5, pos 11)
          ∷ (0x00F7, pos 15)
          ∷ (0x0116, pos 19)
          ∷ (0x0190, pos 10)
          ∷ [],
    )
    ∷ (20070122, (0x02A3, pos 18) ∷ (0x02A4, pos 2) ∷ [])
    ∷ (20070129, (0x029B, pos 72) ∷ (0x02A3, negsuc 0) ∷ (0x02A4, negsuc 0) ∷ (0x02A5, pos 8) ∷ [])
    ∷ (20070205, (0x02AA, pos 4) ∷ (0x02AB, pos 36) ∷ (0x02AC, pos 6) ∷ [])
    ∷ (
      20070212,
      (0x0072, pos 25)
          ∷ (0x007E, pos 102)
          ∷ (0x0085, pos 11)
          ∷ (0x0089, pos 8)
          ∷ (0x008C, pos 11)
          ∷ (0x0094, pos 14)
          ∷ (0x009B, pos 26)
          ∷ (0x009F, pos 14)
          ∷ (0x00A2, pos 15)
          ∷ (0x00F5, pos 8)
          ∷ (0x00F7, pos 22)
          ∷ (0x0113, pos 22)
          ∷ (0x0116, pos 10)
          ∷ (0x0190, pos 19)
          ∷ [],
    )
    ∷ (
      20070227,
      (0x0288, pos 10)
          ∷ (0x0289, pos 12)
          ∷ (0x02A6, pos 22)
          ∷ (0x02A7, pos 22)
          ∷ (0x02A8, pos 162)
          ∷ (0x02A9, pos 58)
          ∷ (0x02AD, pos 8)
          ∷ (0x02B0, pos 85)
          ∷ (0x02B1, negsuc 0)
          ∷ (0x02B2, negsuc 0)
          ∷ (0x02B3, pos 107)
          ∷ (0x02B4, pos 6)
          ∷ (0x02B5, negsuc 0)
          ∷ (0x02B7, pos 7)
          ∷ (0x02B9, pos 191)
          ∷ (0x02BA, pos 11)
          ∷ (0x02BC, pos 6)
          ∷ (0x02BF, pos 10)
          ∷ (0x02C0, pos 2)
          ∷ (0x02C1, negsuc 0)
          ∷ (0x02C2, negsuc 0)
          ∷ (0x02C5, pos 30)
          ∷ (0x02CA, pos 3)
          ∷ (0x02CB, pos 20)
          ∷ (0x02CC, pos 4)
          ∷ (0x02CD, pos 26)
          ∷ (0x02CE, pos 10)
          ∷ (0x02CF, pos 6)
          ∷ (0x02D5, pos 2)
          ∷ (0x02D6, pos 6)
          ∷ (0x02D8, pos 10)
          ∷ (0x02D9, pos 10)
          ∷ (0x02DB, negsuc 0)
          ∷ (0x02DC, negsuc 0)
          ∷ (0x02DD, pos 32)
          ∷ (0x02DE, pos 6)
          ∷ (0x02DF, pos 36)
          ∷ (0x02E0, pos 34)
          ∷ [],
    )
    ∷ (20070731, (0x02B8, pos 22) ∷ [])
    ∷ (20070911, (0x02C9, pos 3) ∷ [])
    ∷ []
