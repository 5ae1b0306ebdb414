-- ===== src/Session/Lengths/MapSince20040705.antt =====
-- pkg/session/lengths_map.go, lines 566 to 704: assignments of `populateMapLengths`.
use rathena_client.Shared.{List, [], ◌∷◌, pos, negsuc}
use rathena_client.Session.Lengths.Blocks.{Block}

abbrev pub map_since_20040705 : List Block
map_since_20040705 =
    (
      20040705,
      (0x0072, pos 22)
          ∷ (0x0085, pos 8)
          ∷ (0x00A7, pos 13)
          ∷ (0x0113, pos 15)
          ∷ (0x0116, pos 15)
          ∷ (0x0190, pos 95)
          ∷ (0x0208, pos 14)
          ∷ (0x020E, pos 24)
          ∷ [],
    )
    ∷ (
      20040713,
      (0x0072, pos 39)
          ∷ (0x0085, pos 9)
          ∷ (0x009B, pos 13)
          ∷ (0x009F, pos 10)
          ∷ (0x00A7, pos 17)
          ∷ (0x0113, pos 19)
          ∷ (0x0116, pos 19)
          ∷ (0x0190, pos 99)
          ∷ [],
    )
    ∷ (
      20040726,
      (0x0072, pos 14)
          ∷ (0x007E, pos 33)
          ∷ (0x0085, pos 20)
          ∷ (0x0089, pos 15)
          ∷ (0x008C, pos 23)
          ∷ (0x0094, pos 10)
          ∷ (0x009B, pos 6)
          ∷ (0x009F, pos 13)
          ∷ (0x00A2, pos 103)
          ∷ (0x00A7, pos 12)
          ∷ (0x00F3, negsuc 0)
          ∷ (0x00F5, pos 17)
          ∷ (0x00F7, pos 10)
          ∷ (0x0113, pos 16)
          ∷ (0x0116, pos 2)
          ∷ (0x0190, pos 26)
          ∷ (0x0193, pos 9)
          ∷ [],
    )
    ∷ (
      20040809,
      (0x0072, pos 17)
          ∷ (0x007E, pos 37)
          ∷ (0x0085, pos 26)
          ∷ (0x0089, pos 12)
          ∷ (0x008C, pos 40)
          ∷ (0x0094, pos 13)
          ∷ (0x009B, pos 15)
          ∷ (0x009F, pos 12)
          ∷ (0x00A2, pos 120)
          ∷ (0x00A7, pos 11)
          ∷ (0x00F5, pos 24)
          ∷ (0x00F7, pos 13)
          ∷ (0x0113, pos 23)
          ∷ (0x0193, pos 18)
          ∷ [],
    )
    ∷ (20040816, (0x0212, pos 26) ∷ (0x0213, pos 26) ∷ (0x0214, pos 42) ∷ [])
    ∷ (20040817, (0x020F, pos 10) ∷ (0x0210, pos 22) ∷ [])
    ∷ (
      20040906,
      (0x0072, pos 20)
          ∷ (0x007E, pos 19)
          ∷ (0x0085, pos 23)
          ∷ (0x0089, pos 9)
          ∷ (0x008C, pos 105)
          ∷ (0x0094, pos 17)
          ∷ (0x009B, pos 14)
          ∷ (0x009F, negsuc 0)
          ∷ (0x00A2, pos 14)
          ∷ (0x00A7, pos 25)
          ∷ (0x00F3, pos 10)
          ∷ (0x00F5, pos 34)
          ∷ (0x00F7, pos 2)
          ∷ (0x0113, pos 11)
          ∷ (0x0116, pos 11)
          ∷ (0x0190, pos 22)
          ∷ (0x0193, pos 17)
          ∷ [],
    )
    ∷ (
      20040920,
      (0x0072, pos 18)
          ∷ (0x007E, pos 25)
          ∷ (0x0085, pos 9)
          ∷ (0x0089, pos 14)
          ∷ (0x008C, pos 109)
          ∷ (0x0094, pos 19)
          ∷ (0x009B, pos 10)
          ∷ (0x00A2, pos 10)
          ∷ (0x00A7, pos 29)
          ∷ (0x00F3, pos 18)
          ∷ (0x00F5, pos 32)
          ∷ (0x0113, pos 14)
          ∷ (0x0116, pos 14)
          ∷ (0x0190, pos 14)
          ∷ (0x0193, pos 12)
          ∷ [],
    )
    ∷ (
      20041005,
      (0x0072, pos 17)
          ∷ (0x007E, pos 16)
          ∷ (0x0089, pos 6)
          ∷ (0x008C, pos 103)
          ∷ (0x0094, pos 14)
          ∷ (0x009B, pos 15)
          ∷ (0x00A2, pos 12)
          ∷ (0x00A7, pos 23)
          ∷ (0x00F3, pos 13)
          ∷ (0x00F5, pos 33)
          ∷ (0x0113, pos 10)
          ∷ (0x0116, pos 10)
          ∷ (0x0190, pos 20)
          ∷ (0x0193, pos 26)
          ∷ [],
    )
    ∷ (
      20041025,
      (0x0072, pos 13)
          ∷ (0x007E, pos 13)
          ∷ (0x0085, pos 15)
          ∷ (0x008C, pos 108)
          ∷ (0x0094, pos 12)
          ∷ (0x009B, pos 10)
          ∷ (0x00A2, pos 16)
          ∷ (0x00A7, pos 28)
          ∷ (0x00F3, pos 15)
          ∷ (0x00F5, pos 29)
          ∷ (0x0113, pos 9)
          ∷ (0x0116, pos 9)
          ∷ (0x0190, pos 26)
          ∷ (0x0193, pos 22)
          ∷ [],
    )
    ∷ (20041101, (0x0084, negsuc 0) ∷ [])
    ∷ (20041108, (0x0084, pos 2) ∷ (0x0216, pos 6) ∷ [])
    ∷ []
