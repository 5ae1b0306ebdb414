-- ===== src/Session/Lengths/MapSince20041129.antt =====
-- pkg/session/lengths_map.go, lines 705 to 817: assignments of `populateMapLengths`.
use rathena_client.Shared.{List, [], ◌∷◌, pos, negsuc}
use rathena_client.Session.Lengths.Blocks.{Block}

abbrev pub map_since_20041129 : List Block
map_since_20041129 =
    (
      20041129,
      (0x0072, pos 22)
          ∷ (0x007E, pos 30)
          ∷ (0x0085, negsuc 0)
          ∷ (0x0089, pos 7)
          ∷ (0x008C, pos 13)
          ∷ (0x0094, pos 14)
          ∷ (0x009B, pos 2)
          ∷ (0x009F, pos 18)
          ∷ (0x00A2, pos 7)
          ∷ (0x00A7, pos 7)
          ∷ (0x00F3, pos 8)
          ∷ (0x00F7, pos 14)
          ∷ (0x0113, pos 110)
          ∷ (0x0116, pos 12)
          ∷ (0x0190, pos 15)
          ∷ (0x0193, pos 21)
          ∷ (0x0222, pos 6)
          ∷ [],
    )
    ∷ (
      20041213,
      (0x0066, pos 3)
          ∷ (0x0070, pos 3)
          ∷ (0x01CA, pos 3)
          ∷ (0x021E, pos 6)
          ∷ (0x021F, pos 66)
          ∷ (0x0220, pos 10)
          ∷ [],
    )
    ∷ (
      20050110,
      (0x0072, pos 26)
          ∷ (0x007E, pos 114)
          ∷ (0x0085, pos 23)
          ∷ (0x0089, pos 9)
          ∷ (0x008C, pos 8)
          ∷ (0x0094, pos 20)
          ∷ (0x009B, pos 32)
          ∷ (0x009F, pos 17)
          ∷ (0x00A2, pos 11)
          ∷ (0x00A7, pos 13)
          ∷ (0x00F3, negsuc 0)
          ∷ (0x00F5, pos 9)
          ∷ (0x00F7, pos 21)
          ∷ (0x0113, pos 34)
          ∷ (0x0116, pos 20)
          ∷ (0x0190, pos 20)
          ∷ (0x0193, pos 2)
          ∷ [],
    )
    ∷ (20050404, (0x0227, pos 18) ∷ (0x0228, pos 18) ∷ [])
    ∷ (20050411, (0x022A, pos 58) ∷ (0x022B, pos 57) ∷ (0x022C, pos 64) ∷ [])
    ∷ (20050425, (0x022D, pos 5) ∷ (0x0233, pos 11) ∷ (0x0234, pos 6) ∷ [])
    ∷ (
      20050509,
      (0x0072, pos 25)
          ∷ (0x007E, pos 102)
          ∷ (0x0085, pos 11)
          ∷ (0x0089, pos 8)
          ∷ (0x008C, pos 11)
          ∷ (0x0094, pos 14)
          ∷ (0x009B, pos 26)
          ∷ (0x009F, pos 14)
          ∷ (0x00A2, pos 15)
          ∷ (0x00A7, pos 8)
          ∷ (0x00F5, pos 8)
          ∷ (0x00F7, pos 22)
          ∷ (0x0113, pos 22)
          ∷ (0x0116, pos 10)
          ∷ (0x0190, pos 19)
          ∷ [],
    )
    ∷ (20050523, (0x022E, pos 69) ∷ [])
    ∷ (20050530, (0x022E, pos 71) ∷ [])
    ∷ (20050531, (0x0216, pos 2) ∷ [])
    ∷ (
      20050608,
      (0x0216, pos 6)
          ∷ (0x0231, pos 26)
          ∷ (0x023A, pos 4)
          ∷ (0x023B, pos 36)
          ∷ (0x023C, pos 6)
          ∷ [],
    )
    ∷ (
      20050628,
      (0x0072, pos 34)
          ∷ (0x007E, pos 113)
          ∷ (0x0085, pos 17)
          ∷ (0x0089, pos 13)
          ∷ (0x008C, pos 8)
          ∷ (0x0094, pos 31)
          ∷ (0x009B, pos 32)
          ∷ (0x009F, pos 19)
          ∷ (0x00A2, pos 9)
          ∷ (0x00A7, pos 11)
          ∷ (0x00F5, pos 13)
          ∷ (0x00F7, pos 18)
          ∷ (0x0113, pos 33)
          ∷ (0x0116, pos 12)
          ∷ (0x0190, pos 24)
          ∷ (0x0216, negsuc 0)
          ∷ (0x023D, negsuc 0)
          ∷ (0x023E, pos 4)
          ∷ [],
    )
    ∷ []
