-- ===== src/Session/Lengths/MapSince20080827.antt =====
-- pkg/session/lengths_map.go, lines 1321 to 1462: assignments of `populateMapLengths`.
use rathena_client.Shared.{List, [], ◌∷◌, pos, negsuc}
use rathena_client.Session.Lengths.Blocks.{Block}

abbrev pub map_since_20080827 : List Block
map_since_20080827 =
    (
      20080827,
      (0x0072, pos 22)
          ∷ (0x007C, pos 44)
          ∷ (0x007E, pos 105)
          ∷ (0x0085, pos 10)
          ∷ (0x0089, pos 11)
          ∷ (0x008C, pos 14)
          ∷ (0x0094, pos 19)
          ∷ (0x009B, pos 34)
          ∷ (0x009F, pos 20)
          ∷ (0x00A2, pos 14)
          ∷ (0x00A7, pos 9)
          ∷ (0x00F5, pos 11)
          ∷ (0x00F7, pos 17)
          ∷ (0x0113, pos 25)
          ∷ (0x0116, pos 17)
          ∷ (0x0190, pos 23)
          ∷ (0x02E2, pos 20)
          ∷ (0x02E3, pos 22)
          ∷ (0x02E4, pos 11)
          ∷ (0x02E5, pos 9)
          ∷ [],
    )
    ∷ (20080910, (0x0436, pos 19) ∷ (0x0437, pos 7) ∷ (0x0438, pos 10) ∷ (0x0439, pos 8) ∷ [])
    ∷ (20081112, (0x043D, pos 8) ∷ (0x043F, pos 8) ∷ [])
    ∷ (20081113, (0x043E, negsuc 0) ∷ [])
    ∷ (20081217, (0x006D, pos 114) ∷ [])
    ∷ (20090114, (0x0444, negsuc 0) ∷ (0x0445, pos 10) ∷ [])
    ∷ (20090121, (0x043F, pos 25) ∷ [])
    ∷ (20090218, (0x0446, pos 14) ∷ [])
    ∷ (20090225, (0x0448, negsuc 0) ∷ [])
    ∷ (20090330, (0x0449, pos 4) ∷ [])
    ∷ (20090406, (0x013E, pos 24) ∷ (0x01CD, pos 30) ∷ [])
    ∷ (20090408, (0x02A6, negsuc 0) ∷ (0x02A7, negsuc 0) ∷ (0x044A, pos 6) ∷ [])
    ∷ (20090520, (0x0447, pos 2) ∷ [])
    ∷ (20090603, (0x07D7, pos 8) ∷ (0x07D8, pos 8) ∷ (0x07D9, pos 254) ∷ (0x07DA, pos 6) ∷ [])
    ∷ (20090617, (0x07D9, pos 268) ∷ [])
    ∷ (20090818, (0x07E3, pos 6) ∷ (0x07E4, negsuc 0) ∷ [])
    ∷ (20090825, (0x07E7, pos 5) ∷ [])
    ∷ (20090922, (0x07E5, pos 8) ∷ (0x07E7, pos 32) ∷ (0x07E8, negsuc 0) ∷ (0x07E9, pos 5) ∷ [])
    ∷ (20091027, (0x07F5, pos 6) ∷ [])
    ∷ (20091103, (0x07F7, negsuc 0) ∷ (0x07F8, negsuc 0) ∷ (0x07F9, negsuc 0) ∷ [])
    ∷ (20091124, (0x013E, pos 0) ∷ (0x07FB, pos 25) ∷ [])
    ∷ (20091201, (0x07FC, pos 10) ∷ (0x07FD, pos 35) ∷ (0x07FE, pos 26) ∷ [])
    ∷ (
      20091229,
      (0x0804, pos 14)
          ∷ (0x0806, pos 2)
          ∷ (0x0807, pos 4)
          ∷ (0x0808, pos 14)
          ∷ (0x0809, pos 50)
          ∷ (0x080A, pos 18)
          ∷ (0x080B, pos 6)
          ∷ [],
    )
    ∷ (20100223, (0x080F, pos 20) ∷ [])
    ∷ (20100303, (0x0810, pos 3) ∷ (0x0811, negsuc 0) ∷ [])
    ∷ (20100309, (0x0816, pos 6) ∷ (0x081D, pos 22) ∷ [])
    ∷ (20100413, (0x0820, pos 11) ∷ [])
    ∷ (
      20100420,
      (0x0812, pos 8)
          ∷ (0x0814, pos 86)
          ∷ (0x0815, pos 2)
          ∷ (0x0817, pos 6)
          ∷ (0x0819, negsuc 0)
          ∷ (0x081A, pos 4)
          ∷ (0x081B, pos 10)
          ∷ (0x081C, pos 10)
          ∷ [],
    )
    ∷ (20100608, (0x0838, pos 2) ∷ (0x083B, pos 2) ∷ [])
    ∷ []
