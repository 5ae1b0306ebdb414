-- ===== src/Session/Lengths/MapSince20050718.antt =====
-- pkg/session/lengths_map.go, lines 818 to 956: assignments of `populateMapLengths`.
use rathena_client.Shared.{List, [], ◌∷◌, pos, negsuc}
use rathena_client.Session.Lengths.Blocks.{Block}

abbrev pub map_since_20050718 : List Block
map_since_20050718 =
    (
      20050718,
      (0x0072, pos 19)
          ∷ (0x007E, pos 110)
          ∷ (0x0085, pos 11)
          ∷ (0x0089, pos 7)
          ∷ (0x008C, pos 11)
          ∷ (0x0094, pos 21)
          ∷ (0x009B, pos 31)
          ∷ (0x009F, pos 12)
          ∷ (0x00A2, pos 18)
          ∷ (0x00A7, pos 15)
          ∷ (0x00F5, pos 7)
          ∷ (0x00F7, pos 13)
          ∷ (0x0113, pos 30)
          ∷ (0x0190, pos 21)
          ∷ (0x0216, pos 6)
          ∷ (0x023F, pos 2)
          ∷ (0x0240, pos 8)
          ∷ (0x0241, pos 6)
          ∷ (0x0242, negsuc 0)
          ∷ (0x0243, pos 6)
          ∷ (0x0244, pos 6)
          ∷ (0x0245, pos 7)
          ∷ (0x0246, pos 4)
          ∷ (0x0247, pos 8)
          ∷ (0x0248, pos 68)
          ∷ (0x0249, pos 3)
          ∷ (0x024A, pos 70)
          ∷ (0x024B, pos 4)
          ∷ (0x024C, pos 8)
          ∷ (0x024D, pos 14)
          ∷ (0x024E, pos 6)
          ∷ (0x0250, pos 3)
          ∷ (0x0251, pos 2)
          ∷ (0x0252, negsuc 0)
          ∷ [],
    )
    ∷ (
      20050719,
      (0x0072, pos 34)
          ∷ (0x007E, pos 113)
          ∷ (0x0085, pos 17)
          ∷ (0x0089, pos 13)
          ∷ (0x008C, pos 8)
          ∷ (0x0094, pos 31)
          ∷ (0x009B, pos 32)
          ∷ (0x009F, pos 19)
          ∷ (0x00A2, pos 9)
          ∷ (0x00A7, pos 11)
          ∷ (0x00F5, pos 13)
          ∷ (0x00F7, pos 18)
          ∷ (0x0113, pos 33)
          ∷ (0x0190, pos 24)
          ∷ [],
    )
    ∷ (20050801, (0x0245, pos 3) ∷ (0x0251, pos 4) ∷ [])
    ∷ (20050808, (0x024E, pos 4) ∷ [])
    ∷ (20050817, (0x0253, pos 3) ∷ (0x0254, pos 3) ∷ [])
    ∷ (
      20050829,
      (0x0240, negsuc 0)
          ∷ (0x0248, negsuc 0)
          ∷ (0x0255, pos 5)
          ∷ (0x0256, negsuc 0)
          ∷ (0x0257, pos 8)
          ∷ [],
    )
    ∷ (20050912, (0x0256, pos 5) ∷ (0x0258, pos 2) ∷ (0x0259, pos 3) ∷ [])
    ∷ (20051010, (0x020E, pos 32) ∷ [])
    ∷ (20051013, (0x007A, pos 6) ∷ (0x0251, pos 32) ∷ (0x025C, pos 4) ∷ [])
    ∷ (20051017, (0x007A, pos 58) ∷ (0x025D, pos 6) ∷ (0x025E, pos 4) ∷ [])
    ∷ (20051024, (0x025F, pos 6) ∷ (0x0260, pos 6) ∷ [])
    ∷ (20051107, (0x024E, pos 6) ∷ [])
    ∷ (
      20060109,
      (0x0261, pos 11)
          ∷ (0x0262, pos 11)
          ∷ (0x0263, pos 11)
          ∷ (0x0264, pos 20)
          ∷ (0x0265, pos 20)
          ∷ (0x0266, pos 30)
          ∷ (0x0267, pos 4)
          ∷ (0x0268, pos 4)
          ∷ (0x0269, pos 4)
          ∷ (0x026A, pos 4)
          ∷ (0x026B, pos 4)
          ∷ (0x026C, pos 4)
          ∷ (0x026D, pos 4)
          ∷ (0x026F, pos 2)
          ∷ (0x0270, pos 2)
          ∷ (0x0271, pos 38)
          ∷ (0x0272, pos 44)
          ∷ [],
    )
    ∷ (20060126, (0x0271, pos 40) ∷ [])
    ∷ (20060306, (0x0273, pos 6) ∷ (0x0274, pos 8) ∷ [])
    ∷ (20060313, (0x0273, pos 30) ∷ [])
    ∷ (
      20060327,
      (0x0072, pos 26)
          ∷ (0x007E, pos 120)
          ∷ (0x0085, pos 12)
          ∷ (0x008C, pos 12)
          ∷ (0x0094, pos 23)
          ∷ (0x009B, pos 37)
          ∷ (0x009F, pos 24)
          ∷ (0x00A2, pos 11)
          ∷ (0x00A7, pos 15)
          ∷ (0x00F7, pos 26)
          ∷ (0x0113, pos 40)
          ∷ (0x0116, pos 17)
          ∷ (0x0190, pos 18)
          ∷ [],
    )
    ∷ []
