-- ===== src/Session/Lengths/MapSince20120410.antt =====
-- pkg/session/lengths_map.go, lines 1585 to 1718: assignments of `populateMapLengths`.
use rathena_client.Shared.{List, [], ◌∷◌, pos, negsuc}
use rathena_client.Session.Lengths.Blocks.{Block}

abbrev pub map_since_20120410 : List Block
map_since_20120410 =
    (
      20120410,
      (0x0369, pos 7)
          ∷ (0x083C, pos 10)
          ∷ (0x084A, pos 2)
          ∷ (0x086C, pos 8)
          ∷ (0x0871, pos 5)
          ∷ (0x0884, pos 6)
          ∷ (0x0885, pos 5)
          ∷ (0x0886, pos 6)
          ∷ (0x0889, pos 6)
          ∷ (0x0891, pos 6)
          ∷ (0x089C, pos 26)
          ∷ (0x08A6, pos 8)
          ∷ (0x08C9, pos 2)
          ∷ (0x08D7, pos 28)
          ∷ (0x08D8, pos 27)
          ∷ (0x08D9, pos 30)
          ∷ (0x08DA, pos 26)
          ∷ (0x08DB, pos 27)
          ∷ (0x08DC, pos 26)
          ∷ (0x08DD, pos 27)
          ∷ (0x08DE, pos 27)
          ∷ (0x08DF, pos 50)
          ∷ (0x08E0, pos 51)
          ∷ (0x08E1, pos 51)
          ∷ (0x08E6, pos 4)
          ∷ (0x08E7, pos 10)
          ∷ (0x08E8, negsuc 0)
          ∷ (0x08E9, pos 2)
          ∷ (0x08EA, pos 4)
          ∷ (0x08EB, pos 39)
          ∷ (0x08EC, pos 73)
          ∷ (0x08ED, pos 43)
          ∷ (0x08EE, pos 6)
          ∷ (0x08EF, pos 6)
          ∷ (0x08F0, pos 6)
          ∷ (0x08F1, pos 6)
          ∷ (0x08F2, pos 36)
          ∷ (0x08F3, negsuc 0)
          ∷ (0x08F4, pos 6)
          ∷ (0x08F5, negsuc 0)
          ∷ (0x08F6, pos 22)
          ∷ (0x08F7, pos 3)
          ∷ (0x08F8, pos 7)
          ∷ (0x08F9, pos 6)
          ∷ (0x08FA, pos 6)
          ∷ (0x08FB, pos 6)
          ∷ (0x090A, pos 26)
          ∷ (0x091C, pos 26)
          ∷ (0x091D, pos 41)
          ∷ (0x0938, pos 6)
          ∷ (0x0945, negsuc 0)
          ∷ (0x094B, pos 19)
          ∷ (0x0961, pos 36)
          ∷ (0x0974, pos 2)
          ∷ [],
    )
    ∷ (
      20120418,
      (0x0202, pos 5)
          ∷ (0x022D, pos 19)
          ∷ (0x023B, pos 26)
          ∷ (0x0281, negsuc 0)
          ∷ (0x035F, pos 6)
          ∷ (0x0364, pos 8)
          ∷ (0x07E4, pos 6)
          ∷ (0x07EC, pos 8)
          ∷ (0x0802, pos 26)
          ∷ (0x08A8, pos 36)
          ∷ (0x08E5, pos 41)
          ∷ [],
    )
    ∷ (
      20120618,
      (0x0859, pos 0)
          ∷ (0x0861, pos 41)
          ∷ (0x08CB, pos 0)
          ∷ (0x08FF, pos 0)
          ∷ (0x097B, negsuc 0)
          ∷ (0x0983, pos 29)
          ∷ (0x0984, pos 28)
          ∷ [],
    )
    ∷ (
      20120702,
      (0x0363, pos 19)
          ∷ (0x0364, pos 6)
          ∷ (0x085A, pos 7)
          ∷ (0x0861, pos 8)
          ∷ (0x0862, pos 10)
          ∷ (0x0863, pos 10)
          ∷ (0x0879, pos 41)
          ∷ (0x0889, pos 90)
          ∷ (0x089E, pos 6)
          ∷ (0x089F, pos 6)
          ∷ (0x08A0, pos 8)
          ∷ (0x094A, pos 6)
          ∷ (0x0953, pos 5)
          ∷ (0x0960, pos 5)
          ∷ [],
    )
    ∷ (
      20120925,
      (0x00A9, pos 0)
          ∷ (0x02D0, pos 0)
          ∷ (0x02D1, pos 0)
          ∷ (0x02D2, pos 0)
          ∷ (0x02D4, pos 0)
          ∷ (0x02E8, pos 0)
          ∷ (0x02E9, pos 0)
          ∷ (0x02EA, pos 0)
          ∷ (0x0990, pos 31)
          ∷ (0x0991, negsuc 0)
          ∷ (0x0992, negsuc 0)
          ∷ (0x0993, negsuc 0)
          ∷ (0x0994, negsuc 0)
          ∷ (0x0995, negsuc 0)
          ∷ (0x0996, negsuc 0)
          ∷ (0x0998, pos 8)
          ∷ [],
    )
    ∷ (20121010, (0x099B, pos 8) ∷ [])
    ∷ (20121107, (0x0997, negsuc 0) ∷ [])
    ∷ (20121205, (0x0999, pos 11) ∷ [])
    ∷ (20121212, (0x08C7, pos 20) ∷ (0x099F, pos 22) ∷ [])
    ∷ (20130000, (0x00AA, pos 0) ∷ (0x08D1, pos 0) ∷ (0x0906, pos 0) ∷ (0x099A, pos 9) ∷ [])
    ∷ (20130001, (0x084B, pos 19) ∷ [])
    ∷ []
