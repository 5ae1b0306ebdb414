-- ===== src/Session/Lengths/MapSince20150507.antt =====
-- pkg/session/lengths_map.go, lines 1863 to 2004: assignments of `populateMapLengths`.
use rathena_client.Shared.{List, [], ◌∷◌, pos, negsuc}
use rathena_client.Session.Lengths.Blocks.{Block}

abbrev pub map_since_20150507 : List Block
map_since_20150507 =
    (20150507, (0x0A3B, negsuc 0) ∷ [])
    ∷ (
      20150513,
      (0x08FE, negsuc 0)
          ∷ (0x09E7, pos 3)
          ∷ (0x09E8, pos 11)
          ∷ (0x09E9, pos 2)
          ∷ (0x09EA, pos 11)
          ∷ (0x09EC, negsuc 0)
          ∷ (0x09ED, pos 3)
          ∷ (0x09EE, pos 11)
          ∷ (0x09EF, pos 11)
          ∷ (0x09F0, negsuc 0)
          ∷ (0x09F1, pos 11)
          ∷ (0x09F2, pos 12)
          ∷ (0x09F3, pos 11)
          ∷ (0x09F4, pos 12)
          ∷ (0x09F5, pos 11)
          ∷ (0x09F6, pos 11)
          ∷ (0x09F8, negsuc 0)
          ∷ (0x09F9, pos 143)
          ∷ (0x09FA, negsuc 0)
          ∷ (0x0A03, pos 2)
          ∷ (0x0A04, pos 6)
          ∷ (0x0A06, pos 6)
          ∷ (0x0A07, pos 9)
          ∷ (0x0A08, pos 26)
          ∷ (0x0A12, pos 27)
          ∷ (0x0A23, negsuc 0)
          ∷ (0x0A24, pos 66)
          ∷ (0x0A25, pos 6)
          ∷ (0x0A26, pos 7)
          ∷ (0x0A2E, pos 6)
          ∷ (0x0A2F, pos 7)
          ∷ (0x0A32, pos 2)
          ∷ (0x0A35, pos 4)
          ∷ [],
    )
    ∷ (20150520, (0x0195, pos 0) ∷ (0x080F, pos 0) ∷ (0x0990, pos 0) ∷ (0x09AE, pos 18) ∷ [])
    ∷ (20150916, (0x097F, negsuc 0) ∷ (0x0980, pos 7) ∷ [])
    ∷ (20151202, (0x0A38, pos 3) ∷ [])
    ∷ (20151223, (0x0A41, pos 18) ∷ [])
    ∷ (20160302, (0x0A51, pos 34) ∷ [])
    ∷ (
      20160330,
      (0x0A53, pos 10)
          ∷ (0x0A55, pos 2)
          ∷ (0x0A57, pos 6)
          ∷ (0x0A58, pos 8)
          ∷ (0x0A59, negsuc 0)
          ∷ (0x0A5B, pos 7)
          ∷ (0x0A5D, pos 6)
          ∷ (0x0A6A, pos 12)
          ∷ (0x0A6B, negsuc 0)
          ∷ (0x0A6D, negsuc 0)
          ∷ (0x0A6E, negsuc 0)
          ∷ [],
    )
    ∷ (20160525, (0x0A77, pos 15) ∷ (0x0A78, pos 15) ∷ [])
    ∷ (20160601, (0x0A4E, pos 4) ∷ (0x0A50, pos 4) ∷ (0x0A7D, negsuc 0) ∷ [])
    ∷ (20160831, (0x0A3F, pos 9) ∷ [])
    ∷ (20160921, (0x0A37, pos 59) ∷ (0x0A84, pos 114) ∷ [])
    ∷ (
      20161019,
      (0x015A, pos 0)
          ∷ (0x0839, pos 0)
          ∷ (0x0A82, pos 46)
          ∷ (0x0A83, pos 46)
          ∷ (0x0A84, pos 94)
          ∷ [],
    )
    ∷ (20161026, (0x0A96, pos 45) ∷ (0x0AA5, negsuc 0) ∷ [])
    ∷ (20161102, (0x0A96, pos 51) ∷ [])
    ∷ (20161130, (0x0AA0, pos 2) ∷ (0x0AA2, negsuc 0) ∷ [])
    ∷ (20161214, (0x0AA7, pos 6) ∷ [])
    ∷ (
      20170208,
      (0x0A97, pos 8)
          ∷ (0x0A98, pos 12)
          ∷ (0x0A99, pos 8)
          ∷ (0x0A9A, pos 10)
          ∷ (0x0A9B, negsuc 0)
          ∷ (0x0A9C, pos 2)
          ∷ (0x0A9D, pos 4)
          ∷ [],
    )
    ∷ (
      20170315,
      (0x0092, pos 0)
          ∷ (0x0163, pos 0)
          ∷ (0x02EB, pos 13)
          ∷ (0x0A09, pos 0)
          ∷ (0x0A0C, pos 0)
          ∷ (0x0A18, pos 0)
          ∷ (0x0A4F, negsuc 0)
          ∷ (0x0A52, pos 20)
          ∷ (0x0A54, negsuc 0)
          ∷ (0x0A56, pos 6)
          ∷ (0x0A5A, pos 2)
          ∷ (0x0A5C, pos 18)
          ∷ (0x0A69, pos 6)
          ∷ (0x0A6C, pos 7)
          ∷ (0x0A70, pos 2)
          ∷ (0x0A87, negsuc 0)
          ∷ (0x0A88, pos 2)
          ∷ (0x0AA1, pos 4)
          ∷ (0x0AA3, pos 7)
          ∷ (0x0AA4, pos 2)
          ∷ (0x0AB5, pos 2)
          ∷ (0x0AB6, pos 6)
          ∷ (0x0AC5, pos 156)
          ∷ (0x0AC7, pos 156)
          ∷ [],
    )
    ∷ []
