-- ===== src/Session/Lengths/MapBase0064.antt =====
-- pkg/session/lengths_map.go, lines 9 to 148: assignments of `populateMapLengths`.
use rathena_client.Shared.{List, [], ◌∷◌, pos, negsuc}
use rathena_client.Session.Lengths.Blocks.{Block}

abbrev pub map_base_0064 : List Block
map_base_0064 =
    (
      0,
      (0x0064, pos 55)
          ∷ (0x0065, pos 17)
          ∷ (0x0066, pos 6)
          ∷ (0x0067, pos 37)
          ∷ (0x0068, pos 46)
          ∷ (0x0069, negsuc 0)
          ∷ (0x006A, pos 23)
          ∷ (0x006B, negsuc 0)
          ∷ (0x006C, pos 3)
          ∷ (0x006D, pos 108)
          ∷ (0x006E, pos 3)
          ∷ (0x006F, pos 2)
          ∷ (0x0070, pos 6)
          ∷ (0x0071, pos 28)
          ∷ (0x0072, pos 19)
          ∷ (0x0073, pos 11)
          ∷ (0x0074, pos 3)
          ∷ (0x0075, negsuc 0)
          ∷ (0x0076, pos 9)
          ∷ (0x0077, pos 5)
          ∷ (0x0079, pos 53)
          ∷ (0x007A, pos 58)
          ∷ (0x007B, pos 60)
          ∷ (0x007C, pos 41)
          ∷ (0x007D, pos 2)
          ∷ (0x007E, pos 6)
          ∷ (0x007F, pos 6)
          ∷ (0x0080, pos 7)
          ∷ (0x0081, pos 3)
          ∷ (0x0082, pos 2)
          ∷ (0x0083, pos 2)
          ∷ (0x0084, pos 2)
          ∷ (0x0085, pos 5)
          ∷ (0x0086, pos 16)
          ∷ (0x0087, pos 12)
          ∷ (0x0088, pos 10)
          ∷ (0x0089, pos 7)
          ∷ (0x008A, pos 29)
          ∷ (0x008B, pos 2)
          ∷ (0x008C, negsuc 0)
          ∷ (0x008D, negsuc 0)
          ∷ (0x008E, negsuc 0)
          ∷ (0x0090, pos 7)
          ∷ (0x0091, pos 22)
          ∷ (0x0092, pos 28)
          ∷ (0x0093, pos 2)
          ∷ (0x0094, pos 6)
          ∷ (0x0095, pos 30)
          ∷ (0x0096, negsuc 0)
          ∷ (0x0097, negsuc 0)
          ∷ (0x0098, pos 3)
          ∷ (0x0099, negsuc 0)
          ∷ (0x009A, negsuc 0)
          ∷ (0x009B, pos 5)
          ∷ (0x009C, pos 9)
          ∷ (0x009D, pos 17)
          ∷ (0x009E, pos 17)
          ∷ (0x009F, pos 6)
          ∷ (0x00A0, pos 23)
          ∷ (0x00A1, pos 6)
          ∷ (0x00A2, pos 6)
          ∷ (0x00A3, negsuc 0)
          ∷ (0x00A4, negsuc 0)
          ∷ (0x00A5, negsuc 0)
          ∷ (0x00A6, negsuc 0)
          ∷ (0x00A7, pos 8)
          ∷ (0x00A9, pos 6)
          ∷ (0x00AA, pos 7)
          ∷ (0x00AB, pos 4)
          ∷ (0x00AC, pos 7)
          ∷ (0x00AE, negsuc 0)
          ∷ (0x00AF, pos 6)
          ∷ (0x00B0, pos 8)
          ∷ (0x00B1, pos 8)
          ∷ (0x00B2, pos 3)
          ∷ (0x00B3, pos 3)
          ∷ (0x00B4, negsuc 0)
          ∷ (0x00B5, pos 6)
          ∷ (0x00B6, pos 6)
          ∷ (0x00B7, negsuc 0)
          ∷ (0x00B8, pos 7)
          ∷ (0x00B9, pos 6)
          ∷ (0x00BA, pos 2)
          ∷ (0x00BB, pos 5)
          ∷ (0x00BC, pos 6)
          ∷ (0x00BD, pos 44)
          ∷ (0x00BE, pos 5)
          ∷ (0x00BF, pos 3)
          ∷ (0x00C0, pos 7)
          ∷ (0x00C1, pos 2)
          ∷ (0x00C2, pos 6)
          ∷ (0x00C3, pos 8)
          ∷ (0x00C4, pos 6)
          ∷ (0x00C5, pos 7)
          ∷ (0x00C6, negsuc 0)
          ∷ (0x00C7, negsuc 0)
          ∷ (0x00C8, negsuc 0)
          ∷ (0x00C9, negsuc 0)
          ∷ (0x00CA, pos 3)
          ∷ (0x00CB, pos 3)
          ∷ (0x00CC, pos 6)
          ∷ (0x00CD, pos 3)
          ∷ (0x00CE, pos 2)
          ∷ (0x00CF, pos 27)
          ∷ (0x00D0, pos 3)
          ∷ (0x00D1, pos 4)
          ∷ (0x00D2, pos 4)
          ∷ (0x00D3, pos 2)
          ∷ (0x00D4, negsuc 0)
          ∷ (0x00D5, negsuc 0)
          ∷ (0x00D6, pos 3)
          ∷ (0x00D7, negsuc 0)
          ∷ (0x00D8, pos 6)
          ∷ (0x00D9, pos 14)
          ∷ (0x00DA, pos 3)
          ∷ (0x00DB, negsuc 0)
          ∷ (0x00DC, pos 28)
          ∷ (0x00DD, pos 29)
          ∷ (0x00DE, negsuc 0)
          ∷ (0x00DF, negsuc 0)
          ∷ (0x00E0, pos 30)
          ∷ (0x00E1, pos 30)
          ∷ (0x00E2, pos 26)
          ∷ (0x00E3, pos 2)
          ∷ (0x00E4, pos 6)
          ∷ (0x00E5, pos 26)
          ∷ (0x00E6, pos 3)
          ∷ (0x00E7, pos 9)
          ∷ (0x00E8, pos 8)
          ∷ (0x00E9, pos 19)
          ∷ (0x00EA, pos 5)
          ∷ (0x00EB, pos 2)
          ∷ (0x00EC, pos 3)
          ∷ (0x00ED, pos 2)
          ∷ (0x00EE, pos 2)
          ∷ (0x00EF, pos 2)
          ∷ (0x00F0, pos 3)
          ∷ (0x00F1, pos 2)
          ∷ (0x00F2, pos 6)
          ∷ (0x00F3, pos 8)
          ∷ [],
    )
    ∷ []
