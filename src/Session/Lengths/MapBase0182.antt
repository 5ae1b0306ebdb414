-- ===== src/Session/Lengths/MapBase0182.antt =====
-- pkg/session/lengths_map.go, lines 289 to 428: assignments of `populateMapLengths`.
use rathena_client.Shared.{List, [], ◌∷◌, pos, negsuc}
use rathena_client.Session.Lengths.Blocks.{Block}

abbrev pub map_base_0182 : List Block
map_base_0182 =
    (
      0,
      (0x0182, pos 106)
          ∷ (0x0183, pos 10)
          ∷ (0x0184, pos 10)
          ∷ (0x0185, pos 34)
          ∷ (0x0187, pos 6)
          ∷ (0x0188, pos 8)
          ∷ (0x0189, pos 4)
          ∷ (0x018A, pos 4)
          ∷ (0x018B, pos 4)
          ∷ (0x018C, pos 29)
          ∷ (0x018D, negsuc 0)
          ∷ (0x018E, pos 10)
          ∷ (0x018F, pos 6)
          ∷ (0x0190, pos 90)
          ∷ (0x0191, pos 86)
          ∷ (0x0192, pos 24)
          ∷ (0x0193, pos 6)
          ∷ (0x0194, pos 30)
          ∷ (0x0195, pos 102)
          ∷ (0x0196, pos 9)
          ∷ (0x0197, pos 4)
          ∷ (0x0198, pos 8)
          ∷ (0x0199, pos 4)
          ∷ (0x019A, pos 14)
          ∷ (0x019B, pos 10)
          ∷ (0x019C, negsuc 0)
          ∷ (0x019D, pos 6)
          ∷ (0x019E, pos 2)
          ∷ (0x019F, pos 6)
          ∷ (0x01A0, pos 3)
          ∷ (0x01A1, pos 3)
          ∷ (0x01A2, pos 35)
          ∷ (0x01A3, pos 5)
          ∷ (0x01A4, pos 11)
          ∷ (0x01A5, pos 26)
          ∷ (0x01A6, negsuc 0)
          ∷ (0x01A7, pos 4)
          ∷ (0x01A8, pos 4)
          ∷ (0x01A9, pos 6)
          ∷ (0x01AA, pos 10)
          ∷ (0x01AB, pos 12)
          ∷ (0x01AC, pos 6)
          ∷ (0x01AD, negsuc 0)
          ∷ (0x01AE, pos 4)
          ∷ (0x01AF, pos 4)
          ∷ (0x01B0, pos 11)
          ∷ (0x01B1, pos 7)
          ∷ (0x01B2, negsuc 0)
          ∷ (0x01B3, pos 67)
          ∷ (0x01B4, pos 12)
          ∷ (0x01B5, pos 18)
          ∷ (0x01B6, pos 114)
          ∷ (0x01B7, pos 6)
          ∷ (0x01B8, pos 3)
          ∷ (0x01B9, pos 6)
          ∷ (0x01BA, pos 26)
          ∷ (0x01BB, pos 26)
          ∷ (0x01BC, pos 26)
          ∷ (0x01BD, pos 26)
          ∷ (0x01BE, pos 2)
          ∷ (0x01BF, pos 3)
          ∷ (0x01C0, pos 2)
          ∷ (0x01C1, pos 14)
          ∷ (0x01C2, pos 10)
          ∷ (0x01C3, negsuc 0)
          ∷ (0x01C4, pos 22)
          ∷ (0x01C5, pos 22)
          ∷ (0x01C6, pos 4)
          ∷ (0x01C7, pos 2)
          ∷ (0x01C8, pos 13)
          ∷ (0x01C9, pos 97)
          ∷ (0x01CB, pos 9)
          ∷ (0x01CC, pos 9)
          ∷ (0x01CE, pos 6)
          ∷ (0x01CF, pos 28)
          ∷ (0x01D0, pos 8)
          ∷ (0x01D1, pos 14)
          ∷ (0x01D2, pos 10)
          ∷ (0x01D3, pos 35)
          ∷ (0x01D4, pos 6)
          ∷ (0x01D5, negsuc 0)
          ∷ (0x01D6, pos 4)
          ∷ (0x01D7, pos 11)
          ∷ (0x01D8, pos 54)
          ∷ (0x01D9, pos 53)
          ∷ (0x01DA, pos 60)
          ∷ (0x01DB, pos 2)
          ∷ (0x01DC, negsuc 0)
          ∷ (0x01DD, pos 47)
          ∷ (0x01DE, pos 33)
          ∷ (0x01DF, pos 6)
          ∷ (0x01E0, pos 30)
          ∷ (0x01E1, pos 8)
          ∷ (0x01E2, pos 34)
          ∷ (0x01E3, pos 14)
          ∷ (0x01E4, pos 2)
          ∷ (0x01E5, pos 6)
          ∷ (0x01E6, pos 26)
          ∷ (0x01E7, pos 2)
          ∷ (0x01E8, pos 28)
          ∷ (0x01E9, pos 81)
          ∷ (0x01EA, pos 6)
          ∷ (0x01EB, pos 10)
          ∷ (0x01EC, pos 26)
          ∷ (0x01ED, pos 2)
          ∷ (0x01F0, negsuc 0)
          ∷ (0x01F1, negsuc 0)
          ∷ (0x01F2, pos 20)
          ∷ (0x01F3, pos 10)
          ∷ (0x01F4, pos 32)
          ∷ (0x01F5, pos 9)
          ∷ (0x01F6, pos 34)
          ∷ (0x01F7, pos 14)
          ∷ (0x01F8, pos 2)
          ∷ (0x01F9, pos 6)
          ∷ (0x01FA, pos 48)
          ∷ (0x01FB, pos 56)
          ∷ (0x01FC, negsuc 0)
          ∷ (0x01FD, pos 15)
          ∷ (0x01FE, pos 5)
          ∷ (0x01FF, pos 10)
          ∷ (0x0200, pos 26)
          ∷ (0x0201, negsuc 0)
          ∷ (0x0202, pos 26)
          ∷ (0x0203, pos 10)
          ∷ (0x0204, pos 18)
          ∷ (0x0205, pos 26)
          ∷ (0x0206, pos 11)
          ∷ (0x0207, pos 34)
          ∷ (0x0208, pos 11)
          ∷ (0x0209, pos 36)
          ∷ (0x020A, pos 10)
          ∷ (0x020D, negsuc 0)
          ∷ (0x0215, pos 6)
          ∷ (0x0217, pos 2)
          ∷ (0x0218, pos 2)
          ∷ (0x0219, pos 282)
          ∷ (0x021A, pos 282)
          ∷ (0x021B, pos 10)
          ∷ (0x021C, pos 10)
          ∷ [],
    )
    ∷ []
