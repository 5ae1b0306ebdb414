-- ===== src/Session/Lengths/MapBase00F4.antt =====
-- pkg/session/lengths_map.go, lines 149 to 288: assignments of `populateMapLengths`.
use rathena_client.Shared.{List, [], ◌∷◌, pos, negsuc}
use rathena_client.Session.Lengths.Blocks.{Block}

abbrev pub map_base_00f4 : List Block
map_base_00f4 =
    (
      0,
      (0x00F4, pos 22)
          ∷ (0x00F5, pos 8)
          ∷ (0x00F6, pos 8)
          ∷ (0x00F7, pos 2)
          ∷ (0x00F8, pos 2)
          ∷ (0x00F9, pos 26)
          ∷ (0x00FA, pos 3)
          ∷ (0x00FB, negsuc 0)
          ∷ (0x00FC, pos 6)
          ∷ (0x00FD, pos 27)
          ∷ (0x00FE, pos 30)
          ∷ (0x00FF, pos 10)
          ∷ (0x0100, pos 2)
          ∷ (0x0101, pos 6)
          ∷ (0x0102, pos 6)
          ∷ (0x0103, pos 30)
          ∷ (0x0104, pos 79)
          ∷ (0x0105, pos 31)
          ∷ (0x0106, pos 10)
          ∷ (0x0107, pos 10)
          ∷ (0x0108, negsuc 0)
          ∷ (0x0109, negsuc 0)
          ∷ (0x010A, pos 4)
          ∷ (0x010B, pos 6)
          ∷ (0x010C, pos 6)
          ∷ (0x010D, pos 2)
          ∷ (0x010E, pos 11)
          ∷ (0x010F, negsuc 0)
          ∷ (0x0110, pos 10)
          ∷ (0x0111, pos 39)
          ∷ (0x0112, pos 4)
          ∷ (0x0113, pos 10)
          ∷ (0x0114, pos 31)
          ∷ (0x0115, pos 35)
          ∷ (0x0116, pos 10)
          ∷ (0x0117, pos 18)
          ∷ (0x0118, pos 2)
          ∷ (0x0119, pos 13)
          ∷ (0x011A, pos 15)
          ∷ (0x011B, pos 20)
          ∷ (0x011C, pos 68)
          ∷ (0x011D, pos 2)
          ∷ (0x011E, pos 3)
          ∷ (0x011F, pos 16)
          ∷ (0x0120, pos 6)
          ∷ (0x0121, pos 14)
          ∷ (0x0122, negsuc 0)
          ∷ (0x0123, negsuc 0)
          ∷ (0x0124, pos 22)
          ∷ (0x0125, pos 8)
          ∷ (0x0126, pos 8)
          ∷ (0x0127, pos 8)
          ∷ (0x0128, pos 8)
          ∷ (0x0129, pos 8)
          ∷ (0x012A, pos 2)
          ∷ (0x012B, pos 2)
          ∷ (0x012C, pos 3)
          ∷ (0x012D, pos 4)
          ∷ (0x012E, pos 2)
          ∷ (0x012F, negsuc 0)
          ∷ (0x0130, pos 6)
          ∷ (0x0131, pos 86)
          ∷ (0x0132, pos 6)
          ∷ (0x0133, negsuc 0)
          ∷ (0x0134, negsuc 0)
          ∷ (0x0135, pos 7)
          ∷ (0x0136, negsuc 0)
          ∷ (0x0137, pos 6)
          ∷ (0x0138, pos 3)
          ∷ (0x0139, pos 16)
          ∷ (0x013A, pos 4)
          ∷ (0x013B, pos 4)
          ∷ (0x013C, pos 4)
          ∷ (0x013D, pos 6)
          ∷ (0x013F, pos 26)
          ∷ (0x0140, pos 22)
          ∷ (0x0141, pos 14)
          ∷ (0x0142, pos 6)
          ∷ (0x0143, pos 10)
          ∷ (0x0144, pos 23)
          ∷ (0x0145, pos 19)
          ∷ (0x0146, pos 6)
          ∷ (0x0147, pos 39)
          ∷ (0x0148, pos 8)
          ∷ (0x0149, pos 9)
          ∷ (0x014A, pos 6)
          ∷ (0x014B, pos 27)
          ∷ (0x014C, negsuc 0)
          ∷ (0x014D, pos 2)
          ∷ (0x014E, pos 6)
          ∷ (0x014F, pos 6)
          ∷ (0x0150, pos 110)
          ∷ (0x0151, pos 6)
          ∷ (0x0152, negsuc 0)
          ∷ (0x0153, negsuc 0)
          ∷ (0x0154, negsuc 0)
          ∷ (0x0155, negsuc 0)
          ∷ (0x0156, negsuc 0)
          ∷ (0x0157, pos 6)
          ∷ (0x0158, negsuc 0)
          ∷ (0x0159, pos 54)
          ∷ (0x015A, pos 46)
          ∷ (0x015B, pos 54)
          ∷ (0x015C, pos 46)
          ∷ (0x015D, pos 42)
          ∷ (0x015E, pos 6)
          ∷ (0x015F, pos 42)
          ∷ (0x0160, negsuc 0)
          ∷ (0x0161, negsuc 0)
          ∷ (0x0162, negsuc 0)
          ∷ (0x0163, negsuc 0)
          ∷ (0x0164, negsuc 0)
          ∷ (0x0165, pos 30)
          ∷ (0x0166, negsuc 0)
          ∷ (0x0167, pos 3)
          ∷ (0x0168, pos 14)
          ∷ (0x0169, pos 3)
          ∷ (0x016A, pos 30)
          ∷ (0x016B, pos 10)
          ∷ (0x016C, pos 43)
          ∷ (0x016E, pos 186)
          ∷ (0x016F, pos 182)
          ∷ (0x0170, pos 14)
          ∷ (0x0171, pos 30)
          ∷ (0x0172, pos 10)
          ∷ (0x0173, pos 3)
          ∷ (0x0174, negsuc 0)
          ∷ (0x0175, pos 6)
          ∷ (0x0176, pos 106)
          ∷ (0x0177, negsuc 0)
          ∷ (0x0178, pos 4)
          ∷ (0x0179, pos 5)
          ∷ (0x017A, pos 4)
          ∷ (0x017B, negsuc 0)
          ∷ (0x017C, pos 6)
          ∷ (0x017D, pos 7)
          ∷ (0x017E, negsuc 0)
          ∷ (0x017F, negsuc 0)
          ∷ (0x0180, pos 6)
          ∷ (0x0181, pos 3)
          ∷ [],
    )
    ∷ []
