-- ===== src/Session/Lengths/MapSince20130320.antt =====
-- pkg/session/lengths_map.go, lines 1719 to 1862: assignments of `populateMapLengths`.
use rathena_client.Shared.{List, [], ◌∷◌, pos, negsuc}
use rathena_client.Session.Lengths.Blocks.{Block}

abbrev pub map_since_20130320 : List Block
map_since_20130320 =
    (
      20130320,
      (0x0363, pos 6)
          ∷ (0x0438, pos 6)
          ∷ (0x085A, pos 90)
          ∷ (0x085D, pos 18)
          ∷ (0x0868, negsuc 0)
          ∷ (0x086D, pos 26)
          ∷ (0x086F, pos 26)
          ∷ (0x0874, pos 8)
          ∷ (0x0881, pos 5)
          ∷ (0x0886, pos 2)
          ∷ (0x0888, pos 19)
          ∷ (0x088E, pos 7)
          ∷ (0x0897, pos 5)
          ∷ (0x0898, pos 6)
          ∷ (0x089B, pos 10)
          ∷ (0x08AC, pos 8)
          ∷ (0x0922, negsuc 0)
          ∷ (0x0933, pos 6)
          ∷ (0x0938, negsuc 0)
          ∷ (0x093F, pos 5)
          ∷ (0x0947, pos 36)
          ∷ (0x094C, pos 6)
          ∷ (0x094E, negsuc 0)
          ∷ (0x0959, pos 10)
          ∷ (0x0978, pos 6)
          ∷ (0x0979, pos 50)
          ∷ [],
    )
    ∷ (20130626, (0x098A, pos 74) ∷ [])
    ∷ (20130731, (0x09C1, pos 10) ∷ (0x09CA, pos 23) ∷ [])
    ∷ (20130821, (0x09D1, pos 14) ∷ [])
    ∷ (20131120, (0x09D5, negsuc 0) ∷ (0x09D7, negsuc 0) ∷ [])
    ∷ (20131204, (0x09DE, negsuc 0) ∷ [])
    ∷ (
      20131223,
      (0x008A, pos 34)
          ∷ (0x0097, pos 0)
          ∷ (0x0098, pos 7)
          ∷ (0x011A, pos 0)
          ∷ (0x02E1, pos 0)
          ∷ (0x08C8, pos 34)
          ∷ (0x097A, negsuc 0)
          ∷ (0x098D, negsuc 0)
          ∷ (0x09AF, pos 4)
          ∷ (0x09B1, pos 4)
          ∷ (0x09B4, pos 6)
          ∷ (0x09BC, pos 6)
          ∷ (0x09C3, pos 8)
          ∷ (0x09CB, pos 17)
          ∷ (0x09CE, pos 102)
          ∷ (0x09D4, pos 2)
          ∷ (0x09D6, negsuc 0)
          ∷ (0x09D8, pos 2)
          ∷ (0x09DB, negsuc 0)
          ∷ (0x09DC, negsuc 0)
          ∷ (0x09DD, negsuc 0)
          ∷ (0x09DF, pos 7)
          ∷ [],
    )
    ∷ (20140115, (0x09EB, negsuc 0) ∷ [])
    ∷ (20140430, (0x0A17, pos 6) ∷ [])
    ∷ (20140611, (0x0A15, pos 12) ∷ [])
    ∷ (20140813, (0x00F4, pos 47) ∷ (0x0124, pos 47) ∷ [])
    ∷ (20140820, (0x0A2D, negsuc 0) ∷ [])
    ∷ (20141008, (0x09FB, negsuc 0) ∷ (0x09FC, pos 6) ∷ (0x0A1E, pos 3) ∷ [])
    ∷ (
      20141016,
      (0x0137, pos 18)
          ∷ (0x01C4, pos 0)
          ∷ (0x01C5, pos 0)
          ∷ (0x0845, pos 0)
          ∷ (0x0997, pos 0)
          ∷ (0x09E5, pos 18)
          ∷ (0x09E6, pos 22)
          ∷ (0x09F7, pos 75)
          ∷ (0x0A00, pos 269)
          ∷ (0x0A01, pos 3)
          ∷ (0x0A0A, pos 47)
          ∷ (0x0A0B, pos 47)
          ∷ (0x0A0E, pos 14)
          ∷ (0x0A13, pos 26)
          ∷ (0x0A16, pos 26)
          ∷ (0x0A19, pos 2)
          ∷ (0x0A1A, pos 23)
          ∷ (0x0A1B, pos 2)
          ∷ (0x0A1C, negsuc 0)
          ∷ (0x0A1D, pos 2)
          ∷ (0x0A1F, pos 2)
          ∷ (0x0A21, pos 3)
          ∷ (0x0A22, pos 5)
          ∷ (0x0A2B, pos 14)
          ∷ [],
    )
    ∷ (
      20141022,
      (0x006D, pos 149)
          ∷ (0x013D, pos 8)
          ∷ (0x02EB, pos 0)
          ∷ (0x08E3, pos 149)
          ∷ (0x09FD, negsuc 0)
          ∷ (0x09FE, negsuc 0)
          ∷ (0x09FF, negsuc 0)
          ∷ (0x0A18, pos 14)
          ∷ (0x0A27, pos 8)
          ∷ [],
    )
    ∷ (20141119, (0x0A05, pos 53) ∷ (0x0A14, pos 10) ∷ [])
    ∷ (20150225, (0x0A30, pos 106) ∷ [])
    ∷ (
      20150226,
      (0x0992, pos 0)
          ∷ (0x0994, pos 0)
          ∷ (0x0996, pos 0)
          ∷ (0x0A09, pos 45)
          ∷ (0x0A0C, pos 56)
          ∷ (0x0A0D, negsuc 0)
          ∷ (0x0A0F, negsuc 0)
          ∷ (0x0A10, negsuc 0)
          ∷ [],
    )
    ∷ []
