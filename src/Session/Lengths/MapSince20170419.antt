-- ===== src/Session/Lengths/MapSince20170419.antt =====
-- pkg/session/lengths_map.go, lines 2005 to 2148: assignments of `populateMapLengths`.
use rathena_client.Shared.{List, [], ◌∷◌, pos, negsuc}
use rathena_client.Session.Lengths.Blocks.{Block}

abbrev pub map_since_20170419 : List Block
map_since_20170419 =
    (20170419, (0x0AC0, pos 26) ∷ (0x0AC1, pos 26) ∷ [])
    ∷ (
      20170502,
      (0x011C, pos 0)
          ∷ (0x0A44, negsuc 0)
          ∷ (0x0A98, pos 10)
          ∷ (0x0A99, pos 4)
          ∷ (0x0ABD, pos 10)
          ∷ (0x0ABE, negsuc 0)
          ∷ (0x0ACE, pos 4)
          ∷ [],
    )
    ∷ (20170524, (0x00FB, pos 0) ∷ (0x01E9, pos 0) ∷ (0x0A43, pos 85) ∷ [])
    ∷ (20170726, (0x0AB4, pos 4) ∷ (0x0AB7, pos 4) ∷ (0x0AB9, pos 39) ∷ [])
    ∷ (20170830, (0x0ACC, pos 18) ∷ (0x0ADB, negsuc 0) ∷ [])
    ∷ (20170906, (0x0ACB, pos 12) ∷ (0x0ADA, pos 30) ∷ [])
    ∷ (20171025, (0x0ADE, pos 6) ∷ [])
    ∷ (20171207, (0x0A43, pos 0) ∷ (0x0A44, pos 0) ∷ (0x0AE4, pos 89) ∷ (0x0AE5, negsuc 0) ∷ [])
    ∷ (20180103, (0x0AE8, pos 2) ∷ [])
    ∷ (20180207, (0x0AF4, pos 11) ∷ [])
    ∷ (
      20180221,
      (0x0095, pos 0)
          ∷ (0x0194, pos 0)
          ∷ (0x0A38, pos 0)
          ∷ (0x0ADF, pos 58)
          ∷ (0x0AE2, pos 7)
          ∷ (0x0AF7, pos 32)
          ∷ [],
    )
    ∷ (20180307, (0x0206, pos 35) ∷ (0x0A68, pos 3) ∷ (0x0AEF, pos 2) ∷ (0x0AF0, pos 10) ∷ [])
    ∷ (20180321, (0x0A4A, pos 6) ∷ (0x0A4B, pos 22) ∷ (0x0A4C, pos 28) ∷ [])
    ∷ (20180418, (0x0ADD, pos 22) ∷ [])
    ∷ (20180801, (0x0B03, negsuc 0) ∷ [])
    ∷ (
      20181002,
      (0x0991, pos 0)
          ∷ (0x0993, pos 0)
          ∷ (0x0995, pos 0)
          ∷ (0x0A0D, pos 0)
          ∷ (0x0A0F, pos 0)
          ∷ (0x0A10, pos 0)
          ∷ (0x0B08, negsuc 0)
          ∷ (0x0B09, negsuc 0)
          ∷ (0x0B0A, negsuc 0)
          ∷ (0x0B0B, pos 4)
          ∷ [],
    )
    ∷ (
      20181121,
      (0x009D, pos 19)
          ∷ (0x00F4, pos 57)
          ∷ (0x010A, pos 6)
          ∷ (0x0110, pos 14)
          ∷ (0x0124, pos 57)
          ∷ (0x018E, pos 18)
          ∷ (0x018F, pos 8)
          ∷ (0x01AE, pos 6)
          ∷ (0x01C8, pos 15)
          ∷ (0x01D7, pos 15)
          ∷ (0x01FD, pos 25)
          ∷ (0x0223, pos 10)
          ∷ (0x025B, pos 8)
          ∷ (0x0298, pos 10)
          ∷ (0x0299, pos 8)
          ∷ (0x02B8, pos 32)
          ∷ (0x07FD, pos 39)
          ∷ (0x0824, pos 8)
          ∷ (0x09AC, pos 12)
          ∷ (0x09AD, pos 12)
          ∷ (0x09AE, pos 20)
          ∷ (0x09B0, pos 10)
          ∷ (0x09B2, pos 10)
          ∷ (0x09B3, pos 6)
          ∷ (0x09C4, pos 10)
          ∷ (0x0A05, pos 63)
          ∷ (0x0A0A, pos 57)
          ∷ (0x0A0B, pos 57)
          ∷ (0x0A20, pos 23)
          ∷ (0x0A2D, pos 0)
          ∷ (0x0A37, pos 69)
          ∷ (0x0A3F, pos 11)
          ∷ (0x0A4E, pos 6)
          ∷ (0x0A96, pos 61)
          ∷ (0x0AA3, pos 9)
          ∷ (0x0AB4, pos 6)
          ∷ (0x0AB6, pos 8)
          ∷ (0x0AB9, pos 48)
          ∷ (0x0ADA, pos 32)
          ∷ (0x0B10, pos 10)
          ∷ (0x0B11, pos 4)
          ∷ (0x0B13, pos 48)
          ∷ (0x0B14, pos 2)
          ∷ (0x0B16, pos 2)
          ∷ (0x0B19, pos 2)
          ∷ [],
    )
    ∷ (20181212, (0x0B1A, pos 29) ∷ [])
    ∷ (20181219, (0x0B15, pos 7) ∷ (0x0B17, pos 3) ∷ (0x0B18, pos 4) ∷ [])
    ∷ (20190116, (0x0B0E, negsuc 0) ∷ [])
    ∷ (20190227, (0x0B1D, pos 2) ∷ [])
    ∷ []
