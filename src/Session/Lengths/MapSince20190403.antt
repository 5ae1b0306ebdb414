-- ===== src/Session/Lengths/MapSince20190403.antt =====
-- pkg/session/lengths_map.go, lines 2149 to 2292: assignments of `populateMapLengths`.
use rathena_client.Shared.{List, [], ◌∷◌, pos, negsuc}
use rathena_client.Session.Lengths.Blocks.{Block}

abbrev pub map_since_20190403 : List Block
map_since_20190403 =
    (20190403, (0x0B1B, pos 2) ∷ [])
    ∷ (20190522, (0x0B20, pos 271) ∷ [])
    ∷ (20190703, (0x0B1F, pos 14) ∷ [])
    ∷ (20190724, (0x0B4C, pos 2) ∷ [])
    ∷ (20190731, (0x0B27, negsuc 0) ∷ (0x0B2D, pos 11) ∷ (0x0B2E, pos 4) ∷ [])
    ∷ (20190807, (0x0B31, pos 39) ∷ (0x0B32, negsuc 0) ∷ (0x0B33, pos 15) ∷ (0x0B47, pos 14) ∷ [])
    ∷ (
      20191120,
      (0x01B4, pos 0)
          ∷ (0x01CD, pos 0)
          ∷ (0x07FB, pos 0)
          ∷ (0x0AFB, negsuc 0)
          ∷ (0x0B0F, negsuc 0)
          ∷ (0x0B12, pos 2)
          ∷ (0x0B1C, pos 2)
          ∷ (0x0B1E, pos 14)
          ∷ (0x0B21, pos 13)
          ∷ (0x0B22, pos 5)
          ∷ (0x0B28, pos 3)
          ∷ (0x0B2C, pos 3)
          ∷ (0x0B2F, pos 73)
          ∷ (0x0B35, pos 3)
          ∷ (0x0B36, negsuc 0)
          ∷ (0x0B4E, negsuc 0)
          ∷ (0x0B56, negsuc 0)
          ∷ (0x0B57, negsuc 0)
          ∷ (0x0B58, pos 2)
          ∷ (0x0B59, pos 4)
          ∷ (0x0B5B, pos 14)
          ∷ (0x0B5C, pos 2)
          ∷ [],
    )
    ∷ (20200414, (0x0B73, pos 8) ∷ [])
    ∷ (20200902, (0x0B7B, pos 118) ∷ [])
    ∷ (
      20200916,
      (0x00F4, pos 0)
          ∷ (0x0124, pos 0)
          ∷ (0x0136, pos 0)
          ∷ (0x02B8, pos 0)
          ∷ (0x0800, pos 0)
          ∷ (0x0836, pos 0)
          ∷ (0x09EB, pos 0)
          ∷ (0x0A05, pos 0)
          ∷ (0x0A0A, pos 0)
          ∷ (0x0A0B, pos 0)
          ∷ (0x0A2B, pos 0)
          ∷ (0x0A37, pos 0)
          ∷ (0x0A84, pos 0)
          ∷ (0x0A87, pos 0)
          ∷ (0x0A96, pos 0)
          ∷ (0x0AB9, pos 0)
          ∷ (0x0B03, pos 0)
          ∷ (0x0B0A, pos 0)
          ∷ (0x0B13, pos 0)
          ∷ (0x0B2F, pos 0)
          ∷ (0x0B37, negsuc 0)
          ∷ (0x0B39, negsuc 0)
          ∷ (0x0B3D, negsuc 0)
          ∷ (0x0B3F, pos 64)
          ∷ (0x0B40, negsuc 0)
          ∷ (0x0B41, pos 70)
          ∷ (0x0B42, pos 62)
          ∷ (0x0B43, pos 48)
          ∷ (0x0B44, pos 58)
          ∷ (0x0B45, pos 58)
          ∷ (0x0B5A, negsuc 0)
          ∷ (0x0B5D, pos 10)
          ∷ (0x0B5E, pos 33)
          ∷ (0x0B63, negsuc 0)
          ∷ (0x0B64, negsuc 0)
          ∷ (0x0B65, negsuc 0)
          ∷ (0x0B66, pos 26)
          ∷ (0x0B67, pos 33)
          ∷ (0x0B69, pos 18)
          ∷ (0x0B6D, pos 6)
          ∷ (0x0B6E, pos 14)
          ∷ (0x0B76, pos 77)
          ∷ (0x0B7C, negsuc 0)
          ∷ (0x0B7D, negsuc 0)
          ∷ (0x0B90, pos 2)
          ∷ (0x0B91, pos 8)
          ∷ [],
    )
    ∷ (20201007, (0x0B6F, pos 2) ∷ (0x0B72, negsuc 0) ∷ [])
    ∷ (20201118, (0x0B8F, pos 6) ∷ (0x0B92, pos 5) ∷ [])
    ∷ (
      20210000,
      (0x07DB, pos 0)
          ∷ (0x0B97, pos 27)
          ∷ (0x0B9B, pos 12)
          ∷ (0x0B9C, pos 16)
          ∷ (0x0B9D, pos 14)
          ∷ (0x0B9E, pos 12)
          ∷ (0x0BA0, pos 2)
          ∷ (0x0BA5, pos 12)
          ∷ [],
    )
    ∷ (
      20210203,
      (0x09D5, pos 0)
          ∷ (0x0B0E, pos 0)
          ∷ (0x0B56, pos 0)
          ∷ (0x0B77, negsuc 0)
          ∷ (0x0B78, negsuc 0)
          ∷ (0x0B79, negsuc 0)
          ∷ (0x0B7A, negsuc 0)
          ∷ (0x0B9F, pos 10)
          ∷ (0x0BA1, pos 3)
          ∷ [],
    )
    ∷ (20210818, (0x0BAE, pos 3) ∷ [])
    ∷ (20220504, (0x0BA2, pos 10) ∷ (0x0BA3, pos 10) ∷ (0x0BB5, pos 10) ∷ [])
    ∷ (20221005, (0x0BBE, pos 6) ∷ [])
    ∷ (20230607, (0x0B93, pos 12) ∷ [])
    ∷ []
