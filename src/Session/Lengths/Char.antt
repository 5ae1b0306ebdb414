-- ===== src/Session/Lengths/Char.antt =====
-- pkg/session/lengths_char.go: the assignments of `populateCharLengths`, block by block.
use rathena_client.Shared.{List, [], ◌∷◌, pos, negsuc}
use rathena_client.Session.Lengths.Blocks.{Block}

abbrev pub char_base_0066 : List Block
char_base_0066 =
    (
      0,
      (0x0066, pos 3)
          ∷ (0x0067, pos 37)
          ∷ (0x0068, pos 46)
          ∷ (0x006B, negsuc 0)
          ∷ (0x006C, pos 3)
          ∷ (0x006D, pos 114)
          ∷ (0x006E, pos 3)
          ∷ (0x006F, pos 2)
          ∷ (0x0070, pos 3)
          ∷ (0x0081, pos 3)
          ∷ (0x0187, pos 6)
          ∷ (0x020D, negsuc 0)
          ∷ (0x028D, pos 34)
          ∷ (0x028E, pos 4)
          ∷ (0x028F, pos 6)
          ∷ (0x0290, pos 4)
          ∷ (0x0827, pos 6)
          ∷ (0x0828, pos 14)
          ∷ (0x0829, pos 12)
          ∷ (0x082A, pos 10)
          ∷ (0x082B, pos 6)
          ∷ (0x082C, pos 10)
          ∷ (0x082D, pos 29)
          ∷ (0x0840, negsuc 0)
          ∷ (0x0841, pos 4)
          ∷ (0x08B8, pos 10)
          ∷ (0x08B9, pos 12)
          ∷ (0x08BA, pos 10)
          ∷ (0x08BE, pos 14)
          ∷ (0x08C5, pos 6)
          ∷ (0x08D4, pos 8)
          ∷ (0x08D5, pos 8)
          ∷ (0x099D, negsuc 0)
          ∷ (0x09A0, pos 6)
          ∷ (0x09A1, pos 2)
          ∷ [],
    )
    ∷ []

abbrev pub char_since_20040419 : List Block
char_since_20040419 =
    (20040419, (0x0068, pos 0) ∷ (0x01FB, pos 56) ∷ [])
    ∷ (20100803, (0x006D, pos 134) ∷ [])
    ∷ (20110111, (0x006D, pos 138) ∷ [])
    ∷ (20110928, (0x006D, pos 142) ∷ [])
    ∷ (20111025, (0x006D, pos 146) ∷ [])
    ∷ (20111101, (0x028F, pos 0) ∷ (0x0290, pos 0) ∷ (0x08FC, pos 30) ∷ (0x08FD, pos 6) ∷ [])
    ∷ (20120307, (0x0067, pos 0) ∷ (0x0970, pos 31) ∷ [])
    ∷ (20141016, (0x006D, pos 147) ∷ [])
    ∷ (20141022, (0x006D, pos 149) ∷ [])
    ∷ (20151001, (0x0970, pos 0) ∷ (0x0A39, pos 36) ∷ [])
    ∷ (20170315, (0x0AC5, pos 156) ∷ [])
    ∷ (20170830, (0x006D, pos 157) ∷ [])
    ∷ (
      20201007,
      (0x006D, pos 0)
          ∷ (0x08D5, pos 0)
          ∷ (0x099D, pos 0)
          ∷ (0x0B6F, pos 157)
          ∷ (0x0B70, pos 8)
          ∷ (0x0B72, negsuc 0)
          ∷ [],
    )
    ∷ []
