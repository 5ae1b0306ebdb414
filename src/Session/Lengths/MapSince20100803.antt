-- ===== src/Session/Lengths/MapSince20100803.antt =====
-- pkg/session/lengths_map.go, lines 1463 to 1584: assignments of `populateMapLengths`.
use rathena_client.Shared.{List, [], ◌∷◌, pos, negsuc}
use rathena_client.Session.Lengths.Blocks.{Block}

abbrev pub map_since_20100803 : List Block
map_since_20100803 =
    (
      20100803,
      (0x015C, pos 0)
          ∷ (0x0839, pos 46)
          ∷ (0x0842, pos 6)
          ∷ (0x0843, pos 6)
          ∷ (0x099D, negsuc 0)
          ∷ (0x09A0, pos 6)
          ∷ [],
    )
    ∷ (20100817, (0x0835, negsuc 0) ∷ (0x0836, negsuc 0) ∷ [])
    ∷ (20101123, (0x0845, pos 10) ∷ (0x0849, pos 16) ∷ (0x0859, negsuc 0) ∷ [])
    ∷ (
      20101124,
      (0x0288, negsuc 0)
          ∷ (0x035F, pos 5)
          ∷ (0x0360, pos 6)
          ∷ (0x0361, pos 5)
          ∷ (0x0362, pos 6)
          ∷ (0x0363, pos 6)
          ∷ (0x0364, pos 8)
          ∷ (0x0365, pos 8)
          ∷ (0x0366, pos 10)
          ∷ (0x0367, pos 90)
          ∷ (0x0368, pos 6)
          ∷ (0x0369, pos 6)
          ∷ (0x0856, negsuc 0)
          ∷ (0x0857, negsuc 0)
          ∷ (0x0858, negsuc 0)
          ∷ [],
    )
    ∷ (20110627, (0x08CB, negsuc 0) ∷ [])
    ∷ (
      20110824,
      (0x00AA, pos 9)
          ∷ (0x00AC, pos 0)
          ∷ (0x00E9, pos 0)
          ∷ (0x0106, pos 0)
          ∷ (0x0133, pos 0)
          ∷ (0x01A2, pos 37)
          ∷ (0x02D7, pos 0)
          ∷ (0x0800, negsuc 0)
          ∷ (0x080E, pos 14)
          ∷ (0x083A, pos 5)
          ∷ (0x0844, pos 2)
          ∷ (0x08D1, pos 7)
          ∷ [],
    )
    ∷ (
      20111005,
      (0x0364, pos 5)
          ∷ (0x0366, pos 5)
          ∷ (0x0369, pos 10)
          ∷ (0x0815, pos 6)
          ∷ (0x0838, pos 6)
          ∷ (0x0885, pos 6)
          ∷ (0x088A, pos 6)
          ∷ (0x0893, pos 8)
          ∷ (0x0897, pos 8)
          ∷ (0x08AD, pos 90)
          ∷ (0x08D2, pos 10)
          ∷ [],
    )
    ∷ (
      20111102,
      (0x0281, pos 36)
          ∷ (0x02C4, pos 10)
          ∷ (0x0436, pos 26)
          ∷ (0x083C, pos 19)
          ∷ (0x088B, pos 2)
          ∷ (0x088D, pos 26)
          ∷ (0x0890, pos 8)
          ∷ (0x0898, pos 5)
          ∷ (0x089B, pos 2)
          ∷ (0x089E, negsuc 0)
          ∷ (0x08A1, pos 6)
          ∷ (0x08A5, pos 18)
          ∷ (0x08AA, pos 7)
          ∷ (0x08AB, negsuc 0)
          ∷ [],
    )
    ∷ (20111122, (0x0906, negsuc 0) ∷ [])
    ∷ (20120000, (0x083E, pos 26) ∷ [])
    ∷ (20120221, (0x090F, pos 73) ∷ (0x0914, pos 80) ∷ (0x0915, pos 74) ∷ [])
    ∷ (
      20120307,
      (0x02C4, pos 6)
          ∷ (0x0365, pos 41)
          ∷ (0x0366, pos 90)
          ∷ (0x0369, pos 26)
          ∷ (0x0437, pos 5)
          ∷ (0x0815, negsuc 0)
          ∷ (0x0817, pos 2)
          ∷ (0x0835, pos 2)
          ∷ (0x0861, pos 36)
          ∷ (0x0863, pos 5)
          ∷ (0x0865, pos 6)
          ∷ (0x086A, pos 19)
          ∷ (0x0870, negsuc 0)
          ∷ (0x0884, negsuc 0)
          ∷ (0x0885, pos 7)
          ∷ (0x0887, pos 6)
          ∷ (0x0889, pos 10)
          ∷ (0x0890, pos 5)
          ∷ (0x090F, negsuc 0)
          ∷ (0x0914, negsuc 0)
          ∷ (0x0915, negsuc 0)
          ∷ (0x0929, pos 26)
          ∷ (0x093B, pos 8)
          ∷ (0x0963, pos 8)
          ∷ (0x096A, pos 6)
          ∷ [],
    )
    ∷ (20120314, (0x096D, negsuc 0) ∷ (0x096F, pos 7) ∷ [])
    ∷ []
