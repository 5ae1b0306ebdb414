-- ===== src/Session/Lengths/MapBase021D.antt =====
-- pkg/session/lengths_map.go, lines 429 to 565: assignments of `populateMapLengths`.
use rathena_client.Shared.{List, [], ◌∷◌, pos, negsuc}
use rathena_client.Session.Lengths.Blocks.{Block}

abbrev pub map_base_021d : List Block
map_base_021d =
    (
      0,
      (0x021D, pos 6)
          ∷ (0x0221, negsuc 0)
          ∷ (0x0223, pos 8)
          ∷ (0x0224, pos 10)
          ∷ (0x0225, pos 2)
          ∷ (0x0226, pos 282)
          ∷ (0x0229, pos 15)
          ∷ (0x022F, pos 5)
          ∷ (0x0230, pos 12)
          ∷ (0x0232, pos 9)
          ∷ (0x0235, negsuc 0)
          ∷ (0x0236, pos 10)
          ∷ (0x0237, pos 2)
          ∷ (0x0238, pos 282)
          ∷ (0x0239, pos 11)
          ∷ (0x024D, pos 12)
          ∷ (0x024F, pos 10)
          ∷ (0x0251, pos 34)
          ∷ (0x025A, negsuc 0)
          ∷ (0x025B, pos 6)
          ∷ (0x0283, pos 6)
          ∷ (0x0287, negsuc 0)
          ∷ (0x028A, pos 18)
          ∷ (0x0291, pos 4)
          ∷ (0x0293, pos 70)
          ∷ (0x0298, pos 8)
          ∷ (0x0299, pos 6)
          ∷ (0x02B6, pos 7)
          ∷ (0x02BB, pos 8)
          ∷ (0x02C4, pos 26)
          ∷ (0x02C7, pos 7)
          ∷ (0x02C8, pos 3)
          ∷ (0x02D3, pos 4)
          ∷ (0x02DA, pos 3)
          ∷ (0x0440, pos 10)
          ∷ (0x0441, pos 4)
          ∷ (0x0442, negsuc 0)
          ∷ (0x0443, pos 8)
          ∷ (0x07DB, pos 8)
          ∷ (0x07E1, pos 15)
          ∷ (0x07E2, pos 8)
          ∷ (0x07E6, pos 8)
          ∷ (0x07F6, pos 14)
          ∷ (0x07FA, pos 8)
          ∷ (0x0801, negsuc 0)
          ∷ (0x0802, pos 18)
          ∷ (0x0803, pos 4)
          ∷ (0x0804, pos 8)
          ∷ (0x0805, negsuc 0)
          ∷ (0x0806, pos 4)
          ∷ (0x0808, pos 4)
          ∷ (0x0813, negsuc 0)
          ∷ (0x0818, negsuc 0)
          ∷ (0x081E, pos 8)
          ∷ (0x0824, pos 6)
          ∷ (0x082D, pos 29)
          ∷ (0x0837, pos 3)
          ∷ (0x083A, pos 4)
          ∷ (0x083C, pos 12)
          ∷ (0x083D, pos 6)
          ∷ (0x083E, pos 23)
          ∷ (0x0840, negsuc 0)
          ∷ (0x0846, pos 4)
          ∷ (0x0848, negsuc 0)
          ∷ (0x08B3, negsuc 0)
          ∷ (0x08B9, pos 12)
          ∷ (0x08C0, negsuc 0)
          ∷ (0x08C8, pos 29)
          ∷ (0x08CA, negsuc 0)
          ∷ (0x08CF, pos 10)
          ∷ (0x08D6, pos 6)
          ∷ (0x08FF, pos 24)
          ∷ (0x0907, pos 5)
          ∷ (0x0908, pos 5)
          ∷ (0x090E, pos 2)
          ∷ (0x0916, pos 26)
          ∷ (0x096E, negsuc 0)
          ∷ (0x0977, pos 14)
          ∷ (0x097C, pos 4)
          ∷ (0x097D, pos 288)
          ∷ (0x097E, pos 12)
          ∷ (0x0988, pos 6)
          ∷ (0x0989, pos 2)
          ∷ (0x098E, negsuc 0)
          ∷ (0x09A6, pos 12)
          ∷ (0x09A7, pos 10)
          ∷ (0x09A8, pos 16)
          ∷ (0x09A9, pos 10)
          ∷ (0x09AA, pos 16)
          ∷ (0x09AB, pos 6)
          ∷ (0x09AC, pos 10)
          ∷ (0x09AD, pos 10)
          ∷ (0x09AE, pos 17)
          ∷ (0x09B0, pos 8)
          ∷ (0x09B2, pos 8)
          ∷ (0x09B3, pos 4)
          ∷ (0x09B6, pos 6)
          ∷ (0x09B7, pos 4)
          ∷ (0x09B8, pos 6)
          ∷ (0x09B9, pos 4)
          ∷ (0x09C4, pos 8)
          ∷ (0x09CD, pos 8)
          ∷ (0x09DA, negsuc 0)
          ∷ (0x0A02, pos 4)
          ∷ (0x0A20, pos 21)
          ∷ (0x0A28, pos 3)
          ∷ (0x0A46, pos 14)
          ∷ (0x0A47, pos 3)
          ∷ (0x0A48, pos 2)
          ∷ (0x0AB2, pos 7)
          ∷ (0x0AC4, negsuc 0)
          ∷ (0x0AC7, pos 28)
          ∷ (0x0AE3, pos 34)
          ∷ (0x0AE6, pos 10)
          ∷ (0x0AE7, pos 38)
          ∷ (0x0AF6, pos 88)
          ∷ (0x0AF8, pos 11)
          ∷ (0x0AFA, pos 58)
          ∷ (0x0AFC, pos 16)
          ∷ (0x0AFD, negsuc 0)
          ∷ (0x0B0D, pos 10)
          ∷ (0x0B24, pos 6)
          ∷ (0x0B46, pos 10)
          ∷ (0x0B68, pos 12)
          ∷ (0x0B6B, pos 14)
          ∷ (0x0B6C, pos 12)
          ∷ (0x0B8D, negsuc 0)
          ∷ (0x0B98, pos 6)
          ∷ (0x0B9A, pos 11)
          ∷ (0x0BB1, pos 3)
          ∷ (0x0BDD, pos 4)
          ∷ (0x0BE2, pos 137)
          ∷ (0x0BE9, pos 6)
          ∷ (0x0BF3, pos 4)
          ∷ (0x0C0B, pos 18)
          ∷ (0x0C0C, pos 4)
          ∷ (0x0C22, pos 12)
          ∷ [],
    )
    ∷ []
