-- ===== src/Session/Lengths/Login.antt =====
-- pkg/session/lengths_login.go: the assignments of `populateLoginLengths`, block by block.
use rathena_client.Shared.{List, [], ◌∷◌, pos, negsuc}
use rathena_client.Session.Lengths.Blocks.{Block}

abbrev pub login_base_0064 : List Block
login_base_0064 =
    (
      0,
      (0x0064, pos 55)
          ∷ (0x0069, negsuc 0)
          ∷ (0x006A, pos 23)
          ∷ (0x0081, pos 3)
          ∷ (0x01DB, pos 2)
          ∷ (0x01DC, negsuc 0)
          ∷ (0x01DD, pos 47)
          ∷ (0x01FA, pos 48)
          ∷ (0x0200, pos 26)
          ∷ (0x0204, pos 18)
          ∷ (0x0277, pos 84)
          ∷ (0x027C, pos 60)
          ∷ (0x02B0, pos 85)
          ∷ (0x0825, negsuc 0)
          ∷ (0x0ACF, pos 68)
          ∷ (0x0AE3, pos 34)
          ∷ [],
    )
    ∷ []

abbrev pub login_since_20120000 : List Block
login_since_20120000 =
    (20120000, (0x006A, pos 0) ∷ (0x083E, pos 26) ∷ [])
    ∷ (20170315, (0x0069, pos 0) ∷ (0x0AC4, negsuc 0) ∷ [])
    ∷ []
