-- ===== src/Encode/Shuffle/Since20160120.antt =====
-- pkg/encode/shuffle_map.go, lines 2722 to 3062: cases of `shuffledCtoSID`.
use rathena_client.Shared.{ℕ, List, [], ◌∷◌}
use rathena_client.Encode.Cases.{Cases}

abbrev pub cases_20160120 : Cases
cases_20160120 =
    (0x0064, 0x0363)
    ∷ (0x0072, 0x022D)
    ∷ (0x007E, 0x035F)
    ∷ (0x0085, 0x0437)
    ∷ (0x0089, 0x0369)
    ∷ (0x0094, 0x096A)
    ∷ (0x009B, 0x0202)
    ∷ (0x009F, 0x07E4)
    ∷ (0x00A2, 0x0362)
    ∷ (0x00F3, 0x07EC)
    ∷ (0x00F5, 0x0364)
    ∷ (0x0113, 0x083C)
    ∷ (0x0116, 0x0438)
    ∷ (0x0190, 0x0366)
    ∷ (0x0193, 0x0368)
    ∷ (0x0202, 0x023B)
    ∷ (0x022D, 0x0361)
    ∷ (0x023B, 0x0865)
    ∷ (0x07E4, 0x0281)
    ∷ (0x0802, 0x0365)
    ∷ (0x0811, 0x0815)
    ∷ (0x0815, 0x0817)
    ∷ (0x0817, 0x0360)
    ∷ (0x0819, 0x0811)
    ∷ (0x0835, 0x0819)
    ∷ (0x0838, 0x0835)
    ∷ (0x088D, 0x0802)
    ∷ []

abbrev pub cases_20160127 : Cases
cases_20160127 =
    (0x0064, 0x0363)
    ∷ (0x0072, 0x022D)
    ∷ (0x007E, 0x035F)
    ∷ (0x0085, 0x0437)
    ∷ (0x0089, 0x0369)
    ∷ (0x0094, 0x096A)
    ∷ (0x009B, 0x085E)
    ∷ (0x009F, 0x07E4)
    ∷ (0x00A2, 0x0362)
    ∷ (0x00F3, 0x07EC)
    ∷ (0x00F5, 0x0364)
    ∷ (0x0113, 0x083C)
    ∷ (0x0116, 0x0438)
    ∷ (0x0190, 0x0366)
    ∷ (0x0193, 0x0368)
    ∷ (0x0202, 0x0961)
    ∷ (0x022D, 0x0922)
    ∷ (0x023B, 0x095A)
    ∷ (0x07E4, 0x0281)
    ∷ (0x0802, 0x0365)
    ∷ (0x0811, 0x0815)
    ∷ (0x0815, 0x0817)
    ∷ (0x0817, 0x0360)
    ∷ (0x0819, 0x0811)
    ∷ (0x0835, 0x0819)
    ∷ (0x0838, 0x0835)
    ∷ (0x088D, 0x0802)
    ∷ []

abbrev pub cases_20160203 : Cases
cases_20160203 =
    (0x0064, 0x088C)
    ∷ (0x0072, 0x0819)
    ∷ (0x007E, 0x0437)
    ∷ (0x0085, 0x0940)
    ∷ (0x0089, 0x0369)
    ∷ (0x0094, 0x096A)
    ∷ (0x009B, 0x0811)
    ∷ (0x009F, 0x095A)
    ∷ (0x00A2, 0x0947)
    ∷ (0x00F3, 0x095D)
    ∷ (0x00F5, 0x0954)
    ∷ (0x0113, 0x083C)
    ∷ (0x0116, 0x0438)
    ∷ (0x0190, 0x0366)
    ∷ (0x0193, 0x0368)
    ∷ (0x0202, 0x0361)
    ∷ (0x022D, 0x0872)
    ∷ (0x023B, 0x0873)
    ∷ (0x07E4, 0x0835)
    ∷ (0x0802, 0x086C)
    ∷ (0x0811, 0x0815)
    ∷ (0x0815, 0x0817)
    ∷ (0x0817, 0x0360)
    ∷ (0x0819, 0x0202)
    ∷ (0x0835, 0x0436)
    ∷ (0x0838, 0x07E4)
    ∷ (0x088D, 0x093E)
    ∷ []

abbrev pub cases_20160211 : Cases
cases_20160211 =
    (0x0064, 0x0363)
    ∷ (0x0072, 0x022D)
    ∷ (0x007E, 0x035F)
    ∷ (0x0085, 0x0437)
    ∷ (0x0089, 0x0369)
    ∷ (0x0094, 0x096A)
    ∷ (0x009B, 0x086C)
    ∷ (0x009F, 0x07E4)
    ∷ (0x00A2, 0x0362)
    ∷ (0x00F3, 0x07EC)
    ∷ (0x00F5, 0x0364)
    ∷ (0x0113, 0x083C)
    ∷ (0x0116, 0x0438)
    ∷ (0x0190, 0x0366)
    ∷ (0x0193, 0x0368)
    ∷ (0x0202, 0x0870)
    ∷ (0x022D, 0x0886)
    ∷ (0x023B, 0x0365)
    ∷ (0x07E4, 0x0281)
    ∷ (0x0802, 0x023B)
    ∷ (0x0811, 0x0815)
    ∷ (0x0815, 0x0817)
    ∷ (0x0817, 0x0360)
    ∷ (0x0819, 0x0811)
    ∷ (0x0835, 0x0819)
    ∷ (0x0838, 0x0835)
    ∷ (0x088D, 0x0802)
    ∷ []

abbrev pub cases_20160217 : Cases
cases_20160217 =
    (0x0064, 0x0899)
    ∷ (0x0072, 0x087A)
    ∷ (0x007E, 0x0888)
    ∷ (0x0085, 0x091D)
    ∷ (0x0089, 0x0920)
    ∷ (0x0094, 0x0966)
    ∷ (0x009B, 0x0362)
    ∷ (0x009F, 0x0941)
    ∷ (0x00A2, 0x088F)
    ∷ (0x00F3, 0x0864)
    ∷ (0x00F5, 0x08A0)
    ∷ (0x0113, 0x0926)
    ∷ (0x0116, 0x094A)
    ∷ (0x0190, 0x092E)
    ∷ (0x0193, 0x0967)
    ∷ (0x0202, 0x0870)
    ∷ (0x022D, 0x0873)
    ∷ (0x023B, 0x095E)
    ∷ (0x07E4, 0x093B)
    ∷ (0x0802, 0x08AC)
    ∷ (0x0811, 0x0969)
    ∷ (0x0815, 0x023B)
    ∷ (0x0817, 0x088D)
    ∷ (0x0819, 0x0202)
    ∷ (0x0835, 0x093E)
    ∷ (0x0838, 0x08AD)
    ∷ (0x088D, 0x08A9)
    ∷ []

abbrev pub cases_20160224 : Cases
cases_20160224 =
    (0x0064, 0x086B)
    ∷ (0x0072, 0x0861)
    ∷ (0x007E, 0x035F)
    ∷ (0x0085, 0x0888)
    ∷ (0x0089, 0x0884)
    ∷ (0x0094, 0x096A)
    ∷ (0x009B, 0x0929)
    ∷ (0x009F, 0x0938)
    ∷ (0x00A2, 0x0436)
    ∷ (0x00F3, 0x083C)
    ∷ (0x00F5, 0x0369)
    ∷ (0x0113, 0x0364)
    ∷ (0x0116, 0x0438)
    ∷ (0x0190, 0x0366)
    ∷ (0x0193, 0x0368)
    ∷ (0x0202, 0x08A9)
    ∷ (0x022D, 0x0961)
    ∷ (0x023B, 0x0936)
    ∷ (0x07E4, 0x092F)
    ∷ (0x0802, 0x094C)
    ∷ (0x0811, 0x0815)
    ∷ (0x0815, 0x0817)
    ∷ (0x0817, 0x0885)
    ∷ (0x0819, 0x0811)
    ∷ (0x0835, 0x0819)
    ∷ (0x0838, 0x0835)
    ∷ (0x088D, 0x022D)
    ∷ []

abbrev pub versions_since_20160120 : List (ℕ × Cases)
versions_since_20160120 =
    (20160120, cases_20160120)
    ∷ (20160127, cases_20160127)
    ∷ (20160203, cases_20160203)
    ∷ (20160211, cases_20160211)
    ∷ (20160217, cases_20160217)
    ∷ (20160224, cases_20160224)
    ∷ []
