-- ===== src/Encode/Shuffle/Since20171220.antt =====
-- pkg/encode/shuffle_map.go, lines 8188 to 8528: cases of `shuffledCtoSID`.
use rathena_client.Shared.{ℕ, List, [], ◌∷◌}
use rathena_client.Encode.Cases.{Cases}

abbrev pub cases_20171220 : Cases
cases_20171220 =
    (0x0064, 0x0946)
    ∷ (0x0072, 0x0281)
    ∷ (0x007E, 0x0882)
    ∷ (0x0085, 0x089E)
    ∷ (0x0089, 0x093E)
    ∷ (0x0094, 0x0873)
    ∷ (0x009B, 0x0933)
    ∷ (0x009F, 0x091B)
    ∷ (0x00A2, 0x0929)
    ∷ (0x00F3, 0x0924)
    ∷ (0x00F5, 0x0366)
    ∷ (0x0113, 0x0872)
    ∷ (0x0116, 0x088C)
    ∷ (0x0190, 0x0960)
    ∷ (0x0193, 0x091E)
    ∷ (0x0202, 0x0957)
    ∷ (0x022D, 0x0951)
    ∷ (0x023B, 0x0899)
    ∷ (0x07E4, 0x0885)
    ∷ (0x0802, 0x0437)
    ∷ (0x0811, 0x085E)
    ∷ (0x0815, 0x08A7)
    ∷ (0x0817, 0x0941)
    ∷ (0x0819, 0x0861)
    ∷ (0x0835, 0x0369)
    ∷ (0x0838, 0x0436)
    ∷ (0x088D, 0x0964)
    ∷ []

abbrev pub cases_20171227 : Cases
cases_20171227 =
    (0x0064, 0x088A)
    ∷ (0x0072, 0x092C)
    ∷ (0x007E, 0x035F)
    ∷ (0x0085, 0x0437)
    ∷ (0x0089, 0x0361)
    ∷ (0x0094, 0x0802)
    ∷ (0x009B, 0x0369)
    ∷ (0x009F, 0x088D)
    ∷ (0x00A2, 0x0969)
    ∷ (0x00F3, 0x08A0)
    ∷ (0x00F5, 0x0888)
    ∷ (0x0113, 0x083C)
    ∷ (0x0116, 0x0438)
    ∷ (0x0190, 0x0366)
    ∷ (0x0193, 0x0368)
    ∷ (0x0202, 0x0946)
    ∷ (0x022D, 0x08A5)
    ∷ (0x023B, 0x087D)
    ∷ (0x07E4, 0x0945)
    ∷ (0x0802, 0x096A)
    ∷ (0x0811, 0x0815)
    ∷ (0x0815, 0x0817)
    ∷ (0x0817, 0x0360)
    ∷ (0x0819, 0x0811)
    ∷ (0x0835, 0x0819)
    ∷ (0x0838, 0x0835)
    ∷ (0x088D, 0x0938)
    ∷ []

abbrev pub cases_20180103 : Cases
cases_20180103 =
    (0x0064, 0x0865)
    ∷ (0x0072, 0x0811)
    ∷ (0x007E, 0x0876)
    ∷ (0x0085, 0x0941)
    ∷ (0x0089, 0x091D)
    ∷ (0x0094, 0x08AB)
    ∷ (0x009B, 0x08A9)
    ∷ (0x009F, 0x0935)
    ∷ (0x00A2, 0x095F)
    ∷ (0x00F3, 0x02C4)
    ∷ (0x00F5, 0x092C)
    ∷ (0x0113, 0x0938)
    ∷ (0x0116, 0x095D)
    ∷ (0x0190, 0x0960)
    ∷ (0x0193, 0x089F)
    ∷ (0x0202, 0x0899)
    ∷ (0x022D, 0x0948)
    ∷ (0x023B, 0x0946)
    ∷ (0x07E4, 0x08AC)
    ∷ (0x0802, 0x0927)
    ∷ (0x0811, 0x094E)
    ∷ (0x0815, 0x088E)
    ∷ (0x0817, 0x0872)
    ∷ (0x0819, 0x0879)
    ∷ (0x0835, 0x086B)
    ∷ (0x0838, 0x0922)
    ∷ (0x088D, 0x0363)
    ∷ []

abbrev pub cases_20180117 : Cases
cases_20180117 =
    (0x0064, 0x0363)
    ∷ (0x0072, 0x022D)
    ∷ (0x007E, 0x035F)
    ∷ (0x0085, 0x0437)
    ∷ (0x0089, 0x0369)
    ∷ (0x0094, 0x096A)
    ∷ (0x009B, 0x0202)
    ∷ (0x009F, 0x07E4)
    ∷ (0x00A2, 0x0362)
    ∷ (0x00F3, 0x07EC)
    ∷ (0x00F5, 0x0364)
    ∷ (0x0113, 0x083C)
    ∷ (0x0116, 0x0438)
    ∷ (0x0190, 0x0366)
    ∷ (0x0193, 0x0368)
    ∷ (0x0202, 0x023B)
    ∷ (0x022D, 0x0361)
    ∷ (0x023B, 0x0875)
    ∷ (0x07E4, 0x0281)
    ∷ (0x0802, 0x0365)
    ∷ (0x0811, 0x0815)
    ∷ (0x0815, 0x0817)
    ∷ (0x0817, 0x0360)
    ∷ (0x0819, 0x0811)
    ∷ (0x0835, 0x0819)
    ∷ (0x0838, 0x0835)
    ∷ (0x088D, 0x0802)
    ∷ []

abbrev pub cases_20180124 : Cases
cases_20180124 =
    (0x0064, 0x0868)
    ∷ (0x0072, 0x0888)
    ∷ (0x007E, 0x035F)
    ∷ (0x0085, 0x0437)
    ∷ (0x0089, 0x0369)
    ∷ (0x0094, 0x096A)
    ∷ (0x009B, 0x0958)
    ∷ (0x009F, 0x094D)
    ∷ (0x00A2, 0x0802)
    ∷ (0x00F3, 0x0436)
    ∷ (0x00F5, 0x0890)
    ∷ (0x0113, 0x083C)
    ∷ (0x0116, 0x0438)
    ∷ (0x0190, 0x0366)
    ∷ (0x0193, 0x0368)
    ∷ (0x0202, 0x0919)
    ∷ (0x022D, 0x0961)
    ∷ (0x023B, 0x085F)
    ∷ (0x07E4, 0x0946)
    ∷ (0x0802, 0x086A)
    ∷ (0x0811, 0x0815)
    ∷ (0x0815, 0x0817)
    ∷ (0x0817, 0x0360)
    ∷ (0x0819, 0x0811)
    ∷ (0x0835, 0x0940)
    ∷ (0x0838, 0x0819)
    ∷ (0x088D, 0x087A)
    ∷ []

abbrev pub cases_20180207 : Cases
cases_20180207 =
    (0x0064, 0x0360)
    ∷ (0x0072, 0x0870)
    ∷ (0x007E, 0x0940)
    ∷ (0x0085, 0x0437)
    ∷ (0x0089, 0x0369)
    ∷ (0x0094, 0x096A)
    ∷ (0x009B, 0x092E)
    ∷ (0x009F, 0x07E4)
    ∷ (0x00A2, 0x0362)
    ∷ (0x00F3, 0x07EC)
    ∷ (0x00F5, 0x0364)
    ∷ (0x0113, 0x083C)
    ∷ (0x0116, 0x0438)
    ∷ (0x0190, 0x0366)
    ∷ (0x0193, 0x0368)
    ∷ (0x0202, 0x0881)
    ∷ (0x022D, 0x092C)
    ∷ (0x023B, 0x0950)
    ∷ (0x07E4, 0x0281)
    ∷ (0x0802, 0x0365)
    ∷ (0x0811, 0x0815)
    ∷ (0x0815, 0x0817)
    ∷ (0x0817, 0x035F)
    ∷ (0x0819, 0x0811)
    ∷ (0x0835, 0x0819)
    ∷ (0x0838, 0x0835)
    ∷ (0x088D, 0x0802)
    ∷ []

abbrev pub versions_since_20171220 : List (ℕ × Cases)
versions_since_20171220 =
    (20171220, cases_20171220)
    ∷ (20171227, cases_20171227)
    ∷ (20180103, cases_20180103)
    ∷ (20180117, cases_20180117)
    ∷ (20180124, cases_20180124)
    ∷ (20180207, cases_20180207)
    ∷ []
