-- ===== src/Encode/Shuffle/Since20150429.antt =====
-- pkg/encode/shuffle_map.go, lines 1358 to 1698: cases of `shuffledCtoSID`.
use rathena_client.Shared.{ℕ, List, [], ◌∷◌}
use rathena_client.Encode.Cases.{Cases}

abbrev pub cases_20150429 : Cases
cases_20150429 =
    (0x0064, 0x08A6)
    ∷ (0x0072, 0x086A)
    ∷ (0x007E, 0x035F)
    ∷ (0x0085, 0x0437)
    ∷ (0x0089, 0x0369)
    ∷ (0x0094, 0x096A)
    ∷ (0x009B, 0x0363)
    ∷ (0x009F, 0x0943)
    ∷ (0x00A2, 0x0894)
    ∷ (0x00F3, 0x0899)
    ∷ (0x00F5, 0x0929)
    ∷ (0x0113, 0x083C)
    ∷ (0x0116, 0x0438)
    ∷ (0x0190, 0x0366)
    ∷ (0x0193, 0x0368)
    ∷ (0x0202, 0x093D)
    ∷ (0x022D, 0x088F)
    ∷ (0x023B, 0x0867)
    ∷ (0x07E4, 0x089F)
    ∷ (0x0802, 0x08AD)
    ∷ (0x0811, 0x0815)
    ∷ (0x0815, 0x0817)
    ∷ (0x0817, 0x0360)
    ∷ (0x0819, 0x0811)
    ∷ (0x0835, 0x0819)
    ∷ (0x0838, 0x0835)
    ∷ (0x088D, 0x0886)
    ∷ []

abbrev pub cases_20150507 : Cases
cases_20150507 =
    (0x0064, 0x0887)
    ∷ (0x0072, 0x0924)
    ∷ (0x007E, 0x035F)
    ∷ (0x0085, 0x0437)
    ∷ (0x0089, 0x0369)
    ∷ (0x0094, 0x096A)
    ∷ (0x009B, 0x093B)
    ∷ (0x009F, 0x0817)
    ∷ (0x00A2, 0x0955)
    ∷ (0x00F3, 0x085A)
    ∷ (0x00F5, 0x0941)
    ∷ (0x0113, 0x083C)
    ∷ (0x0116, 0x0438)
    ∷ (0x0190, 0x0366)
    ∷ (0x0193, 0x0368)
    ∷ (0x0202, 0x0958)
    ∷ (0x022D, 0x023B)
    ∷ (0x023B, 0x0953)
    ∷ (0x07E4, 0x092E)
    ∷ (0x0802, 0x0889)
    ∷ (0x0811, 0x0815)
    ∷ (0x0815, 0x0362)
    ∷ (0x0817, 0x0360)
    ∷ (0x0819, 0x0811)
    ∷ (0x0835, 0x0819)
    ∷ (0x0838, 0x0835)
    ∷ (0x088D, 0x0864)
    ∷ []

abbrev pub cases_20150513 : Cases
cases_20150513 =
    (0x0064, 0x02C4)
    ∷ (0x0072, 0x0363)
    ∷ (0x007E, 0x035F)
    ∷ (0x0085, 0x0437)
    ∷ (0x0089, 0x0369)
    ∷ (0x0094, 0x096A)
    ∷ (0x009B, 0x0924)
    ∷ (0x009F, 0x0958)
    ∷ (0x00A2, 0x0885)
    ∷ (0x00F3, 0x0879)
    ∷ (0x00F5, 0x0864)
    ∷ (0x0113, 0x083C)
    ∷ (0x0116, 0x0438)
    ∷ (0x0190, 0x0366)
    ∷ (0x0193, 0x0368)
    ∷ (0x0202, 0x08A8)
    ∷ (0x022D, 0x0817)
    ∷ (0x023B, 0x0923)
    ∷ (0x07E4, 0x0960)
    ∷ (0x0802, 0x0883)
    ∷ (0x0811, 0x0815)
    ∷ (0x0815, 0x022D)
    ∷ (0x0817, 0x0360)
    ∷ (0x0819, 0x0811)
    ∷ (0x0835, 0x0819)
    ∷ (0x0838, 0x0835)
    ∷ (0x088D, 0x094A)
    ∷ []

abbrev pub cases_20150527 : Cases
cases_20150527 =
    (0x0064, 0x0363)
    ∷ (0x0072, 0x022D)
    ∷ (0x007E, 0x035F)
    ∷ (0x0085, 0x0437)
    ∷ (0x0089, 0x0369)
    ∷ (0x0094, 0x096A)
    ∷ (0x009B, 0x0202)
    ∷ (0x009F, 0x07E4)
    ∷ (0x00A2, 0x0362)
    ∷ (0x00F3, 0x07EC)
    ∷ (0x00F5, 0x0364)
    ∷ (0x0113, 0x0838)
    ∷ (0x0116, 0x0438)
    ∷ (0x0190, 0x0366)
    ∷ (0x0193, 0x0368)
    ∷ (0x0202, 0x023B)
    ∷ (0x022D, 0x0361)
    ∷ (0x023B, 0x083C)
    ∷ (0x07E4, 0x0281)
    ∷ (0x0802, 0x0365)
    ∷ (0x0811, 0x0815)
    ∷ (0x0815, 0x0817)
    ∷ (0x0817, 0x0360)
    ∷ (0x0819, 0x0811)
    ∷ (0x0835, 0x0819)
    ∷ (0x0838, 0x0835)
    ∷ (0x088D, 0x0802)
    ∷ []

abbrev pub cases_20150617 : Cases
cases_20150617 =
    (0x0064, 0x0811)
    ∷ (0x0072, 0x0436)
    ∷ (0x007E, 0x035F)
    ∷ (0x0085, 0x0437)
    ∷ (0x0089, 0x0369)
    ∷ (0x0094, 0x096A)
    ∷ (0x009B, 0x086B)
    ∷ (0x009F, 0x0360)
    ∷ (0x00A2, 0x0940)
    ∷ (0x00F3, 0x087A)
    ∷ (0x00F5, 0x0869)
    ∷ (0x0113, 0x083C)
    ∷ (0x0116, 0x0438)
    ∷ (0x0190, 0x0366)
    ∷ (0x0193, 0x0368)
    ∷ (0x0202, 0x094E)
    ∷ (0x022D, 0x0886)
    ∷ (0x023B, 0x0363)
    ∷ (0x07E4, 0x0365)
    ∷ (0x0802, 0x086A)
    ∷ (0x0811, 0x0815)
    ∷ (0x0815, 0x0817)
    ∷ (0x0817, 0x0362)
    ∷ (0x0819, 0x07EC)
    ∷ (0x0835, 0x0819)
    ∷ (0x0838, 0x0835)
    ∷ (0x088D, 0x0870)
    ∷ []

abbrev pub cases_20150819 : Cases
cases_20150819 =
    (0x0064, 0x0436)
    ∷ (0x0072, 0x0927)
    ∷ (0x007E, 0x035F)
    ∷ (0x0085, 0x0437)
    ∷ (0x0089, 0x0369)
    ∷ (0x0094, 0x096A)
    ∷ (0x009B, 0x0967)
    ∷ (0x009F, 0x0281)
    ∷ (0x00A2, 0x0940)
    ∷ (0x00F3, 0x0919)
    ∷ (0x00F5, 0x085D)
    ∷ (0x0113, 0x022D)
    ∷ (0x0116, 0x0438)
    ∷ (0x0190, 0x0366)
    ∷ (0x0193, 0x0368)
    ∷ (0x0202, 0x0865)
    ∷ (0x022D, 0x0888)
    ∷ (0x023B, 0x091E)
    ∷ (0x07E4, 0x0202)
    ∷ (0x0802, 0x0871)
    ∷ (0x0811, 0x0815)
    ∷ (0x0815, 0x0817)
    ∷ (0x0817, 0x0360)
    ∷ (0x0819, 0x0811)
    ∷ (0x0835, 0x0819)
    ∷ (0x0838, 0x0835)
    ∷ (0x088D, 0x0961)
    ∷ []

abbrev pub versions_since_20150429 : List (ℕ × Cases)
versions_since_20150429 =
    (20150429, cases_20150429)
    ∷ (20150507, cases_20150507)
    ∷ (20150513, cases_20150513)
    ∷ (20150527, cases_20150527)
    ∷ (20150617, cases_20150617)
    ∷ (20150819, cases_20150819)
    ∷ []
