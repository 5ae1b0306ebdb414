-- ===== src/Encode/Shuffle/Since20150204.antt =====
-- pkg/encode/shuffle_map.go, lines 1016 to 1356: cases of `shuffledCtoSID`.
use rathena_client.Shared.{ℕ, List, [], ◌∷◌}
use rathena_client.Encode.Cases.{Cases}

abbrev pub cases_20150204 : Cases
cases_20150204 =
    (0x0064, 0x0363)
    ∷ (0x0072, 0x022D)
    ∷ (0x007E, 0x035F)
    ∷ (0x0085, 0x0437)
    ∷ (0x0089, 0x0369)
    ∷ (0x0094, 0x096A)
    ∷ (0x009B, 0x0202)
    ∷ (0x009F, 0x07E4)
    ∷ (0x00A2, 0x0362)
    ∷ (0x00F3, 0x07EC)
    ∷ (0x00F5, 0x0364)
    ∷ (0x0113, 0x083C)
    ∷ (0x0116, 0x0438)
    ∷ (0x0190, 0x0366)
    ∷ (0x0193, 0x0368)
    ∷ (0x0202, 0x023B)
    ∷ (0x022D, 0x0361)
    ∷ (0x023B, 0x0966)
    ∷ (0x07E4, 0x0281)
    ∷ (0x0802, 0x0365)
    ∷ (0x0811, 0x0815)
    ∷ (0x0815, 0x0817)
    ∷ (0x0817, 0x0360)
    ∷ (0x0819, 0x0811)
    ∷ (0x0835, 0x0819)
    ∷ (0x0838, 0x0835)
    ∷ (0x088D, 0x0802)
    ∷ []

abbrev pub cases_20150225 : Cases
cases_20150225 =
    (0x0064, 0x0885)
    ∷ (0x0072, 0x096A)
    ∷ (0x007E, 0x035F)
    ∷ (0x0085, 0x0437)
    ∷ (0x0089, 0x0369)
    ∷ (0x0094, 0x0436)
    ∷ (0x009B, 0x0955)
    ∷ (0x009F, 0x0817)
    ∷ (0x00A2, 0x0948)
    ∷ (0x00F3, 0x089C)
    ∷ (0x00F5, 0x0952)
    ∷ (0x0113, 0x083C)
    ∷ (0x0116, 0x0438)
    ∷ (0x0190, 0x0366)
    ∷ (0x0193, 0x0368)
    ∷ (0x0202, 0x0946)
    ∷ (0x022D, 0x094F)
    ∷ (0x023B, 0x08A4)
    ∷ (0x07E4, 0x0896)
    ∷ (0x0802, 0x0867)
    ∷ (0x0811, 0x0815)
    ∷ (0x0815, 0x0362)
    ∷ (0x0817, 0x02C4)
    ∷ (0x0819, 0x0811)
    ∷ (0x0835, 0x0940)
    ∷ (0x0838, 0x0819)
    ∷ (0x088D, 0x0360)
    ∷ []

abbrev pub cases_20150311 : Cases
cases_20150311 =
    (0x0064, 0x092A)
    ∷ (0x0072, 0x0815)
    ∷ (0x007E, 0x0958)
    ∷ (0x0085, 0x0886)
    ∷ (0x0089, 0x0896)
    ∷ (0x0094, 0x086A)
    ∷ (0x009B, 0x0928)
    ∷ (0x009F, 0x08A3)
    ∷ (0x00A2, 0x0963)
    ∷ (0x00F3, 0x0964)
    ∷ (0x00F5, 0x092E)
    ∷ (0x0113, 0x08A1)
    ∷ (0x0116, 0x0838)
    ∷ (0x0190, 0x091C)
    ∷ (0x0193, 0x0943)
    ∷ (0x0202, 0x08A6)
    ∷ (0x022D, 0x023B)
    ∷ (0x023B, 0x086C)
    ∷ (0x07E4, 0x0883)
    ∷ (0x0802, 0x087B)
    ∷ (0x0811, 0x095B)
    ∷ (0x0815, 0x0360)
    ∷ (0x0817, 0x0957)
    ∷ (0x0819, 0x0438)
    ∷ (0x0835, 0x0436)
    ∷ (0x0838, 0x0888)
    ∷ (0x088D, 0x093B)
    ∷ []

abbrev pub cases_20150325 : Cases
cases_20150325 =
    (0x0064, 0x0802)
    ∷ (0x0072, 0x094A)
    ∷ (0x007E, 0x0954)
    ∷ (0x0085, 0x0932)
    ∷ (0x0089, 0x08A1)
    ∷ (0x0094, 0x0891)
    ∷ (0x009B, 0x087E)
    ∷ (0x009F, 0x092C)
    ∷ (0x00A2, 0x0363)
    ∷ (0x00F3, 0x087C)
    ∷ (0x00F5, 0x0969)
    ∷ (0x0113, 0x0365)
    ∷ (0x0116, 0x0885)
    ∷ (0x0190, 0x08A7)
    ∷ (0x0193, 0x085D)
    ∷ (0x0202, 0x0940)
    ∷ (0x022D, 0x0938)
    ∷ (0x023B, 0x0919)
    ∷ (0x07E4, 0x0950)
    ∷ (0x0802, 0x0899)
    ∷ (0x0811, 0x086F)
    ∷ (0x0815, 0x0947)
    ∷ (0x0817, 0x0819)
    ∷ (0x0819, 0x0897)
    ∷ (0x0835, 0x0931)
    ∷ (0x0838, 0x0438)
    ∷ (0x088D, 0x0202)
    ∷ []

abbrev pub cases_20150401 : Cases
cases_20150401 =
    (0x0064, 0x087E)
    ∷ (0x0072, 0x0939)
    ∷ (0x007E, 0x088F)
    ∷ (0x0085, 0x086F)
    ∷ (0x0089, 0x0362)
    ∷ (0x0094, 0x0367)
    ∷ (0x009B, 0x0964)
    ∷ (0x009F, 0x0949)
    ∷ (0x00A2, 0x088C)
    ∷ (0x00F3, 0x08A5)
    ∷ (0x00F5, 0x0895)
    ∷ (0x0113, 0x094B)
    ∷ (0x0116, 0x093A)
    ∷ (0x0190, 0x091C)
    ∷ (0x0193, 0x095F)
    ∷ (0x0202, 0x0953)
    ∷ (0x022D, 0x0898)
    ∷ (0x023B, 0x089C)
    ∷ (0x07E4, 0x0875)
    ∷ (0x0802, 0x0924)
    ∷ (0x0811, 0x0922)
    ∷ (0x0815, 0x0938)
    ∷ (0x0817, 0x0437)
    ∷ (0x0819, 0x093B)
    ∷ (0x0835, 0x083C)
    ∷ (0x0838, 0x093E)
    ∷ (0x088D, 0x091B)
    ∷ []

abbrev pub cases_20150422 : Cases
cases_20150422 =
    (0x0064, 0x0363)
    ∷ (0x0072, 0x022D)
    ∷ (0x007E, 0x035F)
    ∷ (0x0085, 0x0437)
    ∷ (0x0089, 0x0369)
    ∷ (0x0094, 0x096A)
    ∷ (0x009B, 0x0202)
    ∷ (0x009F, 0x07E4)
    ∷ (0x00A2, 0x0362)
    ∷ (0x00F3, 0x07EC)
    ∷ (0x00F5, 0x0364)
    ∷ (0x0113, 0x083C)
    ∷ (0x0116, 0x0438)
    ∷ (0x0190, 0x0366)
    ∷ (0x0193, 0x0368)
    ∷ (0x0202, 0x023B)
    ∷ (0x022D, 0x0361)
    ∷ (0x023B, 0x0955)
    ∷ (0x07E4, 0x0281)
    ∷ (0x0802, 0x0365)
    ∷ (0x0811, 0x0815)
    ∷ (0x0815, 0x0817)
    ∷ (0x0817, 0x0360)
    ∷ (0x0819, 0x0811)
    ∷ (0x0835, 0x0819)
    ∷ (0x0838, 0x0835)
    ∷ (0x088D, 0x0802)
    ∷ []

abbrev pub versions_since_20150204 : List (ℕ × Cases)
versions_since_20150204 =
    (20150204, cases_20150204)
    ∷ (20150225, cases_20150225)
    ∷ (20150311, cases_20150311)
    ∷ (20150325, cases_20150325)
    ∷ (20150401, cases_20150401)
    ∷ (20150422, cases_20150422)
    ∷ []
