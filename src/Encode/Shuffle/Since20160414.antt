-- ===== src/Encode/Shuffle/Since20160414.antt =====
-- pkg/encode/shuffle_map.go, lines 3406 to 3746: cases of `shuffledCtoSID`.
use rathena_client.Shared.{ℕ, List, [], ◌∷◌}
use rathena_client.Encode.Cases.{Cases}

abbrev pub cases_20160414 : Cases
cases_20160414 =
    (0x0064, 0x087A)
    ∷ (0x0072, 0x0862)
    ∷ (0x007E, 0x035F)
    ∷ (0x0085, 0x0437)
    ∷ (0x0089, 0x0369)
    ∷ (0x0094, 0x096A)
    ∷ (0x009B, 0x0922)
    ∷ (0x009F, 0x0363)
    ∷ (0x00A2, 0x0931)
    ∷ (0x00F3, 0x0953)
    ∷ (0x00F5, 0x0885)
    ∷ (0x0113, 0x083C)
    ∷ (0x0116, 0x0438)
    ∷ (0x0190, 0x0366)
    ∷ (0x0193, 0x0368)
    ∷ (0x0202, 0x0945)
    ∷ (0x022D, 0x0934)
    ∷ (0x023B, 0x0927)
    ∷ (0x07E4, 0x0362)
    ∷ (0x0802, 0x0880)
    ∷ (0x0811, 0x0815)
    ∷ (0x0815, 0x0817)
    ∷ (0x0817, 0x0360)
    ∷ (0x0819, 0x0811)
    ∷ (0x0835, 0x0819)
    ∷ (0x0838, 0x0835)
    ∷ (0x088D, 0x089E)
    ∷ []

abbrev pub cases_20160420 : Cases
cases_20160420 =
    (0x0064, 0x0870)
    ∷ (0x0072, 0x0888)
    ∷ (0x007E, 0x02C4)
    ∷ (0x0085, 0x0437)
    ∷ (0x0089, 0x0369)
    ∷ (0x0094, 0x096A)
    ∷ (0x009B, 0x0872)
    ∷ (0x009F, 0x0864)
    ∷ (0x00A2, 0x0884)
    ∷ (0x00F3, 0x0874)
    ∷ (0x00F5, 0x088B)
    ∷ (0x0113, 0x083C)
    ∷ (0x0116, 0x0438)
    ∷ (0x0190, 0x0366)
    ∷ (0x0193, 0x0368)
    ∷ (0x0202, 0x0935)
    ∷ (0x022D, 0x0819)
    ∷ (0x023B, 0x08A5)
    ∷ (0x07E4, 0x094E)
    ∷ (0x0802, 0x092F)
    ∷ (0x0811, 0x0815)
    ∷ (0x0815, 0x0817)
    ∷ (0x0817, 0x0360)
    ∷ (0x0819, 0x0811)
    ∷ (0x0835, 0x022D)
    ∷ (0x0838, 0x0835)
    ∷ (0x088D, 0x035F)
    ∷ []

abbrev pub cases_20160427 : Cases
cases_20160427 =
    (0x0064, 0x0363)
    ∷ (0x0072, 0x022D)
    ∷ (0x007E, 0x035F)
    ∷ (0x0085, 0x0437)
    ∷ (0x0089, 0x0369)
    ∷ (0x0094, 0x096A)
    ∷ (0x009B, 0x0202)
    ∷ (0x009F, 0x07E4)
    ∷ (0x00A2, 0x0362)
    ∷ (0x00F3, 0x07EC)
    ∷ (0x00F5, 0x0364)
    ∷ (0x0113, 0x083C)
    ∷ (0x0116, 0x0438)
    ∷ (0x0190, 0x0366)
    ∷ (0x0193, 0x0368)
    ∷ (0x0202, 0x023B)
    ∷ (0x022D, 0x0361)
    ∷ (0x023B, 0x0835)
    ∷ (0x07E4, 0x0281)
    ∷ (0x0802, 0x0365)
    ∷ (0x0811, 0x0815)
    ∷ (0x0815, 0x0817)
    ∷ (0x0817, 0x0360)
    ∷ (0x0819, 0x0811)
    ∷ (0x0835, 0x0940)
    ∷ (0x0838, 0x0819)
    ∷ (0x088D, 0x0802)
    ∷ []

abbrev pub cases_20160504 : Cases
cases_20160504 =
    (0x0064, 0x0365)
    ∷ (0x0072, 0x0940)
    ∷ (0x007E, 0x0918)
    ∷ (0x0085, 0x0924)
    ∷ (0x0089, 0x085F)
    ∷ (0x0094, 0x0922)
    ∷ (0x009B, 0x08AD)
    ∷ (0x009F, 0x088A)
    ∷ (0x00A2, 0x0890)
    ∷ (0x00F3, 0x0886)
    ∷ (0x00F5, 0x0941)
    ∷ (0x0113, 0x088D)
    ∷ (0x0116, 0x0884)
    ∷ (0x0190, 0x0921)
    ∷ (0x0193, 0x089D)
    ∷ (0x0202, 0x0952)
    ∷ (0x022D, 0x0202)
    ∷ (0x023B, 0x0969)
    ∷ (0x07E4, 0x088F)
    ∷ (0x0802, 0x0893)
    ∷ (0x0811, 0x0363)
    ∷ (0x0815, 0x087F)
    ∷ (0x0817, 0x095B)
    ∷ (0x0819, 0x086B)
    ∷ (0x0835, 0x093E)
    ∷ (0x0838, 0x083C)
    ∷ (0x088D, 0x0887)
    ∷ []

abbrev pub cases_20160511 : Cases
cases_20160511 =
    (0x0064, 0x0363)
    ∷ (0x0072, 0x0920)
    ∷ (0x007E, 0x035F)
    ∷ (0x0085, 0x0437)
    ∷ (0x0089, 0x0369)
    ∷ (0x0094, 0x096A)
    ∷ (0x009B, 0x085E)
    ∷ (0x009F, 0x07E4)
    ∷ (0x00A2, 0x0362)
    ∷ (0x00F3, 0x07EC)
    ∷ (0x00F5, 0x0364)
    ∷ (0x0113, 0x083C)
    ∷ (0x0116, 0x0438)
    ∷ (0x0190, 0x0366)
    ∷ (0x0193, 0x0368)
    ∷ (0x0202, 0x0894)
    ∷ (0x022D, 0x0918)
    ∷ (0x023B, 0x0940)
    ∷ (0x07E4, 0x0281)
    ∷ (0x0802, 0x0365)
    ∷ (0x0811, 0x0815)
    ∷ (0x0815, 0x0817)
    ∷ (0x0817, 0x0360)
    ∷ (0x0819, 0x0811)
    ∷ (0x0835, 0x0819)
    ∷ (0x0838, 0x0835)
    ∷ (0x088D, 0x0802)
    ∷ []

abbrev pub cases_20160518 : Cases
cases_20160518 =
    (0x0064, 0x0363)
    ∷ (0x0072, 0x0874)
    ∷ (0x007E, 0x035F)
    ∷ (0x0085, 0x0437)
    ∷ (0x0089, 0x0369)
    ∷ (0x0094, 0x096A)
    ∷ (0x009B, 0x086C)
    ∷ (0x009F, 0x07E4)
    ∷ (0x00A2, 0x0362)
    ∷ (0x00F3, 0x07EC)
    ∷ (0x00F5, 0x0364)
    ∷ (0x0113, 0x083C)
    ∷ (0x0116, 0x0438)
    ∷ (0x0190, 0x0366)
    ∷ (0x0193, 0x0368)
    ∷ (0x0202, 0x08A9)
    ∷ (0x022D, 0x0928)
    ∷ (0x023B, 0x089A)
    ∷ (0x07E4, 0x0281)
    ∷ (0x0802, 0x0365)
    ∷ (0x0811, 0x0815)
    ∷ (0x0815, 0x0817)
    ∷ (0x0817, 0x0360)
    ∷ (0x0819, 0x0811)
    ∷ (0x0835, 0x0819)
    ∷ (0x0838, 0x0835)
    ∷ (0x088D, 0x0802)
    ∷ []

abbrev pub versions_since_20160414 : List (ℕ × Cases)
versions_since_20160414 =
    (20160414, cases_20160414)
    ∷ (20160420, cases_20160420)
    ∷ (20160427, cases_20160427)
    ∷ (20160504, cases_20160504)
    ∷ (20160511, cases_20160511)
    ∷ (20160518, cases_20160518)
    ∷ []
