-- ===== src/Encode/Shuffle/Since20170816.antt =====
-- pkg/encode/shuffle_map.go, lines 7162 to 7502: cases of `shuffledCtoSID`.
use rathena_client.Shared.{ℕ, List, [], ◌∷◌}
use rathena_client.Encode.Cases.{Cases}

abbrev pub cases_20170816 : Cases
cases_20170816 =
    (0x0064, 0x0884)
    ∷ (0x0072, 0x093D)
    ∷ (0x007E, 0x0889)
    ∷ (0x0085, 0x08A9)
    ∷ (0x0089, 0x0438)
    ∷ (0x0094, 0x022D)
    ∷ (0x009B, 0x0950)
    ∷ (0x009F, 0x087E)
    ∷ (0x00A2, 0x0941)
    ∷ (0x00F3, 0x0959)
    ∷ (0x00F5, 0x0925)
    ∷ (0x0113, 0x0940)
    ∷ (0x0116, 0x0862)
    ∷ (0x0190, 0x0362)
    ∷ (0x0193, 0x085A)
    ∷ (0x0202, 0x08A3)
    ∷ (0x022D, 0x08AC)
    ∷ (0x023B, 0x0882)
    ∷ (0x07E4, 0x0361)
    ∷ (0x0802, 0x0888)
    ∷ (0x0811, 0x092C)
    ∷ (0x0815, 0x0864)
    ∷ (0x0817, 0x0921)
    ∷ (0x0819, 0x0881)
    ∷ (0x0835, 0x0960)
    ∷ (0x0838, 0x035F)
    ∷ (0x088D, 0x093A)
    ∷ []

abbrev pub cases_20170823 : Cases
cases_20170823 =
    (0x0064, 0x0363)
    ∷ (0x0072, 0x086C)
    ∷ (0x007E, 0x035F)
    ∷ (0x0085, 0x0437)
    ∷ (0x0089, 0x0369)
    ∷ (0x0094, 0x096A)
    ∷ (0x009B, 0x0802)
    ∷ (0x009F, 0x07E4)
    ∷ (0x00A2, 0x0362)
    ∷ (0x00F3, 0x07EC)
    ∷ (0x00F5, 0x0364)
    ∷ (0x0113, 0x083C)
    ∷ (0x0116, 0x0438)
    ∷ (0x0190, 0x0366)
    ∷ (0x0193, 0x0368)
    ∷ (0x0202, 0x08AC)
    ∷ (0x022D, 0x095B)
    ∷ (0x023B, 0x086D)
    ∷ (0x07E4, 0x0281)
    ∷ (0x0802, 0x0365)
    ∷ (0x0811, 0x0815)
    ∷ (0x0815, 0x0817)
    ∷ (0x0817, 0x0360)
    ∷ (0x0819, 0x0811)
    ∷ (0x0835, 0x0819)
    ∷ (0x0838, 0x0835)
    ∷ (0x088D, 0x0361)
    ∷ []

abbrev pub cases_20170830 : Cases
cases_20170830 =
    (0x0064, 0x0364)
    ∷ (0x0072, 0x0884)
    ∷ (0x007E, 0x091E)
    ∷ (0x0085, 0x0865)
    ∷ (0x0089, 0x093E)
    ∷ (0x0094, 0x092E)
    ∷ (0x009B, 0x0281)
    ∷ (0x009F, 0x02C4)
    ∷ (0x00A2, 0x0899)
    ∷ (0x00F3, 0x089E)
    ∷ (0x00F5, 0x08A8)
    ∷ (0x0113, 0x0888)
    ∷ (0x0116, 0x0959)
    ∷ (0x0190, 0x0885)
    ∷ (0x0193, 0x0940)
    ∷ (0x0202, 0x0939)
    ∷ (0x022D, 0x0921)
    ∷ (0x023B, 0x08A2)
    ∷ (0x07E4, 0x089A)
    ∷ (0x0802, 0x0363)
    ∷ (0x0811, 0x0897)
    ∷ (0x0815, 0x0860)
    ∷ (0x0817, 0x0925)
    ∷ (0x0819, 0x0947)
    ∷ (0x0835, 0x0943)
    ∷ (0x0838, 0x0951)
    ∷ (0x088D, 0x086A)
    ∷ []

abbrev pub cases_20170906 : Cases
cases_20170906 =
    (0x0064, 0x0202)
    ∷ (0x0072, 0x0953)
    ∷ (0x007E, 0x035F)
    ∷ (0x0085, 0x0437)
    ∷ (0x0089, 0x0369)
    ∷ (0x0094, 0x096A)
    ∷ (0x009B, 0x0802)
    ∷ (0x009F, 0x091A)
    ∷ (0x00A2, 0x0860)
    ∷ (0x00F3, 0x087B)
    ∷ (0x00F5, 0x08A2)
    ∷ (0x0113, 0x083C)
    ∷ (0x0116, 0x0438)
    ∷ (0x0190, 0x02C4)
    ∷ (0x0193, 0x0368)
    ∷ (0x0202, 0x08A3)
    ∷ (0x022D, 0x091E)
    ∷ (0x023B, 0x0281)
    ∷ (0x07E4, 0x0866)
    ∷ (0x0802, 0x08A7)
    ∷ (0x0811, 0x0815)
    ∷ (0x0815, 0x0817)
    ∷ (0x0817, 0x0360)
    ∷ (0x0819, 0x0811)
    ∷ (0x0835, 0x0819)
    ∷ (0x0838, 0x0835)
    ∷ (0x088D, 0x0366)
    ∷ []

abbrev pub cases_20170913 : Cases
cases_20170913 =
    (0x0064, 0x08A7)
    ∷ (0x0072, 0x0835)
    ∷ (0x007E, 0x091B)
    ∷ (0x0085, 0x0923)
    ∷ (0x0089, 0x0817)
    ∷ (0x0094, 0x0281)
    ∷ (0x009B, 0x08AC)
    ∷ (0x009F, 0x0860)
    ∷ (0x00A2, 0x091D)
    ∷ (0x00F3, 0x0891)
    ∷ (0x00F5, 0x07E4)
    ∷ (0x0113, 0x08AA)
    ∷ (0x0116, 0x095A)
    ∷ (0x0190, 0x0890)
    ∷ (0x0193, 0x095C)
    ∷ (0x0202, 0x035F)
    ∷ (0x022D, 0x088C)
    ∷ (0x023B, 0x0892)
    ∷ (0x07E4, 0x08AD)
    ∷ (0x0802, 0x08AB)
    ∷ (0x0811, 0x0866)
    ∷ (0x0815, 0x085A)
    ∷ (0x0817, 0x08A6)
    ∷ (0x0819, 0x0927)
    ∷ (0x0835, 0x0437)
    ∷ (0x0838, 0x0920)
    ∷ (0x088D, 0x0865)
    ∷ []

abbrev pub cases_20170920 : Cases
cases_20170920 =
    (0x0064, 0x0875)
    ∷ (0x0072, 0x0923)
    ∷ (0x007E, 0x088E)
    ∷ (0x0085, 0x085A)
    ∷ (0x0089, 0x089B)
    ∷ (0x0094, 0x0889)
    ∷ (0x009B, 0x0939)
    ∷ (0x009F, 0x0369)
    ∷ (0x00A2, 0x086C)
    ∷ (0x00F3, 0x0926)
    ∷ (0x00F5, 0x07EC)
    ∷ (0x0113, 0x0862)
    ∷ (0x0116, 0x0919)
    ∷ (0x0190, 0x0966)
    ∷ (0x0193, 0x0921)
    ∷ (0x0202, 0x0861)
    ∷ (0x022D, 0x095D)
    ∷ (0x023B, 0x0864)
    ∷ (0x07E4, 0x0436)
    ∷ (0x0802, 0x0945)
    ∷ (0x0811, 0x0865)
    ∷ (0x0815, 0x0874)
    ∷ (0x0817, 0x0961)
    ∷ (0x0819, 0x092E)
    ∷ (0x0835, 0x094C)
    ∷ (0x0838, 0x096A)
    ∷ (0x088D, 0x086A)
    ∷ []

abbrev pub versions_since_20170816 : List (ℕ × Cases)
versions_since_20170816 =
    (20170816, cases_20170816)
    ∷ (20170823, cases_20170823)
    ∷ (20170830, cases_20170830)
    ∷ (20170906, cases_20170906)
    ∷ (20170913, cases_20170913)
    ∷ (20170920, cases_20170920)
    ∷ []
