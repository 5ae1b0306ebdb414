-- ===== src/Encode/Shuffle/Since20170927.antt =====
-- pkg/encode/shuffle_map.go, lines 7504 to 7844: cases of `shuffledCtoSID`.
use rathena_client.Shared.{ℕ, List, [], ◌∷◌}
use rathena_client.Encode.Cases.{Cases}

abbrev pub cases_20170927 : Cases
cases_20170927 =
    (0x0064, 0x0361)
    ∷ (0x0072, 0x0366)
    ∷ (0x007E, 0x0945)
    ∷ (0x0085, 0x0927)
    ∷ (0x0089, 0x0899)
    ∷ (0x0094, 0x035F)
    ∷ (0x009B, 0x087E)
    ∷ (0x009F, 0x094D)
    ∷ (0x00A2, 0x0923)
    ∷ (0x00F3, 0x0959)
    ∷ (0x00F5, 0x089B)
    ∷ (0x0113, 0x085C)
    ∷ (0x0116, 0x095A)
    ∷ (0x0190, 0x093B)
    ∷ (0x0193, 0x0873)
    ∷ (0x0202, 0x094B)
    ∷ (0x022D, 0x02C4)
    ∷ (0x023B, 0x089A)
    ∷ (0x07E4, 0x08A5)
    ∷ (0x0802, 0x0942)
    ∷ (0x0811, 0x0362)
    ∷ (0x0815, 0x08A3)
    ∷ (0x0817, 0x091E)
    ∷ (0x0819, 0x087D)
    ∷ (0x0835, 0x08AD)
    ∷ (0x0838, 0x088B)
    ∷ (0x088D, 0x0922)
    ∷ []

abbrev pub cases_20171002 : Cases
cases_20171002 =
    (0x0064, 0x093E)
    ∷ (0x0072, 0x089D)
    ∷ (0x007E, 0x035F)
    ∷ (0x0085, 0x0437)
    ∷ (0x0089, 0x0369)
    ∷ (0x0094, 0x096A)
    ∷ (0x009B, 0x0897)
    ∷ (0x009F, 0x093D)
    ∷ (0x00A2, 0x022D)
    ∷ (0x00F3, 0x0885)
    ∷ (0x00F5, 0x093B)
    ∷ (0x0113, 0x083C)
    ∷ (0x0116, 0x0363)
    ∷ (0x0190, 0x0366)
    ∷ (0x0193, 0x0368)
    ∷ (0x0202, 0x0899)
    ∷ (0x022D, 0x0438)
    ∷ (0x023B, 0x0934)
    ∷ (0x07E4, 0x0928)
    ∷ (0x0802, 0x092D)
    ∷ (0x0811, 0x0815)
    ∷ (0x0815, 0x0817)
    ∷ (0x0817, 0x0360)
    ∷ (0x0819, 0x0811)
    ∷ (0x0835, 0x0819)
    ∷ (0x0838, 0x0835)
    ∷ (0x088D, 0x0943)
    ∷ []

abbrev pub cases_20171011 : Cases
cases_20171011 =
    (0x0064, 0x0363)
    ∷ (0x0072, 0x0950)
    ∷ (0x007E, 0x035F)
    ∷ (0x0085, 0x023B)
    ∷ (0x0089, 0x0369)
    ∷ (0x0094, 0x096A)
    ∷ (0x009B, 0x0954)
    ∷ (0x009F, 0x07E4)
    ∷ (0x00A2, 0x0362)
    ∷ (0x00F3, 0x07EC)
    ∷ (0x00F5, 0x0364)
    ∷ (0x0113, 0x083C)
    ∷ (0x0116, 0x0438)
    ∷ (0x0190, 0x0366)
    ∷ (0x0193, 0x0368)
    ∷ (0x0202, 0x087B)
    ∷ (0x022D, 0x0882)
    ∷ (0x023B, 0x0437)
    ∷ (0x07E4, 0x0281)
    ∷ (0x0802, 0x0365)
    ∷ (0x0811, 0x0815)
    ∷ (0x0815, 0x0817)
    ∷ (0x0817, 0x0360)
    ∷ (0x0819, 0x0811)
    ∷ (0x0835, 0x0819)
    ∷ (0x0838, 0x0835)
    ∷ (0x088D, 0x0802)
    ∷ []

abbrev pub cases_20171018 : Cases
cases_20171018 =
    (0x0064, 0x086A)
    ∷ (0x0072, 0x0363)
    ∷ (0x007E, 0x035F)
    ∷ (0x0085, 0x0437)
    ∷ (0x0089, 0x0369)
    ∷ (0x0094, 0x096A)
    ∷ (0x009B, 0x08A6)
    ∷ (0x009F, 0x0436)
    ∷ (0x00A2, 0x089A)
    ∷ (0x00F3, 0x0364)
    ∷ (0x00F5, 0x0889)
    ∷ (0x0113, 0x083C)
    ∷ (0x0116, 0x0438)
    ∷ (0x0190, 0x0366)
    ∷ (0x0193, 0x0368)
    ∷ (0x0202, 0x094A)
    ∷ (0x022D, 0x087E)
    ∷ (0x023B, 0x0944)
    ∷ (0x07E4, 0x0938)
    ∷ (0x0802, 0x094F)
    ∷ (0x0811, 0x0815)
    ∷ (0x0815, 0x0817)
    ∷ (0x0817, 0x0360)
    ∷ (0x0819, 0x0811)
    ∷ (0x0835, 0x0819)
    ∷ (0x0838, 0x0835)
    ∷ (0x088D, 0x089F)
    ∷ []

abbrev pub cases_20171025 : Cases
cases_20171025 =
    (0x0064, 0x0363)
    ∷ (0x0072, 0x022D)
    ∷ (0x007E, 0x035F)
    ∷ (0x0085, 0x0437)
    ∷ (0x0089, 0x0369)
    ∷ (0x0094, 0x096A)
    ∷ (0x009B, 0x0202)
    ∷ (0x009F, 0x07E4)
    ∷ (0x00A2, 0x0362)
    ∷ (0x00F3, 0x07EC)
    ∷ (0x00F5, 0x0364)
    ∷ (0x0113, 0x083C)
    ∷ (0x0116, 0x0438)
    ∷ (0x0190, 0x0366)
    ∷ (0x0193, 0x0368)
    ∷ (0x0202, 0x023B)
    ∷ (0x022D, 0x0361)
    ∷ (0x023B, 0x08A2)
    ∷ (0x07E4, 0x0281)
    ∷ (0x0802, 0x0365)
    ∷ (0x0811, 0x0815)
    ∷ (0x0815, 0x0817)
    ∷ (0x0817, 0x0360)
    ∷ (0x0819, 0x0811)
    ∷ (0x0835, 0x0819)
    ∷ (0x0838, 0x0835)
    ∷ (0x088D, 0x0802)
    ∷ []

abbrev pub cases_20171101 : Cases
cases_20171101 =
    (0x0064, 0x0886)
    ∷ (0x0072, 0x0368)
    ∷ (0x007E, 0x0438)
    ∷ (0x0085, 0x0939)
    ∷ (0x0089, 0x0957)
    ∷ (0x0094, 0x0860)
    ∷ (0x009B, 0x0876)
    ∷ (0x009F, 0x0962)
    ∷ (0x00A2, 0x0835)
    ∷ (0x00F3, 0x091B)
    ∷ (0x00F5, 0x08A0)
    ∷ (0x0113, 0x086C)
    ∷ (0x0116, 0x0966)
    ∷ (0x0190, 0x0952)
    ∷ (0x0193, 0x094D)
    ∷ (0x0202, 0x0872)
    ∷ (0x022D, 0x085B)
    ∷ (0x023B, 0x022D)
    ∷ (0x07E4, 0x08AB)
    ∷ (0x0802, 0x089C)
    ∷ (0x0811, 0x089B)
    ∷ (0x0815, 0x094A)
    ∷ (0x0817, 0x088E)
    ∷ (0x0819, 0x095A)
    ∷ (0x0835, 0x0369)
    ∷ (0x0838, 0x0890)
    ∷ (0x088D, 0x0899)
    ∷ []

abbrev pub versions_since_20170927 : List (ℕ × Cases)
versions_since_20170927 =
    (20170927, cases_20170927)
    ∷ (20171002, cases_20171002)
    ∷ (20171011, cases_20171011)
    ∷ (20171018, cases_20171018)
    ∷ (20171025, cases_20171025)
    ∷ (20171101, cases_20171101)
    ∷ []
