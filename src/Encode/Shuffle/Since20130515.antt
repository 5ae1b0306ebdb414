-- ===== src/Encode/Shuffle/Since20130515.antt =====
-- pkg/encode/shuffle_map.go, lines 12 to 332: cases of `shuffledCtoSID`.
use rathena_client.Shared.{ℕ, List, [], ◌∷◌}
use rathena_client.Encode.Cases.{Cases}

abbrev pub cases_after_20180307 : Cases
cases_after_20180307 =
    (0x0064, 0x0281)
    ∷ (0x0072, 0x0436)
    ∷ (0x007E, 0x0360)
    ∷ (0x0085, 0x035F)
    ∷ (0x0089, 0x0437)
    ∷ (0x0094, 0x0368)
    ∷ (0x009B, 0x0361)
    ∷ (0x009F, 0x0362)
    ∷ (0x00A2, 0x0363)
    ∷ (0x00F3, 0x0364)
    ∷ (0x00F5, 0x0365)
    ∷ (0x0113, 0x0438)
    ∷ (0x0116, 0x0366)
    ∷ (0x0190, 0x0367)
    ∷ (0x0193, 0x0369)
    ∷ (0x088D, 0x02C4)
    ∷ []

abbrev pub cases_20130515 : Cases
cases_20130515 =
    (0x0064, 0x0862)
    ∷ (0x0072, 0x0943)
    ∷ (0x007E, 0x035F)
    ∷ (0x0085, 0x0437)
    ∷ (0x0089, 0x0369)
    ∷ (0x0094, 0x096A)
    ∷ (0x009B, 0x0362)
    ∷ (0x009F, 0x08A1)
    ∷ (0x00A2, 0x0944)
    ∷ (0x00F3, 0x0887)
    ∷ (0x00F5, 0x08AC)
    ∷ (0x0113, 0x083C)
    ∷ (0x0116, 0x0438)
    ∷ (0x0190, 0x0366)
    ∷ (0x0193, 0x0368)
    ∷ (0x0202, 0x0962)
    ∷ (0x022D, 0x0931)
    ∷ (0x023B, 0x093E)
    ∷ (0x07E4, 0x0963)
    ∷ (0x0802, 0x092D)
    ∷ (0x0811, 0x0815)
    ∷ (0x0815, 0x0817)
    ∷ (0x0817, 0x0360)
    ∷ (0x0819, 0x0811)
    ∷ (0x0835, 0x0819)
    ∷ (0x0838, 0x0835)
    ∷ (0x088D, 0x0947)
    ∷ []

abbrev pub cases_20130522 : Cases
cases_20130522 =
    (0x0064, 0x08AC)
    ∷ (0x0072, 0x08A9)
    ∷ (0x007E, 0x07EC)
    ∷ (0x0085, 0x0360)
    ∷ (0x0089, 0x08A2)
    ∷ (0x0094, 0x08A6)
    ∷ (0x009B, 0x0925)
    ∷ (0x009F, 0x095E)
    ∷ (0x00A2, 0x089C)
    ∷ (0x00F3, 0x08A3)
    ∷ (0x00F5, 0x087E)
    ∷ (0x0113, 0x095C)
    ∷ (0x0116, 0x0811)
    ∷ (0x0190, 0x0964)
    ∷ (0x0193, 0x0369)
    ∷ (0x0202, 0x0362)
    ∷ (0x022D, 0x0926)
    ∷ (0x023B, 0x088E)
    ∷ (0x07E4, 0x086A)
    ∷ (0x0802, 0x089B)
    ∷ (0x0811, 0x0874)
    ∷ (0x0815, 0x086E)
    ∷ (0x0817, 0x0368)
    ∷ (0x0819, 0x0952)
    ∷ (0x0835, 0x095B)
    ∷ (0x0838, 0x08AA)
    ∷ (0x088D, 0x0950)
    ∷ []

abbrev pub cases_20130529 : Cases
cases_20130529 =
    (0x0064, 0x0888)
    ∷ (0x0072, 0x0919)
    ∷ (0x007E, 0x0897)
    ∷ (0x0085, 0x0876)
    ∷ (0x0089, 0x0890)
    ∷ (0x0094, 0x0863)
    ∷ (0x009B, 0x0951)
    ∷ (0x009F, 0x0895)
    ∷ (0x00A2, 0x08A7)
    ∷ (0x00F3, 0x0938)
    ∷ (0x00F5, 0x0957)
    ∷ (0x0113, 0x0438)
    ∷ (0x0116, 0x0917)
    ∷ (0x0190, 0x085E)
    ∷ (0x0193, 0x0937)
    ∷ (0x0202, 0x0877)
    ∷ (0x022D, 0x023B)
    ∷ (0x023B, 0x0956)
    ∷ (0x07E4, 0x0958)
    ∷ (0x0802, 0x0874)
    ∷ (0x0811, 0x0869)
    ∷ (0x0815, 0x0964)
    ∷ (0x0817, 0x0892)
    ∷ (0x0819, 0x0936)
    ∷ (0x0835, 0x0918)
    ∷ (0x0838, 0x0941)
    ∷ (0x088D, 0x08A8)
    ∷ []

abbrev pub cases_20130605 : Cases
cases_20130605 =
    (0x0064, 0x0363)
    ∷ (0x0072, 0x022D)
    ∷ (0x007E, 0x035F)
    ∷ (0x0085, 0x0437)
    ∷ (0x0089, 0x0369)
    ∷ (0x0094, 0x096A)
    ∷ (0x009B, 0x0202)
    ∷ (0x009F, 0x07E4)
    ∷ (0x00A2, 0x0362)
    ∷ (0x00F3, 0x07EC)
    ∷ (0x00F5, 0x0364)
    ∷ (0x0113, 0x083C)
    ∷ (0x0116, 0x0438)
    ∷ (0x0190, 0x0366)
    ∷ (0x0193, 0x0368)
    ∷ (0x0202, 0x023B)
    ∷ (0x022D, 0x0361)
    ∷ (0x023B, 0x0883)
    ∷ (0x07E4, 0x0281)
    ∷ (0x0802, 0x0365)
    ∷ (0x0811, 0x0815)
    ∷ (0x0815, 0x0817)
    ∷ (0x0817, 0x0360)
    ∷ (0x0819, 0x0811)
    ∷ (0x0835, 0x0819)
    ∷ (0x0838, 0x0835)
    ∷ (0x088D, 0x0802)
    ∷ []

abbrev pub cases_20130612 : Cases
cases_20130612 =
    (0x0064, 0x0363)
    ∷ (0x0072, 0x0919)
    ∷ (0x007E, 0x035F)
    ∷ (0x0085, 0x0437)
    ∷ (0x0089, 0x0369)
    ∷ (0x0094, 0x096A)
    ∷ (0x009B, 0x087E)
    ∷ (0x009F, 0x07E4)
    ∷ (0x00A2, 0x0362)
    ∷ (0x00F3, 0x07EC)
    ∷ (0x00F5, 0x0364)
    ∷ (0x0113, 0x083C)
    ∷ (0x0116, 0x0438)
    ∷ (0x0190, 0x0366)
    ∷ (0x0193, 0x0368)
    ∷ (0x0202, 0x0940)
    ∷ (0x022D, 0x093A)
    ∷ (0x023B, 0x0964)
    ∷ (0x07E4, 0x0281)
    ∷ (0x0802, 0x0365)
    ∷ (0x0811, 0x0815)
    ∷ (0x0815, 0x0817)
    ∷ (0x0817, 0x0360)
    ∷ (0x0819, 0x0811)
    ∷ (0x0835, 0x0819)
    ∷ (0x0838, 0x0835)
    ∷ (0x088D, 0x0802)
    ∷ []

abbrev pub versions_since_20130515 : List (ℕ × Cases)
versions_since_20130515 =
    (20130515, cases_20130515)
    ∷ (20130522, cases_20130522)
    ∷ (20130529, cases_20130529)
    ∷ (20130605, cases_20130605)
    ∷ (20130612, cases_20130612)
    ∷ []
