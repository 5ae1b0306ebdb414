-- ===== src/Encode/Shuffle/Since20170215.antt =====
-- pkg/encode/shuffle_map.go, lines 5796 to 6136: cases of `shuffledCtoSID`.
use rathena_client.Shared.{ℕ, List, [], ◌∷◌}
use rathena_client.Encode.Cases.{Cases}

abbrev pub cases_20170215 : Cases
cases_20170215 =
    (0x0064, 0x0884)
    ∷ (0x0072, 0x0811)
    ∷ (0x007E, 0x0360)
    ∷ (0x0085, 0x0969)
    ∷ (0x0089, 0x083C)
    ∷ (0x0094, 0x094E)
    ∷ (0x009B, 0x087D)
    ∷ (0x009F, 0x0942)
    ∷ (0x00A2, 0x085C)
    ∷ (0x00F3, 0x089B)
    ∷ (0x00F5, 0x0925)
    ∷ (0x0113, 0x087E)
    ∷ (0x0116, 0x0890)
    ∷ (0x0190, 0x088A)
    ∷ (0x0193, 0x0883)
    ∷ (0x0202, 0x0876)
    ∷ (0x022D, 0x0962)
    ∷ (0x023B, 0x02C4)
    ∷ (0x07E4, 0x087C)
    ∷ (0x0802, 0x08A8)
    ∷ (0x0811, 0x088C)
    ∷ (0x0815, 0x091C)
    ∷ (0x0817, 0x095F)
    ∷ (0x0819, 0x035F)
    ∷ (0x0835, 0x092B)
    ∷ (0x0838, 0x092D)
    ∷ (0x088D, 0x088B)
    ∷ []

abbrev pub cases_20170222 : Cases
cases_20170222 =
    (0x0064, 0x0871)
    ∷ (0x0072, 0x0939)
    ∷ (0x007E, 0x035F)
    ∷ (0x0085, 0x0437)
    ∷ (0x0089, 0x0369)
    ∷ (0x0094, 0x096A)
    ∷ (0x009B, 0x08A3)
    ∷ (0x009F, 0x0894)
    ∷ (0x00A2, 0x0866)
    ∷ (0x00F3, 0x095D)
    ∷ (0x00F5, 0x0962)
    ∷ (0x0113, 0x083C)
    ∷ (0x0116, 0x0438)
    ∷ (0x0190, 0x0366)
    ∷ (0x0193, 0x0368)
    ∷ (0x0202, 0x085F)
    ∷ (0x022D, 0x0202)
    ∷ (0x023B, 0x0943)
    ∷ (0x07E4, 0x0937)
    ∷ (0x0802, 0x0870)
    ∷ (0x0811, 0x0815)
    ∷ (0x0815, 0x0817)
    ∷ (0x0817, 0x0360)
    ∷ (0x0819, 0x0811)
    ∷ (0x0835, 0x0889)
    ∷ (0x0838, 0x0835)
    ∷ (0x088D, 0x08A8)
    ∷ []

abbrev pub cases_20170228 : Cases
cases_20170228 =
    (0x0064, 0x08A6)
    ∷ (0x0072, 0x086B)
    ∷ (0x007E, 0x0937)
    ∷ (0x0085, 0x0884)
    ∷ (0x0089, 0x0360)
    ∷ (0x0094, 0x0893)
    ∷ (0x009B, 0x0889)
    ∷ (0x009F, 0x092A)
    ∷ (0x00A2, 0x022D)
    ∷ (0x00F3, 0x089E)
    ∷ (0x00F5, 0x0944)
    ∷ (0x0113, 0x091F)
    ∷ (0x0116, 0x0952)
    ∷ (0x0190, 0x085E)
    ∷ (0x0193, 0x0947)
    ∷ (0x0202, 0x08A0)
    ∷ (0x022D, 0x0362)
    ∷ (0x023B, 0x08A2)
    ∷ (0x07E4, 0x0873)
    ∷ (0x0802, 0x0955)
    ∷ (0x0811, 0x0874)
    ∷ (0x0815, 0x0876)
    ∷ (0x0817, 0x08A7)
    ∷ (0x0819, 0x092E)
    ∷ (0x0835, 0x0863)
    ∷ (0x0838, 0x0883)
    ∷ (0x088D, 0x0948)
    ∷ []

abbrev pub cases_20170308 : Cases
cases_20170308 =
    (0x0064, 0x0363)
    ∷ (0x0072, 0x022D)
    ∷ (0x007E, 0x035F)
    ∷ (0x0085, 0x0437)
    ∷ (0x0089, 0x0369)
    ∷ (0x0094, 0x096A)
    ∷ (0x009B, 0x0202)
    ∷ (0x009F, 0x07E4)
    ∷ (0x00A2, 0x0362)
    ∷ (0x00F3, 0x07EC)
    ∷ (0x00F5, 0x0364)
    ∷ (0x0113, 0x083C)
    ∷ (0x0116, 0x0438)
    ∷ (0x0190, 0x0366)
    ∷ (0x0193, 0x0368)
    ∷ (0x0202, 0x023B)
    ∷ (0x022D, 0x0361)
    ∷ (0x023B, 0x087D)
    ∷ (0x07E4, 0x0281)
    ∷ (0x0802, 0x0365)
    ∷ (0x0811, 0x0815)
    ∷ (0x0815, 0x0817)
    ∷ (0x0817, 0x0360)
    ∷ (0x0819, 0x0811)
    ∷ (0x0835, 0x0819)
    ∷ (0x0838, 0x0835)
    ∷ (0x088D, 0x0802)
    ∷ []

abbrev pub cases_20170315 : Cases
cases_20170315 =
    (0x0064, 0x085C)
    ∷ (0x0072, 0x094E)
    ∷ (0x007E, 0x07EC)
    ∷ (0x0085, 0x088F)
    ∷ (0x0089, 0x0884)
    ∷ (0x0094, 0x0944)
    ∷ (0x009B, 0x0360)
    ∷ (0x009F, 0x0366)
    ∷ (0x00A2, 0x091A)
    ∷ (0x00F3, 0x08AA)
    ∷ (0x00F5, 0x086A)
    ∷ (0x0113, 0x0892)
    ∷ (0x0116, 0x02C4)
    ∷ (0x0190, 0x0367)
    ∷ (0x0193, 0x0920)
    ∷ (0x0202, 0x0872)
    ∷ (0x022D, 0x0863)
    ∷ (0x023B, 0x0952)
    ∷ (0x07E4, 0x0922)
    ∷ (0x0802, 0x088B)
    ∷ (0x0811, 0x091B)
    ∷ (0x0815, 0x089C)
    ∷ (0x0817, 0x094A)
    ∷ (0x0819, 0x0436)
    ∷ (0x0835, 0x035F)
    ∷ (0x0838, 0x0950)
    ∷ (0x088D, 0x087B)
    ∷ []

abbrev pub cases_20170322 : Cases
cases_20170322 =
    (0x0064, 0x0363)
    ∷ (0x0072, 0x022D)
    ∷ (0x007E, 0x035F)
    ∷ (0x0085, 0x0437)
    ∷ (0x0089, 0x0369)
    ∷ (0x0094, 0x096A)
    ∷ (0x009B, 0x0202)
    ∷ (0x009F, 0x07E4)
    ∷ (0x00A2, 0x0362)
    ∷ (0x00F3, 0x07EC)
    ∷ (0x00F5, 0x0364)
    ∷ (0x0113, 0x083C)
    ∷ (0x0116, 0x0438)
    ∷ (0x0190, 0x0366)
    ∷ (0x0193, 0x0368)
    ∷ (0x0202, 0x023B)
    ∷ (0x022D, 0x0361)
    ∷ (0x023B, 0x091A)
    ∷ (0x07E4, 0x0281)
    ∷ (0x0802, 0x0365)
    ∷ (0x0811, 0x0815)
    ∷ (0x0815, 0x0817)
    ∷ (0x0817, 0x0360)
    ∷ (0x0819, 0x0811)
    ∷ (0x0835, 0x0819)
    ∷ (0x0838, 0x0835)
    ∷ (0x088D, 0x0802)
    ∷ []

abbrev pub versions_since_20170215 : List (ℕ × Cases)
versions_since_20170215 =
    (20170215, cases_20170215)
    ∷ (20170222, cases_20170222)
    ∷ (20170228, cases_20170228)
    ∷ (20170308, cases_20170308)
    ∷ (20170315, cases_20170315)
    ∷ (20170322, cases_20170322)
    ∷ []
