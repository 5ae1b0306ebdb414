-- ===== src/Encode/Shuffle/Since20161012.antt =====
-- pkg/encode/shuffle_map.go, lines 4772 to 5110: cases of `shuffledCtoSID`.
use rathena_client.Shared.{ℕ, List, [], ◌∷◌}
use rathena_client.Encode.Cases.{Cases}

abbrev pub cases_20161012 : Cases
cases_20161012 =
    (0x0064, 0x085B)
    ∷ (0x0072, 0x086D)
    ∷ (0x007E, 0x0365)
    ∷ (0x0085, 0x0966)
    ∷ (0x0089, 0x0863)
    ∷ (0x0094, 0x0936)
    ∷ (0x009B, 0x08A0)
    ∷ (0x009F, 0x0868)
    ∷ (0x00A2, 0x0362)
    ∷ (0x00F3, 0x0893)
    ∷ (0x00F5, 0x0944)
    ∷ (0x0113, 0x0962)
    ∷ (0x0116, 0x0880)
    ∷ (0x0190, 0x0951)
    ∷ (0x0193, 0x092D)
    ∷ (0x0202, 0x0819)
    ∷ (0x022D, 0x095C)
    ∷ (0x023B, 0x0967)
    ∷ (0x07E4, 0x0364)
    ∷ (0x0802, 0x0943)
    ∷ (0x0811, 0x07EC)
    ∷ (0x0815, 0x085E)
    ∷ (0x0817, 0x0937)
    ∷ (0x0819, 0x0939)
    ∷ (0x0835, 0x0875)
    ∷ (0x0838, 0x023B)
    ∷ (0x088D, 0x0369)
    ∷ []

abbrev pub cases_20161019 : Cases
cases_20161019 =
    (0x0064, 0x0363)
    ∷ (0x0072, 0x0946)
    ∷ (0x007E, 0x035F)
    ∷ (0x0085, 0x0361)
    ∷ (0x0089, 0x0369)
    ∷ (0x0094, 0x096A)
    ∷ (0x009B, 0x0437)
    ∷ (0x009F, 0x07E4)
    ∷ (0x00A2, 0x0362)
    ∷ (0x00F3, 0x07EC)
    ∷ (0x00F5, 0x0364)
    ∷ (0x0113, 0x083C)
    ∷ (0x0116, 0x0438)
    ∷ (0x0190, 0x0366)
    ∷ (0x0193, 0x0368)
    ∷ (0x0202, 0x0963)
    ∷ (0x022D, 0x0360)
    ∷ (0x023B, 0x0889)
    ∷ (0x07E4, 0x0281)
    ∷ (0x0802, 0x0365)
    ∷ (0x0811, 0x0815)
    ∷ (0x0815, 0x0817)
    ∷ (0x0817, 0x022D)
    ∷ (0x0819, 0x0811)
    ∷ (0x0835, 0x0819)
    ∷ (0x0838, 0x0835)
    ∷ (0x088D, 0x0802)
    ∷ []

abbrev pub cases_20161026 : Cases
cases_20161026 =
    (0x0064, 0x086E)
    ∷ (0x0072, 0x091A)
    ∷ (0x007E, 0x0862)
    ∷ (0x0085, 0x0438)
    ∷ (0x0089, 0x085F)
    ∷ (0x0094, 0x0930)
    ∷ (0x009B, 0x0962)
    ∷ (0x009F, 0x091B)
    ∷ (0x00A2, 0x0886)
    ∷ (0x00F3, 0x085A)
    ∷ (0x00F5, 0x094B)
    ∷ (0x0113, 0x0894)
    ∷ (0x0116, 0x087F)
    ∷ (0x0190, 0x095E)
    ∷ (0x0193, 0x0926)
    ∷ (0x0202, 0x0898)
    ∷ (0x022D, 0x092E)
    ∷ (0x023B, 0x0363)
    ∷ (0x07E4, 0x095C)
    ∷ (0x0811, 0x092C)
    ∷ (0x0815, 0x092F)
    ∷ (0x0817, 0x0891)
    ∷ (0x0819, 0x0861)
    ∷ (0x0835, 0x087A)
    ∷ (0x0838, 0x086A)
    ∷ (0x088D, 0x0953)
    ∷ []

abbrev pub cases_20161102 : Cases
cases_20161102 =
    (0x0064, 0x0367)
    ∷ (0x0072, 0x0946)
    ∷ (0x007E, 0x0966)
    ∷ (0x0085, 0x08AA)
    ∷ (0x0089, 0x0436)
    ∷ (0x0094, 0x092F)
    ∷ (0x009B, 0x0949)
    ∷ (0x009F, 0x0802)
    ∷ (0x00A2, 0x0890)
    ∷ (0x00F3, 0x0869)
    ∷ (0x00F5, 0x0361)
    ∷ (0x0113, 0x085F)
    ∷ (0x0116, 0x0965)
    ∷ (0x0190, 0x0886)
    ∷ (0x0193, 0x0925)
    ∷ (0x0202, 0x0928)
    ∷ (0x022D, 0x088F)
    ∷ (0x023B, 0x091B)
    ∷ (0x07E4, 0x0964)
    ∷ (0x0802, 0x083C)
    ∷ (0x0811, 0x0838)
    ∷ (0x0815, 0x0936)
    ∷ (0x0817, 0x0922)
    ∷ (0x0819, 0x08A2)
    ∷ (0x0835, 0x0874)
    ∷ (0x0838, 0x086C)
    ∷ (0x088D, 0x089F)
    ∷ []

abbrev pub cases_20161109 : Cases
cases_20161109 =
    (0x0064, 0x087A)
    ∷ (0x0072, 0x0870)
    ∷ (0x007E, 0x0365)
    ∷ (0x0085, 0x0865)
    ∷ (0x0089, 0x086A)
    ∷ (0x0094, 0x093F)
    ∷ (0x009B, 0x0956)
    ∷ (0x009F, 0x0898)
    ∷ (0x00A2, 0x089A)
    ∷ (0x00F3, 0x0881)
    ∷ (0x00F5, 0x0362)
    ∷ (0x0113, 0x0954)
    ∷ (0x0116, 0x086D)
    ∷ (0x0190, 0x085E)
    ∷ (0x0193, 0x0835)
    ∷ (0x0202, 0x0937)
    ∷ (0x022D, 0x08A7)
    ∷ (0x023B, 0x093C)
    ∷ (0x07E4, 0x088E)
    ∷ (0x0802, 0x02C4)
    ∷ (0x0811, 0x089D)
    ∷ (0x0815, 0x085D)
    ∷ (0x0817, 0x0876)
    ∷ (0x0819, 0x08AD)
    ∷ (0x0835, 0x0366)
    ∷ (0x0838, 0x0361)
    ∷ (0x088D, 0x0927)
    ∷ []

abbrev pub cases_20161116 : Cases
cases_20161116 =
    (0x0064, 0x095D)
    ∷ (0x0072, 0x088F)
    ∷ (0x007E, 0x0368)
    ∷ (0x0085, 0x0890)
    ∷ (0x0089, 0x0893)
    ∷ (0x0094, 0x094A)
    ∷ (0x009B, 0x08A1)
    ∷ (0x009F, 0x086F)
    ∷ (0x00A2, 0x085F)
    ∷ (0x00F3, 0x0369)
    ∷ (0x00F5, 0x08AC)
    ∷ (0x0113, 0x092A)
    ∷ (0x0116, 0x0925)
    ∷ (0x0190, 0x0920)
    ∷ (0x0193, 0x0957)
    ∷ (0x0202, 0x0835)
    ∷ (0x022D, 0x088B)
    ∷ (0x023B, 0x095B)
    ∷ (0x07E4, 0x0892)
    ∷ (0x0802, 0x08A2)
    ∷ (0x0811, 0x0931)
    ∷ (0x0815, 0x0952)
    ∷ (0x0817, 0x088D)
    ∷ (0x0819, 0x093C)
    ∷ (0x0835, 0x0885)
    ∷ (0x0838, 0x095F)
    ∷ (0x088D, 0x0864)
    ∷ []

abbrev pub versions_since_20161012 : List (ℕ × Cases)
versions_since_20161012 =
    (20161012, cases_20161012)
    ∷ (20161019, cases_20161019)
    ∷ (20161026, cases_20161026)
    ∷ (20161102, cases_20161102)
    ∷ (20161109, cases_20161109)
    ∷ (20161116, cases_20161116)
    ∷ []
