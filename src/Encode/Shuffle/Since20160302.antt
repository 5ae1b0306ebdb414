-- ===== src/Encode/Shuffle/Since20160302.antt =====
-- pkg/encode/shuffle_map.go, lines 3064 to 3404: cases of `shuffledCtoSID`.
use rathena_client.Shared.{ℕ, List, [], ◌∷◌}
use rathena_client.Encode.Cases.{Cases}

abbrev pub cases_20160302 : Cases
cases_20160302 =
    (0x0064, 0x092D)
    ∷ (0x0072, 0x0802)
    ∷ (0x007E, 0x095A)
    ∷ (0x0085, 0x0819)
    ∷ (0x0089, 0x0968)
    ∷ (0x0094, 0x0945)
    ∷ (0x009B, 0x022D)
    ∷ (0x009F, 0x0927)
    ∷ (0x00A2, 0x091A)
    ∷ (0x00F3, 0x0960)
    ∷ (0x00F5, 0x08A9)
    ∷ (0x0113, 0x0883)
    ∷ (0x0116, 0x087A)
    ∷ (0x0190, 0x092F)
    ∷ (0x0193, 0x0967)
    ∷ (0x0202, 0x085B)
    ∷ (0x022D, 0x0868)
    ∷ (0x023B, 0x094E)
    ∷ (0x07E4, 0x0957)
    ∷ (0x0802, 0x0961)
    ∷ (0x0811, 0x0864)
    ∷ (0x0815, 0x08A6)
    ∷ (0x0817, 0x0367)
    ∷ (0x0819, 0x0867)
    ∷ (0x0835, 0x0865)
    ∷ (0x0838, 0x0875)
    ∷ (0x088D, 0x087D)
    ∷ []

abbrev pub cases_20160309 : Cases
cases_20160309 =
    (0x0064, 0x0873)
    ∷ (0x0072, 0x087C)
    ∷ (0x007E, 0x0956)
    ∷ (0x0085, 0x0838)
    ∷ (0x0089, 0x094F)
    ∷ (0x0094, 0x091D)
    ∷ (0x009B, 0x089D)
    ∷ (0x009F, 0x096A)
    ∷ (0x00A2, 0x023B)
    ∷ (0x00F3, 0x085A)
    ∷ (0x00F5, 0x0920)
    ∷ (0x0113, 0x085F)
    ∷ (0x0116, 0x0819)
    ∷ (0x0190, 0x087E)
    ∷ (0x0193, 0x0368)
    ∷ (0x0202, 0x0361)
    ∷ (0x022D, 0x0932)
    ∷ (0x023B, 0x0364)
    ∷ (0x07E4, 0x089B)
    ∷ (0x0802, 0x08A7)
    ∷ (0x0811, 0x0922)
    ∷ (0x0815, 0x092E)
    ∷ (0x0817, 0x0281)
    ∷ (0x0819, 0x092A)
    ∷ (0x0835, 0x086A)
    ∷ (0x0838, 0x0866)
    ∷ (0x088D, 0x083C)
    ∷ []

abbrev pub cases_20160316 : Cases
cases_20160316 =
    (0x0064, 0x0363)
    ∷ (0x0072, 0x022D)
    ∷ (0x007E, 0x035F)
    ∷ (0x0085, 0x0437)
    ∷ (0x0089, 0x0369)
    ∷ (0x0094, 0x096A)
    ∷ (0x009B, 0x0202)
    ∷ (0x009F, 0x07E4)
    ∷ (0x00A2, 0x0362)
    ∷ (0x00F3, 0x07EC)
    ∷ (0x00F5, 0x0364)
    ∷ (0x0113, 0x083C)
    ∷ (0x0116, 0x0438)
    ∷ (0x0190, 0x0366)
    ∷ (0x0193, 0x0368)
    ∷ (0x0202, 0x023B)
    ∷ (0x022D, 0x0361)
    ∷ (0x023B, 0x0922)
    ∷ (0x07E4, 0x0281)
    ∷ (0x0802, 0x0365)
    ∷ (0x0811, 0x0815)
    ∷ (0x0815, 0x0817)
    ∷ (0x0817, 0x0360)
    ∷ (0x0819, 0x0811)
    ∷ (0x0835, 0x0819)
    ∷ (0x0838, 0x0835)
    ∷ (0x088D, 0x0802)
    ∷ []

abbrev pub cases_20160323 : Cases
cases_20160323 =
    (0x0064, 0x0867)
    ∷ (0x0072, 0x0878)
    ∷ (0x007E, 0x035F)
    ∷ (0x0085, 0x0437)
    ∷ (0x0089, 0x0369)
    ∷ (0x0094, 0x096A)
    ∷ (0x009B, 0x0933)
    ∷ (0x009F, 0x0869)
    ∷ (0x00A2, 0x093C)
    ∷ (0x00F3, 0x0926)
    ∷ (0x00F5, 0x086A)
    ∷ (0x0113, 0x083C)
    ∷ (0x0116, 0x0438)
    ∷ (0x0190, 0x0366)
    ∷ (0x0193, 0x0368)
    ∷ (0x0202, 0x0365)
    ∷ (0x022D, 0x089A)
    ∷ (0x023B, 0x0872)
    ∷ (0x07E4, 0x0896)
    ∷ (0x0802, 0x0927)
    ∷ (0x0811, 0x0815)
    ∷ (0x0815, 0x0817)
    ∷ (0x0817, 0x0360)
    ∷ (0x0819, 0x0811)
    ∷ (0x0835, 0x0819)
    ∷ (0x0838, 0x0835)
    ∷ (0x088D, 0x0883)
    ∷ []

abbrev pub cases_20160330 : Cases
cases_20160330 =
    (0x0064, 0x0878)
    ∷ (0x0072, 0x0925)
    ∷ (0x007E, 0x035F)
    ∷ (0x0085, 0x0437)
    ∷ (0x0089, 0x0369)
    ∷ (0x0094, 0x096A)
    ∷ (0x009B, 0x0930)
    ∷ (0x009F, 0x086D)
    ∷ (0x00A2, 0x0939)
    ∷ (0x00F3, 0x0918)
    ∷ (0x00F5, 0x087F)
    ∷ (0x0113, 0x083C)
    ∷ (0x0116, 0x0438)
    ∷ (0x0190, 0x0889)
    ∷ (0x0193, 0x0368)
    ∷ (0x0202, 0x093B)
    ∷ (0x022D, 0x088B)
    ∷ (0x023B, 0x0365)
    ∷ (0x07E4, 0x092A)
    ∷ (0x0802, 0x092C)
    ∷ (0x0811, 0x0815)
    ∷ (0x0815, 0x0817)
    ∷ (0x0817, 0x0360)
    ∷ (0x0819, 0x0811)
    ∷ (0x0835, 0x0819)
    ∷ (0x0838, 0x0835)
    ∷ (0x088D, 0x0867)
    ∷ []

abbrev pub cases_20160406 : Cases
cases_20160406 =
    (0x0064, 0x08AC)
    ∷ (0x0072, 0x0895)
    ∷ (0x007E, 0x0940)
    ∷ (0x0085, 0x095F)
    ∷ (0x0089, 0x08A1)
    ∷ (0x0094, 0x089B)
    ∷ (0x009B, 0x0933)
    ∷ (0x009F, 0x0877)
    ∷ (0x00A2, 0x07E4)
    ∷ (0x00F3, 0x0927)
    ∷ (0x00F5, 0x089E)
    ∷ (0x0113, 0x0934)
    ∷ (0x0116, 0x085C)
    ∷ (0x0190, 0x0892)
    ∷ (0x0193, 0x0364)
    ∷ (0x0202, 0x0878)
    ∷ (0x022D, 0x095D)
    ∷ (0x023B, 0x0953)
    ∷ (0x07E4, 0x0949)
    ∷ (0x0802, 0x085A)
    ∷ (0x0811, 0x0879)
    ∷ (0x0815, 0x08A9)
    ∷ (0x0817, 0x094D)
    ∷ (0x0819, 0x0884)
    ∷ (0x0835, 0x0869)
    ∷ (0x0838, 0x0819)
    ∷ (0x088D, 0x0898)
    ∷ []

abbrev pub versions_since_20160302 : List (ℕ × Cases)
versions_since_20160302 =
    (20160302, cases_20160302)
    ∷ (20160309, cases_20160309)
    ∷ (20160316, cases_20160316)
    ∷ (20160323, cases_20160323)
    ∷ (20160330, cases_20160330)
    ∷ (20160406, cases_20160406)
    ∷ []
