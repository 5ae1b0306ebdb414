-- ===== src/Encode/Shuffle/Since20160831.antt =====
-- pkg/encode/shuffle_map.go, lines 4430 to 4770: cases of `shuffledCtoSID`.
use rathena_client.Shared.{ℕ, List, [], ◌∷◌}
use rathena_client.Encode.Cases.{Cases}

abbrev pub cases_20160831 : Cases
cases_20160831 =
    (0x0064, 0x0876)
    ∷ (0x0072, 0x0835)
    ∷ (0x007E, 0x08A9)
    ∷ (0x0085, 0x0865)
    ∷ (0x0089, 0x0878)
    ∷ (0x0094, 0x087C)
    ∷ (0x009B, 0x094A)
    ∷ (0x009F, 0x0960)
    ∷ (0x00A2, 0x0366)
    ∷ (0x00F3, 0x094F)
    ∷ (0x00F5, 0x095E)
    ∷ (0x0113, 0x0967)
    ∷ (0x0116, 0x0964)
    ∷ (0x0190, 0x022D)
    ∷ (0x0193, 0x0946)
    ∷ (0x0202, 0x092C)
    ∷ (0x022D, 0x093A)
    ∷ (0x023B, 0x0917)
    ∷ (0x07E4, 0x0954)
    ∷ (0x0802, 0x0870)
    ∷ (0x0811, 0x0950)
    ∷ (0x0815, 0x086D)
    ∷ (0x0817, 0x07EC)
    ∷ (0x0819, 0x08A8)
    ∷ (0x0835, 0x0957)
    ∷ (0x0838, 0x0938)
    ∷ (0x088D, 0x0874)
    ∷ []

abbrev pub cases_20160907 : Cases
cases_20160907 =
    (0x0064, 0x0363)
    ∷ (0x0072, 0x022D)
    ∷ (0x007E, 0x035F)
    ∷ (0x0085, 0x0437)
    ∷ (0x0089, 0x0369)
    ∷ (0x0094, 0x096A)
    ∷ (0x009B, 0x0202)
    ∷ (0x009F, 0x07E4)
    ∷ (0x00A2, 0x0362)
    ∷ (0x00F3, 0x07EC)
    ∷ (0x00F5, 0x0364)
    ∷ (0x0113, 0x083C)
    ∷ (0x0116, 0x0438)
    ∷ (0x0190, 0x0366)
    ∷ (0x0193, 0x0368)
    ∷ (0x0202, 0x023B)
    ∷ (0x022D, 0x0361)
    ∷ (0x023B, 0x091C)
    ∷ (0x07E4, 0x0281)
    ∷ (0x0802, 0x0365)
    ∷ (0x0811, 0x0815)
    ∷ (0x0815, 0x0817)
    ∷ (0x0817, 0x0360)
    ∷ (0x0819, 0x0811)
    ∷ (0x0835, 0x0819)
    ∷ (0x0838, 0x0835)
    ∷ (0x088D, 0x0802)
    ∷ []

abbrev pub cases_20160913 : Cases
cases_20160913 =
    (0x0064, 0x087A)
    ∷ (0x0072, 0x0952)
    ∷ (0x007E, 0x0875)
    ∷ (0x0085, 0x0954)
    ∷ (0x0089, 0x0950)
    ∷ (0x0094, 0x0865)
    ∷ (0x009B, 0x08A5)
    ∷ (0x009F, 0x0889)
    ∷ (0x00A2, 0x0879)
    ∷ (0x00F3, 0x0817)
    ∷ (0x00F5, 0x089B)
    ∷ (0x0113, 0x088E)
    ∷ (0x0116, 0x0892)
    ∷ (0x0190, 0x094A)
    ∷ (0x0193, 0x0963)
    ∷ (0x0202, 0x0928)
    ∷ (0x022D, 0x093A)
    ∷ (0x023B, 0x089C)
    ∷ (0x07E4, 0x0887)
    ∷ (0x0802, 0x0361)
    ∷ (0x0811, 0x0935)
    ∷ (0x0815, 0x0968)
    ∷ (0x0817, 0x0874)
    ∷ (0x0819, 0x088F)
    ∷ (0x0835, 0x0891)
    ∷ (0x0838, 0x087B)
    ∷ (0x088D, 0x0949)
    ∷ []

abbrev pub cases_20160921 : Cases
cases_20160921 =
    (0x0064, 0x0363)
    ∷ (0x0072, 0x022D)
    ∷ (0x007E, 0x035F)
    ∷ (0x0085, 0x0437)
    ∷ (0x0089, 0x0369)
    ∷ (0x0094, 0x096A)
    ∷ (0x009B, 0x0202)
    ∷ (0x009F, 0x07E4)
    ∷ (0x00A2, 0x0362)
    ∷ (0x00F3, 0x07EC)
    ∷ (0x00F5, 0x0364)
    ∷ (0x0113, 0x083C)
    ∷ (0x0116, 0x0438)
    ∷ (0x0190, 0x0366)
    ∷ (0x0193, 0x0368)
    ∷ (0x0202, 0x023B)
    ∷ (0x022D, 0x0361)
    ∷ (0x023B, 0x094A)
    ∷ (0x07E4, 0x0281)
    ∷ (0x0802, 0x0365)
    ∷ (0x0811, 0x0815)
    ∷ (0x0815, 0x0817)
    ∷ (0x0817, 0x0360)
    ∷ (0x0819, 0x0811)
    ∷ (0x0835, 0x0819)
    ∷ (0x0838, 0x0835)
    ∷ (0x088D, 0x0802)
    ∷ []

abbrev pub cases_20160928 : Cases
cases_20160928 =
    (0x0064, 0x0811)
    ∷ (0x0072, 0x0889)
    ∷ (0x007E, 0x091E)
    ∷ (0x0085, 0x0919)
    ∷ (0x0089, 0x089A)
    ∷ (0x0094, 0x035F)
    ∷ (0x009B, 0x0944)
    ∷ (0x009F, 0x0957)
    ∷ (0x00A2, 0x086D)
    ∷ (0x00F3, 0x08A9)
    ∷ (0x00F5, 0x0864)
    ∷ (0x0113, 0x0927)
    ∷ (0x0116, 0x092D)
    ∷ (0x0190, 0x0897)
    ∷ (0x0193, 0x0878)
    ∷ (0x0202, 0x094E)
    ∷ (0x022D, 0x0872)
    ∷ (0x023B, 0x08A2)
    ∷ (0x07E4, 0x0202)
    ∷ (0x0802, 0x0955)
    ∷ (0x0811, 0x0366)
    ∷ (0x0815, 0x094D)
    ∷ (0x0817, 0x0436)
    ∷ (0x0819, 0x0953)
    ∷ (0x0835, 0x088E)
    ∷ (0x0838, 0x0866)
    ∷ (0x088D, 0x0838)
    ∷ []

abbrev pub cases_20161005 : Cases
cases_20161005 =
    (0x0064, 0x091E)
    ∷ (0x0072, 0x095B)
    ∷ (0x007E, 0x092B)
    ∷ (0x0085, 0x0945)
    ∷ (0x0089, 0x0368)
    ∷ (0x0094, 0x0863)
    ∷ (0x009B, 0x0891)
    ∷ (0x009F, 0x089C)
    ∷ (0x00A2, 0x0942)
    ∷ (0x00F3, 0x08A0)
    ∷ (0x00F5, 0x088E)
    ∷ (0x0113, 0x0967)
    ∷ (0x0116, 0x093B)
    ∷ (0x0190, 0x0202)
    ∷ (0x0193, 0x0919)
    ∷ (0x0202, 0x0931)
    ∷ (0x022D, 0x094D)
    ∷ (0x023B, 0x0838)
    ∷ (0x07E4, 0x0886)
    ∷ (0x0802, 0x0892)
    ∷ (0x0811, 0x094A)
    ∷ (0x0815, 0x08AC)
    ∷ (0x0817, 0x095A)
    ∷ (0x0819, 0x08AD)
    ∷ (0x0835, 0x0944)
    ∷ (0x0838, 0x0918)
    ∷ (0x088D, 0x089B)
    ∷ []

abbrev pub versions_since_20160831 : List (ℕ × Cases)
versions_since_20160831 =
    (20160831, cases_20160831)
    ∷ (20160907, cases_20160907)
    ∷ (20160913, cases_20160913)
    ∷ (20160921, cases_20160921)
    ∷ (20160928, cases_20160928)
    ∷ (20161005, cases_20161005)
    ∷ []
