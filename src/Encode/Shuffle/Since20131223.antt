-- ===== src/Encode/Shuffle/Since20131223.antt =====
-- pkg/encode/shuffle_map.go, lines 676 to 1014: cases of `shuffledCtoSID`.
use rathena_client.Shared.{ℕ, List, [], ◌∷◌}
use rathena_client.Encode.Cases.{Cases}

abbrev pub cases_20131223 : Cases
cases_20131223 =
    (0x0064, 0x0363)
    ∷ (0x0072, 0x022D)
    ∷ (0x007E, 0x035F)
    ∷ (0x0085, 0x0437)
    ∷ (0x0089, 0x0369)
    ∷ (0x0094, 0x096A)
    ∷ (0x009B, 0x0202)
    ∷ (0x009F, 0x07E4)
    ∷ (0x00A2, 0x0362)
    ∷ (0x00F3, 0x07EC)
    ∷ (0x00F5, 0x0364)
    ∷ (0x0113, 0x083C)
    ∷ (0x0116, 0x0438)
    ∷ (0x0190, 0x0366)
    ∷ (0x0193, 0x0368)
    ∷ (0x0202, 0x023B)
    ∷ (0x022D, 0x0361)
    ∷ (0x023B, 0x08A4)
    ∷ (0x07E4, 0x0281)
    ∷ (0x0802, 0x0365)
    ∷ (0x0811, 0x0815)
    ∷ (0x0815, 0x0817)
    ∷ (0x0817, 0x0360)
    ∷ (0x0819, 0x0811)
    ∷ (0x0835, 0x0819)
    ∷ (0x0838, 0x0835)
    ∷ (0x088D, 0x0802)
    ∷ []

abbrev pub cases_20141016 : Cases
cases_20141016 =
    (0x0064, 0x0363)
    ∷ (0x0072, 0x086E)
    ∷ (0x007E, 0x035F)
    ∷ (0x0085, 0x0437)
    ∷ (0x0089, 0x0369)
    ∷ (0x0094, 0x096A)
    ∷ (0x009B, 0x0967)
    ∷ (0x009F, 0x07E4)
    ∷ (0x00A2, 0x0362)
    ∷ (0x00F3, 0x07EC)
    ∷ (0x00F5, 0x022D)
    ∷ (0x0113, 0x083C)
    ∷ (0x0116, 0x0438)
    ∷ (0x0190, 0x0366)
    ∷ (0x0193, 0x0368)
    ∷ (0x0202, 0x094B)
    ∷ (0x022D, 0x0364)
    ∷ (0x023B, 0x0936)
    ∷ (0x07E4, 0x0281)
    ∷ (0x0802, 0x0365)
    ∷ (0x0811, 0x0815)
    ∷ (0x0815, 0x0817)
    ∷ (0x0817, 0x0360)
    ∷ (0x0819, 0x0811)
    ∷ (0x0835, 0x0819)
    ∷ (0x0838, 0x0835)
    ∷ []

abbrev pub cases_20141022 : Cases
cases_20141022 =
    (0x0064, 0x08AB)
    ∷ (0x0072, 0x093B)
    ∷ (0x007E, 0x035F)
    ∷ (0x0085, 0x0437)
    ∷ (0x0089, 0x0369)
    ∷ (0x0094, 0x096A)
    ∷ (0x009B, 0x08AD)
    ∷ (0x009F, 0x094E)
    ∷ (0x00A2, 0x087D)
    ∷ (0x00F3, 0x0878)
    ∷ (0x00F5, 0x08AA)
    ∷ (0x0113, 0x083C)
    ∷ (0x0116, 0x023B)
    ∷ (0x0190, 0x0366)
    ∷ (0x0193, 0x0368)
    ∷ (0x0202, 0x091A)
    ∷ (0x022D, 0x0899)
    ∷ (0x023B, 0x0438)
    ∷ (0x07E4, 0x0281)
    ∷ (0x0802, 0x0955)
    ∷ (0x0811, 0x0815)
    ∷ (0x0815, 0x0817)
    ∷ (0x0817, 0x0360)
    ∷ (0x0819, 0x0811)
    ∷ (0x0835, 0x0819)
    ∷ (0x0838, 0x0940)
    ∷ (0x088D, 0x0896)
    ∷ []

abbrev pub cases_20150107 : Cases
cases_20150107 =
    (0x0064, 0x0363)
    ∷ (0x0072, 0x0947)
    ∷ (0x007E, 0x035F)
    ∷ (0x0085, 0x0437)
    ∷ (0x0089, 0x0369)
    ∷ (0x0094, 0x096A)
    ∷ (0x009B, 0x0943)
    ∷ (0x009F, 0x07E4)
    ∷ (0x00A2, 0x0362)
    ∷ (0x00F3, 0x07EC)
    ∷ (0x00F5, 0x0364)
    ∷ (0x0113, 0x083C)
    ∷ (0x0116, 0x0438)
    ∷ (0x0190, 0x0366)
    ∷ (0x0193, 0x0368)
    ∷ (0x0202, 0x087C)
    ∷ (0x022D, 0x092D)
    ∷ (0x023B, 0x0895)
    ∷ (0x07E4, 0x0281)
    ∷ (0x0802, 0x0365)
    ∷ (0x0811, 0x0815)
    ∷ (0x0815, 0x0817)
    ∷ (0x0817, 0x0360)
    ∷ (0x0819, 0x0811)
    ∷ (0x0835, 0x0819)
    ∷ (0x0838, 0x0835)
    ∷ (0x088D, 0x0802)
    ∷ []

abbrev pub cases_20150114 : Cases
cases_20150114 =
    (0x0064, 0x0363)
    ∷ (0x0072, 0x083C)
    ∷ (0x007E, 0x035F)
    ∷ (0x0085, 0x0437)
    ∷ (0x0089, 0x0369)
    ∷ (0x0094, 0x096A)
    ∷ (0x009B, 0x0957)
    ∷ (0x009F, 0x07E4)
    ∷ (0x00A2, 0x0362)
    ∷ (0x00F3, 0x07EC)
    ∷ (0x00F5, 0x0364)
    ∷ (0x0113, 0x0436)
    ∷ (0x0116, 0x0438)
    ∷ (0x0190, 0x0366)
    ∷ (0x0193, 0x0368)
    ∷ (0x0202, 0x0868)
    ∷ (0x022D, 0x0899)
    ∷ (0x023B, 0x0946)
    ∷ (0x07E4, 0x0281)
    ∷ (0x0802, 0x0365)
    ∷ (0x0811, 0x0815)
    ∷ (0x0815, 0x0817)
    ∷ (0x0817, 0x0360)
    ∷ (0x0819, 0x0811)
    ∷ (0x0835, 0x0819)
    ∷ (0x0838, 0x0835)
    ∷ (0x088D, 0x0802)
    ∷ []

abbrev pub cases_20150128 : Cases
cases_20150128 =
    (0x0064, 0x0368)
    ∷ (0x0072, 0x0944)
    ∷ (0x007E, 0x091F)
    ∷ (0x0085, 0x0870)
    ∷ (0x0089, 0x0838)
    ∷ (0x0094, 0x0874)
    ∷ (0x009B, 0x023B)
    ∷ (0x009F, 0x08AB)
    ∷ (0x00A2, 0x0968)
    ∷ (0x00F3, 0x086D)
    ∷ (0x00F5, 0x094E)
    ∷ (0x0113, 0x093A)
    ∷ (0x0116, 0x0864)
    ∷ (0x0190, 0x0952)
    ∷ (0x0193, 0x087D)
    ∷ (0x0202, 0x0963)
    ∷ (0x022D, 0x0876)
    ∷ (0x023B, 0x0929)
    ∷ (0x07E4, 0x0888)
    ∷ (0x0802, 0x089A)
    ∷ (0x0811, 0x085A)
    ∷ (0x0815, 0x094D)
    ∷ (0x0817, 0x035F)
    ∷ (0x0819, 0x0875)
    ∷ (0x0835, 0x0365)
    ∷ (0x0838, 0x092D)
    ∷ (0x088D, 0x0927)
    ∷ []

abbrev pub versions_since_20131223 : List (ℕ × Cases)
versions_since_20131223 =
    (20131223, cases_20131223)
    ∷ (20141016, cases_20141016)
    ∷ (20141022, cases_20141022)
    ∷ (20150107, cases_20150107)
    ∷ (20150114, cases_20150114)
    ∷ (20150128, cases_20150128)
    ∷ []
