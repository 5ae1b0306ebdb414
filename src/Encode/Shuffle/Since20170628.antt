-- ===== src/Encode/Shuffle/Since20170628.antt =====
-- pkg/encode/shuffle_map.go, lines 6820 to 7160: cases of `shuffledCtoSID`.
use rathena_client.Shared.{ℕ, List, [], ◌∷◌}
use rathena_client.Encode.Cases.{Cases}

abbrev pub cases_20170628 : Cases
cases_20170628 =
    (0x0064, 0x0363)
    ∷ (0x0072, 0x022D)
    ∷ (0x007E, 0x035F)
    ∷ (0x0085, 0x0437)
    ∷ (0x0089, 0x0369)
    ∷ (0x0094, 0x096A)
    ∷ (0x009B, 0x0202)
    ∷ (0x009F, 0x07E4)
    ∷ (0x00A2, 0x0362)
    ∷ (0x00F3, 0x07EC)
    ∷ (0x00F5, 0x0364)
    ∷ (0x0113, 0x083C)
    ∷ (0x0116, 0x0438)
    ∷ (0x0190, 0x0366)
    ∷ (0x0193, 0x0368)
    ∷ (0x0202, 0x023B)
    ∷ (0x022D, 0x0361)
    ∷ (0x023B, 0x0863)
    ∷ (0x07E4, 0x0281)
    ∷ (0x0802, 0x0365)
    ∷ (0x0811, 0x0815)
    ∷ (0x0815, 0x0817)
    ∷ (0x0817, 0x0360)
    ∷ (0x0819, 0x0811)
    ∷ (0x0835, 0x0819)
    ∷ (0x0838, 0x0835)
    ∷ (0x088D, 0x0802)
    ∷ []

abbrev pub cases_20170705 : Cases
cases_20170705 =
    (0x0064, 0x088D)
    ∷ (0x0072, 0x089A)
    ∷ (0x007E, 0x035F)
    ∷ (0x0085, 0x0437)
    ∷ (0x0089, 0x0369)
    ∷ (0x0094, 0x096A)
    ∷ (0x009B, 0x091A)
    ∷ (0x009F, 0x0932)
    ∷ (0x00A2, 0x089D)
    ∷ (0x00F3, 0x0879)
    ∷ (0x00F5, 0x0934)
    ∷ (0x0113, 0x083C)
    ∷ (0x0116, 0x0438)
    ∷ (0x0190, 0x0366)
    ∷ (0x0193, 0x0368)
    ∷ (0x0202, 0x0886)
    ∷ (0x022D, 0x094C)
    ∷ (0x023B, 0x0202)
    ∷ (0x07E4, 0x0930)
    ∷ (0x0802, 0x02C4)
    ∷ (0x0811, 0x0815)
    ∷ (0x0815, 0x0817)
    ∷ (0x0817, 0x0360)
    ∷ (0x0819, 0x0811)
    ∷ (0x0835, 0x0819)
    ∷ (0x0838, 0x0835)
    ∷ (0x088D, 0x088E)
    ∷ []

abbrev pub cases_20170712 : Cases
cases_20170712 =
    (0x0064, 0x0363)
    ∷ (0x0072, 0x022D)
    ∷ (0x007E, 0x035F)
    ∷ (0x0085, 0x0437)
    ∷ (0x0089, 0x0369)
    ∷ (0x0094, 0x096A)
    ∷ (0x009B, 0x0202)
    ∷ (0x009F, 0x07E4)
    ∷ (0x00A2, 0x0362)
    ∷ (0x00F3, 0x07EC)
    ∷ (0x00F5, 0x0364)
    ∷ (0x0113, 0x083C)
    ∷ (0x0116, 0x0438)
    ∷ (0x0190, 0x0366)
    ∷ (0x0193, 0x0368)
    ∷ (0x0202, 0x023B)
    ∷ (0x022D, 0x0361)
    ∷ (0x023B, 0x0944)
    ∷ (0x07E4, 0x0281)
    ∷ (0x0802, 0x0365)
    ∷ (0x0811, 0x0815)
    ∷ (0x0815, 0x0817)
    ∷ (0x0817, 0x0360)
    ∷ (0x0819, 0x0811)
    ∷ (0x0835, 0x0819)
    ∷ (0x0838, 0x0835)
    ∷ (0x088D, 0x0802)
    ∷ []

abbrev pub cases_20170719 : Cases
cases_20170719 =
    (0x0064, 0x0368)
    ∷ (0x0072, 0x08A8)
    ∷ (0x007E, 0x085A)
    ∷ (0x0085, 0x093D)
    ∷ (0x0089, 0x022D)
    ∷ (0x0094, 0x07E4)
    ∷ (0x009B, 0x0944)
    ∷ (0x009F, 0x087D)
    ∷ (0x00A2, 0x091B)
    ∷ (0x00F3, 0x0966)
    ∷ (0x00F5, 0x08A6)
    ∷ (0x0113, 0x0898)
    ∷ (0x0116, 0x0891)
    ∷ (0x0190, 0x0881)
    ∷ (0x0193, 0x091F)
    ∷ (0x0202, 0x0946)
    ∷ (0x022D, 0x0369)
    ∷ (0x023B, 0x089A)
    ∷ (0x07E4, 0x0885)
    ∷ (0x0802, 0x092F)
    ∷ (0x0811, 0x085E)
    ∷ (0x0815, 0x0367)
    ∷ (0x0817, 0x0863)
    ∷ (0x0819, 0x092C)
    ∷ (0x0835, 0x089D)
    ∷ (0x0838, 0x092E)
    ∷ (0x088D, 0x086E)
    ∷ []

abbrev pub cases_20170726 : Cases
cases_20170726 =
    (0x0064, 0x0881)
    ∷ (0x0072, 0x0366)
    ∷ (0x007E, 0x08AC)
    ∷ (0x0085, 0x088E)
    ∷ (0x0089, 0x0878)
    ∷ (0x0094, 0x08AA)
    ∷ (0x009B, 0x0952)
    ∷ (0x009F, 0x08AB)
    ∷ (0x00A2, 0x0943)
    ∷ (0x00F3, 0x0364)
    ∷ (0x00F5, 0x094F)
    ∷ (0x0113, 0x0369)
    ∷ (0x0116, 0x0950)
    ∷ (0x0190, 0x095A)
    ∷ (0x0193, 0x0921)
    ∷ (0x0202, 0x091D)
    ∷ (0x022D, 0x091F)
    ∷ (0x023B, 0x08A7)
    ∷ (0x07E4, 0x0874)
    ∷ (0x0802, 0x0954)
    ∷ (0x0811, 0x0363)
    ∷ (0x0815, 0x0838)
    ∷ (0x0817, 0x0873)
    ∷ (0x0819, 0x0923)
    ∷ (0x0835, 0x0963)
    ∷ (0x0838, 0x0888)
    ∷ (0x088D, 0x0438)
    ∷ []

abbrev pub cases_20170801 : Cases
cases_20170801 =
    (0x0064, 0x0363)
    ∷ (0x0072, 0x095A)
    ∷ (0x007E, 0x035F)
    ∷ (0x0085, 0x0437)
    ∷ (0x0089, 0x0369)
    ∷ (0x0094, 0x096A)
    ∷ (0x009B, 0x0281)
    ∷ (0x009F, 0x07E4)
    ∷ (0x00A2, 0x022D)
    ∷ (0x00F3, 0x07EC)
    ∷ (0x00F5, 0x0364)
    ∷ (0x0113, 0x083C)
    ∷ (0x0116, 0x0438)
    ∷ (0x0190, 0x0366)
    ∷ (0x0193, 0x0368)
    ∷ (0x0202, 0x094F)
    ∷ (0x022D, 0x0362)
    ∷ (0x023B, 0x087D)
    ∷ (0x07E4, 0x0361)
    ∷ (0x0802, 0x0365)
    ∷ (0x0811, 0x0815)
    ∷ (0x0815, 0x0817)
    ∷ (0x0817, 0x0360)
    ∷ (0x0819, 0x0811)
    ∷ (0x0835, 0x0819)
    ∷ (0x0838, 0x0835)
    ∷ (0x088D, 0x0802)
    ∷ []

abbrev pub versions_since_20170628 : List (ℕ × Cases)
versions_since_20170628 =
    (20170628, cases_20170628)
    ∷ (20170705, cases_20170705)
    ∷ (20170712, cases_20170712)
    ∷ (20170719, cases_20170719)
    ∷ (20170726, cases_20170726)
    ∷ (20170801, cases_20170801)
    ∷ []
