-- ===== src/Encode/Shuffle/Since20170104.antt =====
-- pkg/encode/shuffle_map.go, lines 5454 to 5794: cases of `shuffledCtoSID`.
use rathena_client.Shared.{ℕ, List, [], ◌∷◌}
use rathena_client.Encode.Cases.{Cases}

abbrev pub cases_20170104 : Cases
cases_20170104 =
    (0x0064, 0x0363)
    ∷ (0x0072, 0x0438)
    ∷ (0x007E, 0x035F)
    ∷ (0x0085, 0x0437)
    ∷ (0x0089, 0x0369)
    ∷ (0x0094, 0x096A)
    ∷ (0x009B, 0x0896)
    ∷ (0x009F, 0x07E4)
    ∷ (0x00A2, 0x0362)
    ∷ (0x00F3, 0x07EC)
    ∷ (0x00F5, 0x0364)
    ∷ (0x0113, 0x0940)
    ∷ (0x0116, 0x083C)
    ∷ (0x0190, 0x0366)
    ∷ (0x0193, 0x0368)
    ∷ (0x0202, 0x085A)
    ∷ (0x022D, 0x091B)
    ∷ (0x023B, 0x087F)
    ∷ (0x07E4, 0x0281)
    ∷ (0x0802, 0x0365)
    ∷ (0x0811, 0x0815)
    ∷ (0x0815, 0x0817)
    ∷ (0x0817, 0x0360)
    ∷ (0x0819, 0x0811)
    ∷ (0x0835, 0x0819)
    ∷ (0x0838, 0x0835)
    ∷ (0x088D, 0x0802)
    ∷ []

abbrev pub cases_20170111 : Cases
cases_20170111 =
    (0x0064, 0x0436)
    ∷ (0x0072, 0x091B)
    ∷ (0x007E, 0x035F)
    ∷ (0x0085, 0x0437)
    ∷ (0x0089, 0x0369)
    ∷ (0x0094, 0x096A)
    ∷ (0x009B, 0x08A1)
    ∷ (0x009F, 0x08A3)
    ∷ (0x00A2, 0x0940)
    ∷ (0x00F3, 0x088A)
    ∷ (0x00F5, 0x094C)
    ∷ (0x0113, 0x083C)
    ∷ (0x0116, 0x0438)
    ∷ (0x0190, 0x0366)
    ∷ (0x0193, 0x0368)
    ∷ (0x0202, 0x0877)
    ∷ (0x022D, 0x085D)
    ∷ (0x023B, 0x091A)
    ∷ (0x07E4, 0x0961)
    ∷ (0x0802, 0x08A6)
    ∷ (0x0811, 0x0815)
    ∷ (0x0815, 0x0817)
    ∷ (0x0817, 0x0360)
    ∷ (0x0819, 0x0811)
    ∷ (0x0835, 0x0819)
    ∷ (0x0838, 0x0835)
    ∷ (0x088D, 0x0969)
    ∷ []

abbrev pub cases_20170118 : Cases
cases_20170118 =
    (0x0064, 0x0873)
    ∷ (0x0072, 0x0438)
    ∷ (0x007E, 0x035F)
    ∷ (0x0085, 0x0437)
    ∷ (0x0089, 0x0369)
    ∷ (0x0094, 0x0364)
    ∷ (0x009B, 0x0865)
    ∷ (0x009F, 0x086F)
    ∷ (0x00A2, 0x0933)
    ∷ (0x00F3, 0x096A)
    ∷ (0x00F5, 0x0862)
    ∷ (0x0113, 0x083C)
    ∷ (0x0116, 0x022D)
    ∷ (0x0190, 0x0366)
    ∷ (0x0193, 0x0368)
    ∷ (0x0202, 0x0962)
    ∷ (0x022D, 0x0436)
    ∷ (0x023B, 0x0958)
    ∷ (0x07E4, 0x08AD)
    ∷ (0x0802, 0x091F)
    ∷ (0x0811, 0x0815)
    ∷ (0x0815, 0x0817)
    ∷ (0x0817, 0x0360)
    ∷ (0x0819, 0x0811)
    ∷ (0x0835, 0x0819)
    ∷ (0x0838, 0x0835)
    ∷ (0x088D, 0x089E)
    ∷ []

abbrev pub cases_20170125 : Cases
cases_20170125 =
    (0x0064, 0x0884)
    ∷ (0x0072, 0x0811)
    ∷ (0x007E, 0x0943)
    ∷ (0x0085, 0x0930)
    ∷ (0x0089, 0x0438)
    ∷ (0x0094, 0x0965)
    ∷ (0x009B, 0x0881)
    ∷ (0x009F, 0x087B)
    ∷ (0x00A2, 0x0877)
    ∷ (0x00F3, 0x091C)
    ∷ (0x00F5, 0x095C)
    ∷ (0x0113, 0x0879)
    ∷ (0x0116, 0x092B)
    ∷ (0x0190, 0x089B)
    ∷ (0x0193, 0x0898)
    ∷ (0x0202, 0x0920)
    ∷ (0x022D, 0x0876)
    ∷ (0x023B, 0x0893)
    ∷ (0x07E4, 0x0895)
    ∷ (0x0802, 0x0944)
    ∷ (0x0811, 0x08A5)
    ∷ (0x0815, 0x091D)
    ∷ (0x0817, 0x091B)
    ∷ (0x0819, 0x087D)
    ∷ (0x0835, 0x093C)
    ∷ (0x0838, 0x0968)
    ∷ (0x088D, 0x086E)
    ∷ []

abbrev pub cases_20170201 : Cases
cases_20170201 =
    (0x0064, 0x0879)
    ∷ (0x0072, 0x094C)
    ∷ (0x007E, 0x035F)
    ∷ (0x0085, 0x0884)
    ∷ (0x0089, 0x0369)
    ∷ (0x0094, 0x096A)
    ∷ (0x009B, 0x085E)
    ∷ (0x009F, 0x0875)
    ∷ (0x00A2, 0x088B)
    ∷ (0x00F3, 0x0881)
    ∷ (0x00F5, 0x0966)
    ∷ (0x0113, 0x083C)
    ∷ (0x0116, 0x0438)
    ∷ (0x0190, 0x0885)
    ∷ (0x0193, 0x0368)
    ∷ (0x0202, 0x0919)
    ∷ (0x022D, 0x0938)
    ∷ (0x023B, 0x0886)
    ∷ (0x07E4, 0x0969)
    ∷ (0x0802, 0x085D)
    ∷ (0x0811, 0x0940)
    ∷ (0x0815, 0x0817)
    ∷ (0x0817, 0x0360)
    ∷ (0x0819, 0x0815)
    ∷ (0x0835, 0x0819)
    ∷ (0x0838, 0x0835)
    ∷ (0x088D, 0x0920)
    ∷ []

abbrev pub cases_20170208 : Cases
cases_20170208 =
    (0x0064, 0x02C4)
    ∷ (0x0072, 0x088C)
    ∷ (0x007E, 0x035F)
    ∷ (0x0085, 0x0437)
    ∷ (0x0089, 0x0369)
    ∷ (0x0094, 0x096A)
    ∷ (0x009B, 0x0860)
    ∷ (0x009F, 0x0923)
    ∷ (0x00A2, 0x0921)
    ∷ (0x00F3, 0x08AC)
    ∷ (0x00F5, 0x0932)
    ∷ (0x0113, 0x083C)
    ∷ (0x0116, 0x0438)
    ∷ (0x0190, 0x0366)
    ∷ (0x0193, 0x0368)
    ∷ (0x0202, 0x0892)
    ∷ (0x022D, 0x092D)
    ∷ (0x023B, 0x0937)
    ∷ (0x07E4, 0x0367)
    ∷ (0x0802, 0x08A1)
    ∷ (0x0811, 0x0815)
    ∷ (0x0815, 0x0817)
    ∷ (0x0817, 0x0360)
    ∷ (0x0819, 0x0811)
    ∷ (0x0835, 0x0819)
    ∷ (0x0838, 0x0835)
    ∷ (0x088D, 0x085C)
    ∷ []

abbrev pub versions_since_20170104 : List (ℕ × Cases)
versions_since_20170104 =
    (20170104, cases_20170104)
    ∷ (20170111, cases_20170111)
    ∷ (20170118, cases_20170118)
    ∷ (20170125, cases_20170125)
    ∷ (20170201, cases_20170201)
    ∷ (20170208, cases_20170208)
    ∷ []
