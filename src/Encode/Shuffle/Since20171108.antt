-- ===== src/Encode/Shuffle/Since20171108.antt =====
-- pkg/encode/shuffle_map.go, lines 7846 to 8186: cases of `shuffledCtoSID`.
use rathena_client.Shared.{ℕ, List, [], ◌∷◌}
use rathena_client.Encode.Cases.{Cases}

abbrev pub cases_20171108 : Cases
cases_20171108 =
    (0x0064, 0x0896)
    ∷ (0x0072, 0x0949)
    ∷ (0x007E, 0x0202)
    ∷ (0x0085, 0x0863)
    ∷ (0x0089, 0x0963)
    ∷ (0x0094, 0x08AD)
    ∷ (0x009B, 0x091F)
    ∷ (0x009F, 0x0945)
    ∷ (0x00A2, 0x0965)
    ∷ (0x00F3, 0x0941)
    ∷ (0x00F5, 0x095A)
    ∷ (0x0113, 0x08A2)
    ∷ (0x0116, 0x0967)
    ∷ (0x0190, 0x0819)
    ∷ (0x0193, 0x07E4)
    ∷ (0x0202, 0x0878)
    ∷ (0x022D, 0x08A9)
    ∷ (0x023B, 0x0815)
    ∷ (0x07E4, 0x0884)
    ∷ (0x0802, 0x0958)
    ∷ (0x0811, 0x0838)
    ∷ (0x0815, 0x091D)
    ∷ (0x0817, 0x0940)
    ∷ (0x0819, 0x087E)
    ∷ (0x0835, 0x0897)
    ∷ (0x0838, 0x0361)
    ∷ (0x088D, 0x094E)
    ∷ []

abbrev pub cases_20171115 : Cases
cases_20171115 =
    (0x0064, 0x086D)
    ∷ (0x0072, 0x0360)
    ∷ (0x007E, 0x035F)
    ∷ (0x0085, 0x0437)
    ∷ (0x0089, 0x0369)
    ∷ (0x0094, 0x096A)
    ∷ (0x009B, 0x08A4)
    ∷ (0x009F, 0x0926)
    ∷ (0x00A2, 0x0365)
    ∷ (0x00F3, 0x088B)
    ∷ (0x00F5, 0x087E)
    ∷ (0x0113, 0x083C)
    ∷ (0x0116, 0x0438)
    ∷ (0x0190, 0x0366)
    ∷ (0x0193, 0x0368)
    ∷ (0x0202, 0x0802)
    ∷ (0x022D, 0x0958)
    ∷ (0x023B, 0x0898)
    ∷ (0x07E4, 0x086F)
    ∷ (0x0802, 0x0890)
    ∷ (0x0811, 0x0815)
    ∷ (0x0815, 0x0817)
    ∷ (0x0817, 0x0436)
    ∷ (0x0819, 0x0811)
    ∷ (0x0835, 0x0819)
    ∷ (0x0838, 0x0835)
    ∷ (0x088D, 0x095A)
    ∷ []

abbrev pub cases_20171122 : Cases
cases_20171122 =
    (0x0064, 0x035F)
    ∷ (0x0072, 0x0867)
    ∷ (0x007E, 0x0890)
    ∷ (0x0085, 0x0947)
    ∷ (0x0089, 0x089E)
    ∷ (0x0094, 0x085B)
    ∷ (0x009B, 0x0897)
    ∷ (0x009F, 0x0891)
    ∷ (0x00A2, 0x0898)
    ∷ (0x00F3, 0x0838)
    ∷ (0x00F5, 0x089A)
    ∷ (0x0113, 0x093B)
    ∷ (0x0116, 0x08A6)
    ∷ (0x0190, 0x091E)
    ∷ (0x0193, 0x0281)
    ∷ (0x0202, 0x0946)
    ∷ (0x022D, 0x083C)
    ∷ (0x023B, 0x0934)
    ∷ (0x07E4, 0x0862)
    ∷ (0x0802, 0x0923)
    ∷ (0x0811, 0x0968)
    ∷ (0x0815, 0x0920)
    ∷ (0x0817, 0x08A9)
    ∷ (0x0819, 0x0877)
    ∷ (0x0835, 0x02C4)
    ∷ (0x0838, 0x0945)
    ∷ (0x088D, 0x0962)
    ∷ []

abbrev pub cases_20171129 : Cases
cases_20171129 =
    (0x0064, 0x0876)
    ∷ (0x0072, 0x0966)
    ∷ (0x007E, 0x0940)
    ∷ (0x0085, 0x0437)
    ∷ (0x0089, 0x0369)
    ∷ (0x0094, 0x096A)
    ∷ (0x009B, 0x02C4)
    ∷ (0x009F, 0x0862)
    ∷ (0x00A2, 0x0365)
    ∷ (0x00F3, 0x08A5)
    ∷ (0x00F5, 0x0953)
    ∷ (0x0113, 0x083C)
    ∷ (0x0116, 0x0438)
    ∷ (0x0190, 0x0366)
    ∷ (0x0193, 0x0368)
    ∷ (0x0202, 0x0363)
    ∷ (0x022D, 0x089C)
    ∷ (0x023B, 0x0878)
    ∷ (0x07E4, 0x088A)
    ∷ (0x0802, 0x086D)
    ∷ (0x0811, 0x0815)
    ∷ (0x0815, 0x0817)
    ∷ (0x0817, 0x035F)
    ∷ (0x0819, 0x0811)
    ∷ (0x0835, 0x0819)
    ∷ (0x0838, 0x0835)
    ∷ (0x088D, 0x0838)
    ∷ []

abbrev pub cases_20171206 : Cases
cases_20171206 =
    (0x0064, 0x086A)
    ∷ (0x0072, 0x0897)
    ∷ (0x007E, 0x0885)
    ∷ (0x0085, 0x0437)
    ∷ (0x0089, 0x0369)
    ∷ (0x0094, 0x096A)
    ∷ (0x009B, 0x0936)
    ∷ (0x009F, 0x0961)
    ∷ (0x00A2, 0x0867)
    ∷ (0x00F3, 0x0923)
    ∷ (0x00F5, 0x08A4)
    ∷ (0x0113, 0x083C)
    ∷ (0x0116, 0x0438)
    ∷ (0x0190, 0x0366)
    ∷ (0x0193, 0x0368)
    ∷ (0x0202, 0x091D)
    ∷ (0x022D, 0x0942)
    ∷ (0x023B, 0x089D)
    ∷ (0x07E4, 0x0958)
    ∷ (0x0802, 0x086E)
    ∷ (0x0811, 0x0815)
    ∷ (0x0815, 0x0817)
    ∷ (0x0817, 0x0360)
    ∷ (0x0819, 0x0811)
    ∷ (0x0835, 0x0819)
    ∷ (0x0838, 0x0888)
    ∷ (0x088D, 0x08A2)
    ∷ []

abbrev pub cases_20171213 : Cases
cases_20171213 =
    (0x0064, 0x0363)
    ∷ (0x0072, 0x0860)
    ∷ (0x007E, 0x035F)
    ∷ (0x0085, 0x0437)
    ∷ (0x0089, 0x0369)
    ∷ (0x0094, 0x096A)
    ∷ (0x009B, 0x091A)
    ∷ (0x009F, 0x07E4)
    ∷ (0x00A2, 0x0362)
    ∷ (0x00F3, 0x07EC)
    ∷ (0x00F5, 0x0364)
    ∷ (0x0113, 0x083C)
    ∷ (0x0116, 0x0438)
    ∷ (0x0190, 0x0366)
    ∷ (0x0193, 0x0368)
    ∷ (0x0202, 0x0802)
    ∷ (0x022D, 0x0957)
    ∷ (0x023B, 0x0890)
    ∷ (0x07E4, 0x0281)
    ∷ (0x0802, 0x0365)
    ∷ (0x0811, 0x0815)
    ∷ (0x0815, 0x0817)
    ∷ (0x0817, 0x0360)
    ∷ (0x0819, 0x0811)
    ∷ (0x0835, 0x0819)
    ∷ (0x0838, 0x0835)
    ∷ (0x088D, 0x0202)
    ∷ []

abbrev pub versions_since_20171108 : List (ℕ × Cases)
versions_since_20171108 =
    (20171108, cases_20171108)
    ∷ (20171115, cases_20171115)
    ∷ (20171122, cases_20171122)
    ∷ (20171129, cases_20171129)
    ∷ (20171206, cases_20171206)
    ∷ (20171213, cases_20171213)
    ∷ []
