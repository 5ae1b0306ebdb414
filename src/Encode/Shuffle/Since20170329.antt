-- ===== src/Encode/Shuffle/Since20170329.antt =====
-- pkg/encode/shuffle_map.go, lines 6138 to 6478: cases of `shuffledCtoSID`.
use rathena_client.Shared.{ℕ, List, [], ◌∷◌}
use rathena_client.Encode.Cases.{Cases}

abbrev pub cases_20170329 : Cases
cases_20170329 =
    (0x0064, 0x0917)
    ∷ (0x0072, 0x092E)
    ∷ (0x007E, 0x035F)
    ∷ (0x0085, 0x0437)
    ∷ (0x0089, 0x0369)
    ∷ (0x0094, 0x096A)
    ∷ (0x009B, 0x0926)
    ∷ (0x009F, 0x0929)
    ∷ (0x00A2, 0x08A8)
    ∷ (0x00F3, 0x0363)
    ∷ (0x00F5, 0x0949)
    ∷ (0x0113, 0x083C)
    ∷ (0x0116, 0x0438)
    ∷ (0x0190, 0x0366)
    ∷ (0x0193, 0x0368)
    ∷ (0x0202, 0x0939)
    ∷ (0x022D, 0x0362)
    ∷ (0x023B, 0x085D)
    ∷ (0x07E4, 0x0937)
    ∷ (0x0802, 0x087A)
    ∷ (0x0811, 0x0815)
    ∷ (0x0815, 0x0817)
    ∷ (0x0817, 0x0360)
    ∷ (0x0819, 0x0811)
    ∷ (0x0835, 0x0888)
    ∷ (0x0838, 0x0835)
    ∷ (0x088D, 0x0281)
    ∷ []

abbrev pub cases_20170405 : Cases
cases_20170405 =
    (0x0064, 0x0363)
    ∷ (0x0072, 0x08A5)
    ∷ (0x007E, 0x035F)
    ∷ (0x0085, 0x0437)
    ∷ (0x0089, 0x0362)
    ∷ (0x0094, 0x096A)
    ∷ (0x009B, 0x0865)
    ∷ (0x009F, 0x0369)
    ∷ (0x00A2, 0x0964)
    ∷ (0x00F3, 0x085F)
    ∷ (0x00F5, 0x0893)
    ∷ (0x0113, 0x083C)
    ∷ (0x0116, 0x0438)
    ∷ (0x0190, 0x0366)
    ∷ (0x0193, 0x0368)
    ∷ (0x0202, 0x086F)
    ∷ (0x022D, 0x0835)
    ∷ (0x023B, 0x094C)
    ∷ (0x07E4, 0x0860)
    ∷ (0x0802, 0x0281)
    ∷ (0x0811, 0x0815)
    ∷ (0x0815, 0x0817)
    ∷ (0x0817, 0x0360)
    ∷ (0x0819, 0x0811)
    ∷ (0x0835, 0x0819)
    ∷ (0x0838, 0x022D)
    ∷ (0x088D, 0x0864)
    ∷ []

abbrev pub cases_20170412 : Cases
cases_20170412 =
    (0x0064, 0x0879)
    ∷ (0x0072, 0x091E)
    ∷ (0x007E, 0x0929)
    ∷ (0x0085, 0x0878)
    ∷ (0x0089, 0x08A1)
    ∷ (0x0094, 0x095B)
    ∷ (0x009B, 0x091A)
    ∷ (0x009F, 0x0959)
    ∷ (0x00A2, 0x089C)
    ∷ (0x00F3, 0x0945)
    ∷ (0x00F5, 0x086D)
    ∷ (0x0113, 0x087B)
    ∷ (0x0116, 0x023B)
    ∷ (0x0190, 0x0938)
    ∷ (0x0193, 0x0898)
    ∷ (0x0202, 0x0942)
    ∷ (0x022D, 0x089A)
    ∷ (0x023B, 0x095D)
    ∷ (0x07E4, 0x0890)
    ∷ (0x0802, 0x0869)
    ∷ (0x0811, 0x0893)
    ∷ (0x0815, 0x0952)
    ∷ (0x0817, 0x0365)
    ∷ (0x0819, 0x0863)
    ∷ (0x0835, 0x088B)
    ∷ (0x0838, 0x0949)
    ∷ (0x088D, 0x094F)
    ∷ []

abbrev pub cases_20170419 : Cases
cases_20170419 =
    (0x0064, 0x0872)
    ∷ (0x0072, 0x0922)
    ∷ (0x007E, 0x0898)
    ∷ (0x0085, 0x085E)
    ∷ (0x0089, 0x085A)
    ∷ (0x0094, 0x0838)
    ∷ (0x009B, 0x0811)
    ∷ (0x009F, 0x095C)
    ∷ (0x00A2, 0x0897)
    ∷ (0x00F3, 0x08AA)
    ∷ (0x00F5, 0x0930)
    ∷ (0x0113, 0x0920)
    ∷ (0x0116, 0x093F)
    ∷ (0x0190, 0x0935)
    ∷ (0x0193, 0x091B)
    ∷ (0x0202, 0x093A)
    ∷ (0x022D, 0x088F)
    ∷ (0x023B, 0x0881)
    ∷ (0x07E4, 0x088D)
    ∷ (0x0802, 0x086A)
    ∷ (0x0811, 0x089D)
    ∷ (0x0815, 0x0931)
    ∷ (0x0817, 0x0965)
    ∷ (0x0819, 0x095D)
    ∷ (0x0835, 0x0868)
    ∷ (0x0838, 0x0942)
    ∷ (0x088D, 0x0862)
    ∷ []

abbrev pub cases_20170426 : Cases
cases_20170426 =
    (0x0064, 0x086F)
    ∷ (0x0072, 0x08A2)
    ∷ (0x007E, 0x035F)
    ∷ (0x0085, 0x0437)
    ∷ (0x0089, 0x0369)
    ∷ (0x0094, 0x096A)
    ∷ (0x009B, 0x0927)
    ∷ (0x009F, 0x08A4)
    ∷ (0x00A2, 0x0940)
    ∷ (0x00F3, 0x0963)
    ∷ (0x00F5, 0x0899)
    ∷ (0x0113, 0x083C)
    ∷ (0x0116, 0x0438)
    ∷ (0x0190, 0x0366)
    ∷ (0x0193, 0x0887)
    ∷ (0x0202, 0x0958)
    ∷ (0x022D, 0x089C)
    ∷ (0x023B, 0x0281)
    ∷ (0x07E4, 0x0866)
    ∷ (0x0802, 0x087A)
    ∷ (0x0811, 0x0815)
    ∷ (0x0815, 0x0817)
    ∷ (0x0817, 0x0360)
    ∷ (0x0819, 0x0811)
    ∷ (0x0835, 0x0819)
    ∷ (0x0838, 0x0835)
    ∷ (0x088D, 0x0802)
    ∷ []

abbrev pub cases_20170502 : Cases
cases_20170502 =
    (0x0064, 0x0363)
    ∷ (0x0072, 0x089C)
    ∷ (0x007E, 0x035F)
    ∷ (0x0085, 0x0437)
    ∷ (0x0089, 0x0369)
    ∷ (0x0094, 0x096A)
    ∷ (0x009B, 0x0894)
    ∷ (0x009F, 0x07E4)
    ∷ (0x00A2, 0x0362)
    ∷ (0x00F3, 0x07EC)
    ∷ (0x00F5, 0x0364)
    ∷ (0x0113, 0x083C)
    ∷ (0x0116, 0x0438)
    ∷ (0x0190, 0x0366)
    ∷ (0x0193, 0x0368)
    ∷ (0x0202, 0x093C)
    ∷ (0x022D, 0x0950)
    ∷ (0x023B, 0x0875)
    ∷ (0x07E4, 0x0281)
    ∷ (0x0802, 0x0365)
    ∷ (0x0811, 0x0815)
    ∷ (0x0815, 0x0817)
    ∷ (0x0817, 0x0360)
    ∷ (0x0819, 0x0811)
    ∷ (0x0835, 0x0819)
    ∷ (0x0838, 0x0835)
    ∷ (0x088D, 0x0802)
    ∷ []

abbrev pub versions_since_20170329 : List (ℕ × Cases)
versions_since_20170329 =
    (20170329, cases_20170329)
    ∷ (20170405, cases_20170405)
    ∷ (20170412, cases_20170412)
    ∷ (20170419, cases_20170419)
    ∷ (20170426, cases_20170426)
    ∷ (20170502, cases_20170502)
    ∷ []
