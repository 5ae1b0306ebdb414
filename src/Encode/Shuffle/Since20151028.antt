-- ===== src/Encode/Shuffle/Since20151028.antt =====
-- pkg/encode/shuffle_map.go, lines 2038 to 2378: cases of `shuffledCtoSID`.
use rathena_client.Shared.{ℕ, List, [], ◌∷◌}
use rathena_client.Encode.Cases.{Cases}

abbrev pub cases_20151028 : Cases
cases_20151028 =
    (0x0064, 0x0363)
    ∷ (0x0072, 0x022D)
    ∷ (0x007E, 0x035F)
    ∷ (0x0085, 0x0437)
    ∷ (0x0089, 0x0369)
    ∷ (0x0094, 0x096A)
    ∷ (0x009B, 0x0202)
    ∷ (0x009F, 0x07E4)
    ∷ (0x00A2, 0x0362)
    ∷ (0x00F3, 0x07EC)
    ∷ (0x00F5, 0x0364)
    ∷ (0x0113, 0x083C)
    ∷ (0x0116, 0x0438)
    ∷ (0x0190, 0x0366)
    ∷ (0x0193, 0x0368)
    ∷ (0x0202, 0x023B)
    ∷ (0x022D, 0x0361)
    ∷ (0x023B, 0x0860)
    ∷ (0x07E4, 0x0281)
    ∷ (0x0802, 0x0365)
    ∷ (0x0811, 0x0815)
    ∷ (0x0815, 0x0817)
    ∷ (0x0817, 0x0360)
    ∷ (0x0819, 0x0811)
    ∷ (0x0835, 0x0819)
    ∷ (0x0838, 0x0835)
    ∷ (0x088D, 0x0802)
    ∷ []

abbrev pub cases_20151029 : Cases
cases_20151029 =
    (0x0064, 0x0363)
    ∷ (0x0072, 0x022D)
    ∷ (0x007E, 0x035F)
    ∷ (0x0085, 0x0437)
    ∷ (0x0089, 0x0369)
    ∷ (0x0094, 0x096A)
    ∷ (0x009B, 0x0202)
    ∷ (0x009F, 0x07E4)
    ∷ (0x00A2, 0x0362)
    ∷ (0x00F3, 0x07EC)
    ∷ (0x00F5, 0x0364)
    ∷ (0x0113, 0x083C)
    ∷ (0x0116, 0x0438)
    ∷ (0x0190, 0x0366)
    ∷ (0x0193, 0x0368)
    ∷ (0x0202, 0x023B)
    ∷ (0x022D, 0x0361)
    ∷ (0x023B, 0x0860)
    ∷ (0x07E4, 0x0281)
    ∷ (0x0802, 0x0365)
    ∷ (0x0811, 0x0815)
    ∷ (0x0815, 0x0817)
    ∷ (0x0817, 0x0360)
    ∷ (0x0819, 0x0811)
    ∷ (0x0835, 0x0819)
    ∷ (0x0838, 0x0835)
    ∷ (0x088D, 0x0802)
    ∷ []

abbrev pub cases_20151104 : Cases
cases_20151104 =
    (0x0064, 0x08A3)
    ∷ (0x0072, 0x0360)
    ∷ (0x007E, 0x0886)
    ∷ (0x0085, 0x0363)
    ∷ (0x0089, 0x0369)
    ∷ (0x0094, 0x0887)
    ∷ (0x009B, 0x0928)
    ∷ (0x009F, 0x0964)
    ∷ (0x00A2, 0x0437)
    ∷ (0x00F3, 0x088B)
    ∷ (0x00F5, 0x0364)
    ∷ (0x0113, 0x083C)
    ∷ (0x0116, 0x0438)
    ∷ (0x0190, 0x0366)
    ∷ (0x0193, 0x0368)
    ∷ (0x0202, 0x07EC)
    ∷ (0x022D, 0x088D)
    ∷ (0x023B, 0x0940)
    ∷ (0x07E4, 0x093A)
    ∷ (0x0802, 0x0811)
    ∷ (0x0811, 0x023B)
    ∷ (0x0815, 0x0817)
    ∷ (0x0817, 0x0436)
    ∷ (0x0819, 0x0815)
    ∷ (0x0835, 0x0819)
    ∷ (0x0838, 0x0835)
    ∷ (0x088D, 0x08A5)
    ∷ []

abbrev pub cases_20151111 : Cases
cases_20151111 =
    (0x0064, 0x0802)
    ∷ (0x0072, 0x0967)
    ∷ (0x007E, 0x035F)
    ∷ (0x0085, 0x0437)
    ∷ (0x0089, 0x0885)
    ∷ (0x0094, 0x096A)
    ∷ (0x009B, 0x089C)
    ∷ (0x009F, 0x094A)
    ∷ (0x00A2, 0x0862)
    ∷ (0x00F3, 0x0369)
    ∷ (0x00F5, 0x0966)
    ∷ (0x0113, 0x083C)
    ∷ (0x0116, 0x0438)
    ∷ (0x0190, 0x0366)
    ∷ (0x0193, 0x0368)
    ∷ (0x0202, 0x0871)
    ∷ (0x022D, 0x0362)
    ∷ (0x023B, 0x0969)
    ∷ (0x07E4, 0x085D)
    ∷ (0x0802, 0x0942)
    ∷ (0x0811, 0x02C4)
    ∷ (0x0815, 0x0817)
    ∷ (0x0817, 0x0360)
    ∷ (0x0819, 0x0811)
    ∷ (0x0835, 0x0819)
    ∷ (0x0838, 0x0835)
    ∷ (0x088D, 0x0815)
    ∷ []

abbrev pub cases_20151118 : Cases
cases_20151118 =
    (0x0064, 0x092F)
    ∷ (0x0072, 0x0925)
    ∷ (0x007E, 0x022D)
    ∷ (0x0085, 0x0437)
    ∷ (0x0089, 0x0369)
    ∷ (0x0094, 0x096A)
    ∷ (0x009B, 0x092E)
    ∷ (0x009F, 0x0943)
    ∷ (0x00A2, 0x093C)
    ∷ (0x00F3, 0x086B)
    ∷ (0x00F5, 0x08AB)
    ∷ (0x0113, 0x083C)
    ∷ (0x0116, 0x0438)
    ∷ (0x0190, 0x0366)
    ∷ (0x0193, 0x0368)
    ∷ (0x0202, 0x0921)
    ∷ (0x022D, 0x035F)
    ∷ (0x023B, 0x088B)
    ∷ (0x07E4, 0x0946)
    ∷ (0x0802, 0x095C)
    ∷ (0x0811, 0x0815)
    ∷ (0x0815, 0x0817)
    ∷ (0x0817, 0x0360)
    ∷ (0x0819, 0x0811)
    ∷ (0x0835, 0x0819)
    ∷ (0x0838, 0x0835)
    ∷ (0x088D, 0x0365)
    ∷ []

abbrev pub cases_20151125 : Cases
cases_20151125 =
    (0x0064, 0x0885)
    ∷ (0x0072, 0x088D)
    ∷ (0x007E, 0x088C)
    ∷ (0x0085, 0x0365)
    ∷ (0x0089, 0x089C)
    ∷ (0x0094, 0x085E)
    ∷ (0x009B, 0x0883)
    ∷ (0x009F, 0x0438)
    ∷ (0x00A2, 0x08A9)
    ∷ (0x00F3, 0x085F)
    ∷ (0x00F5, 0x0366)
    ∷ (0x0113, 0x092A)
    ∷ (0x0116, 0x092E)
    ∷ (0x0190, 0x0959)
    ∷ (0x0193, 0x0920)
    ∷ (0x0202, 0x0899)
    ∷ (0x022D, 0x0951)
    ∷ (0x023B, 0x0884)
    ∷ (0x07E4, 0x0368)
    ∷ (0x0802, 0x0838)
    ∷ (0x0811, 0x0802)
    ∷ (0x0815, 0x0863)
    ∷ (0x0817, 0x0939)
    ∷ (0x0819, 0x08AD)
    ∷ (0x0835, 0x089F)
    ∷ (0x0838, 0x0361)
    ∷ (0x088D, 0x0956)
    ∷ []

abbrev pub versions_since_20151028 : List (ℕ × Cases)
versions_since_20151028 =
    (20151028, cases_20151028)
    ∷ (20151029, cases_20151029)
    ∷ (20151104, cases_20151104)
    ∷ (20151111, cases_20151111)
    ∷ (20151118, cases_20151118)
    ∷ (20151125, cases_20151125)
    ∷ []
