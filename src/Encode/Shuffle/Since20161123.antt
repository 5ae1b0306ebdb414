-- ===== src/Encode/Shuffle/Since20161123.antt =====
-- pkg/encode/shuffle_map.go, lines 5112 to 5452: cases of `shuffledCtoSID`.
use rathena_client.Shared.{ℕ, List, [], ◌∷◌}
use rathena_client.Encode.Cases.{Cases}

abbrev pub cases_20161123 : Cases
cases_20161123 =
    (0x0064, 0x0871)
    ∷ (0x0072, 0x0926)
    ∷ (0x007E, 0x0437)
    ∷ (0x0085, 0x0861)
    ∷ (0x0089, 0x095B)
    ∷ (0x0094, 0x088B)
    ∷ (0x009B, 0x089C)
    ∷ (0x009F, 0x092F)
    ∷ (0x00A2, 0x086F)
    ∷ (0x00F3, 0x091A)
    ∷ (0x00F5, 0x0962)
    ∷ (0x0113, 0x094D)
    ∷ (0x0116, 0x08A9)
    ∷ (0x0190, 0x085C)
    ∷ (0x0193, 0x096A)
    ∷ (0x0202, 0x0941)
    ∷ (0x022D, 0x0930)
    ∷ (0x023B, 0x0880)
    ∷ (0x07E4, 0x0281)
    ∷ (0x0802, 0x035F)
    ∷ (0x0811, 0x094F)
    ∷ (0x0815, 0x0862)
    ∷ (0x0817, 0x092A)
    ∷ (0x0819, 0x0882)
    ∷ (0x0835, 0x0362)
    ∷ (0x0838, 0x0866)
    ∷ (0x088D, 0x087F)
    ∷ []

abbrev pub cases_20161130 : Cases
cases_20161130 =
    (0x0064, 0x0363)
    ∷ (0x0072, 0x0943)
    ∷ (0x007E, 0x0361)
    ∷ (0x0085, 0x0437)
    ∷ (0x0089, 0x0369)
    ∷ (0x0094, 0x096A)
    ∷ (0x009B, 0x035F)
    ∷ (0x009F, 0x07E4)
    ∷ (0x00A2, 0x0362)
    ∷ (0x00F3, 0x07EC)
    ∷ (0x00F5, 0x0364)
    ∷ (0x0113, 0x083C)
    ∷ (0x0116, 0x0438)
    ∷ (0x0190, 0x0366)
    ∷ (0x0193, 0x0368)
    ∷ (0x0202, 0x0959)
    ∷ (0x022D, 0x0931)
    ∷ (0x023B, 0x0954)
    ∷ (0x07E4, 0x0281)
    ∷ (0x0802, 0x0365)
    ∷ (0x0811, 0x0815)
    ∷ (0x0815, 0x0817)
    ∷ (0x0817, 0x0360)
    ∷ (0x0819, 0x0811)
    ∷ (0x0835, 0x0819)
    ∷ (0x0838, 0x0835)
    ∷ (0x088D, 0x0802)
    ∷ []

abbrev pub cases_20161207 : Cases
cases_20161207 =
    (0x0064, 0x0868)
    ∷ (0x0072, 0x0361)
    ∷ (0x007E, 0x035F)
    ∷ (0x0085, 0x0437)
    ∷ (0x0089, 0x0886)
    ∷ (0x0094, 0x096A)
    ∷ (0x009B, 0x08A1)
    ∷ (0x009F, 0x08A2)
    ∷ (0x00A2, 0x08AD)
    ∷ (0x00F3, 0x0875)
    ∷ (0x00F5, 0x091D)
    ∷ (0x0113, 0x083C)
    ∷ (0x0116, 0x0438)
    ∷ (0x0190, 0x0366)
    ∷ (0x0193, 0x0368)
    ∷ (0x0202, 0x0867)
    ∷ (0x022D, 0x023B)
    ∷ (0x023B, 0x095D)
    ∷ (0x07E4, 0x087E)
    ∷ (0x0802, 0x0918)
    ∷ (0x0811, 0x0815)
    ∷ (0x0815, 0x0817)
    ∷ (0x0817, 0x0360)
    ∷ (0x0819, 0x0811)
    ∷ (0x0835, 0x0819)
    ∷ (0x0838, 0x0835)
    ∷ (0x088D, 0x0965)
    ∷ []

abbrev pub cases_20161214 : Cases
cases_20161214 =
    (0x0064, 0x0819)
    ∷ (0x0072, 0x0369)
    ∷ (0x007E, 0x035F)
    ∷ (0x0085, 0x0437)
    ∷ (0x0089, 0x0436)
    ∷ (0x0094, 0x096A)
    ∷ (0x009B, 0x093D)
    ∷ (0x009F, 0x092E)
    ∷ (0x00A2, 0x0887)
    ∷ (0x00F3, 0x0364)
    ∷ (0x00F5, 0x02C4)
    ∷ (0x0113, 0x083C)
    ∷ (0x0116, 0x0438)
    ∷ (0x0190, 0x0366)
    ∷ (0x0193, 0x0368)
    ∷ (0x0202, 0x0862)
    ∷ (0x022D, 0x0360)
    ∷ (0x023B, 0x0899)
    ∷ (0x07E4, 0x085A)
    ∷ (0x0802, 0x08A6)
    ∷ (0x0811, 0x0815)
    ∷ (0x0815, 0x0817)
    ∷ (0x0817, 0x022D)
    ∷ (0x0819, 0x0811)
    ∷ (0x0835, 0x0281)
    ∷ (0x0838, 0x0835)
    ∷ (0x088D, 0x086D)
    ∷ []

abbrev pub cases_20161221 : Cases
cases_20161221 =
    (0x0064, 0x0884)
    ∷ (0x0072, 0x0964)
    ∷ (0x007E, 0x08AA)
    ∷ (0x0085, 0x0438)
    ∷ (0x0089, 0x089B)
    ∷ (0x0094, 0x0881)
    ∷ (0x009B, 0x0965)
    ∷ (0x009F, 0x035F)
    ∷ (0x00A2, 0x0362)
    ∷ (0x00F3, 0x0817)
    ∷ (0x00F5, 0x089A)
    ∷ (0x0113, 0x0943)
    ∷ (0x0116, 0x0946)
    ∷ (0x0190, 0x085B)
    ∷ (0x0193, 0x0366)
    ∷ (0x0202, 0x0928)
    ∷ (0x022D, 0x0930)
    ∷ (0x023B, 0x0890)
    ∷ (0x07E4, 0x0885)
    ∷ (0x0802, 0x092E)
    ∷ (0x0811, 0x094B)
    ∷ (0x0815, 0x092C)
    ∷ (0x0817, 0x095A)
    ∷ (0x0819, 0x088C)
    ∷ (0x0835, 0x0866)
    ∷ (0x0838, 0x091E)
    ∷ (0x088D, 0x0926)
    ∷ []

abbrev pub cases_20161228 : Cases
cases_20161228 =
    (0x0064, 0x0935)
    ∷ (0x0072, 0x086D)
    ∷ (0x007E, 0x0944)
    ∷ (0x0085, 0x0886)
    ∷ (0x0089, 0x093D)
    ∷ (0x0094, 0x085A)
    ∷ (0x009B, 0x0871)
    ∷ (0x009F, 0x086C)
    ∷ (0x00A2, 0x0893)
    ∷ (0x00F3, 0x089F)
    ∷ (0x00F5, 0x08AB)
    ∷ (0x0113, 0x08A2)
    ∷ (0x0116, 0x0929)
    ∷ (0x0190, 0x0865)
    ∷ (0x0193, 0x08AC)
    ∷ (0x0202, 0x091C)
    ∷ (0x022D, 0x085E)
    ∷ (0x023B, 0x08AD)
    ∷ (0x07E4, 0x0889)
    ∷ (0x0802, 0x08A5)
    ∷ (0x0811, 0x086A)
    ∷ (0x0815, 0x0875)
    ∷ (0x0817, 0x08A3)
    ∷ (0x0819, 0x0362)
    ∷ (0x0835, 0x0870)
    ∷ (0x0838, 0x092C)
    ∷ (0x088D, 0x0934)
    ∷ []

abbrev pub versions_since_20161123 : List (ℕ × Cases)
versions_since_20161123 =
    (20161123, cases_20161123)
    ∷ (20161130, cases_20161130)
    ∷ (20161207, cases_20161207)
    ∷ (20161214, cases_20161214)
    ∷ (20161221, cases_20161221)
    ∷ (20161228, cases_20161228)
    ∷ []
