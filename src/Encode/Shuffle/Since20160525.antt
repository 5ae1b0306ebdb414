-- ===== src/Encode/Shuffle/Since20160525.antt =====
-- pkg/encode/shuffle_map.go, lines 3748 to 4088: cases of `shuffledCtoSID`.
use rathena_client.Shared.{ℕ, List, [], ◌∷◌}
use rathena_client.Encode.Cases.{Cases}

abbrev pub cases_20160525 : Cases
cases_20160525 =
    (0x0064, 0x085A)
    ∷ (0x0072, 0x086A)
    ∷ (0x007E, 0x035F)
    ∷ (0x0085, 0x0437)
    ∷ (0x0089, 0x0369)
    ∷ (0x0094, 0x096A)
    ∷ (0x009B, 0x089C)
    ∷ (0x009F, 0x0899)
    ∷ (0x00A2, 0x085E)
    ∷ (0x00F3, 0x094A)
    ∷ (0x00F5, 0x0956)
    ∷ (0x0113, 0x083C)
    ∷ (0x0116, 0x0438)
    ∷ (0x0190, 0x0366)
    ∷ (0x0193, 0x0368)
    ∷ (0x0202, 0x0951)
    ∷ (0x022D, 0x0867)
    ∷ (0x023B, 0x091D)
    ∷ (0x07E4, 0x0937)
    ∷ (0x0802, 0x092C)
    ∷ (0x0811, 0x0815)
    ∷ (0x0815, 0x0817)
    ∷ (0x0817, 0x0360)
    ∷ (0x0819, 0x0811)
    ∷ (0x0835, 0x0819)
    ∷ (0x0838, 0x0835)
    ∷ (0x088D, 0x0945)
    ∷ []

abbrev pub cases_20160601 : Cases
cases_20160601 =
    (0x0064, 0x08A7)
    ∷ (0x0072, 0x08AC)
    ∷ (0x007E, 0x035F)
    ∷ (0x0085, 0x0437)
    ∷ (0x0089, 0x0369)
    ∷ (0x0094, 0x096A)
    ∷ (0x009B, 0x095B)
    ∷ (0x009F, 0x0863)
    ∷ (0x00A2, 0x088D)
    ∷ (0x00F3, 0x088F)
    ∷ (0x00F5, 0x0870)
    ∷ (0x0113, 0x083C)
    ∷ (0x0116, 0x0438)
    ∷ (0x0190, 0x0366)
    ∷ (0x0193, 0x0368)
    ∷ (0x0202, 0x0817)
    ∷ (0x022D, 0x0895)
    ∷ (0x023B, 0x095F)
    ∷ (0x07E4, 0x087D)
    ∷ (0x0802, 0x0961)
    ∷ (0x0811, 0x0815)
    ∷ (0x0815, 0x0202)
    ∷ (0x0817, 0x0360)
    ∷ (0x0819, 0x0811)
    ∷ (0x0835, 0x0819)
    ∷ (0x0838, 0x0835)
    ∷ (0x088D, 0x02C4)
    ∷ []

abbrev pub cases_20160608 : Cases
cases_20160608 =
    (0x0064, 0x085C)
    ∷ (0x0072, 0x0437)
    ∷ (0x007E, 0x0802)
    ∷ (0x0085, 0x0436)
    ∷ (0x0089, 0x0369)
    ∷ (0x0094, 0x096A)
    ∷ (0x009B, 0x07EC)
    ∷ (0x009F, 0x0899)
    ∷ (0x00A2, 0x094D)
    ∷ (0x00F3, 0x095B)
    ∷ (0x00F5, 0x08A6)
    ∷ (0x0113, 0x083C)
    ∷ (0x0116, 0x0438)
    ∷ (0x0190, 0x0885)
    ∷ (0x0193, 0x0368)
    ∷ (0x0202, 0x0969)
    ∷ (0x022D, 0x089B)
    ∷ (0x023B, 0x0958)
    ∷ (0x07E4, 0x022D)
    ∷ (0x0802, 0x02C4)
    ∷ (0x0811, 0x0815)
    ∷ (0x0815, 0x0817)
    ∷ (0x0817, 0x0360)
    ∷ (0x0819, 0x0889)
    ∷ (0x0835, 0x0819)
    ∷ (0x0838, 0x0835)
    ∷ (0x088D, 0x035F)
    ∷ []

abbrev pub cases_20160615 : Cases
cases_20160615 =
    (0x0064, 0x0870)
    ∷ (0x0072, 0x0363)
    ∷ (0x007E, 0x088A)
    ∷ (0x0085, 0x0866)
    ∷ (0x0089, 0x0948)
    ∷ (0x0094, 0x083C)
    ∷ (0x009B, 0x0954)
    ∷ (0x009F, 0x087E)
    ∷ (0x00A2, 0x0898)
    ∷ (0x00F3, 0x0957)
    ∷ (0x00F5, 0x0958)
    ∷ (0x0113, 0x0888)
    ∷ (0x0116, 0x0891)
    ∷ (0x0190, 0x087F)
    ∷ (0x0193, 0x087D)
    ∷ (0x0202, 0x0281)
    ∷ (0x022D, 0x0369)
    ∷ (0x023B, 0x0364)
    ∷ (0x07E4, 0x088D)
    ∷ (0x0802, 0x095C)
    ∷ (0x0811, 0x095E)
    ∷ (0x0815, 0x0947)
    ∷ (0x0817, 0x094A)
    ∷ (0x0819, 0x0887)
    ∷ (0x0835, 0x094B)
    ∷ (0x0838, 0x092F)
    ∷ (0x088D, 0x093E)
    ∷ []

abbrev pub cases_20160622 : Cases
cases_20160622 =
    (0x0064, 0x0865)
    ∷ (0x0072, 0x0936)
    ∷ (0x007E, 0x092D)
    ∷ (0x0085, 0x0437)
    ∷ (0x0089, 0x089E)
    ∷ (0x0094, 0x0959)
    ∷ (0x009B, 0x0965)
    ∷ (0x009F, 0x091C)
    ∷ (0x00A2, 0x0969)
    ∷ (0x00F3, 0x093B)
    ∷ (0x00F5, 0x035F)
    ∷ (0x0113, 0x092F)
    ∷ (0x0116, 0x023B)
    ∷ (0x0190, 0x0366)
    ∷ (0x0193, 0x08A2)
    ∷ (0x0202, 0x0890)
    ∷ (0x022D, 0x07E4)
    ∷ (0x023B, 0x08A8)
    ∷ (0x07E4, 0x0946)
    ∷ (0x0802, 0x089A)
    ∷ (0x0811, 0x093F)
    ∷ (0x0815, 0x0887)
    ∷ (0x0817, 0x0891)
    ∷ (0x0819, 0x0861)
    ∷ (0x0835, 0x0880)
    ∷ (0x0838, 0x0892)
    ∷ (0x088D, 0x0361)
    ∷ []

abbrev pub cases_20160629 : Cases
cases_20160629 =
    (0x0064, 0x035F)
    ∷ (0x0072, 0x0881)
    ∷ (0x007E, 0x0893)
    ∷ (0x0085, 0x022D)
    ∷ (0x0089, 0x095A)
    ∷ (0x0094, 0x088E)
    ∷ (0x009B, 0x0948)
    ∷ (0x009F, 0x0969)
    ∷ (0x00A2, 0x0861)
    ∷ (0x00F3, 0x096A)
    ∷ (0x00F5, 0x0922)
    ∷ (0x0113, 0x0925)
    ∷ (0x0116, 0x0968)
    ∷ (0x0190, 0x085C)
    ∷ (0x0193, 0x0863)
    ∷ (0x0202, 0x094A)
    ∷ (0x022D, 0x0885)
    ∷ (0x023B, 0x0867)
    ∷ (0x07E4, 0x0368)
    ∷ (0x0802, 0x091E)
    ∷ (0x0811, 0x0946)
    ∷ (0x0815, 0x0957)
    ∷ (0x0817, 0x0363)
    ∷ (0x0819, 0x093E)
    ∷ (0x0835, 0x0860)
    ∷ (0x0838, 0x086B)
    ∷ (0x088D, 0x0926)
    ∷ []

abbrev pub versions_since_20160525 : List (ℕ × Cases)
versions_since_20160525 =
    (20160525, cases_20160525)
    ∷ (20160601, cases_20160601)
    ∷ (20160608, cases_20160608)
    ∷ (20160615, cases_20160615)
    ∷ (20160622, cases_20160622)
    ∷ (20160629, cases_20160629)
    ∷ []
