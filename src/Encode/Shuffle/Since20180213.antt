-- ===== src/Encode/Shuffle/Since20180213.antt =====
-- pkg/encode/shuffle_map.go, lines 8530 to 8699: cases of `shuffledCtoSID`.
use rathena_client.Shared.{ℕ, List, [], ◌∷◌}
use rathena_client.Encode.Cases.{Cases}

abbrev pub cases_20180213 : Cases
cases_20180213 =
    (0x0064, 0x089C)
    ∷ (0x0072, 0x08A3)
    ∷ (0x007E, 0x0874)
    ∷ (0x0085, 0x0922)
    ∷ (0x0089, 0x0933)
    ∷ (0x0094, 0x093C)
    ∷ (0x009B, 0x0878)
    ∷ (0x009F, 0x0892)
    ∷ (0x00A2, 0x0802)
    ∷ (0x00F3, 0x0955)
    ∷ (0x00F5, 0x0875)
    ∷ (0x0113, 0x0882)
    ∷ (0x0116, 0x0924)
    ∷ (0x0190, 0x0817)
    ∷ (0x0193, 0x08AD)
    ∷ (0x0202, 0x0917)
    ∷ (0x022D, 0x0962)
    ∷ (0x023B, 0x0369)
    ∷ (0x07E4, 0x095A)
    ∷ (0x0802, 0x0943)
    ∷ (0x0811, 0x08A5)
    ∷ (0x0815, 0x08A9)
    ∷ (0x0817, 0x087B)
    ∷ (0x0819, 0x0898)
    ∷ (0x0835, 0x088C)
    ∷ (0x0838, 0x0936)
    ∷ (0x088D, 0x086F)
    ∷ []

abbrev pub cases_20180221 : Cases
cases_20180221 =
    (0x0064, 0x0366)
    ∷ (0x0072, 0x0897)
    ∷ (0x007E, 0x089D)
    ∷ (0x0085, 0x087D)
    ∷ (0x0089, 0x096A)
    ∷ (0x0094, 0x0957)
    ∷ (0x009B, 0x0838)
    ∷ (0x009F, 0x094E)
    ∷ (0x00A2, 0x0871)
    ∷ (0x00F3, 0x0879)
    ∷ (0x00F5, 0x091E)
    ∷ (0x0113, 0x094B)
    ∷ (0x0116, 0x094D)
    ∷ (0x0190, 0x0202)
    ∷ (0x0193, 0x088F)
    ∷ (0x0202, 0x0436)
    ∷ (0x022D, 0x0876)
    ∷ (0x023B, 0x0917)
    ∷ (0x07E4, 0x0880)
    ∷ (0x0802, 0x0881)
    ∷ (0x0811, 0x086F)
    ∷ (0x0815, 0x0929)
    ∷ (0x0817, 0x086C)
    ∷ (0x0819, 0x0883)
    ∷ (0x0835, 0x0867)
    ∷ (0x0838, 0x0899)
    ∷ (0x088D, 0x093D)
    ∷ []

abbrev pub cases_20180307 : Cases
cases_20180307 =
    (0x0064, 0x0951)
    ∷ (0x0072, 0x07E4)
    ∷ (0x007E, 0x086C)
    ∷ (0x0085, 0x0877)
    ∷ (0x0089, 0x0969)
    ∷ (0x0094, 0x0941)
    ∷ (0x009B, 0x08AB)
    ∷ (0x009F, 0x0954)
    ∷ (0x00A2, 0x0437)
    ∷ (0x00F3, 0x0920)
    ∷ (0x00F5, 0x088D)
    ∷ (0x0113, 0x0893)
    ∷ (0x0116, 0x0917)
    ∷ (0x0190, 0x0861)
    ∷ (0x0193, 0x0957)
    ∷ (0x0202, 0x08AA)
    ∷ (0x022D, 0x0944)
    ∷ (0x023B, 0x0939)
    ∷ (0x07E4, 0x0870)
    ∷ (0x0802, 0x0872)
    ∷ (0x0811, 0x035F)
    ∷ (0x0815, 0x093D)
    ∷ (0x0817, 0x0862)
    ∷ (0x0819, 0x0937)
    ∷ (0x0835, 0x0864)
    ∷ (0x0838, 0x08A6)
    ∷ (0x088D, 0x0948)
    ∷ []

abbrev pub versions_since_20180213 : List (ℕ × Cases)
versions_since_20180213 =
    (20180213, cases_20180213) ∷ (20180221, cases_20180221) ∷ (20180307, cases_20180307) ∷ []
