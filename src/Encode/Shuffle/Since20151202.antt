-- ===== src/Encode/Shuffle/Since20151202.antt =====
-- pkg/encode/shuffle_map.go, lines 2380 to 2720: cases of `shuffledCtoSID`.
use rathena_client.Shared.{ℕ, List, [], ◌∷◌}
use rathena_client.Encode.Cases.{Cases}

abbrev pub cases_20151202 : Cases
cases_20151202 =
    (0x0064, 0x0363)
    ∷ (0x0072, 0x022D)
    ∷ (0x007E, 0x035F)
    ∷ (0x0085, 0x0437)
    ∷ (0x0089, 0x0369)
    ∷ (0x0094, 0x096A)
    ∷ (0x009B, 0x0202)
    ∷ (0x009F, 0x07E4)
    ∷ (0x00A2, 0x0362)
    ∷ (0x00F3, 0x07EC)
    ∷ (0x00F5, 0x0364)
    ∷ (0x0113, 0x083C)
    ∷ (0x0116, 0x0438)
    ∷ (0x0190, 0x0366)
    ∷ (0x0193, 0x0368)
    ∷ (0x0202, 0x023B)
    ∷ (0x022D, 0x0361)
    ∷ (0x023B, 0x0870)
    ∷ (0x07E4, 0x0281)
    ∷ (0x0802, 0x0365)
    ∷ (0x0811, 0x0815)
    ∷ (0x0815, 0x0817)
    ∷ (0x0817, 0x0360)
    ∷ (0x0819, 0x0811)
    ∷ (0x0835, 0x0819)
    ∷ (0x0838, 0x0835)
    ∷ (0x088D, 0x0802)
    ∷ []

abbrev pub cases_20151209 : Cases
cases_20151209 =
    (0x0064, 0x088F)
    ∷ (0x0072, 0x0948)
    ∷ (0x007E, 0x0811)
    ∷ (0x0085, 0x0365)
    ∷ (0x0089, 0x0961)
    ∷ (0x0094, 0x085D)
    ∷ (0x009B, 0x0866)
    ∷ (0x009F, 0x07EC)
    ∷ (0x00A2, 0x0930)
    ∷ (0x00F3, 0x093B)
    ∷ (0x00F5, 0x092D)
    ∷ (0x0113, 0x088E)
    ∷ (0x0116, 0x0894)
    ∷ (0x0190, 0x0956)
    ∷ (0x0193, 0x0369)
    ∷ (0x0202, 0x0964)
    ∷ (0x022D, 0x08A1)
    ∷ (0x023B, 0x085B)
    ∷ (0x07E4, 0x0932)
    ∷ (0x0802, 0x094A)
    ∷ (0x0811, 0x085E)
    ∷ (0x0815, 0x0819)
    ∷ (0x0817, 0x087F)
    ∷ (0x0819, 0x0920)
    ∷ (0x0835, 0x0861)
    ∷ (0x0838, 0x0875)
    ∷ (0x088D, 0x07E4)
    ∷ []

abbrev pub cases_20151216 : Cases
cases_20151216 =
    (0x0064, 0x0364)
    ∷ (0x0072, 0x0947)
    ∷ (0x007E, 0x085B)
    ∷ (0x0085, 0x08A2)
    ∷ (0x0089, 0x089D)
    ∷ (0x0094, 0x088B)
    ∷ (0x009B, 0x022D)
    ∷ (0x009F, 0x08A9)
    ∷ (0x00A2, 0x0966)
    ∷ (0x00F3, 0x08AC)
    ∷ (0x00F5, 0x0864)
    ∷ (0x0113, 0x0968)
    ∷ (0x0116, 0x0865)
    ∷ (0x0190, 0x0874)
    ∷ (0x0193, 0x089E)
    ∷ (0x0202, 0x091D)
    ∷ (0x022D, 0x0362)
    ∷ (0x023B, 0x0885)
    ∷ (0x07E4, 0x0949)
    ∷ (0x0802, 0x0365)
    ∷ (0x0811, 0x0870)
    ∷ (0x0815, 0x083C)
    ∷ (0x0817, 0x0361)
    ∷ (0x0819, 0x0954)
    ∷ (0x0835, 0x0944)
    ∷ (0x0838, 0x0960)
    ∷ (0x088D, 0x086E)
    ∷ []

abbrev pub cases_20151223 : Cases
cases_20151223 =
    (0x0064, 0x0362)
    ∷ (0x0072, 0x0866)
    ∷ (0x007E, 0x0924)
    ∷ (0x0085, 0x0920)
    ∷ (0x0089, 0x0881)
    ∷ (0x0094, 0x0864)
    ∷ (0x009B, 0x0923)
    ∷ (0x009F, 0x0364)
    ∷ (0x00A2, 0x0876)
    ∷ (0x00F3, 0x02C4)
    ∷ (0x00F5, 0x0884)
    ∷ (0x0113, 0x0875)
    ∷ (0x0116, 0x086E)
    ∷ (0x0190, 0x0898)
    ∷ (0x0193, 0x095E)
    ∷ (0x0202, 0x091B)
    ∷ (0x022D, 0x088D)
    ∷ (0x023B, 0x0965)
    ∷ (0x07E4, 0x0890)
    ∷ (0x0802, 0x0872)
    ∷ (0x0811, 0x0891)
    ∷ (0x0815, 0x095F)
    ∷ (0x0817, 0x091A)
    ∷ (0x0819, 0x0886)
    ∷ (0x0835, 0x0815)
    ∷ (0x0838, 0x0918)
    ∷ (0x088D, 0x08AA)
    ∷ []

abbrev pub cases_20160106 : Cases
cases_20160106 =
    (0x0064, 0x086C)
    ∷ (0x0072, 0x087F)
    ∷ (0x007E, 0x035F)
    ∷ (0x0085, 0x0437)
    ∷ (0x0089, 0x0369)
    ∷ (0x0094, 0x096A)
    ∷ (0x009B, 0x0889)
    ∷ (0x009F, 0x0861)
    ∷ (0x00A2, 0x086A)
    ∷ (0x00F3, 0x0885)
    ∷ (0x00F5, 0x0891)
    ∷ (0x0113, 0x083C)
    ∷ (0x0116, 0x0438)
    ∷ (0x0190, 0x0366)
    ∷ (0x0193, 0x0368)
    ∷ (0x0202, 0x08A0)
    ∷ (0x022D, 0x07EC)
    ∷ (0x023B, 0x0878)
    ∷ (0x07E4, 0x091D)
    ∷ (0x0802, 0x087A)
    ∷ (0x0811, 0x0815)
    ∷ (0x0815, 0x0817)
    ∷ (0x0817, 0x0360)
    ∷ (0x0819, 0x0811)
    ∷ (0x0835, 0x0819)
    ∷ (0x0838, 0x0835)
    ∷ (0x088D, 0x088A)
    ∷ []

abbrev pub cases_20160113 : Cases
cases_20160113 =
    (0x0064, 0x0873)
    ∷ (0x0072, 0x094D)
    ∷ (0x007E, 0x08A0)
    ∷ (0x0085, 0x023B)
    ∷ (0x0089, 0x089A)
    ∷ (0x0094, 0x091B)
    ∷ (0x009B, 0x085B)
    ∷ (0x009F, 0x08A6)
    ∷ (0x00A2, 0x0924)
    ∷ (0x00F3, 0x0932)
    ∷ (0x00F5, 0x093C)
    ∷ (0x0113, 0x0892)
    ∷ (0x0116, 0x022D)
    ∷ (0x0190, 0x0888)
    ∷ (0x0193, 0x0930)
    ∷ (0x0202, 0x0899)
    ∷ (0x022D, 0x086D)
    ∷ (0x023B, 0x0815)
    ∷ (0x07E4, 0x0941)
    ∷ (0x0802, 0x035F)
    ∷ (0x0811, 0x0967)
    ∷ (0x0815, 0x088C)
    ∷ (0x0817, 0x0864)
    ∷ (0x0819, 0x0893)
    ∷ (0x0835, 0x08AA)
    ∷ (0x0838, 0x0875)
    ∷ (0x088D, 0x088B)
    ∷ []

abbrev pub versions_since_20151202 : List (ℕ × Cases)
versions_since_20151202 =
    (20151202, cases_20151202)
    ∷ (20151209, cases_20151209)
    ∷ (20151216, cases_20151216)
    ∷ (20151223, cases_20151223)
    ∷ (20160106, cases_20160106)
    ∷ (20160113, cases_20160113)
    ∷ []
