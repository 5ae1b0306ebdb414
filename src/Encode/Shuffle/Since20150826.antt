-- ===== src/Encode/Shuffle/Since20150826.antt =====
-- pkg/encode/shuffle_map.go, lines 1700 to 2036: cases of `shuffledCtoSID`.
use rathena_client.Shared.{ℕ, List, [], ◌∷◌}
use rathena_client.Encode.Cases.{Cases}

abbrev pub cases_20150826 : Cases
cases_20150826 =
    (0x0064, 0x0861)
    ∷ (0x0072, 0x0964)
    ∷ (0x007E, 0x0951)
    ∷ (0x0085, 0x0865)
    ∷ (0x0089, 0x07EC)
    ∷ (0x0094, 0x093B)
    ∷ (0x009B, 0x094F)
    ∷ (0x009F, 0x08A4)
    ∷ (0x00A2, 0x0924)
    ∷ (0x00F3, 0x08A1)
    ∷ (0x00F5, 0x0368)
    ∷ (0x0113, 0x0891)
    ∷ (0x0116, 0x086B)
    ∷ (0x0190, 0x092E)
    ∷ (0x0193, 0x087B)
    ∷ (0x0202, 0x088D)
    ∷ (0x022D, 0x0945)
    ∷ (0x023B, 0x0362)
    ∷ (0x07E4, 0x0959)
    ∷ (0x0802, 0x0436)
    ∷ (0x0811, 0x0870)
    ∷ (0x0815, 0x0928)
    ∷ (0x0817, 0x0819)
    ∷ (0x0819, 0x08A8)
    ∷ (0x0835, 0x0969)
    ∷ (0x0838, 0x0890)
    ∷ (0x088D, 0x088B)
    ∷ []

abbrev pub cases_20150916 : Cases
cases_20150916 =
    (0x0064, 0x0938)
    ∷ (0x0072, 0x0969)
    ∷ (0x007E, 0x08AC)
    ∷ (0x0085, 0x0877)
    ∷ (0x0089, 0x0869)
    ∷ (0x0094, 0x095A)
    ∷ (0x009B, 0x0936)
    ∷ (0x009F, 0x089C)
    ∷ (0x00A2, 0x092F)
    ∷ (0x00F3, 0x0934)
    ∷ (0x00F5, 0x085E)
    ∷ (0x0113, 0x093E)
    ∷ (0x0116, 0x022D)
    ∷ (0x0190, 0x0873)
    ∷ (0x0193, 0x0942)
    ∷ (0x0202, 0x089E)
    ∷ (0x022D, 0x0960)
    ∷ (0x023B, 0x0941)
    ∷ (0x07E4, 0x0961)
    ∷ (0x0802, 0x089B)
    ∷ (0x0811, 0x0948)
    ∷ (0x0815, 0x092E)
    ∷ (0x0817, 0x0835)
    ∷ (0x0819, 0x0881)
    ∷ (0x0835, 0x0920)
    ∷ (0x0838, 0x0817)
    ∷ (0x088D, 0x0924)
    ∷ []

abbrev pub cases_20151001 : Cases
cases_20151001 =
    (0x0064, 0x0363)
    ∷ (0x0072, 0x022D)
    ∷ (0x007E, 0x035F)
    ∷ (0x0085, 0x0437)
    ∷ (0x0089, 0x0369)
    ∷ (0x0094, 0x096A)
    ∷ (0x009B, 0x0202)
    ∷ (0x009F, 0x07E4)
    ∷ (0x00A2, 0x0362)
    ∷ (0x00F3, 0x07EC)
    ∷ (0x00F5, 0x0364)
    ∷ (0x0113, 0x083C)
    ∷ (0x0116, 0x0438)
    ∷ (0x0193, 0x0368)
    ∷ (0x0202, 0x023B)
    ∷ (0x022D, 0x0361)
    ∷ (0x023B, 0x0860)
    ∷ (0x07E4, 0x0281)
    ∷ (0x0811, 0x0815)
    ∷ (0x0815, 0x0817)
    ∷ (0x0817, 0x0360)
    ∷ (0x0819, 0x0811)
    ∷ (0x0835, 0x0819)
    ∷ (0x0838, 0x0835)
    ∷ (0x088D, 0x0802)
    ∷ []

abbrev pub cases_20151007 : Cases
cases_20151007 =
    (0x0064, 0x0363)
    ∷ (0x0072, 0x0961)
    ∷ (0x007E, 0x035F)
    ∷ (0x0085, 0x0437)
    ∷ (0x0089, 0x0369)
    ∷ (0x0094, 0x096A)
    ∷ (0x009B, 0x095F)
    ∷ (0x009F, 0x07E4)
    ∷ (0x00A2, 0x0362)
    ∷ (0x00F3, 0x07EC)
    ∷ (0x00F5, 0x0364)
    ∷ (0x0113, 0x083C)
    ∷ (0x0116, 0x0438)
    ∷ (0x0190, 0x0366)
    ∷ (0x0193, 0x0368)
    ∷ (0x0202, 0x0811)
    ∷ (0x022D, 0x093F)
    ∷ (0x023B, 0x0967)
    ∷ (0x07E4, 0x0281)
    ∷ (0x0802, 0x0365)
    ∷ (0x0811, 0x0815)
    ∷ (0x0815, 0x0817)
    ∷ (0x0817, 0x0360)
    ∷ (0x0819, 0x0202)
    ∷ (0x0835, 0x0819)
    ∷ (0x0838, 0x0835)
    ∷ (0x088D, 0x0802)
    ∷ []

abbrev pub cases_20151014 : Cases
cases_20151014 =
    (0x0064, 0x088E)
    ∷ (0x0072, 0x0964)
    ∷ (0x007E, 0x0883)
    ∷ (0x0085, 0x089F)
    ∷ (0x0089, 0x085C)
    ∷ (0x0094, 0x0961)
    ∷ (0x009B, 0x0863)
    ∷ (0x009F, 0x08AA)
    ∷ (0x00A2, 0x0860)
    ∷ (0x00F3, 0x095E)
    ∷ (0x00F5, 0x0881)
    ∷ (0x0113, 0x085A)
    ∷ (0x0116, 0x0874)
    ∷ (0x0190, 0x0930)
    ∷ (0x0193, 0x0956)
    ∷ (0x0202, 0x0817)
    ∷ (0x022D, 0x0872)
    ∷ (0x023B, 0x091D)
    ∷ (0x07E4, 0x0884)
    ∷ (0x0802, 0x0202)
    ∷ (0x0811, 0x0934)
    ∷ (0x0815, 0x089B)
    ∷ (0x0817, 0x0889)
    ∷ (0x0819, 0x0867)
    ∷ (0x0835, 0x0838)
    ∷ (0x0838, 0x094F)
    ∷ (0x088D, 0x091C)
    ∷ []

abbrev pub cases_20151022 : Cases
cases_20151022 =
    (0x0064, 0x0363)
    ∷ (0x0072, 0x023B)
    ∷ (0x007E, 0x035F)
    ∷ (0x0085, 0x0437)
    ∷ (0x0089, 0x0369)
    ∷ (0x0094, 0x096A)
    ∷ (0x009B, 0x07EC)
    ∷ (0x009F, 0x07E4)
    ∷ (0x00A2, 0x0362)
    ∷ (0x00F3, 0x0361)
    ∷ (0x00F5, 0x0364)
    ∷ (0x0113, 0x083C)
    ∷ (0x0116, 0x0438)
    ∷ (0x0190, 0x0366)
    ∷ (0x0193, 0x0368)
    ∷ (0x0202, 0x086A)
    ∷ (0x022D, 0x091D)
    ∷ (0x023B, 0x02C4)
    ∷ (0x07E4, 0x0281)
    ∷ (0x0802, 0x0365)
    ∷ (0x0811, 0x0815)
    ∷ (0x0815, 0x0817)
    ∷ (0x0817, 0x0360)
    ∷ (0x0819, 0x0811)
    ∷ (0x0835, 0x0819)
    ∷ (0x0838, 0x0835)
    ∷ (0x088D, 0x0940)
    ∷ []

abbrev pub versions_since_20150826 : List (ℕ × Cases)
versions_since_20150826 =
    (20150826, cases_20150826)
    ∷ (20150916, cases_20150916)
    ∷ (20151001, cases_20151001)
    ∷ (20151007, cases_20151007)
    ∷ (20151014, cases_20151014)
    ∷ (20151022, cases_20151022)
    ∷ []
