-- ===== src/Encode/Shuffle/Since20160706.antt =====
-- pkg/encode/shuffle_map.go, lines 4090 to 4428: cases of `shuffledCtoSID`.
use rathena_client.Shared.{ℕ, List, [], ◌∷◌}
use rathena_client.Encode.Cases.{Cases}

abbrev pub cases_20160706 : Cases
cases_20160706 =
    (0x0064, 0x0886)
    ∷ (0x0072, 0x08A5)
    ∷ (0x007E, 0x08A8)
    ∷ (0x0085, 0x092D)
    ∷ (0x0089, 0x0860)
    ∷ (0x0094, 0x0945)
    ∷ (0x009B, 0x0926)
    ∷ (0x009F, 0x0958)
    ∷ (0x00A2, 0x093D)
    ∷ (0x00F3, 0x0939)
    ∷ (0x00F5, 0x0929)
    ∷ (0x0113, 0x0899)
    ∷ (0x0116, 0x0924)
    ∷ (0x0190, 0x0918)
    ∷ (0x0193, 0x0362)
    ∷ (0x0202, 0x0884)
    ∷ (0x022D, 0x0892)
    ∷ (0x023B, 0x094C)
    ∷ (0x07E4, 0x091B)
    ∷ (0x0802, 0x08A4)
    ∷ (0x0811, 0x086B)
    ∷ (0x0815, 0x0952)
    ∷ (0x0817, 0x0436)
    ∷ (0x0819, 0x0869)
    ∷ (0x0835, 0x0889)
    ∷ (0x0838, 0x0927)
    ∷ (0x088D, 0x085F)
    ∷ []

abbrev pub cases_20160713 : Cases
cases_20160713 =
    (0x0064, 0x089F)
    ∷ (0x0072, 0x08A4)
    ∷ (0x007E, 0x087B)
    ∷ (0x0085, 0x091C)
    ∷ (0x0089, 0x0945)
    ∷ (0x0094, 0x092C)
    ∷ (0x009B, 0x0363)
    ∷ (0x009F, 0x0838)
    ∷ (0x00A2, 0x0957)
    ∷ (0x00F3, 0x0947)
    ∷ (0x00F5, 0x08A2)
    ∷ (0x0113, 0x0931)
    ∷ (0x0116, 0x0877)
    ∷ (0x0190, 0x0921)
    ∷ (0x0193, 0x091D)
    ∷ (0x0202, 0x0939)
    ∷ (0x022D, 0x0922)
    ∷ (0x023B, 0x022D)
    ∷ (0x07E4, 0x0364)
    ∷ (0x0802, 0x088D)
    ∷ (0x0811, 0x0869)
    ∷ (0x0815, 0x0944)
    ∷ (0x0817, 0x0860)
    ∷ (0x0819, 0x0865)
    ∷ (0x0835, 0x0883)
    ∷ (0x0838, 0x0875)
    ∷ (0x088D, 0x089A)
    ∷ []

abbrev pub cases_20160720 : Cases
cases_20160720 =
    (0x0064, 0x0917)
    ∷ (0x0072, 0x07E4)
    ∷ (0x007E, 0x0946)
    ∷ (0x0085, 0x0838)
    ∷ (0x0089, 0x0365)
    ∷ (0x0094, 0x0887)
    ∷ (0x009B, 0x093B)
    ∷ (0x009F, 0x091C)
    ∷ (0x00A2, 0x087F)
    ∷ (0x00F3, 0x0960)
    ∷ (0x00F5, 0x089E)
    ∷ (0x0113, 0x0363)
    ∷ (0x0116, 0x0883)
    ∷ (0x0190, 0x0362)
    ∷ (0x0193, 0x094D)
    ∷ (0x0202, 0x092A)
    ∷ (0x022D, 0x089C)
    ∷ (0x023B, 0x089A)
    ∷ (0x07E4, 0x08AA)
    ∷ (0x0802, 0x095B)
    ∷ (0x0811, 0x093E)
    ∷ (0x0815, 0x085B)
    ∷ (0x0817, 0x086D)
    ∷ (0x0835, 0x0897)
    ∷ (0x0838, 0x086A)
    ∷ (0x088D, 0x0969)
    ∷ []

abbrev pub cases_20160727 : Cases
cases_20160727 =
    (0x0064, 0x023B)
    ∷ (0x0072, 0x0887)
    ∷ (0x007E, 0x0438)
    ∷ (0x0085, 0x092E)
    ∷ (0x0089, 0x0883)
    ∷ (0x0094, 0x0946)
    ∷ (0x009B, 0x0202)
    ∷ (0x009F, 0x08A7)
    ∷ (0x00A2, 0x07EC)
    ∷ (0x00F3, 0x0951)
    ∷ (0x00F5, 0x0949)
    ∷ (0x0113, 0x088E)
    ∷ (0x0116, 0x089F)
    ∷ (0x0190, 0x0436)
    ∷ (0x0193, 0x08A4)
    ∷ (0x0202, 0x0363)
    ∷ (0x022D, 0x0936)
    ∷ (0x023B, 0x08A2)
    ∷ (0x07E4, 0x0969)
    ∷ (0x0802, 0x0877)
    ∷ (0x0811, 0x095F)
    ∷ (0x0815, 0x0966)
    ∷ (0x0817, 0x0874)
    ∷ (0x0819, 0x0891)
    ∷ (0x0835, 0x0362)
    ∷ (0x0838, 0x0941)
    ∷ (0x088D, 0x0868)
    ∷ []

abbrev pub cases_20160803 : Cases
cases_20160803 =
    (0x0064, 0x0878)
    ∷ (0x0072, 0x0364)
    ∷ (0x007E, 0x093E)
    ∷ (0x0085, 0x087F)
    ∷ (0x0089, 0x0934)
    ∷ (0x0094, 0x0887)
    ∷ (0x009B, 0x0891)
    ∷ (0x009F, 0x091B)
    ∷ (0x00A2, 0x089C)
    ∷ (0x00F3, 0x0886)
    ∷ (0x00F5, 0x0955)
    ∷ (0x0113, 0x0932)
    ∷ (0x0116, 0x0937)
    ∷ (0x0190, 0x0888)
    ∷ (0x0193, 0x0959)
    ∷ (0x0202, 0x0895)
    ∷ (0x022D, 0x0952)
    ∷ (0x023B, 0x0929)
    ∷ (0x07E4, 0x0956)
    ∷ (0x0802, 0x0881)
    ∷ (0x0811, 0x08A1)
    ∷ (0x0815, 0x088B)
    ∷ (0x0817, 0x085D)
    ∷ (0x0819, 0x096A)
    ∷ (0x0835, 0x093F)
    ∷ (0x0838, 0x089E)
    ∷ (0x088D, 0x095A)
    ∷ []

abbrev pub cases_20160810 : Cases
cases_20160810 =
    (0x0064, 0x0926)
    ∷ (0x0072, 0x0885)
    ∷ (0x007E, 0x0943)
    ∷ (0x0085, 0x087A)
    ∷ (0x0089, 0x095B)
    ∷ (0x0094, 0x091B)
    ∷ (0x009B, 0x089D)
    ∷ (0x009F, 0x091A)
    ∷ (0x00A2, 0x085E)
    ∷ (0x00F3, 0x08A9)
    ∷ (0x00F5, 0x092D)
    ∷ (0x0113, 0x091C)
    ∷ (0x0116, 0x0819)
    ∷ (0x0190, 0x0935)
    ∷ (0x0193, 0x0860)
    ∷ (0x0202, 0x0888)
    ∷ (0x022D, 0x0875)
    ∷ (0x023B, 0x0361)
    ∷ (0x07E4, 0x089F)
    ∷ (0x0802, 0x085F)
    ∷ (0x0811, 0x086F)
    ∷ (0x0815, 0x0959)
    ∷ (0x0817, 0x0879)
    ∷ (0x0819, 0x092B)
    ∷ (0x0835, 0x0890)
    ∷ (0x0838, 0x094B)
    ∷ (0x088D, 0x0838)
    ∷ []

abbrev pub versions_since_20160706 : List (ℕ × Cases)
versions_since_20160706 =
    (20160706, cases_20160706)
    ∷ (20160713, cases_20160713)
    ∷ (20160720, cases_20160720)
    ∷ (20160727, cases_20160727)
    ∷ (20160803, cases_20160803)
    ∷ (20160810, cases_20160810)
    ∷ []
