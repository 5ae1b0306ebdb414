-- ===== src/Encode/Shuffle/Since20170517.antt =====
-- pkg/encode/shuffle_map.go, lines 6480 to 6818: cases of `shuffledCtoSID`.
use rathena_client.Shared.{ℕ, List, [], ◌∷◌}
use rathena_client.Encode.Cases.{Cases}

abbrev pub cases_20170517 : Cases
cases_20170517 =
    (0x0064, 0x0364)
    ∷ (0x0072, 0x0923)
    ∷ (0x007E, 0x08A2)
    ∷ (0x0085, 0x08A8)
    ∷ (0x0089, 0x0437)
    ∷ (0x0094, 0x0894)
    ∷ (0x009B, 0x088D)
    ∷ (0x009F, 0x0964)
    ∷ (0x00A2, 0x093B)
    ∷ (0x00F3, 0x08AA)
    ∷ (0x00F5, 0x088C)
    ∷ (0x0113, 0x0815)
    ∷ (0x0116, 0x0817)
    ∷ (0x0190, 0x0868)
    ∷ (0x0193, 0x087B)
    ∷ (0x0202, 0x0960)
    ∷ (0x022D, 0x0958)
    ∷ (0x023B, 0x0947)
    ∷ (0x07E4, 0x0945)
    ∷ (0x0811, 0x0367)
    ∷ (0x0815, 0x089F)
    ∷ (0x0817, 0x0946)
    ∷ (0x0819, 0x091B)
    ∷ (0x0835, 0x087D)
    ∷ (0x0838, 0x0875)
    ∷ (0x088D, 0x0899)
    ∷ []

abbrev pub cases_20170524 : Cases
cases_20170524 =
    (0x0064, 0x091E)
    ∷ (0x0072, 0x0873)
    ∷ (0x007E, 0x0860)
    ∷ (0x0085, 0x089C)
    ∷ (0x0089, 0x085E)
    ∷ (0x0094, 0x095A)
    ∷ (0x009B, 0x0934)
    ∷ (0x009F, 0x0864)
    ∷ (0x00A2, 0x0802)
    ∷ (0x00F3, 0x0868)
    ∷ (0x00F5, 0x0894)
    ∷ (0x0113, 0x088D)
    ∷ (0x0116, 0x0946)
    ∷ (0x0190, 0x0925)
    ∷ (0x0193, 0x0968)
    ∷ (0x0202, 0x0967)
    ∷ (0x022D, 0x086D)
    ∷ (0x023B, 0x0368)
    ∷ (0x07E4, 0x0923)
    ∷ (0x0802, 0x095B)
    ∷ (0x0811, 0x087D)
    ∷ (0x0815, 0x0964)
    ∷ (0x0817, 0x085F)
    ∷ (0x0819, 0x0882)
    ∷ (0x0835, 0x0866)
    ∷ (0x0838, 0x0874)
    ∷ (0x088D, 0x0364)
    ∷ []

abbrev pub cases_20170531 : Cases
cases_20170531 =
    (0x0064, 0x085B)
    ∷ (0x0072, 0x0894)
    ∷ (0x007E, 0x0819)
    ∷ (0x0085, 0x07E4)
    ∷ (0x0089, 0x087B)
    ∷ (0x0094, 0x092D)
    ∷ (0x009B, 0x0361)
    ∷ (0x009F, 0x0963)
    ∷ (0x00A2, 0x088D)
    ∷ (0x00F3, 0x08AD)
    ∷ (0x00F5, 0x0933)
    ∷ (0x0113, 0x0369)
    ∷ (0x0116, 0x0875)
    ∷ (0x0190, 0x08AC)
    ∷ (0x0193, 0x085F)
    ∷ (0x0202, 0x0861)
    ∷ (0x022D, 0x089C)
    ∷ (0x023B, 0x089A)
    ∷ (0x07E4, 0x0885)
    ∷ (0x0802, 0x0940)
    ∷ (0x0811, 0x088B)
    ∷ (0x0815, 0x0873)
    ∷ (0x0817, 0x0945)
    ∷ (0x0819, 0x07EC)
    ∷ (0x0835, 0x0968)
    ∷ (0x0838, 0x08A2)
    ∷ (0x088D, 0x0878)
    ∷ []

abbrev pub cases_20170607 : Cases
cases_20170607 =
    (0x0064, 0x0873)
    ∷ (0x0072, 0x0871)
    ∷ (0x007E, 0x07E4)
    ∷ (0x0085, 0x0934)
    ∷ (0x0089, 0x0938)
    ∷ (0x0094, 0x0862)
    ∷ (0x009B, 0x085A)
    ∷ (0x009F, 0x0897)
    ∷ (0x00A2, 0x0864)
    ∷ (0x00F3, 0x089D)
    ∷ (0x00F5, 0x088A)
    ∷ (0x0113, 0x08A9)
    ∷ (0x0116, 0x0927)
    ∷ (0x0190, 0x08AB)
    ∷ (0x0193, 0x0944)
    ∷ (0x0202, 0x0885)
    ∷ (0x022D, 0x0942)
    ∷ (0x023B, 0x0364)
    ∷ (0x07E4, 0x0361)
    ∷ (0x0802, 0x0918)
    ∷ (0x0811, 0x0949)
    ∷ (0x0815, 0x093D)
    ∷ (0x0817, 0x0863)
    ∷ (0x0819, 0x0919)
    ∷ (0x0835, 0x085E)
    ∷ (0x0838, 0x0917)
    ∷ (0x088D, 0x0925)
    ∷ []

abbrev pub cases_20170614 : Cases
cases_20170614 =
    (0x0064, 0x0865)
    ∷ (0x0072, 0x0944)
    ∷ (0x007E, 0x0866)
    ∷ (0x0085, 0x0361)
    ∷ (0x0089, 0x083C)
    ∷ (0x0094, 0x0936)
    ∷ (0x009B, 0x087E)
    ∷ (0x009F, 0x08AD)
    ∷ (0x00A2, 0x0367)
    ∷ (0x00F3, 0x0879)
    ∷ (0x00F5, 0x023B)
    ∷ (0x0113, 0x091B)
    ∷ (0x0116, 0x0838)
    ∷ (0x0190, 0x0889)
    ∷ (0x0193, 0x087D)
    ∷ (0x0202, 0x0867)
    ∷ (0x022D, 0x0364)
    ∷ (0x023B, 0x0437)
    ∷ (0x07E4, 0x089D)
    ∷ (0x0802, 0x0877)
    ∷ (0x0811, 0x08A2)
    ∷ (0x0815, 0x086B)
    ∷ (0x0817, 0x0860)
    ∷ (0x0819, 0x092F)
    ∷ (0x0835, 0x086C)
    ∷ (0x0838, 0x0928)
    ∷ (0x088D, 0x0899)
    ∷ []

abbrev pub cases_20170621 : Cases
cases_20170621 =
    (0x0064, 0x0956)
    ∷ (0x0072, 0x0961)
    ∷ (0x007E, 0x035F)
    ∷ (0x0085, 0x0437)
    ∷ (0x0089, 0x0369)
    ∷ (0x0094, 0x096A)
    ∷ (0x009B, 0x085D)
    ∷ (0x009F, 0x0361)
    ∷ (0x00A2, 0x087D)
    ∷ (0x00F3, 0x095C)
    ∷ (0x00F5, 0x0889)
    ∷ (0x0113, 0x083C)
    ∷ (0x0116, 0x0438)
    ∷ (0x0190, 0x0802)
    ∷ (0x0193, 0x0368)
    ∷ (0x0202, 0x07E4)
    ∷ (0x022D, 0x08A8)
    ∷ (0x023B, 0x0957)
    ∷ (0x07E4, 0x0365)
    ∷ (0x0802, 0x0366)
    ∷ (0x0811, 0x0815)
    ∷ (0x0815, 0x0817)
    ∷ (0x0817, 0x0360)
    ∷ (0x0819, 0x0811)
    ∷ (0x0835, 0x0819)
    ∷ (0x0838, 0x0835)
    ∷ (0x088D, 0x0885)
    ∷ []

abbrev pub versions_since_20170517 : List (ℕ × Cases)
versions_since_20170517 =
    (20170517, cases_20170517)
    ∷ (20170524, cases_20170524)
    ∷ (20170531, cases_20170531)
    ∷ (20170607, cases_20170607)
    ∷ (20170614, cases_20170614)
    ∷ (20170621, cases_20170621)
    ∷ []
