-- ===== src/Encode/Shuffle/Since20130618.antt =====
-- pkg/encode/shuffle_map.go, lines 334 to 674: cases of `shuffledCtoSID`.
use rathena_client.Shared.{ℕ, List, [], ◌∷◌}
use rathena_client.Encode.Cases.{Cases}

abbrev pub cases_20130618 : Cases
cases_20130618 =
    (0x0064, 0x0878)
    ∷ (0x0072, 0x095B)
    ∷ (0x007E, 0x0930)
    ∷ (0x0085, 0x088E)
    ∷ (0x0089, 0x0889)
    ∷ (0x0094, 0x0944)
    ∷ (0x009B, 0x08A6)
    ∷ (0x009F, 0x0962)
    ∷ (0x00A2, 0x0917)
    ∷ (0x00F3, 0x0885)
    ∷ (0x00F5, 0x0936)
    ∷ (0x0113, 0x0951)
    ∷ (0x0116, 0x096A)
    ∷ (0x0190, 0x094F)
    ∷ (0x0193, 0x0945)
    ∷ (0x0202, 0x0953)
    ∷ (0x022D, 0x02C4)
    ∷ (0x023B, 0x0864)
    ∷ (0x07E4, 0x0942)
    ∷ (0x0802, 0x08A7)
    ∷ (0x0811, 0x0932)
    ∷ (0x0815, 0x085A)
    ∷ (0x0817, 0x0862)
    ∷ (0x0819, 0x0891)
    ∷ (0x0835, 0x0281)
    ∷ (0x0838, 0x0363)
    ∷ (0x088D, 0x0887)
    ∷ []

abbrev pub cases_20130626 : Cases
cases_20130626 =
    (0x0064, 0x0860)
    ∷ (0x0072, 0x088C)
    ∷ (0x007E, 0x035F)
    ∷ (0x0085, 0x0437)
    ∷ (0x0089, 0x0369)
    ∷ (0x0094, 0x096A)
    ∷ (0x009B, 0x094D)
    ∷ (0x009F, 0x088B)
    ∷ (0x00A2, 0x0952)
    ∷ (0x00F3, 0x0921)
    ∷ (0x00F5, 0x0817)
    ∷ (0x0113, 0x083C)
    ∷ (0x0116, 0x0438)
    ∷ (0x0190, 0x0366)
    ∷ (0x0193, 0x0368)
    ∷ (0x0202, 0x08AB)
    ∷ (0x022D, 0x0960)
    ∷ (0x023B, 0x0930)
    ∷ (0x07E4, 0x08A5)
    ∷ (0x0802, 0x0894)
    ∷ (0x0811, 0x0815)
    ∷ (0x0815, 0x0365)
    ∷ (0x0817, 0x0360)
    ∷ (0x0819, 0x0811)
    ∷ (0x0835, 0x0819)
    ∷ (0x0838, 0x0835)
    ∷ (0x088D, 0x0895)
    ∷ []

abbrev pub cases_20130703 : Cases
cases_20130703 =
    (0x0064, 0x0363)
    ∷ (0x0072, 0x022D)
    ∷ (0x007E, 0x035F)
    ∷ (0x0085, 0x0437)
    ∷ (0x0089, 0x0369)
    ∷ (0x0094, 0x096A)
    ∷ (0x009B, 0x0930)
    ∷ (0x009F, 0x07E4)
    ∷ (0x00A2, 0x0362)
    ∷ (0x00F3, 0x07EC)
    ∷ (0x00F5, 0x0364)
    ∷ (0x0113, 0x083C)
    ∷ (0x0116, 0x0438)
    ∷ (0x0190, 0x0366)
    ∷ (0x0193, 0x0368)
    ∷ (0x0202, 0x0360)
    ∷ (0x022D, 0x094A)
    ∷ (0x023B, 0x0873)
    ∷ (0x07E4, 0x0281)
    ∷ (0x0802, 0x0365)
    ∷ (0x0811, 0x0815)
    ∷ (0x0815, 0x0817)
    ∷ (0x0817, 0x0202)
    ∷ (0x0819, 0x0811)
    ∷ (0x0835, 0x0819)
    ∷ (0x0838, 0x0835)
    ∷ (0x088D, 0x0802)
    ∷ []

abbrev pub cases_20130710 : Cases
cases_20130710 =
    (0x0064, 0x0363)
    ∷ (0x0072, 0x022D)
    ∷ (0x007E, 0x035F)
    ∷ (0x0085, 0x0437)
    ∷ (0x0089, 0x0369)
    ∷ (0x0094, 0x096A)
    ∷ (0x009B, 0x0202)
    ∷ (0x009F, 0x07E4)
    ∷ (0x00A2, 0x0362)
    ∷ (0x00F3, 0x07EC)
    ∷ (0x00F5, 0x0364)
    ∷ (0x0113, 0x083C)
    ∷ (0x0116, 0x0438)
    ∷ (0x0190, 0x0366)
    ∷ (0x0193, 0x0368)
    ∷ (0x0202, 0x023B)
    ∷ (0x022D, 0x0361)
    ∷ (0x023B, 0x0880)
    ∷ (0x07E4, 0x0281)
    ∷ (0x0802, 0x0365)
    ∷ (0x0811, 0x0815)
    ∷ (0x0815, 0x0817)
    ∷ (0x0817, 0x0360)
    ∷ (0x0819, 0x0811)
    ∷ (0x0835, 0x0819)
    ∷ (0x0838, 0x0835)
    ∷ (0x088D, 0x0802)
    ∷ []

abbrev pub cases_20130717 : Cases
cases_20130717 =
    (0x0064, 0x086C)
    ∷ (0x0072, 0x091D)
    ∷ (0x007E, 0x02C4)
    ∷ (0x0085, 0x083C)
    ∷ (0x0089, 0x0918)
    ∷ (0x0094, 0x0958)
    ∷ (0x009B, 0x088C)
    ∷ (0x009F, 0x08A9)
    ∷ (0x00A2, 0x0917)
    ∷ (0x00F3, 0x089B)
    ∷ (0x00F5, 0x0956)
    ∷ (0x0113, 0x091E)
    ∷ (0x0116, 0x0882)
    ∷ (0x0190, 0x0952)
    ∷ (0x0193, 0x0967)
    ∷ (0x0202, 0x0863)
    ∷ (0x022D, 0x088A)
    ∷ (0x023B, 0x095B)
    ∷ (0x07E4, 0x0897)
    ∷ (0x0802, 0x0862)
    ∷ (0x0811, 0x08AA)
    ∷ (0x0815, 0x096A)
    ∷ (0x0817, 0x0898)
    ∷ (0x0819, 0x093B)
    ∷ (0x0835, 0x086B)
    ∷ (0x0838, 0x0819)
    ∷ (0x088D, 0x092F)
    ∷ []

abbrev pub cases_20130807 : Cases
cases_20130807 =
    (0x0064, 0x0363)
    ∷ (0x0072, 0x022D)
    ∷ (0x007E, 0x035F)
    ∷ (0x0085, 0x0437)
    ∷ (0x0089, 0x0369)
    ∷ (0x0094, 0x096A)
    ∷ (0x009B, 0x0202)
    ∷ (0x009F, 0x07E4)
    ∷ (0x00A2, 0x0362)
    ∷ (0x00F3, 0x07EC)
    ∷ (0x00F5, 0x0364)
    ∷ (0x0113, 0x083C)
    ∷ (0x0116, 0x0438)
    ∷ (0x0190, 0x0366)
    ∷ (0x0193, 0x0368)
    ∷ (0x0202, 0x023B)
    ∷ (0x022D, 0x0361)
    ∷ (0x023B, 0x0887)
    ∷ (0x07E4, 0x0281)
    ∷ (0x0802, 0x0365)
    ∷ (0x0811, 0x0815)
    ∷ (0x0815, 0x0817)
    ∷ (0x0817, 0x0360)
    ∷ (0x0819, 0x0811)
    ∷ (0x0835, 0x0819)
    ∷ (0x0838, 0x0835)
    ∷ (0x088D, 0x0802)
    ∷ []

abbrev pub versions_since_20130618 : List (ℕ × Cases)
versions_since_20130618 =
    (20130618, cases_20130618)
    ∷ (20130626, cases_20130626)
    ∷ (20130703, cases_20130703)
    ∷ (20130710, cases_20130710)
    ∷ (20130717, cases_20130717)
    ∷ (20130807, cases_20130807)
    ∷ []
