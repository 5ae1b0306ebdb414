-- ===== src/Session/Servers/Keys20161221.antt =====
-- pkg/session/obfuscation_keys.go, lines 293 to 410: cases of `obfuscationKeysFor`.
use rathena_client.Shared.{ℕ, List, [], ◌∷◌}

abbrev pub keys_since_20161221 : List (ℕ × ℕ × ℕ × ℕ)
keys_since_20161221 =
    (20161221, 0x69CB4F56, 0x793C165E, 0x673A2354)
    ∷ (20161228, 0x09366971, 0x005672F1, 0x6F3712AE)
    ∷ (20170104, 0x44416BC3, 0x6C8D1817, 0x072D75D5)
    ∷ (20170111, 0x19B637F9, 0x0E9C378A, 0x41673186)
    ∷ (20170118, 0x456B36EB, 0x15EB34B0, 0x18C42E43)
    ∷ (20170125, 0x066E04FE, 0x3004224A, 0x04FF0458)
    ∷ (20170201, 0x2011228E, 0x00453005, 0x628E7F0A)
    ∷ (20170208, 0x6A764E5F, 0x0609570D, 0x28AE07FA)
    ∷ (20170215, 0x50C01315, 0x51012A42, 0x679E16C3)
    ∷ (20170222, 0x5A242F2F, 0x6C556187, 0x73C022CB)
    ∷ (20170228, 0x771D4F2B, 0x20EF1F4C, 0x0D5135C8)
    ∷ (20170308, 0x653470A9, 0x6B316A71, 0x5C712C71)
    ∷ (20170315, 0x399A0856, 0x56642A94, 0x7F77157D)
    ∷ (20170322, 0x2050167B, 0x01731233, 0x40337033)
    ∷ (20170329, 0x18B31A80, 0x1B0B1D56, 0x16857D6A)
    ∷ (20170405, 0x1FDE7DAC, 0x2F9F5B63, 0x3F2062AF)
    ∷ (20170412, 0x39223393, 0x5C847779, 0x10217985)
    ∷ (20170419, 0x1F8F4B3F, 0x2E481F03, 0x39ED4178)
    ∷ (20170426, 0x167642A7, 0x1DEC3D26, 0x6D046D4C)
    ∷ (20170502, 0x05224194, 0x466D4204, 0x31F02EE0)
    ∷ (20170517, 0x2CC4749A, 0x1FA954DC, 0x72276857)
    ∷ (20170524, 0x0B4E03A6, 0x2B93427C, 0x583D4477)
    ∷ (20170531, 0x03FA5A97, 0x20B802D5, 0x339F1977)
    ∷ (20170607, 0x50564ACD, 0x79CA4E15, 0x405F4894)
    ∷ (20170614, 0x5ED10A48, 0x667F4301, 0x2E5D761F)
    ∷ (20170621, 0x155F34EC, 0x2D943FA9, 0x3D9170EB)
    ∷ (20170628, 0x04691C86, 0x43C210E2, 0x2FE277E2)
    ∷ (20170705, 0x7EB000AE, 0x02FB1DBC, 0x5CB131E6)
    ∷ (20170712, 0x2C3C202C, 0x3F2C2F2C, 0x2F2C2F2C)
    ∷ (20170719, 0x46465C88, 0x10116F66, 0x200866F9)
    ∷ (20170726, 0x102F23DB, 0x7E767751, 0x3BC172EF)
    ∷ (20170801, 0x26B52A7F, 0x5377619D, 0x4F580AC4)
    ∷ (20170816, 0x78914673, 0x3F8B7634, 0x55B814BC)
    ∷ (20170823, 0x22677205, 0x393D1002, 0x58DC6BB4)
    ∷ (20170830, 0x1D49592B, 0x00970C17, 0x1E640103)
    ∷ (20170906, 0x7DEF7677, 0x351F36E6, 0x52303485)
    ∷ (20170913, 0x7A645935, 0x1DA05062, 0x5A7A4C43)
    ∷ (20170920, 0x53024DA5, 0x04EC212D, 0x0BF87CD4)
    ∷ (20170927, 0x15624100, 0x0CE1463E, 0x0E5D6534)
    ∷ (20171002, 0x15E1716C, 0x4E765B63, 0x357D2370)
    ∷ (20171011, 0x4F121B3E, 0x12670E17, 0x19896C11)
    ∷ (20171018, 0x2CAA109C, 0x158C1EC2, 0x7A5E58F3)
    ∷ (20171025, 0x165C565C, 0x565C565C, 0x565C565C)
    ∷ (20171101, 0x7056317F, 0x7EEE0589, 0x02672373)
    ∷ (20171108, 0x03695685, 0x7FAC12CE, 0x182F7A7B)
    ∷ (20171115, 0x23B97A3B, 0x34610993, 0x2892070E)
    ∷ (20171122, 0x03221B0E, 0x73AB7A5F, 0x0DD80FD4)
    ∷ (20171129, 0x581B77A7, 0x62F74D7A, 0x4F102173)
    ∷ (20171206, 0x39D54BD3, 0x577A0C21, 0x4C1C316E)
    ∷ (20171213, 0x44E41107, 0x3B126921, 0x00E06AAC)
    ∷ (20171220, 0x6EFE009A, 0x440B7BFA, 0x052339C8)
    ∷ (20171227, 0x257A2F6E, 0x51140EEE, 0x00FA4452)
    ∷ (20180103, 0x348F4BD7, 0x7A425A54, 0x628F589A)
    ∷ (20180117, 0x21F477F4, 0x37F437F4, 0x37F437F4)
    ∷ (20180124, 0x7EAA1CE0, 0x415D1CFD, 0x4C8F19FA)
    ∷ (20180207, 0x45AA1B44, 0x20E716B7, 0x5388105C)
    ∷ (20180213, 0x189D69B2, 0x43B85EAD, 0x2B7A687E)
    ∷ (20180221, 0x6E2F6233, 0x193B0A66, 0x0D1D2CA5)
    ∷ (20180307, 0x47DA10EB, 0x4B922CCF, 0x765C5055)
    ∷ []
