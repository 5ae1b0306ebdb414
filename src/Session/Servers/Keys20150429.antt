-- ===== src/Session/Servers/Keys20150429.antt =====
-- pkg/session/obfuscation_keys.go, lines 153 to 292: cases of `obfuscationKeysFor`.
use rathena_client.Shared.{ℕ, List, [], ◌∷◌}

abbrev pub keys_since_20150429 : List (ℕ × ℕ × ℕ × ℕ)
keys_since_20150429 =
    (20150429, 0x2BF61A71, 0x565D5DDF, 0x0FB90019)
    ∷ (20150507, 0x55B54373, 0x58967821, 0x67F41832)
    ∷ (20150513, 0x62C86D09, 0x75944F17, 0x112C133D)
    ∷ (20150527, 0x35AE7BAE, 0x3BAE3BAE, 0x3BAE3BAE)
    ∷ (20150617, 0x250F7E09, 0x25416076, 0x029A780E)
    ∷ (20150819, 0x1A2400E0, 0x736E5686, 0x10F315D5)
    ∷ (20150826, 0x77883C56, 0x1829359F, 0x0DE635B6)
    ∷ (20150916, 0x17F83A19, 0x116944F4, 0x1CC541E9)
    ∷ (20151001, 0x45B945B9, 0x45B945B9, 0x45B945B9)
    ∷ (20151007, 0x3C6447A8, 0x032170D7, 0x6490476C)
    ∷ (20151014, 0x402728A8, 0x5D0E309F, 0x240018FD)
    ∷ (20151022, 0x0311104D, 0x46C326D6, 0x00E82720)
    ∷ (20151028, 0x45B945B9, 0x45B945B9, 0x45B945B9)
    ∷ (20151029, 0x45B945B9, 0x45B945B9, 0x45B945B9)
    ∷ (20151104, 0x4C17382A, 0x7ED174C9, 0x29961E4F)
    ∷ (20151111, 0x46097C77, 0x5F193871, 0x29140A21)
    ∷ (20151118, 0x734C3241, 0x6E846F34, 0x731C06D6)
    ∷ (20151125, 0x237446C0, 0x5EFB343A, 0x0EDF06C5)
    ∷ (20151202, 0x4EDE52DE, 0x52DE52DE, 0x52DE52DE)
    ∷ (20151209, 0x652C5898, 0x7A351FB3, 0x67EA2886)
    ∷ (20151216, 0x25DD643D, 0x61AC39DE, 0x77A8206D)
    ∷ (20151223, 0x347D68D0, 0x2C705320, 0x7B4A199D)
    ∷ (20160106, 0x40520265, 0x33FE26FC, 0x7136294F)
    ∷ (20160113, 0x18005C4B, 0x19A94A72, 0x73F678EC)
    ∷ (20160120, 0x51495149, 0x51495149, 0x51495149)
    ∷ (20160127, 0x6B1E7146, 0x612C47E6, 0x274E56EE)
    ∷ (20160203, 0x3E1411AF, 0x6C744497, 0x7CFA1BDE)
    ∷ (20160211, 0x613813EA, 0x05251DAB, 0x1FD35E33)
    ∷ (20160217, 0x25895A8E, 0x09421C19, 0x763A2D7A)
    ∷ (20160224, 0x7088019A, 0x13471F02, 0x42356A7D)
    ∷ (20160302, 0x7B4441B9, 0x5BBC63AF, 0x45DA0E71)
    ∷ (20160309, 0x21587520, 0x353A7706, 0x1B722B25)
    ∷ (20160316, 0x62363E36, 0x3E363E36, 0x3E363E36)
    ∷ (20160323, 0x73E35A83, 0x62142FA8, 0x12BA36BD)
    ∷ (20160330, 0x02050940, 0x545336FF, 0x7E7D4902)
    ∷ (20160406, 0x568611EA, 0x32457D8D, 0x2B020477)
    ∷ (20160414, 0x31BD479A, 0x40C61398, 0x397C1A80)
    ∷ (20160420, 0x67D2163A, 0x3068215B, 0x4835474D)
    ∷ (20160427, 0x12DC378E, 0x4E3E7EBE, 0x0ABE2ABE)
    ∷ (20160504, 0x09E0544C, 0x0231251D, 0x2F4E195F)
    ∷ (20160511, 0x3C666FE2, 0x27E84E3E, 0x53E11BA5)
    ∷ (20160518, 0x57DB7CA1, 0x1FEA1629, 0x26DD244D)
    ∷ (20160525, 0x485C45B6, 0x47DC6192, 0x76B34A36)
    ∷ (20160601, 0x3DAD32C4, 0x59F001BE, 0x73F65E56)
    ∷ (20160608, 0x11D74609, 0x77C43E8A, 0x44290F53)
    ∷ (20160615, 0x062C5C26, 0x6CF47E82, 0x4DD53480)
    ∷ (20160622, 0x426548AB, 0x5C0F5DD4, 0x03022710)
    ∷ (20160629, 0x0DF31CCC, 0x54281606, 0x5C4C6855)
    ∷ (20160706, 0x33A766D0, 0x743F04F8, 0x0FA0276C)
    ∷ (20160713, 0x714F2495, 0x7DDC6F32, 0x3FD8533D)
    ∷ (20160720, 0x4F8A19C0, 0x2D8E085C, 0x37BB67D6)
    ∷ (20160727, 0x3C6952AB, 0x26E4077F, 0x37E25DF7)
    ∷ (20160803, 0x67F438C2, 0x512A4EB7, 0x2D353182)
    ∷ (20160810, 0x2F252886, 0x242234A2, 0x48BC5032)
    ∷ (20160831, 0x564E13B0, 0x7F680549, 0x382D273B)
    ∷ (20160907, 0x32E5237D, 0x57BD4DBD, 0x5DBD5DBD)
    ∷ (20160913, 0x7C79748F, 0x1AA03B1D, 0x6EAC4747)
    ∷ (20160921, 0x11CD15CD, 0x15CD15CD, 0x15CD15CD)
    ∷ (20160928, 0x2F8C67F5, 0x22D42C38, 0x57513774)
    ∷ (20161005, 0x5BAE21F8, 0x021E2FFC, 0x3BEB7C31)
    ∷ (20161012, 0x5E2311F2, 0x14FD012C, 0x76EB64F6)
    ∷ (20161019, 0x34882F11, 0x7C870E70, 0x7E61350D)
    ∷ (20161026, 0x2CB86AE6, 0x7D12660E, 0x1B004DEB)
    ∷ (20161102, 0x76725C17, 0x72FE4EC1, 0x07A91BFD)
    ∷ (20161109, 0x0A5277C0, 0x2DB17506, 0x0E8F26DA)
    ∷ (20161116, 0x780C5C3F, 0x15E92272, 0x2BA770C5)
    ∷ (20161123, 0x66FF559F, 0x00D3535B, 0x236246F7)
    ∷ (20161130, 0x2ED80296, 0x0D837373, 0x20266F9A)
    ∷ (20161207, 0x52D267AA, 0x4FE42156, 0x1292153E)
    ∷ (20161214, 0x4DDE217B, 0x07863AE0, 0x5B591656)
    ∷ []
