-- ===== src/Decode/Characters/Tests.antt =====
-- A character list, and its theorem at a concrete input.
use rathena_client.Shared.{
  ℕ, ◌/◌, ◌≡◌, refl, some, List, [], ◌∷◌, ◌++◌, map, length, replicate, Bytes, Option,
}
use rathena_client.Decode.Characters.{
  CharacterInfoEntry, char_info_size, decode_character_info_list, le_i32, le_i16,
}
use rathena_client.Decode.Characters.Entries.{EntriesAt, decode_character_info_list-Total}

-- Two entries of 112 bytes and 9 bytes of a third.
abbrev two_characters : Bytes
two_characters =
    (7 ∷ 1 ∷ replicate 74 0)
    ++ (99 ∷ 0 ∷ 65 ∷ replicate 29 0)
    ++ (3 ∷ replicate 3 0)
    ++ (8 ∷ 1 ∷ replicate 106 0)
    ++ (4 ∷ replicate 3 0)
    ++ replicate 9 1

abbrev summary : List CharacterInfoEntry → List (ℕ × Bytes × ℕ)
summary entries = map (λ c. (c.gid, c.name, c.char_num)) entries

abbrev summarized : Option (List CharacterInfoEntry) → List (ℕ × Bytes × ℕ)
summarized (some entries) = summary entries
summarized _ = []

two_found :
    summarized (decode_character_info_list two_characters 20100000)
    ≡ (263, 65 ∷ [], 3) ∷ (264, [], 4) ∷ []
unfolding decode_character_info_list le_i32 le_i16
two_found = refl

decode_character_info_list-Total_example :
    (entries : List CharacterInfoEntry) × (decode_character_info_list two_characters 20100000
      ≡ some entries)
    × (length entries ≡ length two_characters / char_info_size 20100000)
    × EntriesAt two_characters 20100000 0 entries
decode_character_info_list-Total_example = decode_character_info_list-Total two_characters 20100000
