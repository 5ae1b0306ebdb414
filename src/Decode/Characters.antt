-- ===== src/Decode/Characters.antt =====
-- pkg/decode/character_info.go and helpers.go, pkg/events/character_info_entry.go: the character
-- list of the char server. A string is the list of its bytes.
pub mod Total
pub mod Entries
mod Tests
use rathena_client.Shared.{
  ℕ, zero, suc, ◌+◌, ◌-◌, ◌*◌, ◌/◌, ◌^◌, ◌==◌, Option, none, some, List, [], ◌∷◌, length, get_elem?,
  leb, ltb, if◌then◌else◌, ◌>>=◌, Bytes, slice?, suffix?, le_u16?, le_u32?, until_null, ℤ, pos,
  negsuc,
}

-- The conversion of `v`, of `w` bits, to the signed type of that width.
abbrev pub signed : ℕ → ℕ → ℤ
signed w v = if ltb v (2 ^ (w - 1)) then pos v else negsuc (2 ^ w - 1 - v)

unfoldable pub le_i16 : Bytes → ℕ → Option ℤ
le_i16 data_ off = do v ← le_u16? data_ off; some (signed 16 v)

unfoldable pub le_i32 : Bytes → ℕ → Option ℤ
le_i32 data_ off = do v ← le_u32? data_ off; some (signed 32 v)

unfoldable pub le_i64 : Bytes → ℕ → Option ℤ
le_i64 data_ off = do
  lo ← le_u32? data_ off
  hi ← le_u32? data_ (off + 4)
  some (signed 64 (lo + hi * 2 ^ 32))

unfoldable pub null_term_string : Bytes → Bytes
null_term_string b = until_null b

pub record CharacterInfoEntry : Type 0 where
  pub gid : ℕ
  pub exp : ℤ
  pub money : ℤ
  pub job_exp : ℤ
  pub hp : ℤ
  pub max_hp : ℤ
  pub sp : ℤ
  pub max_sp : ℤ
  pub job_level : ℤ
  pub speed : ℤ
  pub job : ℤ
  pub level : ℤ
  pub name : Bytes
  pub map_name : Bytes
  pub char_num : ℕ
  pub sex : ℕ

-- The zero value.
abbrev pub no_character : CharacterInfoEntry
no_character = record {
  gid = 0;
  exp = pos 0;
  money = pos 0;
  job_exp = pos 0;
  hp = pos 0;
  max_hp = pos 0;
  sp = pos 0;
  max_sp = pos 0;
  job_level = pos 0;
  speed = pos 0;
  job = pos 0;
  level = pos 0;
  name = [];
  map_name = [];
  char_num = 0;
  sex = 0;
}

unfoldable pub char_info_size : ℕ → ℕ
char_info_size pv =
    if leb 20220330 pv
    then 175
    else if leb 20170830 pv
    then 155
    else if leb 20141022 pv
    then 147
    else if leb 20141016 pv
    then 145
    else if leb 20111025 pv
    then 144
    else if leb 20110928 pv
    then 140
    else if leb 20110111 pv
    then 136
    else if leb 20100803 pv
    then 132
    else if leb 20100720 pv
    then 128
    else 112

-- The experience, money and job level, with fields of 8 bytes and of 4.
unfoldable pub wide_exp : Bytes → CharacterInfoEntry → Option CharacterInfoEntry
wide_exp b dst = do
  exp ← le_i64 b 4
  money ← le_i32 b 12
  job_exp ← le_i64 b 16
  job_level ← le_i32 b 24
  some (record dst { exp = exp; money = money; job_exp = job_exp; job_level = job_level })

unfoldable pub narrow_exp : Bytes → CharacterInfoEntry → Option CharacterInfoEntry
narrow_exp b dst = do
  exp ← le_i32 b 4
  money ← le_i32 b 8
  job_exp ← le_i32 b 12
  job_level ← le_i32 b 16
  some (record dst { exp = exp; money = money; job_exp = job_exp; job_level = job_level })

unfoldable pub decode_exp : Bytes → ℕ → CharacterInfoEntry → Option CharacterInfoEntry
unfolding wide_exp narrow_exp
decode_exp b pv dst = if leb 20170830 pv then wide_exp b dst else narrow_exp b dst

-- The points and the speed, with fields of 8 bytes, and with narrower ones from offset `at` on.
unfoldable pub wide_points : Bytes → CharacterInfoEntry → Option CharacterInfoEntry
wide_points b dst = do
  hp ← le_i64 b 50
  max_hp ← le_i64 b 58
  sp ← le_i64 b 66
  max_sp ← le_i64 b 74
  speed ← le_i16 b 82
  some (record dst { hp = hp; max_hp = max_hp; sp = sp; max_sp = max_sp; speed = speed })

unfoldable pub narrow_points : ℕ → Bytes → CharacterInfoEntry → Option CharacterInfoEntry
narrow_points at b dst = do
  hp ← le_i32 b at
  max_hp ← le_i32 b (at + 4)
  sp ← le_i16 b (at + 8)
  max_sp ← le_i16 b (at + 10)
  speed ← le_i16 b (at + 12)
  some (record dst { hp = hp; max_hp = max_hp; sp = sp; max_sp = max_sp; speed = speed })

unfoldable pub decode_points : Bytes → ℕ → CharacterInfoEntry → Option CharacterInfoEntry
unfolding wide_points narrow_points
decode_points b pv dst =
    if leb 20220330 pv
    then wide_points b dst
    else if leb 20170830 pv
    then narrow_points 50 b dst
    else narrow_points 42 b dst

-- The job, the level, the name at `name` up to the slot at `slot`.
unfoldable pub decode_job : ℕ → ℕ → ℕ → ℕ → Bytes → CharacterInfoEntry → Option CharacterInfoEntry
unfolding null_term_string
decode_job job_at level_at name_at slot_at b dst = do
  job ← le_i16 b job_at
  level ← le_i16 b level_at
  name ← slice? b name_at (name_at + 24)
  char_num ← get_elem? b slot_at
  some (record dst { job = job; level = level; name = null_term_string name; char_num = char_num })

unfoldable pub decode_map_name : ℕ → Bytes → CharacterInfoEntry → Option CharacterInfoEntry
unfolding null_term_string
decode_map_name at b dst = do
  map_name ← slice? b at (at + 16)
  some (record dst { map_name = null_term_string map_name })

unfoldable pub decode_sex : ℕ → Bytes → CharacterInfoEntry → Option CharacterInfoEntry
decode_sex at b dst = do sex ← get_elem? b at; some (record dst { sex = sex })

unfoldable pub decode_look : Bytes → ℕ → CharacterInfoEntry → Option CharacterInfoEntry
unfolding decode_job decode_map_name decode_sex
decode_look b pv dst =
    if leb 20220330 pv
    then (decode_job 84 92 108 138 b dst >>= decode_map_name 142 b) >>= decode_sex 174 b
    else if leb 20170830 pv
    then (decode_job 64 72 88 118 b dst >>= decode_map_name 122 b) >>= decode_sex 154 b
    else if leb 20141022 pv
    then (decode_job 56 64 80 110 b dst >>= decode_map_name 114 b) >>= decode_sex 146 b
    else if leb 20141016 pv
    then (decode_job 56 62 78 108 b dst >>= decode_map_name 112 b) >>= decode_sex 144 b
    else if leb 20100803 pv
    then decode_job 56 62 78 108 b dst >>= decode_map_name 112 b
    else if leb 20100720 pv
    then decode_job 56 62 78 108 b dst >>= decode_map_name 112 b
    else decode_job 56 62 78 108 b dst

-- The entry as it is left, and the bytes consumed.
unfoldable pub decode_character_info_entry :
    CharacterInfoEntry → Bytes → ℕ → Option (CharacterInfoEntry × ℕ)
unfolding char_info_size decode_exp decode_points decode_look
decode_character_info_entry dst b pv =
    if ltb (length b) (char_info_size pv) then some (dst, 0) else do
      gid ← le_u32? b 0
      with_exp ← decode_exp b pv (record dst { gid = gid })
      with_points ← decode_points b pv with_exp
      entry ← decode_look b pv with_points
      some (entry, char_info_size pv)

-- The entries `i`, `i + 1`, ... of the `n` that are left.
unfoldable pub decode_entries : ℕ → ℕ → Bytes → ℕ → Option (List CharacterInfoEntry)
unfolding decode_character_info_entry
decode_entries zero i body pv = some []
decode_entries (suc n) i body pv = do
  b ← suffix? body (i * char_info_size pv)
  entry ← decode_character_info_entry no_character b pv
  entries ← decode_entries n (i + 1) body pv
  some (entry.0 ∷ entries)

-- Go has no value of the list but `nil` where there is no entry.
unfoldable pub decode_character_info_list : Bytes → ℕ → Option (List CharacterInfoEntry)
unfolding decode_entries
decode_character_info_list body pv =
    let n = length body / char_info_size pv in
    if n == 0 then some [] else decode_entries n 0 body pv
