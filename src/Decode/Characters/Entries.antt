-- ===== src/Decode/Characters/Entries.antt =====
-- The entries of the character list: how many there are, and where they stand.
use rathena_client.Shared.{
  ℕ, zero, suc, ◌+◌, ◌*◌, ◌/◌, ◌≤◌, ◌≡◌, refl, ap, arith, true, false, some, List, [], ◌∷◌, ◌==◌,
  length, length-drop, drop, leb, if◌then◌else◌, Bytes,
}
use native.Mathlib.Nat.{add-zero, suc-mul, mul-le-mul_right, div-mul-le_self}
use rathena_client.Decode.Characters.{
  CharacterInfoEntry, no_character, char_info_size, decode_character_info_entry, decode_entries,
  decode_character_info_list,
}
use rathena_client.Decode.Characters.Total.{decode_entry-Total}

mul_room : (n i s len : ℕ) → (suc n + i) * s ≤ len → i * s + s ≤ len
mul_room n i s len h =
    omega (arith, suc-mul i s, mul-le-mul_right {m = suc i} {n = suc n + i} s (omega arith), h)

shift : (n i : ℕ) → suc n + i ≡ n + (i + 1)
shift n i = omega arith

-- The entries from `i` on are those at `i * char_info_size pv`, `(i + 1) * char_info_size pv`, ...
abbrev pub EntriesAt : Bytes → ℕ → ℕ → List CharacterInfoEntry → Type 0
EntriesAt body pv i [] = Unit
EntriesAt body pv i (entry ∷ entries) =
    (decode_character_info_entry no_character (drop (i * char_info_size pv) body) pv
      ≡ some (entry, char_info_size pv))
    × EntriesAt body pv (i + 1) entries

decode_entries-Total :
    (n i : ℕ) (body : Bytes) (pv : ℕ)
    → (n + i) * char_info_size pv ≤ length body
    → (entries : List CharacterInfoEntry) × (decode_entries n i body pv ≡ some entries)
      × (length entries ≡ n)
      × EntriesAt body pv i entries
unfolding decode_entries
decode_entries-Total zero i body pv h = ([], refl, refl, tt)
decode_entries-Total (suc n) i body pv h =
    let size = char_info_size pv in
    let front : i * size + size ≤ length body = mul_room n i size (length body) h in
    let inside : leb (i * size) (length body) ≡ true = ground arith in
    let (entry, one) =
      decode_entry-Total no_character (drop (i * size) body) pv
        (omega (arith, length-drop (i * size) body, front)) in
    let (entries, more, count, at) = decode_entries-Total n (i + 1) body pv (rw (shift n i) at h) in
    (entry ∷ entries, rw (inside, one, more) refl, ap suc count, (one, at))

-- The branch without entries gives what the loop gives.
list_branch :
    (n : ℕ) (body : Bytes) (pv : ℕ) (entries : List CharacterInfoEntry)
    → decode_entries n 0 body pv ≡ some entries
    → length entries ≡ n
    → (if n == 0 then some [] else decode_entries n 0 body pv) ≡ some entries
unfolding decode_entries
list_branch zero body pv entries found count = found
list_branch (suc n) body pv entries found count =
    let some_left : (suc n == 0) ≡ false = ground arith in rw some_left found

-- For all bytes and packet versions, the decoder of the character list does not read out of range,
-- it returns as many entries as fit in the bytes, and each is the entry that stands at its place,
-- all of whose bytes are consumed.
pub decode_character_info_list-Total :
    (body : Bytes) (pv : ℕ)
    → (entries : List CharacterInfoEntry) × (decode_character_info_list body pv ≡ some entries)
      × (length entries ≡ length body / char_info_size pv)
      × EntriesAt body pv 0 entries
unfolding decode_character_info_list
decode_character_info_list-Total body pv =
    let n = length body / char_info_size pv in
    let fits : (n + 0) * char_info_size pv ≤ length body =
      rw (add-zero n) (div-mul-le_self (length body) (char_info_size pv)) in
    let (entries, found, count, at) = decode_entries-Total n 0 body pv fits in
    (entries, list_branch n body pv entries found count, count, at)
