-- ===== src/Session/Lengths/Laws.antt =====
-- What the framing engine needs of the tables, at every packet version.
use rathena_client.Shared.{
  ℕ, zero, suc, ◌≤◌, ◌≡◌, ◌≢◌, ◌⊎◌, refl, arith, Bool, true, false, ◌&&◌, ◌||◌, List, [], ◌∷◌, leb,
  ltb, ◌==◌, if◌then◌else◌, ℤ, pos, negsuc, all, Bool-cases, inl, inr,
}
use rathena_client.Session.Core.Framing.{Fits, NoneBelow}
use rathena_client.Session.Lengths.{
  Table, Block, assign, assign_all, populate, no_lengths, login_blocks, char_blocks, map_blocks,
  populate_login_lengths, populate_char_lengths, populate_map_lengths,
}
use rathena_client.Session.Lengths.Overrides.{apply_map_length_overrides}

-- An entry is unknown, variable, or a length from 2, the size of the packet id, to 4096.
abbrev pub IsLength : ℤ → Type 0
IsLength (pos n) = (n ≡ 0) ⊎ ((2 ≤ n) × (n ≤ 4096))
IsLength (negsuc zero) = Unit
IsLength (negsuc (suc n)) = ⊥

abbrev is_length : ℤ → Bool
is_length (pos n) = n == 0 || (leb 2 n && leb n 4096)
is_length (negsuc zero) = true
is_length (negsuc (suc n)) = false

is_length→IsLength : (z : ℤ) → is_length z ≡ true → IsLength z
is_length→IsLength (pos n) h = ground arith
is_length→IsLength (negsuc zero) h = tt
is_length→IsLength (negsuc (suc n)) h = cc

abbrev entries_ok : List (ℕ × ℤ) → Bool
entries_ok = all (λ entry. is_length entry.1)

pub assign-IsLength :
    (t : Table) (id : ℕ) (z : ℤ)
    → ((i : ℕ) → IsLength (t i))
    → IsLength z
    → (i : ℕ) → IsLength (assign t id z i)
assign-IsLength t id z h k i = elim (Bool-cases (i == id)) [
  | inl same ↦ rw same k
  | inr other ↦ rw other (h i)
]

assign_all-IsLength :
    (entries : List (ℕ × ℤ)) (t : Table)
    → entries_ok entries ≡ true
    → ((i : ℕ) → IsLength (t i))
    → (i : ℕ) → IsLength (assign_all entries t i)
unfolding assign_all
assign_all-IsLength [] t ok h = h
assign_all-IsLength ((id, z) ∷ rest) t ok h =
    assign_all-IsLength rest (assign t id z) (ground arith)
      (assign-IsLength t id z h (is_length→IsLength z (ground arith)))

populate-IsLength :
    (blocks : List Block) (pv : ℕ) (t : Table)
    → all (λ block. entries_ok block.1) blocks ≡ true
    → ((i : ℕ) → IsLength (t i))
    → (i : ℕ) → IsLength (populate blocks pv t i)
unfolding populate
populate-IsLength [] pv t ok h = h
populate-IsLength ((since, entries) ∷ rest) pv t ok h = elim (Bool-cases (leb since pv)) [
  | inl applies ↦ rw applies (
      populate-IsLength rest pv (assign_all entries t) (ground arith)
        (assign_all-IsLength entries t (ground arith) h))
  | inr skips ↦ rw skips (populate-IsLength rest pv t (ground arith) h)
]

no_lengths-IsLength : (i : ℕ) → IsLength (no_lengths i)
no_lengths-IsLength i = inl refl

pub populate_login_lengths-IsLength : (pv i : ℕ) → IsLength (populate_login_lengths pv no_lengths i)
unfolding populate_login_lengths
populate_login_lengths-IsLength pv =
    populate-IsLength login_blocks pv no_lengths refl no_lengths-IsLength

pub populate_char_lengths-IsLength : (pv i : ℕ) → IsLength (populate_char_lengths pv no_lengths i)
unfolding populate_char_lengths
populate_char_lengths-IsLength pv =
    populate-IsLength char_blocks pv no_lengths refl no_lengths-IsLength

pub populate_map_lengths-IsLength : (pv i : ℕ) → IsLength (populate_map_lengths pv no_lengths i)
unfolding populate_map_lengths
populate_map_lengths-IsLength pv =
    populate-IsLength map_blocks pv no_lengths refl no_lengths-IsLength

pub if-IsLength :
    (b : Bool) (t u : Table)
    → ((i : ℕ) → IsLength (t i))
    → ((i : ℕ) → IsLength (u i))
    → (i : ℕ) → IsLength ((if b then t else u) i)
if-IsLength true t u h k = h
if-IsLength false t u h k = k

apply_map_length_overrides-IsLength :
    (pv : ℕ) (t : Table)
    → ((i : ℕ) → IsLength (t i))
    → (i : ℕ) → IsLength (apply_map_length_overrides pv t i)
unfolding apply_map_length_overrides
apply_map_length_overrides-IsLength pv t h =
    let put : (n : ℕ) (u : Table) (id : ℕ)
        → 2 ≤ n
        → n ≤ 4096
        → ((i : ℕ) → IsLength (u i))
        → (i : ℕ) → IsLength (assign u id (pos n) i) =
      λ n u id lo hi k. assign-IsLength u id (pos n) k (inr (lo, hi)) in
    let t1 = if pv == 20130000 then assign t 0x009E (pos 19) else t in
    let h1 : (i : ℕ) → IsLength (t1 i) =
      if-IsLength (pv == 20130000) (assign t 0x009E (pos 19)) t
        (put 19 t 0x009E (omega arith) (omega arith) h) h in
    let b2 = leb 20110718 pv && ltb pv 20121212 in
    let t2 = if b2 then assign t1 0x08C7 (pos 19) else t1 in
    let h2 : (i : ℕ) → IsLength (t2 i) =
      if-IsLength b2 (assign t1 0x08C7 (pos 19)) t1
        (put 19 t1 0x08C7 (omega arith) (omega arith) h1) h1 in
    let t3 = if leb 20181121 pv then assign t2 0x0ADD (pos 24) else t2 in
    let h3 : (i : ℕ) → IsLength (t3 i) =
      if-IsLength (leb 20181121 pv) (assign t2 0x0ADD (pos 24)) t2
        (put 24 t2 0x0ADD (omega arith) (omega arith) h2) h2 in
    put 30 t3 0x00FD (omega arith) (omega arith) h3

-- The table of a map session.
abbrev pub map_table : ℕ → Table
map_table pv = apply_map_length_overrides pv (populate_map_lengths pv no_lengths)

pub map_table-IsLength : (pv i : ℕ) → IsLength (map_table pv i)
map_table-IsLength pv =
    apply_map_length_overrides-IsLength pv (populate_map_lengths pv no_lengths)
      (populate_map_lengths-IsLength pv)

pub NoneBelow-of_IsLength : (t : Table) → ((i : ℕ) → IsLength (t i)) → NoneBelow t
NoneBelow-of_IsLength t h id n e = rw e at (h id)

fixed_of_IsLength : (z : ℤ) (n : ℕ) → IsLength z → z ≡ pos n → n ≤ 4096
fixed_of_IsLength (pos m) n h e = ground arith
fixed_of_IsLength (negsuc zero) n h e = cc
fixed_of_IsLength (negsuc (suc m)) n h e = cc

pub Fits-of_IsLength :
    (t : Table) (size : ℕ) → 65535 ≤ size → ((i : ℕ) → IsLength (t i)) → Fits t size
Fits-of_IsLength t size room h = record {
  fixed = λ id n e. omega (arith, fixed_of_IsLength (t id) n (h id) e);
  variable = room;
}

-- From the last version of the blocks on, the table stays the same.
populate-latest :
    (blocks : List Block) (last pv : ℕ) (t : Table)
    → all (λ block. leb block.0 last) blocks ≡ true
    → last ≤ pv
    → populate blocks pv t ≡ populate blocks last t
unfolding populate
populate-latest [] last pv t ok h = refl
populate-latest ((since, entries) ∷ rest) last pv t ok h =
    let now : leb since last ≡ true = ground arith in
    let later : leb since pv ≡ true = ground arith in
    rw (now, later) (populate-latest rest last pv (assign_all entries t) (ground arith) h)

pub populate_char_lengths-latest :
    (pv : ℕ)
    → 20201007 ≤ pv
    → populate_char_lengths pv no_lengths ≡ populate_char_lengths 20201007 no_lengths
unfolding populate_char_lengths
populate_char_lengths-latest pv h = populate-latest char_blocks 20201007 pv no_lengths refl h

IsLength-ne_one : (z : ℤ) → IsLength z → z ≢ pos 1
IsLength-ne_one (pos n) h = λ q. let one : n ≡ 1 = cc in omega (arith, one, h)
IsLength-ne_one (negsuc zero) h = λ q. cc
IsLength-ne_one (negsuc (suc n)) h = λ q. cc

pub no_ones-of_IsLength : (t : Table) → ((i : ℕ) → IsLength (t i)) → (i : ℕ) → t i ≢ pos 1
no_ones-of_IsLength t h i = IsLength-ne_one (t i) (h i)
