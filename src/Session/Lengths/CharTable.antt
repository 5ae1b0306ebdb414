-- ===== src/Session/Lengths/CharTable.antt =====
-- The table of a char phase's session: pkg/session/lengths_char.go with the entry that runCharPhase
-- of pkg/session/fsm.go changes.
use rathena_client.Shared.{
  ℕ, ◌≤◌, ◌<◌, ◌≡◌, ◌⊎◌, ◌∙◌, sym, refl, arith, Bool, true, false, ◌||◌, List, [], ◌∷◌, leb, ltb,
  ◌==◌, if◌then◌else◌, ℤ, pos, Bool-cases, inl, inr,
}
use rathena_client.Session.Lengths.{
  Table, Block, assign, assign_all, populate, no_lengths, char_blocks, populate_char_lengths,
}
use rathena_client.Session.Lengths.Laws.{
  IsLength, assign-IsLength, if-IsLength, populate_char_lengths-IsLength,
}

abbrev pub char_table : ℕ → Table
char_table pv =
    let t = populate_char_lengths pv no_lengths in
    if ltb pv 20170315 then assign t 0x0081 (pos 28) else t

pub char_table-IsLength : (pv i : ℕ) → IsLength (char_table pv i)
char_table-IsLength pv =
    let t = populate_char_lengths pv no_lengths in
    let h = populate_char_lengths-IsLength pv in
    if-IsLength (ltb pv 20170315) (assign t 0x0081 (pos 28)) t
      (assign-IsLength t 0x0081 (pos 28) h (inr (omega arith, omega arith))) h

-- Only the blocks that assign an id matter for its entry.
abbrev assigns : ℕ → List (ℕ × ℤ) → Bool
assigns id [] = false
assigns id ((i, z) ∷ rest) = id == i || assigns id rest

abbrev assigning : ℕ → List Block → List Block
assigning id [] = []
assigning id ((since, entries) ∷ rest) =
    let others = assigning id rest in
    if assigns id entries then (since, entries) ∷ others else others

assign_all-congr :
    (entries : List (ℕ × ℤ)) (t u : Table) (id : ℕ)
    → t id ≡ u id
    → assign_all entries t id ≡ assign_all entries u id
unfolding assign_all
assign_all-congr [] t u id h = h
assign_all-congr ((i, z) ∷ rest) t u id h =
    assign_all-congr rest (assign t i z) (assign u i z) id
      (elim (Bool-cases (id == i)) [ inl same ↦ rw same refl | inr other ↦ rw other h ])

assign_all-other :
    (entries : List (ℕ × ℤ)) (t : Table) (id : ℕ)
    → assigns id entries ≡ false
    → assign_all entries t id ≡ t id
unfolding assign_all
assign_all-other [] t id h = refl
assign_all-other ((i, z) ∷ rest) t id h =
    let other : (id == i) ≡ false = ground arith in
    assign_all-other rest (assign t i z) id (ground arith) ∙ (rw other refl)

populate-assigning :
    (blocks : List Block) (pv : ℕ) (t u : Table) (id : ℕ)
    → t id ≡ u id
    → populate blocks pv t id ≡ populate (assigning id blocks) pv u id
unfolding populate
populate-assigning [] pv t u id h = h
populate-assigning ((since, entries) ∷ rest) pv t u id h = elim (Bool-cases (leb since pv)) [
  | inl now ↦ elim (Bool-cases (assigns id entries)) [
    | inl some_of ↦
        let step : populate ((since, entries) ∷ assigning id rest) pv u id
            ≡ populate (assigning id rest) pv (assign_all entries u) id =
          rw (now, populate) refl in
        rw (now, some_of)
          (populate-assigning rest pv (assign_all entries t) (assign_all entries u) id
              (assign_all-congr entries t u id h)
            ∙ sym step)
    | inr none_of ↦
        rw (now, none_of)
          (populate-assigning rest pv (assign_all entries t) u id
            (assign_all-other entries t id none_of ∙ h))
  ]
  | inr later ↦ elim (Bool-cases (assigns id entries)) [
    | inl some_of ↦
        let step : populate ((since, entries) ∷ assigning id rest) pv u id
            ≡ populate (assigning id rest) pv u id =
          rw (later, populate) refl in
        rw (later, some_of) (populate-assigning rest pv t u id h ∙ sym step)
    | inr none_of ↦ rw (later, none_of) (populate-assigning rest pv t u id h)
  ]
]

ban_assigned : (pv : ℕ) → populate (assigning 0x0081 char_blocks) pv no_lengths 0x0081 ≡ pos 3
unfolding populate assign_all
ban_assigned pv = let always : leb 0 pv ≡ true = ground arith in rw (always, populate) refl

zone_assigned :
    (pv : ℕ)
    → populate (assigning 0x0AC5 char_blocks) pv no_lengths 0x0AC5
      ≡ (if leb 20170315 pv then assign no_lengths 0x0AC5 (pos 156) else no_lengths) 0x0AC5
unfolding populate assign_all
zone_assigned pv = refl

ban_entry : (pv : ℕ) → populate_char_lengths pv no_lengths 0x0081 ≡ pos 3
unfolding populate_char_lengths
ban_entry pv = populate-assigning char_blocks pv no_lengths no_lengths 0x0081 refl ∙ ban_assigned pv

zone_entry :
    (pv : ℕ)
    → populate_char_lengths pv no_lengths 0x0AC5
      ≡ (if leb 20170315 pv then assign no_lengths 0x0AC5 (pos 156) else no_lengths) 0x0AC5
unfolding populate_char_lengths
zone_entry pv =
    populate-assigning char_blocks pv no_lengths no_lengths 0x0AC5 refl ∙ zone_assigned pv

-- The packet with the address of the map server: before 20170315 the one of 28 bytes, from then on
-- the one of 156.
pub char_table-zone :
    (pv : ℕ)
    → (pv < 20170315) × (char_table pv 0x0081 ≡ pos 28) × (char_table pv 0x0AC5 ≡ pos 0)
      ⊎ (20170315 ≤ pv) × (char_table pv 0x0081 ≡ pos 3) × (char_table pv 0x0AC5 ≡ pos 156)
char_table-zone pv = elim (Bool-cases (leb 20170315 pv)) [
  | inl new ↦
      let now : ltb pv 20170315 ≡ false = ground arith in
      inr (ground arith, rw now (ban_entry pv), rw now (zone_entry pv ∙ (rw new refl)))
  | inr old ↦
      let before : ltb pv 20170315 ≡ true = ground arith in
      inl (ground arith, rw before refl, rw before (zone_entry pv ∙ (rw old refl)))
]
