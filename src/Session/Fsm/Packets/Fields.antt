-- ===== src/Session/Fsm/Packets/Fields.antt =====
-- The login request as its fields one after the other, and where the map entry request has its own.
use rathena_client.Shared.{
  write_at, ℕ, zero, suc, ◌+◌, ◌-◌, ◌^◌, ◌<◌, ◌≤◌, ◌≡◌, ◌⊎◌, refl, ap, sym, ◌∙◌, arith, some, [],
  ◌∷◌, ◌++◌, length, take, drop, replicate, true, false, leb, Bytes, Bool-cases, inl, inr,
  length-append, put_u32, length-take, drop-drop, length-replicate, take-length_append,
  drop-length_append, le_u32?, get_elem?, append_assoc,
}
use rathena_client.Session.Fsm.Packets.{fsm_encode_master_login, fsm_encode_map_login, wide_enter}

drop-replicate {ℓ} : {A : Type ℓ} (n k : ℕ) (a : A) → drop n (replicate k a) ≡ replicate (k - n) a
drop-replicate zero k a = let all : k - 0 ≡ k = omega arith in rw all
drop-replicate (suc n) zero a = let none_left : 0 - suc n ≡ 0 = omega arith in rw none_left
drop-replicate (suc n) (suc k) a =
    let one_less : suc k - suc n ≡ k - n = omega arith in rw one_less (drop-replicate n k a)

replicate-append {ℓ} :
    {A : Type ℓ} (n k : ℕ) (a : A) → replicate (n + k) a ≡ replicate n a ++ replicate k a
replicate-append zero k a = let none_before : 0 + k ≡ k = omega arith in rw none_before
replicate-append (suc n) k a =
    let one_more : suc n + k ≡ suc (n + k) = omega arith in
    rw one_more (ap (λ t. a ∷ t) (replicate-append n k a))

-- A write at the end of what is written so far, into zeros.
pub write_at_end :
    (i k : ℕ) (bs written : Bytes)
    → length written ≡ i
    → write_at i bs (written ++ replicate k 0) ≡ written ++ (bs ++ replicate (k - length bs) 0)
write_at_end i k bs written h =
    let front : take i (written ++ replicate k 0) ≡ written =
      rw (← h) (take-length_append written (replicate k 0)) in
    let back : drop (i + length bs) (written ++ replicate k 0) ≡ replicate (k - length bs) 0 =
      sym (drop-drop i (length bs) (written ++ replicate k 0))
      ∙ ap (drop (length bs)) (rw (← h) (drop-length_append written (replicate k 0)))
      ∙ drop-replicate (length bs) k 0 in
    rw (front, back) refl

-- A string field of `n` bytes: cut, or filled up with zeros.
abbrev pub padded : ℕ → Bytes → Bytes
padded n bs = take n bs ++ replicate (n - length (take n bs)) 0

pub length-padded : (n : ℕ) (bs : Bytes) → length (padded n bs) ≡ n
length-padded n bs = omega (
  arith,
  length-append (take n bs) (replicate (n - length (take n bs)) 0),
  length-replicate {A = ℕ} (n - length (take n bs)) 0,
  length-take n bs,
)

-- A string written at the end, with the zeros after it.
write_at_end_padded :
    (i n k : ℕ) (bs written : Bytes)
    → length written ≡ i
    → write_at i (take n bs) (written ++ replicate (n + k) 0)
      ≡ (written ++ padded n bs) ++ replicate k 0
write_at_end_padded i n k bs written h =
    let some_of = take n bs in
    let fill = n - length some_of in
    let zeros : n + k - length some_of ≡ fill + k = omega (arith, length-take n bs) in
    let filled : some_of ++ replicate (n + k - length some_of) 0 ≡ padded n bs ++ replicate k 0 =
      ap (λ t. some_of ++ replicate t 0) zeros
      ∙ ap (λ t. some_of ++ t) (replicate-append fill k 0)
      ∙ sym (append_assoc some_of (replicate fill 0) (replicate k 0)) in
    write_at_end i (n + k) some_of written h
    ∙ ap (λ t. written ++ t) filled
    ∙ sym (append_assoc written (padded n bs) (replicate k 0))

-- For every user name and every password the login request is 55 bytes long: the packet id, the
-- packet version, the name and the password in 24 bytes each, cut or filled up with zeros, and a
-- zero client type.
pub fsm_encode_master_login-fields :
    (packetver : ℕ) (username password : Bytes)
    → (fsm_encode_master_login packetver username password
        ≡ ((0x64 ∷ 0x00 ∷ put_u32 packetver) ++ padded 24 username) ++ padded 24 password ++ 0 ∷ [])
      × (length (fsm_encode_master_login packetver username password) ≡ 55)
unfolding fsm_encode_master_login
fsm_encode_master_login-fields packetver username password =
    let front = 0x64 ∷ 0x00 ∷ put_u32 packetver in
    let name = write_at_end_padded 6 24 25 username front refl in
    let front_length : length (front ++ padded 24 username) ≡ 30 =
      omega (arith, length-append front (padded 24 username), length-padded 24 username) in
    let word = write_at_end_padded 30 24 1 password (front ++ padded 24 username) front_length in
    let whole = ap (write_at 30 (take 24 password)) name ∙ word in
    (
      whole,
      ap length whole
          ∙ omega (
            arith,
            length-append ((front ++ padded 24 username) ++ padded 24 password) (0 ∷ []),
            length-append (front ++ padded 24 username) (padded 24 password),
            front_length,
            length-padded 24 password,
          ),
    )

-- The versions of the two variants.
wide_enter-window :
    (packetver : ℕ)
    → (wide_enter packetver ≡ true)
        × (((20211103 ≤ packetver) × (packetver ≤ 20211118)) ⊎ (20220330 ≤ packetver))
      ⊎ (wide_enter packetver ≡ false)
        × ((packetver < 20211103) ⊎ (20211118 < packetver) × (packetver < 20220330))
unfolding wide_enter
wide_enter-window packetver = elim (Bool-cases (leb 20211103 packetver)) [
  | inr old ↦ elim (Bool-cases (leb 20220330 packetver)) [
    | inl new ↦ absurd (ground arith)
    | inr _ ↦ inr (ground arith, inl (ground arith))
  ]
  | inl from ↦ elim (Bool-cases (leb packetver 20211118)) [
    | inl to_ ↦ inl (ground arith, inl (ground arith, ground arith))
    | inr after ↦ elim (Bool-cases (leb 20220330 packetver)) [
      | inl new ↦ inl (ground arith, inr (ground arith))
      | inr between ↦ inr (ground arith, inr (ground arith, ground arith))
    ]
  ]
]

-- At every packet version the map entry request has the account id, the character id and the
-- authentication code at 2, 6 and 10, and the sex in its last byte: the 23rd from 20211103 to
-- 20211118 and from 20220330 on, else the 19th.
pub fsm_encode_map_login-fields :
    (aid gid auth_code sex packetver : ℕ)
    → aid < 2 ^ 32
    → gid < 2 ^ 32
    → auth_code < 2 ^ 32
    → let p = fsm_encode_map_login aid gid auth_code sex packetver in
      (le_u32? p 2 ≡ some aid)
      × (le_u32? p 6 ≡ some gid)
      × (le_u32? p 10 ≡ some auth_code)
      × (get_elem? p (length p - 1) ≡ some sex)
      × ((((20211103 ≤ packetver) × (packetver ≤ 20211118)) ⊎ (20220330 ≤ packetver))
            × (length p ≡ 23)
          ⊎ ((packetver < 20211103) ⊎ (20211118 < packetver) × (packetver < 20220330))
            × (length p ≡ 19))
unfolding fsm_encode_map_login
fsm_encode_map_login-fields aid gid auth_code sex packetver a g c =
    elim (wide_enter-window packetver) [
      | inl (wide, window) ↦ rw wide (
        ap some (omega (arith, a)),
        ap some (omega (arith, g)),
        ap some (omega (arith, c)),
        refl,
        inl (window, refl),
      )
      | inr (narrow, window) ↦ rw narrow (
        ap some (omega (arith, a)),
        ap some (omega (arith, g)),
        ap some (omega (arith, c)),
        refl,
        inr (window, refl),
      )
    ]
