-- ===== src/Decode/Characters/Total.antt =====
-- Every read of the character list is in range.
use rathena_client.Shared.{
  le_u16?_lt, le_u32?_lt, get_elem?_lt, ℕ, ◌+◌, ◌-◌, ◌*◌, ◌^◌, ◌≤◌, ◌<◌, ◌≡◌, refl, arith, true,
  false, Option, some, length, take, drop, leb, ltb, if◌then◌else◌, ◌>>=◌, Bytes, slice?, Bool,
}
use rathena_client.Decode.Characters.{
  CharacterInfoEntry, signed, le_i16, le_i32, le_i64, char_info_size, wide_exp, narrow_exp,
  decode_exp, wide_points, narrow_points, decode_points, decode_job, decode_map_name, decode_sex,
  decode_look, decode_character_info_entry,
}

-- A computation that does not panic.
abbrev pub Total : {A : Type 0} → Option A → Type 0
Total {A} m = (a : A) × (m ≡ some a)

bind-Total :
    {A B : Type 0} (m : Option A) (f : A → Option B)
    → Total m
    → ((a : A) → Total (f a))
    → Total (m >>= f)
bind-Total m f (a, h) k = rw h (k a)

le_i16-Total : (b : Bytes) (i : ℕ) → i + 2 ≤ length b → Total (le_i16 b i)
unfolding le_i16
le_i16-Total b i h = bind-Total _ _ (le_u16?_lt b i h) (λ v. (signed 16 v, refl))

le_i32-Total : (b : Bytes) (i : ℕ) → i + 4 ≤ length b → Total (le_i32 b i)
unfolding le_i32
le_i32-Total b i h = bind-Total _ _ (le_u32?_lt b i h) (λ v. (signed 32 v, refl))

le_i64-Total : (b : Bytes) (i : ℕ) → i + 8 ≤ length b → Total (le_i64 b i)
unfolding le_i64
le_i64-Total b i h = bind-Total _ _ (le_u32?_lt b i (omega arith)) (λ lo.
    bind-Total _ _ (le_u32?_lt b (i + 4) (omega arith))
      (λ hi. (signed 64 (lo + hi * 2 ^ 32), refl)))

slice?-Total : (b : Bytes) (lo hi : ℕ) → lo ≤ hi → hi ≤ length b → Total (slice? b lo hi)
slice?-Total b lo hi h k =
    let ordered : leb lo hi ≡ true = ground arith in
    let inside : leb hi (length b) ≡ true = ground arith in
    (take (hi - lo) (drop lo b), rw (ordered, inside) refl)

wide_exp-Total : (b : Bytes) (dst : CharacterInfoEntry) → 28 ≤ length b → Total (wide_exp b dst)
unfolding wide_exp
wide_exp-Total b dst h = bind-Total _ _ (le_i64-Total b 4 (omega arith)) (λ exp.
    bind-Total _ _ (le_i32-Total b 12 (omega arith)) (λ money.
      bind-Total _ _ (le_i64-Total b 16 (omega arith))
        (λ job_exp. bind-Total _ _ (le_i32-Total b 24 (omega arith)) (λ job_level. (_, refl)))))

narrow_exp-Total : (b : Bytes) (dst : CharacterInfoEntry) → 20 ≤ length b → Total (narrow_exp b dst)
unfolding narrow_exp
narrow_exp-Total b dst h = bind-Total _ _ (le_i32-Total b 4 (omega arith)) (λ exp.
    bind-Total _ _ (le_i32-Total b 8 (omega arith)) (λ money.
      bind-Total _ _ (le_i32-Total b 12 (omega arith))
        (λ job_exp. bind-Total _ _ (le_i32-Total b 16 (omega arith)) (λ job_level. (_, refl)))))

wide_points-Total :
    (b : Bytes) (dst : CharacterInfoEntry) → 84 ≤ length b → Total (wide_points b dst)
unfolding wide_points
wide_points-Total b dst h = bind-Total _ _ (le_i64-Total b 50 (omega arith)) (λ hp.
    bind-Total _ _ (le_i64-Total b 58 (omega arith)) (λ max_hp.
      bind-Total _ _ (le_i64-Total b 66 (omega arith)) (λ sp.
        bind-Total _ _ (le_i64-Total b 74 (omega arith))
          (λ max_sp. bind-Total _ _ (le_i16-Total b 82 (omega arith)) (λ speed. (_, refl))))))

narrow_points-Total :
    (at : ℕ) (b : Bytes) (dst : CharacterInfoEntry)
    → at + 14 ≤ length b
    → Total (narrow_points at b dst)
unfolding narrow_points
narrow_points-Total at b dst h = bind-Total _ _ (le_i32-Total b at (omega arith)) (λ hp.
    bind-Total _ _ (le_i32-Total b (at + 4) (omega arith)) (λ max_hp.
      bind-Total _ _ (le_i16-Total b (at + 8) (omega arith)) (λ sp.
        bind-Total _ _ (le_i16-Total b (at + 10) (omega arith)) (λ max_sp.
          bind-Total _ _ (le_i16-Total b (at + 12) (omega arith)) (λ speed. (_, refl))))))

decode_job-Total :
    (j l n s : ℕ) (b : Bytes) (dst : CharacterInfoEntry)
    → j + 2 ≤ length b
    → l + 2 ≤ length b
    → n + 24 ≤ length b
    → s < length b
    → Total (decode_job j l n s b dst)
unfolding decode_job
decode_job-Total j l n s b dst hj hl hn hs = bind-Total _ _ (le_i16-Total b j hj) (λ job.
    bind-Total _ _ (le_i16-Total b l hl) (λ level.
      bind-Total _ _ (slice?-Total b n (n + 24) (omega arith) hn)
        (λ name. bind-Total _ _ (get_elem?_lt b s hs) (λ char_num. (_, refl)))))

decode_map_name-Total :
    (at : ℕ) (b : Bytes) (dst : CharacterInfoEntry)
    → at + 16 ≤ length b
    → Total (decode_map_name at b dst)
unfolding decode_map_name
decode_map_name-Total at b dst h =
    bind-Total _ _ (slice?-Total b at (at + 16) (omega arith) h) (λ map_name. (_, refl))

decode_sex-Total :
    (at : ℕ) (b : Bytes) (dst : CharacterInfoEntry) → at < length b → Total (decode_sex at b dst)
unfolding decode_sex
decode_sex-Total at b dst h = bind-Total _ _ (get_elem?_lt b at h) (λ sex. (_, refl))

-- A test and its two branches.
if-Total :
    {A : Type 0} (b : Bool) (x y : Option A)
    → (b ≡ true → Total x)
    → (b ≡ false → Total y)
    → Total (if b then x else y)
if-Total true x y h k = h refl
if-Total false x y h k = k refl

decode_exp-Total :
    (b : Bytes) (pv : ℕ) (dst : CharacterInfoEntry)
    → char_info_size pv ≤ length b
    → Total (decode_exp b pv dst)
unfolding decode_exp char_info_size
decode_exp-Total b pv dst h =
    if-Total (leb 20170830 pv) _ _ (λ p. wide_exp-Total b dst (ground arith))
      (λ p. narrow_exp-Total b dst (ground arith))

decode_points-Total :
    (b : Bytes) (pv : ℕ) (dst : CharacterInfoEntry)
    → char_info_size pv ≤ length b
    → Total (decode_points b pv dst)
unfolding decode_points char_info_size
decode_points-Total b pv dst h =
    if-Total (leb 20220330 pv) _ _ (λ p. wide_points-Total b dst (ground arith))
      (λ p.
        if-Total (leb 20170830 pv) _ _ (λ q. narrow_points-Total 50 b dst (ground arith))
          (λ q. narrow_points-Total 42 b dst (ground arith)))

look-Total :
    (j l n s m x : ℕ) (b : Bytes) (dst : CharacterInfoEntry)
    → j < s
    → l < s
    → n + 24 ≤ s
    → s < m
    → m + 16 ≤ x
    → x < length b
    → Total ((decode_job j l n s b dst >>= decode_map_name m b) >>= decode_sex x b)
look-Total j l n s m x b dst hj hl hn hs hm hx =
    bind-Total _ _
      (bind-Total _ _
        (decode_job-Total j l n s b dst (omega arith) (omega arith) (omega arith) (omega arith))
        (λ e. decode_map_name-Total m b e (omega arith)))
      (λ e. decode_sex-Total x b e hx)

named-Total :
    (b : Bytes) (dst : CharacterInfoEntry)
    → 128 ≤ length b
    → Total (decode_job 56 62 78 108 b dst >>= decode_map_name 112 b)
named-Total b dst h =
    bind-Total _ _
      (decode_job-Total 56 62 78 108 b dst (omega arith) (omega arith) (omega arith) (omega arith))
      (λ e. decode_map_name-Total 112 b e (omega arith))

decode_look-Total :
    (b : Bytes) (pv : ℕ) (dst : CharacterInfoEntry)
    → char_info_size pv ≤ length b
    → Total (decode_look b pv dst)
unfolding decode_look char_info_size
decode_look-Total b pv dst h =
    let last : leb 20100720 pv ≡ false → 112 ≤ length b = λ p. ground arith in
    if-Total (leb 20220330 pv) _ _
      (λ p.
        look-Total 84 92 108 138 142 174 b dst (omega arith) (omega arith) (omega arith)
          (omega arith) (omega arith) (ground arith))
      (λ p.
        if-Total (leb 20170830 pv) _ _
          (λ q.
            look-Total 64 72 88 118 122 154 b dst (omega arith) (omega arith) (omega arith)
              (omega arith) (omega arith) (ground arith))
          (λ q.
            if-Total (leb 20141022 pv) _ _
              (λ r.
                look-Total 56 64 80 110 114 146 b dst (omega arith) (omega arith) (omega arith)
                  (omega arith) (omega arith) (ground arith))
              (λ r.
                if-Total (leb 20141016 pv) _ _
                  (λ s.
                    look-Total 56 62 78 108 112 144 b dst (omega arith) (omega arith) (omega arith)
                      (omega arith) (omega arith) (ground arith))
                  (λ s.
                    if-Total (leb 20100803 pv) _ _ (λ t. named-Total b dst (ground arith))
                      (λ t.
                        if-Total (leb 20100720 pv) _ _ (λ u. named-Total b dst (ground arith))
                          (λ u.
                            let enough : 112 ≤ length b = ground arith in
                            decode_job-Total 56 62 78 108 b dst (omega arith) (omega arith)
                              (omega arith) (omega arith)))))))

char_info_size-least : (pv : ℕ) → 112 ≤ char_info_size pv
unfolding char_info_size
char_info_size-least pv = ground arith

-- With the bytes of an entry, the decoder consumes them all.
pub decode_entry-Total :
    (dst : CharacterInfoEntry) (b : Bytes) (pv : ℕ)
    → char_info_size pv ≤ length b
    → (entry : CharacterInfoEntry) × (decode_character_info_entry dst b pv
        ≡ some (entry, char_info_size pv))
unfolding decode_character_info_entry
decode_entry-Total dst b pv h =
    let long : ltb (length b) (char_info_size pv) ≡ false = ground arith in
    let (gid, g) = le_u32?_lt b 0 (omega (arith, char_info_size-least pv)) in
    let (with_exp, x) = decode_exp-Total b pv (record dst { gid = gid }) h in
    let (with_points, y) = decode_points-Total b pv with_exp h in
    let (entry, z) = decode_look-Total b pv with_points h in (entry, rw (long, g, x, y, z) refl)
