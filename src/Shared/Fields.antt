-- ===== src/Shared/Fields.antt =====
-- Byte sequences: reads as `encoding/binary` makes them, and the bytes that it writes. A read out
-- of range is a panic of the Go program, `none`.
use Prim.Native.Nat.{ℕ, ◌+◌, ◌-◌, ◌*◌, ◌/◌, ◌%◌, ◌^◌, ◌<◌}
use mathlib.Core.List.{List, [], ◌∷◌, ◌++◌}
use mathlib.Core.Option.{Option, none, some}
use rathena_client.Shared.Bools.{leb, ◌==◌, if◌then◌else◌, ◌>>=◌}
use rathena_client.Shared.Lists.{length, get_elem?, get_or, take, drop, All}

abbrev pub Bytes : Type 0
Bytes = List ℕ

abbrev pub IsByte : ℕ → Type 0
IsByte b = b < 256

abbrev pub IsBytes : Bytes → Type 0
IsBytes = All IsByte

-- `data[lo:hi]`
abbrev pub slice? : Bytes → ℕ → ℕ → Option Bytes
slice? bs lo hi =
    if leb lo hi
    then (if leb hi (length bs) then some (take (hi - lo) (drop lo bs)) else none)
    else none

-- `data[lo:]`
abbrev pub suffix? : Bytes → ℕ → Option Bytes
suffix? bs lo = if leb lo (length bs) then some (drop lo bs) else none

abbrev pub le_u16? : Bytes → ℕ → Option ℕ
le_u16? bs i = do a ← get_elem? bs i; b ← get_elem? bs (i + 1); some (a + b * 2 ^ 8)

abbrev pub le_u32? : Bytes → ℕ → Option ℕ
le_u32? bs i = do lo ← le_u16? bs i; hi ← le_u16? bs (i + 2); some (lo + hi * 2 ^ 16)

abbrev pub be_u32? : Bytes → ℕ → Option ℕ
be_u32? bs i = do
  a ← get_elem? bs i
  b ← get_elem? bs (i + 1)
  c ← get_elem? bs (i + 2)
  d ← get_elem? bs (i + 3)
  some (a * 2 ^ 24 + b * 2 ^ 16 + c * 2 ^ 8 + d)

-- The same reads, where a length test has made sure of them.
abbrev pub le_u16 : Bytes → ℕ → ℕ
le_u16 bs i = get_or bs i 0 + get_or bs (i + 1) 0 * 2 ^ 8

abbrev pub le_u32 : Bytes → ℕ → ℕ
le_u32 bs i = le_u16 bs i + le_u16 bs (i + 2) * 2 ^ 16

abbrev pub be_u32 : Bytes → ℕ → ℕ
be_u32 bs i =
    get_or bs i 0 * 2 ^ 24
    + get_or bs (i + 1) 0 * 2 ^ 16
    + get_or bs (i + 2) 0 * 2 ^ 8
    + get_or bs (i + 3) 0

abbrev pub put_u16 : ℕ → Bytes
put_u16 v = (v % 2 ^ 8) ∷ (v / 2 ^ 8 % 2 ^ 8) ∷ []

abbrev pub put_u32 : ℕ → Bytes
put_u32 v = (v % 2 ^ 8) ∷ (v / 2 ^ 8 % 2 ^ 8) ∷ (v / 2 ^ 16 % 2 ^ 8) ∷ (v / 2 ^ 24 % 2 ^ 8) ∷ []

abbrev pub put_u32_be : ℕ → Bytes
put_u32_be v = (v / 2 ^ 24 % 2 ^ 8) ∷ (v / 2 ^ 16 % 2 ^ 8) ∷ (v / 2 ^ 8 % 2 ^ 8) ∷ (v % 2 ^ 8) ∷ []

-- The bytes before the first zero byte.
abbrev pub until_null : Bytes → Bytes
until_null [] = []
until_null (b ∷ bs) = if b == 0 then [] else b ∷ until_null bs

-- The bytes `bs` written into `p` from `i` on.
abbrev pub write_at : ℕ → Bytes → Bytes → Bytes
write_at i bs p = take i p ++ (bs ++ drop (i + length bs) p)
