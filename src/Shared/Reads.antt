-- ===== src/Shared/Reads.antt =====
-- Reads in range.
use Prim.Native.Nat.{ℕ, zero, suc, ◌+◌, ◌*◌, ◌^◌, ◌≤◌, ◌<◌}
use mathlib.Core.Path.{◌≡◌, refl}
use mathlib.Core.List.{List, [], ◌∷◌}
use mathlib.Core.Option.{some}
use native.Mathlib.Omega.{arith}
use rathena_client.Shared.Lists.{length, get_elem?}
use rathena_client.Shared.Fields.{Bytes, le_u16?, le_u32?, be_u32?}

pub get_elem?_lt {ℓ} :
    {A : Type ℓ} (xs : List A) (i : ℕ) → i < length xs → (x : A) × (get_elem? xs i ≡ some x)
get_elem?_lt [] i h = absurd (omega arith)
get_elem?_lt (x ∷ xs) zero h = (x, refl)
get_elem?_lt (x ∷ xs) (suc i) h = get_elem?_lt xs i (omega arith)

pub le_u16?_lt : (bs : Bytes) (i : ℕ) → i + 2 ≤ length bs → (v : ℕ) × (le_u16? bs i ≡ some v)
le_u16?_lt bs i h =
    let (a, low) = get_elem?_lt bs i (omega arith) in
    let (b, high) = get_elem?_lt bs (i + 1) (omega arith) in (a + b * 2 ^ 8, rw (low, high) refl)

pub le_u32?_lt : (bs : Bytes) (i : ℕ) → i + 4 ≤ length bs → (v : ℕ) × (le_u32? bs i ≡ some v)
le_u32?_lt bs i h =
    let (a, low) = le_u16?_lt bs i (omega arith) in
    let (b, high) = le_u16?_lt bs (i + 2) (omega arith) in (a + b * 2 ^ 16, rw (low, high) refl)

pub be_u32?_lt : (bs : Bytes) (i : ℕ) → i + 4 ≤ length bs → (v : ℕ) × (be_u32? bs i ≡ some v)
be_u32?_lt bs i h =
    let (a, first) = get_elem?_lt bs i (omega arith) in
    let (b, second) = get_elem?_lt bs (i + 1) (omega arith) in
    let (c, third) = get_elem?_lt bs (i + 2) (omega arith) in
    let (d, fourth) = get_elem?_lt bs (i + 3) (omega arith) in
    (a * 2 ^ 24 + b * 2 ^ 16 + c * 2 ^ 8 + d, rw (first, second, third, fourth) refl)
