-- ===== src/Shared/Bits.antt =====
-- `&`, `|` and `^` at variables. Each law goes from the quotient by two to the number itself, so
-- the laws of a fixed mask unroll and those of a shift go by induction on the shift.
use Prim.Native.Nat.{ℕ, zero, suc, ◌+◌, ◌-◌, ◌*◌, ◌/◌, ◌%◌, ◌^◌, ◌≤◌, ◌<◌, min, max, differ}
use Prim.Native.Nat.{bit_and, bit_or, bit_xor, digits}
use Prim.Native.Nat.{bit_and-bitwise, bit_or-bitwise, bit_xor-bitwise}
use mathlib.Core.Path.{◌≡◌, refl, ap, ◌∙◌}
use native.Mathlib.Nat.{pow-suc, div-add-mod', mul-add-mod_self_right, mod-eq_of_lt, mod-lt}
use native.Mathlib.Omega.{arith}
use rathena_client.Shared.Words.{◌<<◌}

-- More fuel than the number itself changes nothing.
digits_extra :
    (z : ℕ → ℕ) (f : ℕ → ℕ → ℕ) (k n a b : ℕ) → a ≤ k → a ≤ n → digits z f k a b ≡ digits z f n a b
digits_extra z f zero zero zero b h g = refl
digits_extra z f zero (suc n) zero b h g = refl
digits_extra z f (suc k) zero zero b h g = refl
digits_extra z f (suc k) (suc n) zero b h g = refl
digits_extra z f zero n (suc a) b h g = absurd (omega arith)
digits_extra z f (suc k) zero (suc a) b h g = absurd (omega arith)
digits_extra z f (suc k) (suc n) (suc a) b h g =
    ap (λ (t : ℕ). t * 2 + f (suc a % 2) (b % 2))
      (digits_extra z f k n (suc a / 2) (b / 2) (omega arith) (omega arith))

lowest_digit :
    (z : ℕ → ℕ) (f : ℕ → ℕ → ℕ) (a b : ℕ)
    → digits z f (suc a) (suc a) b
      ≡ digits z f (suc a / 2) (suc a / 2) (b / 2) * 2 + f (suc a % 2) (b % 2)
lowest_digit z f a b =
    ap (λ (t : ℕ). t * 2 + f (suc a % 2) (b % 2))
      (digits_extra z f a (suc a / 2) (suc a / 2) (b / 2) (omega arith) (omega arith))

pub bit_or-digit : (a b : ℕ) → bit_or a b ≡ bit_or (a / 2) (b / 2) * 2 + max (a % 2) (b % 2)
bit_or-digit zero b = simp bit_or-bitwise (omega arith)
bit_or-digit (suc a) b = simp bit_or-bitwise (lowest_digit (λ t. t) max a b)

pub bit_and-digit : (a b : ℕ) → bit_and a b ≡ bit_and (a / 2) (b / 2) * 2 + min (a % 2) (b % 2)
bit_and-digit zero b = simp bit_and-bitwise (omega arith)
bit_and-digit (suc a) b = simp bit_and-bitwise (lowest_digit (λ t. 0) min a b)

pub bit_xor-digit : (a b : ℕ) → bit_xor a b ≡ bit_xor (a / 2) (b / 2) * 2 + differ (a % 2) (b % 2)
bit_xor-digit zero b = simp bit_xor-bitwise (omega arith)
bit_xor-digit (suc a) b = simp bit_xor-bitwise (lowest_digit (λ t. t) differ a b)

half_pow : (k x : ℕ) → x < 2 ^ suc k → x / 2 < 2 ^ k
half_pow k x h = omega (arith, pow-suc 2 k)

-- A digit law holds of every number of a width, if it holds of the quotients by two.
bit_or-zero_width : (w a : ℕ) → a < 2 ^ w → bit_or a 0 ≡ a
bit_or-zero_width zero zero h = refl
bit_or-zero_width zero (suc a) h = absurd (omega arith)
bit_or-zero_width (suc w) a h =
    omega (arith, bit_or-digit a 0, bit_or-zero_width w (a / 2) (half_pow w a h))

lt-pow : (a : ℕ) → a < 2 ^ a
lt-pow zero = omega arith
lt-pow (suc a) = omega (arith, lt-pow a, pow-suc 2 a)

bit_or-zero : (a : ℕ) → bit_or a 0 ≡ a
bit_or-zero a = bit_or-zero_width a a (lt-pow a)

bit_and-zero_width : (w a : ℕ) → a < 2 ^ w → bit_and a 0 ≡ 0
bit_and-zero_width zero zero h = refl
bit_and-zero_width zero (suc a) h = absurd (omega arith)
bit_and-zero_width (suc w) a h =
    omega (arith, bit_and-digit a 0, bit_and-zero_width w (a / 2) (half_pow w a h))

double : (q k : ℕ) → q * 2 ^ suc k ≡ q * 2 ^ k * 2
double q k = omega (arith, ap (λ (t : ℕ). q * t) (pow-suc 2 k))

-- `(q << k) | r` is a sum where `r` has at most `k` bits.
pub bit_or-shift : (k q r : ℕ) → r < 2 ^ k → bit_or (q << k) r ≡ q * 2 ^ k + r
bit_or-shift zero q zero h = omega (arith, bit_or-zero (q * 1))
bit_or-shift zero q (suc r) h = absurd (omega arith)
bit_or-shift (suc k) q r h =
    let below : bit_or (q << k) (r / 2) ≡ q * 2 ^ k + r / 2 =
      bit_or-shift k q (r / 2) (half_pow k r h) in
    let halved : q * 2 ^ suc k / 2 ≡ q * 2 ^ k = omega (arith, double q k) in
    let even : q * 2 ^ suc k % 2 ≡ 0 = omega (arith, double q k) in
    bit_or-digit (q * 2 ^ suc k) r ∙ (rw (halved, even, below) (omega (arith, double q k)))

mod-two-pow : (k a : ℕ) → a % 2 ^ suc k ≡ a / 2 % 2 ^ k * 2 + a % 2
mod-two-pow k a =
    let q = a / 2 / 2 ^ k in
    let r = a / 2 % 2 ^ k * 2 + a % 2 in
    let whole : a ≡ q * 2 ^ suc k + r = omega (arith, double q k, div-add-mod' (a / 2) (2 ^ k)) in
    let below : a / 2 % 2 ^ k < 2 ^ k = mod-lt (a / 2) (omega (arith, lt-pow k)) in
    ap (λ (t : ℕ). t % 2 ^ suc k) whole
    ∙ mul-add-mod_self_right q (2 ^ suc k) r
    ∙ mod-eq_of_lt (omega (arith, pow-suc 2 k))

-- A mask of `k` ones is the remainder by `2 ^ k`.
pub bit_and-ones : (k a : ℕ) → bit_and a (2 ^ k - 1) ≡ a % 2 ^ k
bit_and-ones zero a = bit_and-zero_width a a (lt-pow a) ∙ omega arith
bit_and-ones (suc k) a =
    let half : (2 ^ suc k - 1) / 2 ≡ 2 ^ k - 1 = omega (arith, pow-suc 2 k, lt-pow k) in
    let odd : (2 ^ suc k - 1) % 2 ≡ 1 = omega (arith, pow-suc 2 k, lt-pow k) in
    bit_and-digit a (2 ^ suc k - 1)
    ∙ (rw (half, odd, bit_and-ones k (a / 2)) (omega (arith, mod-two-pow k a)))

differ-lt : (x y : ℕ) → x < 2 → y < 2 → differ x y < 2
differ-lt zero y h g = g
differ-lt (suc zero) zero h g = omega arith
differ-lt (suc zero) (suc zero) h g = omega arith
differ-lt (suc zero) (suc (suc y)) h g = absurd (omega arith)
differ-lt (suc (suc x)) y h g = absurd (omega arith)

differ-differ : (x y : ℕ) → x < 2 → y < 2 → differ (differ x y) y ≡ x
differ-differ zero zero h g = refl
differ-differ zero (suc zero) h g = refl
differ-differ zero (suc (suc y)) h g = absurd (omega arith)
differ-differ (suc zero) zero h g = refl
differ-differ (suc zero) (suc zero) h g = refl
differ-differ (suc zero) (suc (suc y)) h g = absurd (omega arith)
differ-differ (suc (suc x)) y h g = absurd (omega arith)

-- `^` stays within the width of its arguments.
pub bit_xor-lt : (w a b : ℕ) → a < 2 ^ w → b < 2 ^ w → bit_xor a b < 2 ^ w
bit_xor-lt zero zero zero h g = omega arith
bit_xor-lt zero zero (suc b) h g = absurd (omega arith)
bit_xor-lt zero (suc a) b h g = absurd (omega arith)
bit_xor-lt (suc w) a b h g = omega (
  arith,
  bit_xor-digit a b,
  pow-suc 2 w,
  differ-lt (a % 2) (b % 2) (omega arith) (omega arith),
  bit_xor-lt w (a / 2) (b / 2) (half_pow w a h) (half_pow w b g),
)

-- `^` by the same number undoes itself.
pub bit_xor-bit_xor : (w a b : ℕ) → a < 2 ^ w → b < 2 ^ w → bit_xor (bit_xor a b) b ≡ a
bit_xor-bit_xor zero zero zero h g = refl
bit_xor-bit_xor zero zero (suc b) h g = absurd (omega arith)
bit_xor-bit_xor zero (suc a) b h g = absurd (omega arith)
bit_xor-bit_xor (suc w) a b h g =
    let d : differ (a % 2) (b % 2) < 2 = differ-lt (a % 2) (b % 2) (omega arith) (omega arith) in
    let half : bit_xor a b / 2 ≡ bit_xor (a / 2) (b / 2) = omega (arith, bit_xor-digit a b) in
    let low : bit_xor a b % 2 ≡ differ (a % 2) (b % 2) = omega (arith, bit_xor-digit a b) in
    let back : differ (differ (a % 2) (b % 2)) (b % 2) ≡ a % 2 =
      differ-differ (a % 2) (b % 2) (omega arith) (omega arith) in
    let rest : bit_xor (bit_xor (a / 2) (b / 2)) (b / 2) ≡ a / 2 =
      bit_xor-bit_xor w (a / 2) (b / 2) (half_pow w a h) (half_pow w b g) in
    bit_xor-digit (bit_xor a b) b ∙ (rw (half, low, rest, back) (omega arith))
