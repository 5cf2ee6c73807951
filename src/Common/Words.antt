-- ===== src/Common/Words.antt =====
-- Unsigned 64-bit words as native numbers: the checked operations, complement, and the laws of
-- `&` and `|` at the masks that the source uses.
use Prim.Native.Nat.{
  ℕ, zero, suc, ◌+◌, ◌-◌, ◌*◌, ◌/◌, ◌%◌, ◌^◌, ◌≤◌, ◌<◌, min, max, bit_and, bit_or, digits,
  bit_and-bitwise, bit_or-bitwise,
}
use mathlib.Core.Path.{◌≡◌, refl, ap}
use mathlib.Core.Option.{Option, none, some}
use native.Mathlib.Omega.{arith}
use native.Mathlib.Nat.{pow-suc, one-le-pow}
use makopa_os.Common.Tests.{ltb, if◌then◌else◌}

abbrev pub u64_mod : ℕ
u64_mod = 2 ^ 64

-- `!x` on a u64.
abbrev pub not_u64 : ℕ → ℕ
not_u64 x = u64_mod - 1 - x

-- `u64::checked_add`, `u64::checked_mul`.
abbrev pub checked_add : ℕ → ℕ → Option ℕ
checked_add a b = if ltb (a + b) u64_mod then some (a + b) else none

abbrev pub checked_mul : ℕ → ℕ → Option ℕ
checked_mul a b = if ltb (a * b) u64_mod then some (a * b) else none

-- Any count of digits that reaches the first number gives the same result.
digits_enough :
    (z : ℕ → ℕ) (f : ℕ → ℕ → ℕ) (n m a b : ℕ) → a ≤ n → a ≤ m → digits z f n a b ≡ digits z f m a b
digits_enough z f zero zero a b p q = refl
digits_enough z f zero (suc m) zero b p q = refl
digits_enough z f zero (suc m) (suc a) b p q = absurd (omega arith)
digits_enough z f (suc n) zero zero b p q = refl
digits_enough z f (suc n) zero (suc a) b p q = absurd (omega arith)
digits_enough z f (suc n) (suc m) zero b p q = refl
digits_enough z f (suc n) (suc m) (suc a) b p q =
    ap (λ (d : ℕ). d * 2 + f (suc a % 2) (b % 2))
      (digits_enough z f n m (suc a / 2) (b / 2) (omega arith) (omega arith))

pub bit_and_halves : (a b : ℕ) → bit_and a b ≡ bit_and (a / 2) (b / 2) * 2 + min (a % 2) (b % 2)
bit_and_halves zero b = omega (arith, bit_and-bitwise 0 b, bit_and-bitwise 0 (b / 2))
bit_and_halves (suc a) b =
    let half : ℕ = suc a / 2 in
    omega (
      arith,
      bit_and-bitwise (suc a) b,
      bit_and-bitwise half (b / 2),
      digits_enough (λ x. zero) min a half half (b / 2) (omega arith) (omega arith),
    )

bit_or_halves : (a b : ℕ) → bit_or a b ≡ bit_or (a / 2) (b / 2) * 2 + max (a % 2) (b % 2)
bit_or_halves zero b = omega (arith, bit_or-bitwise 0 b, bit_or-bitwise 0 (b / 2))
bit_or_halves (suc a) b =
    let half : ℕ = suc a / 2 in
    omega (
      arith,
      bit_or-bitwise (suc a) b,
      bit_or-bitwise half (b / 2),
      digits_enough (λ x. x) max a half half (b / 2) (omega arith) (omega arith),
    )

bit_and-zero_below : (n a : ℕ) → a < n → bit_and a 0 ≡ 0
bit_and-zero_below zero a h = absurd (omega arith)
bit_and-zero_below (suc n) zero h = refl
bit_and-zero_below (suc n) (suc a) h =
    omega (arith, bit_and_halves (suc a) 0, bit_and-zero_below n (suc a / 2) (omega arith))

bit_or-zero_below : (n a : ℕ) → a < n → bit_or a 0 ≡ a
bit_or-zero_below zero a h = absurd (omega arith)
bit_or-zero_below (suc n) zero h = refl
bit_or-zero_below (suc n) (suc a) h =
    omega (arith, bit_or_halves (suc a) 0, bit_or-zero_below n (suc a / 2) (omega arith))

-- A mask of `n` low bits leaves the remainder.
low_of_split : (n a q r : ℕ) → a ≡ q * 2 ^ n + r → r < 2 ^ n → bit_and a (2 ^ n - 1) ≡ r
low_of_split zero a q r e h = omega (arith, bit_and-zero_below (suc a) a (omega arith))
low_of_split (suc n) a q r e h =
    let twice : q * 2 ^ suc n ≡ 2 * (q * 2 ^ n) =
      omega (arith, ap (λ (t : ℕ). q * t) (pow-suc 2 n)) in
    ground (
      arith,
      bit_and_halves a (2 ^ suc n - 1),
      pow-suc 2 n,
      one-le-pow n 2,
      low_of_split n (a / 2) q (r / 2) (omega (arith, pow-suc 2 n)) (omega (arith, pow-suc 2 n)),
    )

pub bit_and_low : (n a : ℕ) → bit_and a (2 ^ n - 1) ≡ a % 2 ^ n
bit_and_low n a =
    low_of_split n a (a / 2 ^ n) (a % 2 ^ n) (grind arith) (grind (arith, one-le-pow n 2))

-- A mask that is shifted one place up.
pub bit_and_up : (a m : ℕ) → bit_and a (m * 2) ≡ bit_and (a / 2) m * 2
bit_and_up a m = ground (arith, bit_and_halves a (m * 2))

pub bit_and_nibble : (a : ℕ) → bit_and a 0xf ≡ a % 16
bit_and_nibble a = bit_and_low 4 a

bit_or_up : (q r : ℕ) → bit_or (q * 2) r ≡ bit_or q (r / 2) * 2 + r % 2
bit_or_up q r = ground (arith, bit_or_halves (q * 2) r)

-- `(q << 4) | r`, for `r` in four bits.
pub bit_or_nibble : (q r : ℕ) → r < 16 → bit_or (q * 16) r ≡ q * 16 + r
bit_or_nibble q r h = ground (
  arith,
  bit_or_up (q * 8) r,
  bit_or_up (q * 4) (r / 2),
  bit_or_up (q * 2) (r / 2 / 2),
  bit_or_up q (r / 2 / 2 / 2),
  bit_or-zero_below (suc q) q (omega arith),
)

-- `a & !7` keeps what stands above the three low bits.
pub bit_and_above_three : (a : ℕ) → a < u64_mod → bit_and a (not_u64 7) ≡ a / 8 * 8
bit_and_above_three a h = omega (
  arith,
  bit_and_up a ((2 ^ 61 - 1) * 4),
  bit_and_up (a / 2) ((2 ^ 61 - 1) * 2),
  bit_and_up (a / 2 / 2) (2 ^ 61 - 1),
  bit_and_low 61 (a / 2 / 2 / 2),
)

-- `a & !255` keeps what stands above the eight low bits.
pub bit_and_above_eight : (a : ℕ) → a < u64_mod → bit_and a (not_u64 255) ≡ a / 256 * 256
bit_and_above_eight a h = omega (
  arith,
  bit_and_up a ((2 ^ 56 - 1) * 128),
  bit_and_up (a / 2) ((2 ^ 56 - 1) * 64),
  bit_and_up (a / 2 / 2) ((2 ^ 56 - 1) * 32),
  bit_and_up (a / 2 / 2 / 2) ((2 ^ 56 - 1) * 16),
  bit_and_up (a / 2 / 2 / 2 / 2) ((2 ^ 56 - 1) * 8),
  bit_and_up (a / 2 / 2 / 2 / 2 / 2) ((2 ^ 56 - 1) * 4),
  bit_and_up (a / 2 / 2 / 2 / 2 / 2 / 2) ((2 ^ 56 - 1) * 2),
  bit_and_up (a / 2 / 2 / 2 / 2 / 2 / 2 / 2) (2 ^ 56 - 1),
  bit_and_low 56 (a / 2 / 2 / 2 / 2 / 2 / 2 / 2 / 2),
)

-- If `a & !b` is zero then `a` is a subset of `b`: no mask finds more in `a` than in `b`.
subset_below :
    (n a b r : ℕ)
    → a < 2 ^ n
    → b < 2 ^ n
    → bit_and a (2 ^ n - 1 - b) ≡ 0
    → bit_and a r ≤ bit_and b r
subset_below zero a b r ha hb e = omega (arith, bit_and-bitwise 0 r, zero_mask a r (omega arith))
  where
    zero_mask : (a r : ℕ) → a < 1 → bit_and a r ≡ 0
    zero_mask zero r h = bit_and-bitwise 0 r
    zero_mask (suc a) r h = absurd (omega arith)
subset_below (suc n) a b r ha hb e = ground (
  arith,
  pow-suc 2 n,
  bit_and_halves a r,
  bit_and_halves b r,
  bit_and_halves a (2 ^ suc n - 1 - b),
  subset_below n (a / 2) (b / 2) (r / 2),
)

pub bit_and_subset :
    (a b r : ℕ) → a < u64_mod → b < u64_mod → bit_and a (not_u64 b) ≡ 0 → bit_and a r ≤ bit_and b r
bit_and_subset a b r ha hb e = subset_below 64 a b r ha hb e

-- `r | (q << n)`, for `r` in `n` bits.
pub bit_or_fields : (n q r : ℕ) → r < 2 ^ n → bit_or r (q * 2 ^ n) ≡ q * 2 ^ n + r
bit_or_fields zero q zero h = omega (arith, bit_or-bitwise 0 (q * 1))
bit_or_fields zero q (suc r) h = absurd (omega arith)
bit_or_fields (suc n) q r h =
    let twice : q * 2 ^ suc n ≡ 2 * (q * 2 ^ n) =
      omega (arith, ap (λ (t : ℕ). q * t) (pow-suc 2 n)) in
    ground (
      arith,
      bit_or_halves r (q * 2 ^ suc n),
      pow-suc 2 n,
      bit_or_fields n q (r / 2) (omega (arith, pow-suc 2 n)),
    )
