-- ===== src/Prelude/Bits.antt =====
-- Single bits of a word under `|` and `&`, from the digit recursion of the native operations.
use Prim.Native.Nat.{
  ℕ, zero, suc, ◌+◌, ◌-◌, ◌*◌, ◌/◌, ◌%◌, ◌^◌, ◌≤◌, ◌<◌, min, max, bit_and, bit_or, digits,
  bit_and-bitwise, bit_or-bitwise,
}
use native.Mathlib.Nat.{le_refl, div-div-eq-div-mul, pow-suc, mul_comm}
use mathlib.Core.Path.{◌≡◌, refl, ap}
use mathlib.Core.Bool.{Bool, true, ◌&&◌}
use native.Mathlib.Omega.{arith}
use neems_core.Prelude.Tests.{◌==◌, ==_iff, if◌then◌else◌, ltb, ltb→lt}

-- The digits of `x` do not depend on how much fuel is left over.
module _ (base : ℕ → ℕ) (op : ℕ → ℕ → ℕ) where
  spare_fuel :
      (x y fuel more : ℕ) → x ≤ more → x ≤ fuel → digits base op more x y ≡ digits base op fuel x y
  spare_fuel zero y zero zero more_ok fuel_ok = refl
  spare_fuel zero y zero (suc more) more_ok fuel_ok = refl
  spare_fuel zero y (suc fuel) zero more_ok fuel_ok = refl
  spare_fuel zero y (suc fuel) (suc more) more_ok fuel_ok = refl
  spare_fuel (suc x) y zero more more_ok fuel_ok = absurd (omega arith)
  spare_fuel (suc x) y (suc fuel) zero more_ok fuel_ok = absurd (omega arith)
  spare_fuel (suc x) y (suc fuel) (suc more) more_ok fuel_ok =
      let halves = spare_fuel (suc x / 2) (y / 2) fuel more (omega arith) (omega arith) in
      rw halves refl

-- A word under `&` or `|` from its halves and its lowest digits.
pub bit_and_halves : (x y : ℕ) → min (x % 2) (y % 2) + 2 * bit_and (x / 2) (y / 2) ≡ bit_and x y
bit_and_halves zero y = simp bit_and-bitwise (omega arith)
bit_and_halves (suc x) y =
    let enough =
      spare_fuel (λ r. 0) min (suc x / 2) (y / 2) (suc x / 2) x (omega arith) (le_refl _) in
    simp bit_and-bitwise (omega (arith, enough))

pub bit_or_halves : (x y : ℕ) → max (x % 2) (y % 2) + 2 * bit_or (x / 2) (y / 2) ≡ bit_or x y
bit_or_halves zero y = simp bit_or-bitwise (omega arith)
bit_or_halves (suc x) y =
    let enough =
      spare_fuel (λ r. r) max (suc x / 2) (y / 2) (suc x / 2) x (omega arith) (le_refl _) in
    simp bit_or-bitwise (omega (arith, enough))

-- Bit `k` of `x`, as 0 or 1, by halving.
pub digit : ℕ → ℕ → ℕ
digit zero x = x % 2
digit (suc k) x = digit k (x / 2)

-- It is what a right shift by `k` leaves in the lowest place.
pub digit-shift : (k x : ℕ) → x / 2 ^ k % 2 ≡ digit k x
unfolding digit
digit-shift zero x = omega arith
digit-shift (suc k) x =
    rw (pow-suc 2 k, mul_comm (2 ^ k) 2, ← div-div-eq-div-mul x 2 (2 ^ k)) (digit-shift k (x / 2))

pub digit-lt : (k x : ℕ) → digit k x < 2
unfolding digit
digit-lt zero x = omega arith
digit-lt (suc k) x = digit-lt k (x / 2)

pub digit-bit_or : (k a b : ℕ) → digit k (bit_or a b) ≡ max (digit k a) (digit k b)
unfolding digit
digit-bit_or zero a b = omega (arith, bit_or_halves a b)
digit-bit_or (suc k) a b =
    let half : bit_or a b / 2 ≡ bit_or (a / 2) (b / 2) = omega (arith, bit_or_halves a b) in
    rw half (digit-bit_or k (a / 2) (b / 2))

pub digit-bit_and : (k a b : ℕ) → digit k (bit_and a b) ≡ min (digit k a) (digit k b)
unfolding digit
digit-bit_and zero a b = omega (arith, bit_and_halves a b)
digit-bit_and (suc k) a b =
    let half : bit_and a b / 2 ≡ bit_and (a / 2) (b / 2) = omega (arith, bit_and_halves a b) in
    rw half (digit-bit_and k (a / 2) (b / 2))

bit_or-lt_pow : (k a b : ℕ) → a < 2 ^ k → b < 2 ^ k → bit_or a b < 2 ^ k
bit_or-lt_pow zero a b p q = omega (arith, bit_or-lt_pow_zero a b p q)
  where
    bit_or-lt_pow_zero : (a b : ℕ) → a < 1 → b < 1 → bit_or a b < 1
    bit_or-lt_pow_zero zero zero p q = omega arith
    bit_or-lt_pow_zero (suc a) b p q = absurd (omega arith)
    bit_or-lt_pow_zero zero (suc b) p q = absurd (omega arith)
bit_or-lt_pow (suc k) a b p q = omega (
  arith,
  bit_or_halves a b,
  pow-suc 2 k,
  bit_or-lt_pow k (a / 2) (b / 2) (omega (arith, pow-suc 2 k)) (omega (arith, pow-suc 2 k)),
)

-- A 16-bit word stays one under `|`.
pub bit_or-lt : (a b : ℕ) → a < 65536 → b < 65536 → bit_or a b < 65536
bit_or-lt a b p q = bit_or-lt_pow 16 a b p q

bit_or-zero : (a : ℕ) → bit_or a 0 ≡ a
bit_or-zero a = bounded a a (le_refl a)
  where
    bounded : (n a : ℕ) → a ≤ n → bit_or a 0 ≡ a
    bounded n zero h = refl
    bounded zero (suc a) h = absurd (omega arith)
    bounded (suc n) (suc a) h =
        omega (arith, bit_or_halves (suc a) 0, bounded n (suc a / 2) (omega arith))

bit_and-zero : (a : ℕ) → bit_and a 0 ≡ 0
bit_and-zero a = bounded a a (le_refl a)
  where
    bounded : (n a : ℕ) → a ≤ n → bit_and a 0 ≡ 0
    bounded n zero h = refl
    bounded zero (suc a) h = absurd (omega arith)
    bounded (suc n) (suc a) h =
        omega (arith, bit_and_halves (suc a) 0, bounded n (suc a / 2) (omega arith))

pub bit_and-one : (a : ℕ) → bit_and a 1 ≡ a % 2
bit_and-one a = omega (arith, bit_and_halves a 1, bit_and-zero (a / 2))

bit_and-le_left : (k a b : ℕ) → a ≤ k → bit_and a b ≤ a
bit_and-le_left k zero b h = omega (arith, bit_and-bitwise 0 b)
bit_and-le_left zero (suc a) b h = absurd (omega arith)
bit_and-le_left (suc k) (suc a) b h =
    omega (arith, bit_and_halves (suc a) b, bit_and-le_left k (suc a / 2) (b / 2) (omega arith))

pub bit_and-le : (a b : ℕ) → bit_and a b ≤ a
bit_and-le a b = bit_and-le_left a a b (le_refl a)

-- `(q << k) | r` is a sum where `r` fits into `k` bits.
pub bit_or-shl : (k q r : ℕ) → r < 2 ^ k → bit_or (q * 2 ^ k) r ≡ q * 2 ^ k + r
bit_or-shl zero q r h = ground (arith, bit_or-zero q)
bit_or-shl (suc k) q r h = ground (
  arith,
  bit_or_halves (q * 2 ^ suc k) r,
  ap (λ (t : ℕ). q * t) (pow-suc 2 k),
  bit_or-shl k q (r / 2) (omega (arith, pow-suc 2 k)),
)

-- The masks `1 << j` and `!(1 << j)` of a 16-bit word, checked at all 256 pairs of positions.
pub every_position : (ℕ → Bool) → ℕ → Bool
every_position test zero = true
every_position test (suc n) = every_position test n && test n

pub every_position-at :
    (test : ℕ → Bool) (n i : ℕ) → i < n → every_position test n ≡ true → test i ≡ true
unfolding every_position
every_position-at test zero i inside h = absurd (omega arith)
every_position-at test (suc n) i inside h = ground (arith, every_position-at test n i)

abbrev set_mask : ℕ → ℕ → Bool
set_mask k j = digit k (2 ^ j) == (if k == j then 1 else 0)

abbrev clear_mask : ℕ → ℕ → Bool
clear_mask k j = digit k (65535 - 2 ^ j) == (if k == j then 0 else 1)

set_mask_table : every_position (λ k. every_position (set_mask k) 16) 16 ≡ true
unfolding every_position digit
set_mask_table = refl

clear_mask_table : every_position (λ k. every_position (clear_mask k) 16) 16 ≡ true
unfolding every_position digit
clear_mask_table = refl

pub digit-set_mask : (k j : ℕ) → k < 16 → j < 16 → digit k (2 ^ j) ≡ (if k == j then 1 else 0)
digit-set_mask k j p q = (==_iff _ _).0 (
    every_position-at (set_mask k) 16 j q
      (every_position-at (λ k. every_position (set_mask k) 16) 16 k p set_mask_table))

pub digit-clear_mask :
    (k j : ℕ) → k < 16 → j < 16 → digit k (65535 - 2 ^ j) ≡ (if k == j then 0 else 1)
digit-clear_mask k j p q = (==_iff _ _).0 (
    every_position-at (clear_mask k) 16 j q
      (every_position-at (λ k. every_position (clear_mask k) 16) 16 k p clear_mask_table))

pub pow-lt_word : (j : ℕ) → j < 16 → 2 ^ j < 65536
unfolding every_position
pow-lt_word j h = ltb→lt _ _ (every_position-at (λ j. ltb (2 ^ j) 65536) 16 j h table)
  where
    table : every_position (λ j. ltb (2 ^ j) 65536) 16 ≡ true
    table = refl
