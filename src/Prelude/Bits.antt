-- ===== src/Prelude/Bits.antt =====
-- Masks and shifts as arithmetic. Facts about one byte are tables, checked by evaluation; those
-- about a number of any width come from the digits that the native operations stand for.
use Prim.Native.Nat.{
  ℕ, zero, suc, ◌+◌, ◌*◌, ◌/◌, ◌%◌, ◌^◌, ◌≤◌, ◌<◌, max, bit_and, bit_or, digits, bit_or-bitwise,
}
use mathlib.Core.Path.{◌≡◌, refl}
use mathlib.Core.Bool.{Bool, true, ◌&&◌}
use native.Mathlib.Omega.{arith}
use lmc_rs.Prelude.Tests.{◌==◌, ==_iff}
use native.Mathlib.Nat.{pow-suc}

unfoldable pub all_below : ℕ → (ℕ → Bool) → Bool
all_below zero test = true
all_below (suc bound) test = all_below bound test && test bound

pub all_below_sound :
    (bound : ℕ) (test : ℕ → Bool) (v : ℕ) → all_below bound test ≡ true → v < bound → test v ≡ true
unfolding all_below
all_below_sound zero test v checked low = absurd (omega arith)
all_below_sound (suc bound) test v checked low = ground (arith, all_below_sound bound test v)

module _ (f g : ℕ → ℕ) where
  pub eq_below : (n : ℕ) → all_below n (λ x. f x == g x) ≡ true → (x : ℕ) → x < n → f x ≡ g x
  eq_below n h x lt = (==_iff _ _).0 (all_below_sound n (λ x. f x == g x) x h lt)

pub low_bits : (b : ℕ) → b < 256 → bit_and b 0x7f ≡ b % 128
unfolding all_below
low_bits = eq_below _ _ 256 refl

pub top_bit : (b : ℕ) → b < 256 → bit_and b 0x80 ≡ b / 128 * 128
unfolding all_below
top_bit = eq_below _ _ 256 refl

pub set_top_bit : (b : ℕ) → b < 128 → bit_or b 0x80 ≡ b + 128
unfolding all_below
set_top_bit = eq_below _ _ 128 refl

-- The digits of an `or`, on fuel; more fuel than the number changes nothing.
abbrev or_digits : ℕ → ℕ → ℕ → ℕ
or_digits fuel a b = digits (λ y. y) max fuel a b

less_fuel : (more fuel a b : ℕ) → fuel ≤ more → a ≤ fuel → or_digits more a b ≡ or_digits fuel a b
less_fuel zero zero a b less enough = refl
less_fuel more (suc fuel) zero b less enough = by_zero more
  where
    by_zero : (n : ℕ) → or_digits n 0 b ≡ b
    by_zero zero = refl
    by_zero (suc n) = refl
less_fuel (suc more) zero zero b less enough = refl
less_fuel more zero (suc a) b less enough = absurd (omega arith)
less_fuel zero (suc fuel) a b less enough = absurd (omega arith)
less_fuel (suc more) (suc fuel) (suc a) b less enough =
    omega (arith, less_fuel more fuel (suc a / 2) (b / 2) (omega arith) (omega arith))

exact_fuel : (fuel a b : ℕ) → a ≤ fuel → or_digits fuel a b ≡ bit_or a b
exact_fuel fuel a b enough =
    omega (arith, less_fuel fuel a a b enough (omega arith), bit_or-bitwise a b)

zero-bit_or : (b : ℕ) → bit_or 0 b ≡ b
zero-bit_or = bit_or-bitwise 0

bit_or_step : (a b : ℕ) → bit_or a b ≡ max (a % 2) (b % 2) + bit_or (a / 2) (b / 2) * 2
bit_or_step zero b = omega (arith, zero-bit_or (b / 2), zero-bit_or b)
bit_or_step (suc a) b =
    omega (arith, exact_fuel a (suc a / 2) (b / 2) (omega arith), bit_or-bitwise (suc a) b)

pow_double : (k : ℕ) → 2 ^ suc k ≡ 2 * 2 ^ k
pow_double k = simp pow-suc (omega arith)

-- An `or` with a number shifted past the other's digits is a sum.
pub bit_or_shifted : (k a b : ℕ) → a < 2 ^ k → bit_or a (b * 2 ^ k) ≡ a + b * 2 ^ k
bit_or_shifted zero a b h =
    let e : a ≡ 0 = omega arith in rw e (omega (arith, zero-bit_or (b * 2 ^ 0)))
bit_or_shifted (suc k) a b h =
    omega (arith, bit_or_step a (b * 2 ^ suc k), halves, bit_or_shifted k (a / 2) b below, double)
  where
    double : b * 2 ^ suc k ≡ 2 * (b * 2 ^ k)
    double = rw pow_double (omega arith)

    halves : bit_or (a / 2) (b * 2 ^ suc k / 2) ≡ bit_or (a / 2) (b * 2 ^ k)
    halves = rw double (rw half refl)
      where
        half : 2 * (b * 2 ^ k) / 2 ≡ b * 2 ^ k
        half = omega arith

    below : a / 2 < 2 ^ k
    below = omega (arith, pow_double k)

or_nibbles_table : (x : ℕ) → x < 256 → bit_or (x / 16 * 16) (x % 16) ≡ x
unfolding all_below
or_nibbles_table = eq_below _ _ 256 refl

-- The two halves of a byte.
pub or_nibbles : (hi lo : ℕ) → hi < 16 → lo < 16 → bit_or (hi * 16) lo ≡ hi * 16 + lo
or_nibbles hi lo p q =
    let high : (hi * 16 + lo) / 16 * 16 ≡ hi * 16 = omega arith in
    let low : (hi * 16 + lo) % 16 ≡ lo = omega arith in
    let table : bit_or ((hi * 16 + lo) / 16 * 16) ((hi * 16 + lo) % 16) ≡ hi * 16 + lo =
      or_nibbles_table (hi * 16 + lo) (omega arith) in
    rw (high, low) at table

pub high_nibble : (x : ℕ) → x < 256 → bit_and x 0xf0 / 16 ≡ x / 16
unfolding all_below
high_nibble = eq_below _ _ 256 refl

pub low_nibble : (x : ℕ) → x < 256 → bit_and x 0x0f ≡ x % 16
unfolding all_below
low_nibble = eq_below _ _ 256 refl
