-- ===== src/Inode/TypeBits.antt =====
-- `mode | type` in client/fs_ops/local_ops.cpp, for permission bits and the type bits of a mode.
use Prim.Native.Nat.{bit_or, digits, bit_or-bitwise, max}
use native.Mathlib.Nat.{mul_assoc}
use nmfs.Prelude.{ap, sym, ◌∙◌, ℕ, zero, suc, ◌+◌, ◌*◌, ◌/◌, ◌%◌, ◌^◌, ◌≤◌, ◌<◌, ◌≡◌, refl, arith}

abbrev or_digits : ℕ → ℕ → ℕ → ℕ
or_digits n a b = digits (λ b. b) max n a b

or_digits_fuel : (n m a b : ℕ) → a ≤ n → a ≤ m → or_digits n a b ≡ or_digits m a b
or_digits_fuel zero zero a b p q = refl
or_digits_fuel zero (suc m) zero b p q = refl
or_digits_fuel zero (suc m) (suc a) b p q = absurd (omega arith)
or_digits_fuel (suc n) zero zero b p q = refl
or_digits_fuel (suc n) zero (suc a) b p q = absurd (omega arith)
or_digits_fuel (suc n) (suc m) zero b p q = refl
or_digits_fuel (suc n) (suc m) (suc a) b p q =
    omega (arith, or_digits_fuel n m (suc a / 2) (b / 2) (omega arith) (omega arith))

zero-bit_or : (b : ℕ) → bit_or 0 b ≡ b
zero-bit_or b = bit_or-bitwise 0 b

bit_or_step : (a b : ℕ) → bit_or a b ≡ bit_or (a / 2) (b / 2) * 2 + max (a % 2) (b % 2)
bit_or_step zero b = omega (arith, zero-bit_or b, zero-bit_or (b / 2))
bit_or_step (suc a) b = omega (
  arith,
  bit_or-bitwise (suc a) b,
  bit_or-bitwise (suc a / 2) (b / 2),
  or_digits_fuel a (suc a / 2) (suc a / 2) (b / 2) (omega arith) (omega arith),
)

-- Bits below the lowest bit of the other number.
bit_or-add : (k a t : ℕ) → a < 2 ^ k → bit_or a (t * 2 ^ k) ≡ a + t * 2 ^ k
bit_or-add zero zero t h = omega (arith, zero-bit_or (t * 2 ^ 0))
bit_or-add zero (suc a) t h = absurd (omega arith)
bit_or-add (suc k) a t h =
    let power : 2 ^ suc k ≡ 2 ^ k * 2 = omega arith in
    let high : t * 2 ^ suc k ≡ t * 2 ^ k * 2 =
      ap (λ (p : ℕ). t * p) power ∙ sym (mul_assoc t (2 ^ k) 2) in
    let below : a / 2 < 2 ^ k = omega (arith, power) in
    let rest = bit_or-add k (a / 2) t below in
    let half : t * 2 ^ k * 2 / 2 ≡ t * 2 ^ k = omega arith in
    rw high (bit_or_step a (t * 2 ^ k * 2) ∙ rw (half, rest) (omega arith))

pub bit_or-type : (mode t : ℕ) → mode < 4096 → bit_or mode (t * 4096) ≡ mode + t * 4096
bit_or-type mode t h = bit_or-add 12 mode t h
