-- ===== src/Prelude/Bits.antt =====
-- The mask of the k lowest bits keeps a number's remainder by 2 ^ k.
use Prim.Native.Nat.{ℕ, zero, suc, ◌+◌, ◌*◌, ◌/◌, ◌%◌, ◌≤◌, min, bit_and, digits, bit_and-bitwise}
use mathlib.Core.Path.{◌≡◌, refl, subst}
use native.Mathlib.Omega.{arith}

abbrev rounds : ℕ → ℕ → ℕ → ℕ
rounds = digits (λ b. zero) min

-- Rounds past the first number's size change nothing.
rounds_enough : (n m a b : ℕ) → a ≤ n → a ≤ m → rounds n a b ≡ rounds m a b
rounds_enough zero zero a b p q = refl
rounds_enough zero (suc m) zero b p q = refl
rounds_enough (suc n) zero zero b p q = refl
rounds_enough (suc n) (suc m) zero b p q = refl
rounds_enough zero _ (suc a) b p q = absurd (omega arith)
rounds_enough (suc n) zero (suc a) b p q = absurd (omega arith)
rounds_enough (suc n) (suc m) (suc a) b p q =
    omega (arith, rounds_enough n m (suc a / 2) (b / 2) (omega arith) (omega arith))

bit_and_halves : (a b : ℕ) → bit_and a b ≡ bit_and (a / 2) (b / 2) * 2 + min (a % 2) (b % 2)
bit_and_halves zero b = omega (arith, bit_and-bitwise 0 b, bit_and-bitwise 0 (b / 2))
bit_and_halves (suc a) b = omega (
  arith,
  bit_and-bitwise (suc a) b,
  bit_and-bitwise (suc a / 2) (b / 2),
  rounds_enough a (suc a / 2) (suc a / 2) (b / 2) (omega arith) (omega arith),
)

bit_and-zero : (n a : ℕ) → a ≤ n → bit_and a 0 ≡ 0
bit_and-zero n zero h = refl
bit_and-zero zero (suc a) h = absurd (omega arith)
bit_and-zero (suc n) (suc a) h =
    omega (arith, bit_and_halves (suc a) 0, bit_and-zero n (suc a / 2) (omega arith))

-- 2 ^ k and 2 ^ k - 1, by doubling.
abbrev size : ℕ → ℕ
size zero = 1
size (suc k) = 2 * size k

abbrev mask : ℕ → ℕ
mask zero = 0
mask (suc k) = 2 * mask k + 1

bit_and-odd : (a m : ℕ) → bit_and a (2 * m + 1) ≡ bit_and (a / 2) m * 2 + a % 2
bit_and-odd a m =
    let e : (2 * m + 1) / 2 ≡ m = omega arith in
    let h : bit_and a (2 * m + 1) ≡ bit_and (a / 2) m * 2 + min (a % 2) ((2 * m + 1) % 2) =
      subst (λ t. bit_and a (2 * m + 1) ≡ bit_and (a / 2) t * 2 + min (a % 2) ((2 * m + 1) % 2)) e
        (bit_and_halves a (2 * m + 1)) in
    omega (arith, h)

bit_and-mask : (k a : ℕ) → (q r : ℕ) → a ≡ q * size k + r → suc r ≤ size k → bit_and a (mask k) ≡ r
bit_and-mask zero a q r e h = omega (arith, bit_and-zero a a (omega arith))
bit_and-mask (suc k) a q r e h =
    omega
      (arith, bit_and-odd a (mask k), bit_and-mask k (a / 2) q (r / 2) (omega arith) (omega arith))

-- The low half-word of a word packed from two.
pub bit_and-low_half : (hi lo : ℕ) → suc lo ≤ 65536 → bit_and (hi * 65536 + lo) 65535 ≡ lo
bit_and-low_half hi lo h = bit_and-mask 16 (hi * 65536 + lo) hi lo refl h
