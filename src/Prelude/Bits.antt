-- ===== src/Prelude/Bits.antt =====
-- The bits of a machine word: `&`, `|` and masks, bit by bit and as arithmetic.
use Prim.Native.Nat.{
  ℕ, zero, suc, ◌+◌, ◌-◌, ◌*◌, ◌/◌, ◌%◌, ◌^◌, ◌≤◌, ◌<◌, min, max, bit_and, bit_or, digits,
  bit_and-bitwise, bit_or-bitwise,
}
use mathlib.Core.Path.{◌≡◌, refl, ap, ◌∙◌}
use mathlib.Core.Bool.{Bool, false, not, ◌&&◌, ◌||◌}
use native.Mathlib.Nat.{pow-suc, one-le-pow}
use native.Mathlib.Omega.{arith}
use plugins_engine.Prelude.Tests.{◌==◌}

-- Both operations go through the same digit recursion, whose count only has to be large enough.
digits_count :
    (z : ℕ → ℕ) (f : ℕ → ℕ → ℕ) (n m x y : ℕ) → x ≤ n → x ≤ m → digits z f n x y ≡ digits z f m x y
digits_count z f n zero zero y p q = at_zero n
  where
    at_zero : (k : ℕ) → digits z f k zero y ≡ z y
    at_zero zero = refl
    at_zero (suc k) = refl
digits_count z f zero (suc m) zero y p q = refl
digits_count z f (suc n) (suc m) zero y p q = refl
digits_count z f n zero (suc x) y p q = absurd (omega arith)
digits_count z f zero (suc m) (suc x) y p q = absurd (omega arith)
digits_count z f (suc n) (suc m) (suc x) y p q =
    ap (λ (d : ℕ). d * 2 + f (suc x % 2) (y % 2))
      (digits_count z f n m (suc x / 2) (y / 2) (omega arith) (omega arith))

zero-bit_or : (y : ℕ) → bit_or 0 y ≡ y
zero-bit_or y = bit_or-bitwise 0 y

zero-bit_and : (y : ℕ) → bit_and 0 y ≡ 0
zero-bit_and y = bit_and-bitwise 0 y

pub bit_or_step : (x y : ℕ) → bit_or x y ≡ bit_or (x / 2) (y / 2) * 2 + max (x % 2) (y % 2)
bit_or_step zero y = omega (arith, zero-bit_or y, zero-bit_or (y / 2))
bit_or_step (suc x) y = omega (
  arith,
  bit_or-bitwise (suc x) y,
  bit_or-bitwise (suc x / 2) (y / 2),
  digits_count (λ d. d) max x (suc x / 2) (suc x / 2) (y / 2) (omega arith) (omega arith),
)

pub bit_and_step : (x y : ℕ) → bit_and x y ≡ bit_and (x / 2) (y / 2) * 2 + min (x % 2) (y % 2)
bit_and_step zero y = omega (arith, zero-bit_and y, zero-bit_and (y / 2))
bit_and_step (suc x) y = omega (
  arith,
  bit_and-bitwise (suc x) y,
  bit_and-bitwise (suc x / 2) (y / 2),
  digits_count (λ d. 0) min x (suc x / 2) (suc x / 2) (y / 2) (omega arith) (omega arith),
)

-- Bit `k` of a word.
unfoldable pub test_bit : ℕ → ℕ → Bool
test_bit x zero = x % 2 == 1
test_bit x (suc k) = test_bit (x / 2) k

pub test_bit-bit_or : (k a b : ℕ) → test_bit (bit_or a b) k ≡ (test_bit a k || test_bit b k)
unfolding test_bit
test_bit-bit_or zero a b = ground (arith, bit_or_step a b)
test_bit-bit_or (suc k) a b = ap (λ x. test_bit x k) half ∙ test_bit-bit_or k (a / 2) (b / 2)
  where
    half : bit_or a b / 2 ≡ bit_or (a / 2) (b / 2)
    half = omega (arith, bit_or_step a b)

pub test_bit-bit_and : (k a b : ℕ) → test_bit (bit_and a b) k ≡ (test_bit a k && test_bit b k)
unfolding test_bit
test_bit-bit_and zero a b = ground (arith, bit_and_step a b)
test_bit-bit_and (suc k) a b = ap (λ x. test_bit x k) half ∙ test_bit-bit_and k (a / 2) (b / 2)
  where
    half : bit_and a b / 2 ≡ bit_and (a / 2) (b / 2)
    half = omega (arith, bit_and_step a b)

-- The digits of `0` on the right.
or_digits-zero : (n x : ℕ) → x ≤ n → digits (λ d. d) max n x 0 ≡ x
or_digits-zero zero x h = omega arith
or_digits-zero (suc n) zero h = refl
or_digits-zero (suc n) (suc x) h = omega (arith, or_digits-zero n (suc x / 2) (omega arith))

and_digits-zero : (n x : ℕ) → digits (λ d. 0) min n x 0 ≡ 0
and_digits-zero zero x = refl
and_digits-zero (suc n) zero = refl
and_digits-zero (suc n) (suc x) = omega (arith, and_digits-zero n (suc x / 2))

pub bit_or-zero : (x : ℕ) → bit_or x 0 ≡ x
bit_or-zero x = bit_or-bitwise x 0 ∙ or_digits-zero x x (omega arith)

pub bit_and-zero : (x : ℕ) → bit_and x 0 ≡ 0
bit_and-zero x = bit_and-bitwise x 0 ∙ and_digits-zero x x

-- A C condition `if (x & m)`.
unfoldable pub masked : ℕ → ℕ → Bool
masked x m = not (bit_and x m == 0)

pub masked_step : (x m : ℕ) → masked x m ≡ (x % 2 == 1 && m % 2 == 1 || masked (x / 2) (m / 2))
unfolding masked
masked_step x m = ground (arith, bit_and_step x m)

pub masked-zero : (x : ℕ) → masked x 0 ≡ false
unfolding masked
masked-zero x = ground (arith, bit_and-zero x)

-- A mask of one bit.
pub masked-pow : (k x : ℕ) → masked x (2 ^ k) ≡ test_bit x k
unfolding test_bit
masked-pow zero x = ground (arith, masked_step x 1, masked-zero (x / 2))
masked-pow (suc k) x = ground (
  arith,
  masked_step x (2 ^ suc k),
  pow-suc 2 k,
  masked-pow k (x / 2),
  ap (masked (x / 2)) (half k),
)
  where
    half : (j : ℕ) → 2 ^ suc j / 2 ≡ 2 ^ j
    half j = omega (arith, pow-suc 2 j)

bit_or_even : (q r : ℕ) → bit_or (q * 2) r ≡ bit_or q (r / 2) * 2 + r % 2
bit_or_even q r = ground (arith, bit_or_step (q * 2) r, ap (λ (h : ℕ). bit_or h (r / 2)) (halved q))
  where
    halved : (n : ℕ) → n * 2 / 2 ≡ n
    halved n = omega arith

bit_or_shift : (k q r : ℕ) → r < 2 ^ k → bit_or (q * 2 ^ k) r ≡ q * 2 ^ k + r
bit_or_shift zero q r h = ground (arith, bit_or-zero q)
bit_or_shift (suc k) q r h = rw twice (
    omega (arith, bit_or_even (q * 2 ^ k) r, bit_or_shift k q (r / 2) (omega (arith, pow-suc 2 k))))
  where
    twice : q * 2 ^ suc k ≡ q * 2 ^ k * 2
    twice = omega (arith, ap (λ (t : ℕ). q * t) (pow-suc 2 k))

-- `(q << 8) | r` for a byte `r`.
pub bit_or_byte : (q r : ℕ) → r < 256 → bit_or (q * 256) r ≡ q * 256 + r
bit_or_byte q r h = bit_or_shift 8 q r h

bit_and_low : (k q r : ℕ) → r < 2 ^ k → bit_and (q * 2 ^ k + r) (2 ^ k - 1) ≡ r
bit_and_low zero q r h = omega (arith, bit_and-zero (q * 1 + r))
bit_and_low (suc k) q r h = ground (
  arith,
  pow-suc 2 k,
  ap (λ (t : ℕ). q * t) (pow-suc 2 k),
  bit_and_step (q * 2 ^ suc k + r) (2 ^ suc k - 1),
  bit_and_low k q (r / 2),
  one-le-pow k 2,
)

-- `x & 0xffff`.
pub bit_and_u16 : (x : ℕ) → bit_and x 65535 ≡ x % 65536
bit_and_u16 x = rw split_word at (bit_and_low 16 (x / 65536) (x % 65536) (omega arith))
  where
    split_word : x / 65536 * 65536 + x % 65536 ≡ x
    split_word = omega arith

-- The complement `~x` on `n` bits.
pub test_bit-complement :
    (n k x : ℕ) → x < 2 ^ n → k < n → test_bit (2 ^ n - 1 - x) k ≡ not (test_bit x k)
unfolding test_bit
test_bit-complement zero k x h lt = absurd (omega arith)
test_bit-complement (suc n) zero x h lt = ground (arith, pow-suc 2 n, one-le-pow n 2)
test_bit-complement (suc n) (suc k) x h lt =
    ap (λ y. test_bit y k) half
    ∙ test_bit-complement n k (x / 2) (omega (arith, pow-suc 2 n)) (omega arith)
  where
    half : (2 ^ suc n - 1 - x) / 2 ≡ 2 ^ n - 1 - x / 2
    half = omega (arith, pow-suc 2 n, one-le-pow n 2)
