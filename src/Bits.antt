-- ===== src/Bits.antt =====
-- Facts on the native bit operations for the byte codecs: masks by 0xff, and the `|` of a value
-- with one shifted above it. Arithmetic in `uint64_t`.
pub mod Masks
use pure.Prelude.{
  ℕ, zero, suc, ◌+◌, ◌*◌, ◌/◌, ◌%◌, ◌^◌, ◌≤◌, ◌<◌, ◌≡◌, refl, arith, Bool, true, ◌&&◌,
}
use Prim.Native.Nat.{min, max, bit_and, bit_or, digits, bit_and-bitwise, bit_or-bitwise}
use native.Mathlib.Nat.{pow-suc}

abbrev pub u64 : ℕ → ℕ
u64 n = n % 2 ^ 64

-- The digit recursion that an operation stands for does not depend on its fuel, if there is enough.
module _ (op : ℕ → ℕ → ℕ) (base : ℕ → ℕ) where
  digits_enough : (f g a b : ℕ) → a ≤ f → a ≤ g → digits base op f a b ≡ digits base op g a b
  digits_enough zero zero a b p q = refl
  digits_enough zero (suc g) zero b p q = refl
  digits_enough zero (suc g) (suc a) b p q = absurd (omega arith)
  digits_enough (suc f) zero zero b p q = refl
  digits_enough (suc f) zero (suc a) b p q = absurd (omega arith)
  digits_enough (suc f) (suc g) zero b p q = refl
  digits_enough (suc f) (suc g) (suc a) b p q =
      omega (arith, digits_enough f g (suc a / 2) (b / 2) (omega arith) (omega arith))

pub zero-bit_and : (b : ℕ) → bit_and 0 b ≡ 0
zero-bit_and b = bit_and-bitwise 0 b

pub zero-bit_or : (b : ℕ) → bit_or 0 b ≡ b
zero-bit_or b = bit_or-bitwise 0 b

-- The lowest digit, and the digits above it.
pub low_and : (a b : ℕ) → bit_and a b ≡ bit_and (a / 2) (b / 2) * 2 + min (a % 2) (b % 2)
low_and zero b = omega (arith, zero-bit_and b, zero-bit_and (b / 2))
low_and (suc a) b = omega (
  arith,
  bit_and-bitwise (suc a) b,
  bit_and-bitwise (suc a / 2) (b / 2),
  digits_enough min (λ b. zero) a (suc a / 2) (suc a / 2) (b / 2) (omega arith) (omega arith),
)

pub low_or : (a b : ℕ) → bit_or a b ≡ bit_or (a / 2) (b / 2) * 2 + max (a % 2) (b % 2)
low_or zero b = omega (arith, zero-bit_or b, zero-bit_or (b / 2))
low_or (suc a) b = omega (
  arith,
  bit_or-bitwise (suc a) b,
  bit_or-bitwise (suc a / 2) (b / 2),
  digits_enough max (λ b. b) a (suc a / 2) (suc a / 2) (b / 2) (omega arith) (omega arith),
)

pub bit_and-zero_upto : (f a : ℕ) → a ≤ f → bit_and a 0 ≡ 0
bit_and-zero_upto f zero h = refl
bit_and-zero_upto zero (suc a) h = absurd (omega arith)
bit_and-zero_upto (suc f) (suc a) h =
    omega (arith, low_and (suc a) 0, bit_and-zero_upto f (suc a / 2) (omega arith))

-- `x & 0xf`
pub bit_and-0xf : (x : ℕ) → bit_and x 0xf ≡ x % 16
bit_and-0xf x = omega (arith, three (x / 2), low_and x 0xf)
  where
    one : (x : ℕ) → bit_and x 1 ≡ x % 2
    one x = omega (arith, low_and x 1, bit_and-zero_upto (x / 2) (x / 2) (omega arith))

    two : (x : ℕ) → bit_and x 3 ≡ x % 4
    two x = omega (arith, low_and x 3, one (x / 2))

    three : (x : ℕ) → bit_and x 7 ≡ x % 8
    three x = omega (arith, low_and x 7, two (x / 2))

-- `x & 0xff`
pub bit_and-0xff : (x : ℕ) → bit_and x 0xff ≡ x % 256
bit_and-0xff x = omega (arith, seven (x / 2), low_and x 0xff)
  where
    five : (x : ℕ) → bit_and x 31 ≡ x % 32
    five x = omega (arith, low_and x 31, bit_and-0xf (x / 2))

    six : (x : ℕ) → bit_and x 63 ≡ x % 64
    six x = omega (arith, low_and x 63, five (x / 2))

    seven : (x : ℕ) → bit_and x 127 ≡ x % 128
    seven x = omega (arith, low_and x 127, six (x / 2))

-- `a | (b << k)` is a sum where `a` has no more than `k` digits.
pub bit_or-shifted : (k a b : ℕ) → a < 2 ^ k → bit_or a (b * 2 ^ k) ≡ a + b * 2 ^ k
bit_or-shifted zero a b h = let e : a ≡ 0 = omega arith in rw e (omega (arith, zero-bit_or (b * 1)))
bit_or-shifted (suc k) a b h = rw pow-suc (one_digit (rw pow-suc at h) (bit_or-shifted k (a / 2) b))
  where
    one_digit :
        a < 2 ^ k * 2
        → (a / 2 < 2 ^ k → bit_or (a / 2) (b * 2 ^ k) ≡ a / 2 + b * 2 ^ k)
        → bit_or a (b * (2 ^ k * 2)) ≡ a + b * (2 ^ k * 2)
    one_digit h ih =
        let half : b * (2 ^ k * 2) / 2 ≡ b * 2 ^ k = omega arith in
        omega (arith, (rw half at (low_or a (b * (2 ^ k * 2)))), ih (omega arith))

-- A test at every number below a bound, for proofs by evaluation.
unfoldable pub every : ℕ → (ℕ → Bool) → Bool
every zero p = true
every (suc n) p = p n && every n p

pub every_lem : (n : ℕ) (p : ℕ → Bool) (x : ℕ) → every n p ≡ true → x < n → p x ≡ true
unfolding every
every_lem zero p x h k = elim k [ ]
every_lem (suc n) p x h k = ground (arith, every_lem n p x)
