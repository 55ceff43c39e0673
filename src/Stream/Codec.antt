-- ===== src/Stream/Codec.antt =====
-- The codecs of src/lib/misc.c, an encoder with its decoder.
use pure.Prelude.{ℕ, ◌+◌, ◌*◌, ◌/◌, ◌%◌, ◌^◌, ◌<◌, ◌≡◌, arith}
use Prim.Native.Nat.{bit_or}
use pure.Bits.{bit_and-0xff, bit_or-shifted}
use pure.Stream.{byte_of, bytes16, bytes64, number16, number64}

-- One byte put above the bytes below it.
or_next :
    (s n acc : ℕ)
    → n % 2 ^ s < 2 ^ s
    → acc ≡ n % 2 ^ s
    → bit_or acc (byte_of n s * 2 ^ s) ≡ n % 2 ^ s + n / 2 ^ s % 256 * 2 ^ s
or_next s n acc small e =
    rw (e, bit_and-0xff (n / 2 ^ s)) (bit_or-shifted s (n % 2 ^ s) (n / 2 ^ s % 256) small)

-- The accumulator after the byte at a shift, and that it holds the digits up to that byte.
abbrev or_at : ℕ → ℕ → ℕ → ℕ
or_at s n acc = bit_or acc (byte_of n s * 2 ^ s)

abbrev low8 : ℕ → ℕ
low8 n = or_at 0 n 0

low8_lem : (n : ℕ) → low8 n ≡ n % 2 ^ 8
low8_lem n = omega (arith, or_next 0 n 0 (omega arith) (omega arith))

abbrev low16 : ℕ → ℕ
low16 n = or_at 8 n (low8 n)

low16_lem : (n : ℕ) → low16 n ≡ n % 2 ^ 16
low16_lem n = omega (arith, or_next 8 n (low8 n) (omega arith) (low8_lem n))

abbrev low24 : ℕ → ℕ
low24 n = or_at 16 n (low16 n)

low24_lem : (n : ℕ) → low24 n ≡ n % 2 ^ 24
low24_lem n = omega (arith, or_next 16 n (low16 n) (omega arith) (low16_lem n))

abbrev low32 : ℕ → ℕ
low32 n = or_at 24 n (low24 n)

low32_lem : (n : ℕ) → low32 n ≡ n % 2 ^ 32
low32_lem n = omega (arith, or_next 24 n (low24 n) (omega arith) (low24_lem n))

abbrev low40 : ℕ → ℕ
low40 n = or_at 32 n (low32 n)

low40_lem : (n : ℕ) → low40 n ≡ n % 2 ^ 40
low40_lem n = omega (arith, or_next 32 n (low32 n) (omega arith) (low32_lem n))

abbrev low48 : ℕ → ℕ
low48 n = or_at 40 n (low40 n)

low48_lem : (n : ℕ) → low48 n ≡ n % 2 ^ 48
low48_lem n = omega (arith, or_next 40 n (low40 n) (omega arith) (low40_lem n))

abbrev low56 : ℕ → ℕ
low56 n = or_at 48 n (low48 n)

low56_lem : (n : ℕ) → low56 n ≡ n % 2 ^ 56
low56_lem n = omega (arith, or_next 48 n (low48 n) (omega arith) (low48_lem n))

abbrev low64 : ℕ → ℕ
low64 n = or_at 56 n (low56 n)

low64_lem : (n : ℕ) → low64 n ≡ n % 2 ^ 64
low64_lem n = omega (arith, or_next 56 n (low56 n) (omega arith) (low56_lem n))

-- A number below 2 ^ 16 is decoded from its two bytes.
pub number16-bytes16 : (n : ℕ) → n < 2 ^ 16 → number16 (bytes16 n) ≡ n
unfolding number16 bytes16
number16-bytes16 n h = omega (arith, low16_lem n)

-- A number below 2 ^ 64 is decoded from its eight bytes.
pub number64-bytes64 : (n : ℕ) → n < 2 ^ 64 → number64 (bytes64 n) ≡ n
unfolding number64 bytes64
number64-bytes64 n h = omega (arith, low64_lem n)
