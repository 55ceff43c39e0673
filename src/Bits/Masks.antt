-- ===== src/Bits/Masks.antt =====
-- Masks of low bits, of bits in the middle, and the order of the sides of `|`.
use pure.Prelude.{
  ℕ, zero, suc, ◌+◌, ◌-◌, ◌*◌, ◌/◌, ◌%◌, ◌^◌, ◌≤◌, ◌<◌, ◌≡◌, refl, sym, ap, ◌∙◌, arith, ◌==◌,
  ==_iff, true, false, Bool-cases, inl, inr,
}
use Prim.Native.Nat.{bit_and, bit_or}
use native.Mathlib.Nat.{
  pow-suc, add-mul-mod_self_right, mod-eq_of_lt, mod-lt, div-add-mod', div-div-eq-div-mul,
}
use pure.Bits.{low_and, low_or, zero-bit_or, bit_and-zero_upto}

pow-pos : (k : ℕ) → 1 ≤ 2 ^ k
pow-pos zero = omega arith
pow-pos (suc k) = rw pow-suc (omega (arith, pow-pos k))

-- The remainder by twice a number.
mod-double : (x m : ℕ) → 1 ≤ m → x % (m * 2) ≡ x / 2 % m * 2 + x % 2
mod-double x m h =
    let r : x / 2 % m < m = mod-lt (x / 2) h in
    let small : x / 2 % m * 2 + x % 2 < m * 2 = omega arith in
    let whole : x ≡ x / 2 % m * 2 + x % 2 + x / 2 / m * (m * 2) =
      grind (arith, div-add-mod' (x / 2) m) in
    ap (λ (t : ℕ). t % (m * 2)) whole
    ∙ add-mul-mod_self_right (x / 2 % m * 2 + x % 2) (x / 2 / m) (m * 2)
    ∙ mod-eq_of_lt small

-- `x & (2^k - 1)`
pub bit_and-low : (k x : ℕ) → bit_and x (2 ^ k - 1) ≡ x % 2 ^ k
bit_and-low zero x = omega (arith, bit_and-zero_upto x x (omega arith))
bit_and-low (suc k) x = rw pow-suc (double (2 ^ k) (pow-pos k) (bit_and-low k (x / 2)))
  where
    double :
        (m : ℕ) → 1 ≤ m → bit_and (x / 2) (m - 1) ≡ x / 2 % m → bit_and x (m * 2 - 1) ≡ x % (m * 2)
    double m h ih =
        let half : (m * 2 - 1) / 2 ≡ m - 1 = omega arith in
        omega (arith, (rw half at (low_and x (m * 2 - 1))), ih, mod-double x m h)

bit_or_comm_upto : (f a b : ℕ) → a + b ≤ f → bit_or a b ≡ bit_or b a
bit_or_comm_upto zero a b h =
    let p : a ≡ 0 = omega arith in let q : b ≡ 0 = omega arith in rw p (rw q refl)
bit_or_comm_upto (suc f) zero zero h = refl
bit_or_comm_upto (suc f) zero (suc b) h = omega (
  arith,
  zero-bit_or (suc b),
  low_or (suc b) 0,
  bit_or_comm_upto f 0 (suc b / 2) (omega arith),
  zero-bit_or (suc b / 2),
)
bit_or_comm_upto (suc f) (suc a) b h = omega (
  arith,
  low_or (suc a) b,
  low_or b (suc a),
  bit_or_comm_upto f (suc a / 2) (b / 2) (omega arith),
)

pub bit_or_comm : (a b : ℕ) → bit_or a b ≡ bit_or b a
bit_or_comm a b = bit_or_comm_upto (a + b) a b (omega arith)

-- `(a << k) & (b << k)`
pub bit_and-shifted : (k a b : ℕ) → bit_and (a * 2 ^ k) (b * 2 ^ k) ≡ bit_and a b * 2 ^ k
bit_and-shifted zero a b =
    let p : a * 2 ^ 0 ≡ a = omega arith in
    let q : b * 2 ^ 0 ≡ b = omega arith in rw (p, q) (omega arith)
bit_and-shifted (suc k) a b = rw pow-suc (double (2 ^ k) (bit_and-shifted k a b))
  where
    double :
        (m : ℕ)
        → bit_and (a * m) (b * m) ≡ bit_and a b * m
        → bit_and (a * (m * 2)) (b * (m * 2)) ≡ bit_and a b * (m * 2)
    double m ih =
        let p : a * (m * 2) / 2 ≡ a * m = omega arith in
        let q : b * (m * 2) / 2 ≡ b * m = omega arith in
        let e = (rw (p, q) at (low_and (a * (m * 2)) (b * (m * 2)))) in grind (arith, e, ih)

-- The bit `d` of a number.
abbrev pub bit : ℕ → ℕ → ℕ
bit a d = a / 2 ^ d % 2

pub bit-suc : (a d : ℕ) → bit a (suc d) ≡ bit (a / 2) d
bit-suc a d = rw pow-suc (
    ap (λ (t : ℕ). a / t % 2) (two_first (2 ^ d))
    ∙ ap (λ (t : ℕ). t % 2) (sym (div-div-eq-div-mul a 2 (2 ^ d))))
  where
    two_first : (m : ℕ) → m * 2 ≡ 2 * m
    two_first m = omega arith

-- `x & (1 << k)`
bit_and-power : (k x : ℕ) → bit_and x (2 ^ k) ≡ bit x k * 2 ^ k
bit_and-power zero x = omega (arith, bit_and-low 1 x)
bit_and-power (suc k) x = rw (bit-suc, pow-suc) (double (2 ^ k) (bit_and-power k (x / 2)))
  where
    double :
        (m : ℕ)
        → bit_and (x / 2) m ≡ bit (x / 2) k * m
        → bit_and x (m * 2) ≡ bit (x / 2) k * (m * 2)
    double m ih =
        let half : m * 2 / 2 ≡ m = omega arith in
        let e = (rw half at (low_and x (m * 2))) in grind (arith, e, ih)

-- The test of one bit.
pub bit-eq-zero : (x k : ℕ) → (bit_and x (2 ^ k) == 0) ≡ true → bit x k ≡ 0
bit-eq-zero x k h =
    zero_factor (bit x k) (2 ^ k) (pow-pos k) (sym (bit_and-power k x) ∙ (==_iff _ _).0 h)
  where
    zero_factor : (b m : ℕ) → 1 ≤ m → b * m ≡ 0 → b ≡ 0
    zero_factor zero m p e = refl
    zero_factor (suc b) m p e = absurd (grind (arith))

pub bit-eq-one : (x k : ℕ) → (bit_and x (2 ^ k) == 0) ≡ false → bit x k ≡ 1
bit-eq-one x k h = elim (Bool-cases (bit x k == 0)) [
  | inl e ↦ absurd (no_zero (bit_and-power k x) ((==_iff _ _).0 e))
  | inr e ↦ ground arith
]
  where
    no_zero : bit_and x (2 ^ k) ≡ bit x k * 2 ^ k → bit x k ≡ 0 → ⊥
    no_zero p q = ground (arith, ap (λ (t : ℕ). t * 2 ^ k) q)
