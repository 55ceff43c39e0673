-- ===== src/Tool/Sums.antt =====
-- src/util/pure64.c: the bytes of a disk when the four checksums of its headers are stored.
use pure.Prelude.{
  ℕ, zero, suc, [], ◌∷◌, ◌+◌, ◌-◌, ◌*◌, ◌≤◌, ◌<◌, ◌≡◌, refl, sym, ap, ◌∙◌, arith, get_or, ◌⊎◌, inl,
  inr,
}
use mathlib.Core.Path.{subst}
use pure.CString.{Bytes}
use pure.Ahci.Disk.{bytes_at}
use pure.Tool.Gpt.{headers_size}
use pure.Tool.Host.{stored, bytes32}
use pure.Tool.Checksum.{crc32}
use pure.Tool.Stored.{
  length-bytes32, stored_out, stored_in, bytes_at_ext, bytes_at-stored, bytes_at-stored_out,
}

abbrev pub sum : Bytes → Bytes
sum xs = bytes32 (crc32 xs)

-- The bytes with four zeros.
abbrev pub blank : ℕ → (ℕ → ℕ) → ℕ → ℕ
blank p f = stored p (0 ∷ 0 ∷ 0 ∷ 0 ∷ []) f

-- The checksum of a header, which is taken with zeros in its own place, and that of the partition
-- headers, with the header at `h` and the partition headers at `array`.
abbrev pub IsSealed : (ℕ → ℕ) → ℕ → ℕ → Type 0
IsSealed f h array =
    (bytes_at f (h + 16) 4 ≡ bytes32 (crc32 (bytes_at (blank (h + 16) f) h 92)))
    × (bytes_at f (h + 88) 4 ≡ bytes32 (crc32 (bytes_at f array headers_size)))

-- A part that no field overlaps.
abbrev Apart : ℕ → ℕ → ℕ → Type 0
Apart a n p = (a + n ≤ p) ⊎ (p + 4 ≤ a)

-- A checksum stored in four bytes is read there, and other parts do not change.
bytes_at-sum : (p : ℕ) (xs : Bytes) (f : ℕ → ℕ) → bytes_at (stored p (sum xs) f) p 4 ≡ sum xs
bytes_at-sum p xs f =
    subst (λ n. bytes_at (stored p (sum xs) f) p n ≡ sum xs) (length-bytes32 (crc32 xs))
      (bytes_at-stored p (sum xs) f)

pub beside :
    (p : ℕ) (xs : Bytes) (f : ℕ → ℕ) (a n : ℕ)
    → Apart a n p
    → bytes_at (stored p (sum xs) f) a n ≡ bytes_at f a n
beside p xs f a n h = bytes_at-stored_out p (sum xs) f a n (rw (length-bytes32 (crc32 xs)) h)

beside_one :
    (p : ℕ) (xs : Bytes) (f : ℕ → ℕ) (a : ℕ) → (a < p) ⊎ (p + 4 ≤ a) → stored p (sum xs) f a ≡ f a
beside_one p xs f a h = stored_out p (sum xs) f a (rw (length-bytes32 (crc32 xs)) h)

abbrev pub array_of : ℕ → ℕ
array_of b = b * 512 - headers_size

-- The bytes of a header whose checksum is zero are what it is with zeros in the place of a checksum.
bytes_at-blank :
    (p : ℕ) (f g : ℕ → ℕ) (a n : ℕ)
    → ((x : ℕ) → p ≤ x → x < p + 4 → f x ≡ 0)
    → ((x : ℕ) → a ≤ x → x < a + n → (x < p) ⊎ (p + 4 ≤ x) → g x ≡ f x)
    → bytes_at f a n ≡ bytes_at (blank p g) a n
bytes_at-blank p f g a n zeros same =
    bytes_at_ext f (blank p g) a n (λ x l k. at_each x l k (where_is x))
  where
    where_is : (x : ℕ) → ((x < p) ⊎ (p + 4 ≤ x)) ⊎ ((p ≤ x) × (x < p + 4))
    where_is x = ground arith

    all_zero : (i : ℕ) → get_or {A = ℕ} (0 ∷ 0 ∷ 0 ∷ 0 ∷ []) i 0 ≡ 0
    all_zero zero = refl
    all_zero (suc zero) = refl
    all_zero (suc (suc zero)) = refl
    all_zero (suc (suc (suc zero))) = refl
    all_zero (suc (suc (suc (suc i)))) = refl

    at_each :
        (x : ℕ)
        → a ≤ x
        → x < a + n
        → ((x < p) ⊎ (p + 4 ≤ x)) ⊎ ((p ≤ x) × (x < p + 4))
        → f x ≡ blank p g x
    at_each x l k (inl out) = sym (stored_out p (0 ∷ 0 ∷ 0 ∷ 0 ∷ []) g x out ∙ same x l k out)
    at_each x l k (inr (low, high)) =
        zeros x low high ∙ sym (stored_in p (0 ∷ 0 ∷ 0 ∷ 0 ∷ []) g x low high ∙ all_zero (x - p))

-- The four checksums, one after the other.
module _ (f : ℕ → ℕ) (b : ℕ) where
  abbrev pub sum1 : ℕ → ℕ
  sum1 = stored 600 (sum (bytes_at f 1024 headers_size)) f

  abbrev pub sum2 : ℕ → ℕ
  sum2 = stored (b * 512 + 88) (sum (bytes_at sum1 (array_of b) headers_size)) sum1

  abbrev pub sum3 : ℕ → ℕ
  sum3 = stored (512 + 16) (sum (bytes_at sum2 512 92)) sum2

  abbrev pub sum4 : ℕ → ℕ
  sum4 = stored (b * 512 + 16) (sum (bytes_at sum3 (b * 512) 92)) sum3

  -- No checksum is stored in the place.
  abbrev pub Free : ℕ → Type 0
  Free x =
      ((x < 600) ⊎ (604 ≤ x))
      × ((x < b * 512 + 88) ⊎ (b * 512 + 92 ≤ x))
      × ((x < 528) ⊎ (532 ≤ x))
      × ((x < b * 512 + 16) ⊎ (b * 512 + 20 ≤ x))

  module _ (room : 66 ≤ b) where
    sum2_out :
        (x : ℕ) → (x < 600) ⊎ (604 ≤ x) → (x < b * 512 + 88) ⊎ (b * 512 + 92 ≤ x) → sum2 x ≡ f x
    sum2_out x h k =
        beside_one (b * 512 + 88) _ sum1 x (ground arith) ∙ beside_one 600 _ f x (ground arith)

    pub sum4_out : (x : ℕ) → Free x → sum4 x ≡ f x
    sum4_out x (h, k, l, m) =
        beside_one (b * 512 + 16) _ sum3 x (ground arith)
        ∙ beside_one 528 _ sum2 x (ground arith)
        ∙ sum2_out x h k

    pub front-IsSealed : ((x : ℕ) → 528 ≤ x → x < 532 → f x ≡ 0) → IsSealed sum4 512 1024
    front-IsSealed zeros = (
      beside (b * 512 + 16) _ sum3 528 4 (inl (omega arith))
          ∙ bytes_at-sum 528 _ sum2
          ∙ ap sum (
              bytes_at-blank 528 sum2 sum4 512 92
                (λ x l k. sum2_out x (inl (omega arith)) (inl (omega arith)) ∙ zeros x l k)
                (λ x l k out.
                  beside_one (b * 512 + 16) _ sum3 x (inl (omega arith))
                  ∙ beside_one 528 _ sum2 x out)),
      beside (b * 512 + 16) _ sum3 600 4 (inl (omega arith))
          ∙ beside 528 _ sum2 600 4 (inr (omega arith))
          ∙ beside (b * 512 + 88) _ sum1 600 4 (inl (omega arith))
          ∙ bytes_at-sum 600 _ f
          ∙ ap sum (
              sym (
                beside (b * 512 + 16) _ sum3 1024 headers_size (inl (omega arith))
                ∙ beside 528 _ sum2 1024 headers_size (inr (omega arith))
                ∙ beside (b * 512 + 88) _ sum1 1024 headers_size (inl (omega arith))
                ∙ beside 600 _ f 1024 headers_size (inr (omega arith)))),
    )

    pub back-IsSealed :
        ((x : ℕ) → b * 512 + 16 ≤ x → x < b * 512 + 20 → f x ≡ 0)
        → IsSealed sum4 (b * 512) (array_of b)
    back-IsSealed zeros = (
      bytes_at-sum (b * 512 + 16) _ sum3
          ∙ ap sum (
              bytes_at-blank (b * 512 + 16) sum3 sum4 (b * 512) 92
                (λ x l k.
                  beside_one 528 _ sum2 x (inr (omega arith))
                  ∙ sum2_out x (inr (omega arith)) (inl (omega arith))
                  ∙ zeros x l (omega arith))
                (λ x l k out. beside_one (b * 512 + 16) _ sum3 x out)),
      beside (b * 512 + 16) _ sum3 (b * 512 + 88) 4 (inr (omega arith))
          ∙ beside 528 _ sum2 (b * 512 + 88) 4 (inr (omega arith))
          ∙ bytes_at-sum (b * 512 + 88) _ sum1
          ∙ ap sum (
              sym (
                beside (b * 512 + 16) _ sum3 (array_of b) headers_size (inl (omega arith))
                ∙ beside 528 _ sum2 (array_of b) headers_size (inr (omega arith))
                ∙ beside (b * 512 + 88) _ sum1 (array_of b) headers_size (inl (omega arith)))),
    )
