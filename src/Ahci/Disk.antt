-- ===== src/Ahci/Disk.antt =====
-- src/stage-three/ahci.c: the disk behind a port, and what the stream's buffer holds of it.
use pure.Prelude.{
  ℕ, zero, suc, ◌+◌, ◌-◌, ◌*◌, ◌%◌, ◌^◌, ◌≤◌, ◌<◌, ◌≡◌, refl, ap, ◌∙◌, arith, ◌⊎◌, Bool, true, [],
  ◌∷◌, ◌++◌, length, take, drop,
}
use native.Mathlib.Nat.{zero-add, add-zero, suc-add, add-suc}
use pure.Run.{Outcome, M, done}
use pure.CString.{Bytes}
use pure.Ahci.Stream.{AhciStream, overwrite}

-- `n` bytes of a disk from an address on.
unfoldable pub bytes_at : (ℕ → ℕ) → ℕ → ℕ → Bytes
bytes_at disk a zero = []
bytes_at disk a (suc n) = disk a ∷ bytes_at disk (suc a) n

-- The device reads up to 1024 sectors at once, as many as the driver's table of entries can take,
-- and stores just their bytes.
abbrev pub Serves : {P : Type 0} → (ℕ → ℕ → M P (Bool × Bytes)) → (ℕ → ℕ) → Type 0
Serves {P} port_read disk =
    (sector count : ℕ) (p : P)
    → 1 ≤ count
    → count ≤ 1024
    → (q : P) × (port_read sector count p
        ≡ done (true, bytes_at disk (sector * 512) (count * 512)) q)

-- The cache holds the sector that it is said to hold, where that is not the first one.
pub record IsCoherent (disk : ℕ → ℕ) (st : AhciStream) : Type 0 where
  pub whole : length st.buf ≡ 512
  pub at_sector : st.buf_offset % 512 ≡ 0
  pub below : st.buf_offset + 512 < 2 ^ 64
  pub holds : (st.buf_offset ≡ 0) ⊎ (st.buf ≡ bytes_at disk st.buf_offset 512)

pub length-bytes_at : (disk : ℕ → ℕ) (a n : ℕ) → length (bytes_at disk a n) ≡ n
unfolding bytes_at
length-bytes_at disk a zero = refl
length-bytes_at disk a (suc n) = ap suc (length-bytes_at disk (suc a) n)

pub bytes_at-append :
    (disk : ℕ → ℕ) (a m n : ℕ)
    → bytes_at disk a (m + n) ≡ bytes_at disk a m ++ bytes_at disk (a + m) n
unfolding bytes_at
bytes_at-append disk a zero n = rw (zero-add, add-zero) refl
bytes_at-append disk a (suc m) n =
    rw (suc-add, add-suc, ← (suc-add a m)) (ap (λ t. disk a ∷ t) (bytes_at-append disk (suc a) m n))

pub take-bytes_at :
    (disk : ℕ → ℕ) (a m n : ℕ) → n ≤ m → take n (bytes_at disk a m) ≡ bytes_at disk a n
unfolding bytes_at
take-bytes_at disk a m zero h = refl
take-bytes_at disk a zero (suc n) h = absurd (omega arith)
take-bytes_at disk a (suc m) (suc n) h =
    ap (λ t. disk a ∷ t) (take-bytes_at disk (suc a) m n (omega arith))

pub drop-bytes_at :
    (disk : ℕ → ℕ) (a m n : ℕ) → drop n (bytes_at disk a (n + m)) ≡ bytes_at disk (a + n) m
unfolding bytes_at
drop-bytes_at disk a m zero = rw (zero-add, add-zero) refl
drop-bytes_at disk a m (suc n) =
    rw (suc-add, add-suc, ← (suc-add a n)) (drop-bytes_at disk (suc a) m n)

-- A part of the bytes.
pub slice-bytes_at :
    (disk : ℕ → ℕ) (a m from n : ℕ)
    → from + n ≤ m
    → take n (drop from (bytes_at disk a m)) ≡ bytes_at disk (a + from) n
slice-bytes_at disk a m from n h =
    let e : m ≡ from + (m - from) = omega arith in
    ap (λ (t : ℕ). take n (drop from (bytes_at disk a t))) e
    ∙ ap (take n) (drop-bytes_at disk a (m - from) from)
    ∙ take-bytes_at disk (a + from) (m - from) n (omega arith)

-- The region holds what was stored from its beginning on.
abbrev pub Filled : Bytes → Bytes → Type 0
Filled pre out = (length pre ≤ length out) × (take (length pre) out ≡ pre)

pub Filled-nothing : (disk : ℕ → ℕ) (a : ℕ) (out : Bytes) → Filled (bytes_at disk a 0) out
unfolding bytes_at
Filled-nothing disk a out = (omega arith, refl)

pub length-overwrite : (to : ℕ) (xs out : Bytes) → length (overwrite to xs out) ≡ length out
length-overwrite zero xs [] = refl
length-overwrite (suc to) xs [] = refl
length-overwrite zero [] (y ∷ out) = refl
length-overwrite zero (x ∷ xs) (y ∷ out) = ap suc (length-overwrite zero xs out)
length-overwrite (suc to) xs (y ∷ out) = ap suc (length-overwrite to xs out)

take-overwrite :
    (xs out : Bytes) → length xs ≤ length out → take (length xs) (overwrite 0 xs out) ≡ xs
take-overwrite [] out h = refl
take-overwrite (x ∷ xs) [] h = absurd (omega arith)
take-overwrite (x ∷ xs) (y ∷ out) h = ap (λ t. x ∷ t) (take-overwrite xs out (omega arith))

pub overwrite-Filled :
    (pre xs out : Bytes)
    → Filled pre out
    → length pre + length xs ≤ length out
    → Filled (pre ++ xs) (overwrite (length pre) xs out)
overwrite-Filled [] xs out h k =
    (omega (arith, length-overwrite 0 xs out), take-overwrite xs out (omega arith))
overwrite-Filled (x ∷ pre) xs [] h k = absurd (omega arith)
overwrite-Filled (x ∷ pre) xs (y ∷ out) h k =
    let (le, e) = overwrite-Filled pre xs out (omega arith, cc) (omega arith) in
    (omega (arith, le), cc)

-- A region that is filled from end to end.
pub Filled-whole : (pre out : Bytes) → Filled pre out → length pre ≡ length out → out ≡ pre
Filled-whole [] [] h e = refl
Filled-whole [] (y ∷ out) h e = absurd (omega arith)
Filled-whole (x ∷ pre) [] h e = absurd (omega arith)
Filled-whole (x ∷ pre) (y ∷ out) h e =
    let rest = Filled-whole pre out (omega arith, cc) (omega arith) in cc

-- The run gives `size` bytes at the position and moves behind them. The cache is coherent then, with
-- the sector that begins at the offset.
abbrev pub Gives :
    {P : Type 0} → (ℕ → ℕ) → ℕ → AhciStream → ℕ → Outcome (AhciStream × P) (Bool × Bytes) → Type 0
Gives {P} disk size st offset r =
    (st' : AhciStream) × (q : P) × (r ≡ done (true, bytes_at disk st.position size) (st', q))
    × (st'.position ≡ st.position + size)
    × (st'.buf_offset ≡ offset)
    × IsCoherent disk st'
