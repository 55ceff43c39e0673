-- ===== src/CString/Copy.antt =====
-- Copies of names.
use pure.Prelude.{
  ℕ, zero, suc, ◌<◌, ◌≡◌, refl, ap, [], ◌∷◌, All, take, drop, length, replicate, arith, ◌++◌, ◌≤◌,
}
use pure.CString.{Bytes, IsText, strlen, text, memcpy, copy_name}

-- `pure64_memcpy` of at most the source's size into a buffer at least as large: the copied bytes
-- first, then what the buffer held behind them.
pub memcpy_lem :
    (dst src : Bytes) (size : ℕ)
    → size ≤ length src
    → size ≤ length dst
    → memcpy dst src size ≡ take size src ++ drop size dst
unfolding memcpy
memcpy_lem dst src zero hs hd = refl
memcpy_lem [] src (suc size) hs hd = absurd (omega arith)
memcpy_lem (d ∷ dst) [] (suc size) hs hd = absurd (omega arith)
memcpy_lem (d ∷ dst) (s ∷ src) (suc size) hs hd =
    ap (λ t. s ∷ t) (memcpy_lem dst src size (omega arith) (omega arith))

take-memcpy_fresh :
    (name : Bytes)
    → take (strlen name) (memcpy (replicate (suc (strlen name)) 0) name (strlen name)) ≡ text name
unfolding strlen memcpy
take-memcpy_fresh [] = refl
take-memcpy_fresh (c ∷ name) = ground (arith, take-memcpy_fresh name)

-- The copy of a name is its text up to the first NUL.
pub copy_name-text : (name : Bytes) → copy_name name ≡ text name
unfolding copy_name
copy_name-text name = take-memcpy_fresh name

pub text-IsText : (name : Bytes) → All (λ c. c < 256) name → IsText (text name)
text-IsText [] h = tt
text-IsText (c ∷ name) h = ground (arith, text-IsText name h.1)
