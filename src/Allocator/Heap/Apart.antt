-- ===== src/Allocator/Heap/Apart.antt =====
-- Blocks that do not overlap, and the sections that they lie in.
use pure.Prelude.{
  ℕ, zero, suc, ◌+◌, ◌^◌, ◌<◌, ◌≤◌, ◌≡◌, true, List, [], ◌∷◌, All, arith, ◌⊎◌, inl, inr,
}
use mathlib.Core.Path.{subst}
use mathlib.Core.List.{Permᴰ}
use pure.Allocator.{E820, Alloc, e820_usable}
use pure.Allocator.Search.{end_of, Chain, Clear, LiesIn, All-map}
use pure.Allocator.Sort.Laws.{IsSorted, All-perm}
use pure.Allocator.Heap.{update_at}

-- A change of an entry that keeps its place.
module _ (f : Alloc → Alloc) (same_addr : (x : Alloc) → (f x).addr ≡ x.addr)
    (same_end : (x : Alloc) → end_of (f x) ≡ end_of x) where
  pub All-update :
      (P : Alloc → Type 0) (xs : List Alloc) (i : ℕ)
      → ((x : Alloc) → P x → P (f x))
      → All P xs
      → All P (update_at xs i f)
  All-update P [] i k h = tt
  All-update P (x ∷ xs) zero k h = (k x h.0, h.1)
  All-update P (x ∷ xs) (suc i) k h = (h.0, All-update P xs i k h.1)

  pub Chain-update : (xs : List Alloc) (i : ℕ) → Chain xs → Chain (update_at xs i f)
  Chain-update [] i h = tt
  Chain-update (x ∷ xs) zero h = (All-map xs (λ y k. omega (arith, same_end x)) h.0, h.1)
  Chain-update (x ∷ xs) (suc i) h = (
    All-update (λ y. end_of x ≤ y.addr) xs i (λ y k. omega (arith, same_addr y)) h.0,
    Chain-update xs i h.1,
  )

-- Two blocks that do not overlap.
abbrev pub Apart : Alloc → Alloc → Type 0
Apart x y = (end_of x ≤ y.addr) ⊎ (end_of y ≤ x.addr)

-- No block reaches from in front of a usable section into it, and no section wraps around.
abbrev pub Respects : List Alloc → List E820 → Type 0
Respects xs [] = Unit
Respects xs (e ∷ e820) =
    (e.addr + e.size + 1 < 2 ^ 64)
    × (e820_usable e ≡ true → All (λ (x : Alloc). x.addr < e.addr → end_of x ≤ e.addr) xs)
    × Respects xs e820

-- There is a block at address 0, longer than a byte.
abbrev pub HasBase : List Alloc → Type 0
HasBase [] = ⊥
HasBase (x ∷ xs) = ((x.addr ≡ 0) × (1 < end_of x)) ⊎ HasBase xs

no_block_at_one :
    (size2 size : ℕ) (xs : List Alloc) → 0 < size2 → HasBase xs → Clear 0 size2 size 1 xs → ⊥
no_block_at_one size2 size [] h b c = b
no_block_at_one size2 size (x ∷ xs) h (inl (z, e)) c = elim (c.0 (omega arith) (omega arith)) [
  | inl k ↦ omega arith
  | inr k ↦ omega arith
]
no_block_at_one size2 size (x ∷ xs) h (inr b) c = no_block_at_one size2 size xs h b c.1

Clear-of_All :
    (e : E820) (size a : ℕ) (xs : List Alloc)
    → e.addr ≤ a
    → a + size ≤ e.addr + e.size
    → Clear e.addr e.size size a xs
    → All (λ (x : Alloc). x.addr < e.addr → end_of x ≤ e.addr) xs
    → All (λ (x : Alloc). (a + size ≤ x.addr) ⊎ (end_of x ≤ a)) xs
Clear-of_All e size a [] low high c r = tt
Clear-of_All e size a (x ∷ xs) low high c r =
    (ground (arith, c.0, r.0), Clear-of_All e size a xs low high c.1 r.1)

-- The block overlaps none of the table.
abbrev pub ApartOfAll : ℕ → ℕ → List Alloc → Type 0
ApartOfAll size a xs = All (λ (x : Alloc). (a + size ≤ x.addr) ⊎ (end_of x ≤ a)) xs

pub LiesIn-ApartOfAll :
    (size a : ℕ) (xs : List Alloc) (e820 : List E820)
    → 0 < size
    → HasBase xs
    → Respects xs e820
    → LiesIn size a xs e820
    → ApartOfAll size a xs
LiesIn-ApartOfAll size a xs [] pos base r h = elim h [ ]
LiesIn-ApartOfAll size a xs (e ∷ e820) pos base r (inr h) =
    LiesIn-ApartOfAll size a xs e820 pos base r.2 h
LiesIn-ApartOfAll size a xs (e ∷ e820) pos base r (inl (u, low, some_addr, large, inl high, c)) =
    Clear-of_All e size a xs low high c (r.1 u)
LiesIn-ApartOfAll size a xs (e ∷ e820) pos base r
      (inl (u, low, some_addr, large, inr (z, o, w), c)) =
    absurd (
      no_block_at_one e.size size xs (omega arith) base
        (subst (λ v. Clear v e.size size 1 xs) z (subst (λ v. Clear e.addr e.size size v xs) o c)))

-- No two blocks overlap.
abbrev pub AllApart : List Alloc → Type 0
AllApart [] = Unit
AllApart (x ∷ xs) = All (Apart x) xs × AllApart xs

Apart-comm : (x y : Alloc) → Apart x y → Apart y x
Apart-comm x y (inl h) = inr h
Apart-comm x y (inr h) = inl h

pub AllApart-perm : {xs ys : List Alloc} → Permᴰ xs ys → AllApart xs → AllApart ys
AllApart-perm Permᴰ.nil h = tt
AllApart-perm (Permᴰ.cons {a} {l₂ = ys} e p) h =
    (subst (λ x. All (Apart x) ys) e (All-perm (Apart a) p h.0), AllApart-perm p h.1)
AllApart-perm (Permᴰ.swap {a} {b} {b'} {l} e e') h = (
  (
    subst (λ z. Apart z b') e' (subst (λ z. Apart b z) e (Apart-comm a b h.0.0)),
    subst (λ z. All (Apart z) l) e' h.1.0,
  ),
  (subst (λ z. All (Apart z) l) e h.0.1, h.1.1),
)
AllApart-perm (Permᴰ.trans p q) h = AllApart-perm q (AllApart-perm p h)

pub Chain-AllApart : (xs : List Alloc) → Chain xs → AllApart xs
Chain-AllApart [] h = tt
Chain-AllApart (x ∷ xs) h = (All-map xs (λ y k. inl k) h.0, Chain-AllApart xs h.1)

abbrev pub IsNonempty : Alloc → Type 0
IsNonempty x = x.addr < end_of x

-- Blocks in order that do not overlap stand one behind the other.
pub Chain-of_sorted : (ys : List Alloc) → IsSorted ys → AllApart ys → All IsNonempty ys → Chain ys
Chain-of_sorted [] s a n = tt
Chain-of_sorted (y ∷ ys) s a n = (behind y ys s.0 a.0 n.1, Chain-of_sorted ys s.1 a.1 n.1)
  where
    behind :
        (y : Alloc) (ys : List Alloc)
        → All (λ (z : Alloc). y.addr ≤ z.addr) ys
        → All (Apart y) ys
        → All IsNonempty ys
        → All (λ (z : Alloc). end_of y ≤ z.addr) ys
    behind y [] s a n = tt
    behind y (z ∷ ys) s a n = (ground arith, behind y ys s.1 a.1 n.1)
