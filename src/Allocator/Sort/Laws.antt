-- ===== src/Allocator/Sort/Laws.antt =====
-- The sort ends, with the same entries in order.
use pure.Prelude.{
  ℕ, zero, suc, ◌+◌, ◌*◌, ◌<◌, ◌≤◌, ◌≡◌, refl, ap, ◌∙◌, Bool, true, false, Option, some, List, [],
  ◌∷◌, ltb, if◌then◌else◌, length, All, arith, Bool-cases, inl, inr,
}
use mathlib.Core.Path.{subst}
use mathlib.Core.List.{Permᴰ}
use mathlib.Core.List.Permᴰ
use pure.Allocator.{Alloc}
use pure.Allocator.Sort.{bubble, sort_pass, sort_loop, sort_alloc_table}

pub All-perm : (P : Alloc → Type 0) {xs ys : List Alloc} → Permᴰ xs ys → All P xs → All P ys
All-perm P Permᴰ.nil h = tt
All-perm P (Permᴰ.cons e p) h = (subst P e h.0, All-perm P p h.1)
All-perm P (Permᴰ.swap e e') h = (subst P e' h.1.0, (subst P e h.0, h.1.1))
All-perm P (Permᴰ.trans p q) h = All-perm P q (All-perm P p h)

pub length-perm : {xs ys : List Alloc} → Permᴰ xs ys → length xs ≡ length ys
length-perm Permᴰ.nil = refl
length-perm (Permᴰ.cons e p) = ap suc (length-perm p)
length-perm (Permᴰ.swap e e') = refl
length-perm (Permᴰ.trans p q) = length-perm p ∙ length-perm q

-- How many entries begin before an address, and how many pairs are in the wrong order.
abbrev one_below : ℕ → Alloc → ℕ
one_below a x = if ltb (Alloc.addr x) a then 1 else 0

abbrev below : ℕ → List Alloc → ℕ
below a [] = 0
below a (x ∷ xs) = one_below a x + below a xs

abbrev inversions : List Alloc → ℕ
inversions [] = 0
inversions (x ∷ xs) = below x.addr xs + inversions xs

below-perm : (a : ℕ) {xs ys : List Alloc} → Permᴰ xs ys → below a xs ≡ below a ys
below-perm a Permᴰ.nil = refl
below-perm a (Permᴰ.cons e p) = omega (arith, ap (one_below a) e, below-perm a p)
below-perm a (Permᴰ.swap e e') = omega (arith, ap (one_below a) e, ap (one_below a) e')
below-perm a (Permᴰ.trans p q) = below-perm a p ∙ below-perm a q

below-le : (a : ℕ) (xs : List Alloc) → below a xs ≤ length xs
below-le a [] = omega arith
below-le a (x ∷ xs) = ground (arith, below-le a xs)

inversions-le : (xs : List Alloc) → inversions xs ≤ length xs * length xs
inversions-le [] = omega arith
inversions-le (x ∷ xs) = grind (arith, below-le x.addr xs, inversions-le xs)

pub bubble-perm : (x : Alloc) (xs : List Alloc) → Permᴰ (bubble x xs).0 (x ∷ xs)
unfolding bubble
bubble-perm x [] = Permᴰ.refl (x ∷ [])
bubble-perm x (y ∷ ys) = elim (Bool-cases (ltb y.addr x.addr)) [
  | inl e ↦ rw (e, bubble) (Permᴰ.trans (Permᴰ.cons refl (bubble-perm x ys)) (Permᴰ.swap refl refl))
  | inr e ↦ rw (e, bubble) (Permᴰ.cons refl (bubble-perm y ys))
]

abbrev flagged : Bool → ℕ
flagged true = 1
flagged false = 0

bubble-inversions :
    (x : Alloc) (xs : List Alloc)
    → inversions (bubble x xs).0 + flagged (bubble x xs).1 ≤ inversions (x ∷ xs)
unfolding bubble
bubble-inversions x [] = omega arith
bubble-inversions x (y ∷ ys) = elim (Bool-cases (ltb y.addr x.addr)) [
  | inl e ↦
      rw (e, bubble)
        (ground (arith, below-perm y.addr (bubble-perm x ys), bubble-inversions x ys, e))
  | inr e ↦
      rw (e, bubble)
        (ground (arith, below-perm x.addr (bubble-perm y ys), bubble-inversions y ys, e))
]

-- Where nothing was moved the entries were in order.
abbrev pub IsSorted : List Alloc → Type 0
IsSorted [] = Unit
IsSorted (x ∷ xs) = All (λ (y : Alloc). x.addr ≤ y.addr) xs × IsSorted xs

All-le :
    (a b : ℕ) (xs : List Alloc)
    → a ≤ b
    → All (λ (y : Alloc). b ≤ y.addr) xs
    → All (λ (y : Alloc). a ≤ y.addr) xs
All-le a b [] h k = tt
All-le a b (x ∷ xs) h k = (omega (arith, k.0), All-le a b xs h k.1)

bubble-IsSorted :
    (x : Alloc) (xs : List Alloc)
    → (bubble x xs).1 ≡ false
    → IsSorted (x ∷ xs) × ((bubble x xs).0 ≡ x ∷ xs)
unfolding bubble
bubble-IsSorted x [] h = ((tt, tt), refl)
bubble-IsSorted x (y ∷ ys) h = elim (Bool-cases (ltb y.addr x.addr)) [
  | inl e ↦ absurd (true-ne-false (rw (e, bubble) at h))
  | inr e ↦
      let (s, q) = bubble-IsSorted y ys (rw (e, bubble) at h) in
      let low : x.addr ≤ y.addr = ground (arith, e) in
      rw (e, q, bubble) (((low, All-le x.addr y.addr ys low s.0), s), refl)
]
  where
    true-ne-false : true ≡ false → ⊥
    true-ne-false q = cc

sort_pass-perm : (xs : List Alloc) → Permᴰ (sort_pass xs).0 xs
unfolding sort_pass
sort_pass-perm [] = Permᴰ.nil
sort_pass-perm (x ∷ xs) = bubble-perm x xs

sort_pass-inversions :
    (xs : List Alloc) → inversions (sort_pass xs).0 + flagged (sort_pass xs).1 ≤ inversions xs
unfolding sort_pass
sort_pass-inversions [] = omega arith
sort_pass-inversions (x ∷ xs) = bubble-inversions x xs

sort_pass-IsSorted :
    (xs : List Alloc) → (sort_pass xs).1 ≡ false → IsSorted xs × ((sort_pass xs).0 ≡ xs)
unfolding sort_pass
sort_pass-IsSorted [] h = (tt, refl)
sort_pass-IsSorted (x ∷ xs) h = bubble-IsSorted x xs h

abbrev pub Sorts : List Alloc → Option (List Alloc) → Type 0
Sorts xs o = (ys : List Alloc) × (o ≡ some ys) × Permᴰ ys xs × IsSorted ys

sort_loop-Sorts : (fuel : ℕ) (xs : List Alloc) → inversions xs < fuel → Sorts xs (sort_loop fuel xs)
unfolding sort_loop
sort_loop-Sorts zero xs h = absurd (omega arith)
sort_loop-Sorts (suc fuel) xs h = elim (Bool-cases ((sort_pass xs).1)) [
  | inr e ↦
      let (s, q) = sort_pass-IsSorted xs e in (xs, rw (e, sort_loop) (ap some q), Permᴰ.refl xs, s)
  | inl e ↦
      let (ys, q, p, s) =
        sort_loop-Sorts fuel (sort_pass xs).0 (omega (arith, rw e at (sort_pass-inversions xs))) in
      (ys, rw (e, sort_loop) q, Permᴰ.trans p (sort_pass-perm xs), s)
]

-- On every table the sort ends, and leaves the same entries, in the order of their addresses.
pub sort_alloc_table-Sorts : (xs : List Alloc) → Sorts xs (sort_alloc_table xs)
unfolding sort_alloc_table
sort_alloc_table-Sorts xs =
    sort_loop-Sorts (suc (length xs * length xs)) xs (omega (arith, inversions-le xs))
