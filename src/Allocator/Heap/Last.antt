-- ===== src/Allocator/Heap/Last.antt =====
-- The last entry of a table, and the entry that a search finds.
use pure.Prelude.{
  ℕ, zero, suc, ◌<◌, ◌≤◌, ◌≡◌, refl, sym, ap, none, some, List, [], ◌∷◌, ◌++◌, drop_last, All,
  arith, ◌⊎◌, inl, inr, ==_iff, Bool-cases, Option-cases, ◌==◌,
}
use mathlib.Core.Path.{subst}
use mathlib.Core.List.{Perm, Permᴰ, perm-cons}
use mathlib.Core.List.Permᴰ
use pure.Allocator.{Alloc, find_alloc_entry}
use pure.Allocator.Sort.Laws.{IsSorted, All-perm, length-perm}
use pure.Allocator.Search.{All-map}
use pure.Allocator.Heap.{Heap, sort_entries, update_at, last_addr}
use pure.Allocator.Sort.{sort_alloc_table}
use pure.Run.{M, and_then}

-- A list that is not empty, as its last entry and the others.
pub split_last :
    (y : Alloc) (ys : List Alloc)
    → (w : Alloc) × (y ∷ ys ≡ drop_last (y ∷ ys) ++ w ∷ []) × (last_addr (y ∷ ys) ≡ w.addr)
split_last y [] = (y, refl, refl)
split_last y (z ∷ ys) = let (w, e, l) = split_last z ys in (w, ap (λ t. y ∷ t) e, l)

pub drop_last-append : (xs : List Alloc) (w : Alloc) → drop_last (xs ++ w ∷ []) ≡ xs
drop_last-append [] w = refl
drop_last-append (x ∷ []) w = refl
drop_last-append (x ∷ y ∷ xs) w = ap (λ t. x ∷ t) (drop_last-append (y ∷ xs) w)

-- In a sorted table the last entry has the highest address.
pub last_addr-highest :
    (ys : List Alloc) → IsSorted ys → All (λ (y : Alloc). y.addr ≤ last_addr ys) ys
last_addr-highest [] h = tt
last_addr-highest (y ∷ []) h = (omega arith, tt)
last_addr-highest (y ∷ z ∷ ys) h =
    let ih = last_addr-highest (z ∷ ys) h.1 in (omega (arith, h.0.0, ih.0), ih)

pub IsSorted-drop_last : (ys : List Alloc) → IsSorted ys → IsSorted (drop_last ys)
IsSorted-drop_last [] h = tt
IsSorted-drop_last (y ∷ []) h = tt
IsSorted-drop_last (y ∷ z ∷ ys) h = (All-drop_last y z ys h.0, IsSorted-drop_last (z ∷ ys) h.1)
  where
    All-drop_last :
        (y z : Alloc) (ys : List Alloc)
        → All (λ (x : Alloc). y.addr ≤ x.addr) (z ∷ ys)
        → All (λ (x : Alloc). y.addr ≤ x.addr) (drop_last (z ∷ ys))
    All-drop_last y z [] h = tt
    All-drop_last y z (x ∷ ys) h = (h.0, All-drop_last y x ys h.1)

abbrev OrBelow : Alloc → Alloc → Type 0
OrBelow x z = (z ≡ x) ⊎ (z.addr < x.addr)

All-last : (P : Alloc → Type 0) (zs : List Alloc) (w : Alloc) → All P (zs ++ w ∷ []) → P w
All-last P [] w h = h.0
All-last P (z ∷ zs) w h = All-last P zs w h.1

-- Where one entry has a higher address than all others, it is the last of the sorted table.
pub drop_last-perm :
    (ys : List Alloc) (x : Alloc) (rest : List Alloc)
    → Permᴰ ys (x ∷ rest)
    → IsSorted ys
    → All (λ (y : Alloc). y.addr < x.addr) rest
    → Perm (drop_last ys) rest
drop_last-perm [] x rest p s h = absurd (omega (arith, length-perm p))
drop_last-perm (y ∷ ys) x rest p s h =
    let (w, e, l) = split_last y ys in
    let zs = drop_last (y ∷ ys) in
    let q : w ≡ x =
      top w
        (All-last (OrBelow x) zs w (
          subst (All (OrBelow x)) e
            (All-perm (OrBelow x) (Permᴰ.symm p) (inl refl, All-map rest (λ z k. inr k) h))))
        (omega (
          arith,
          l,
          (All-perm (λ (z : Alloc). z.addr ≤ last_addr (y ∷ ys)) p
              (last_addr-highest (y ∷ ys) s)).0,
        )) in
    (perm-cons x).0
      ∣ Permᴰ.trans (Permᴰ.cons (sym q) (Permᴰ.symm (Permᴰ.append-nil zs)))
        (Permᴰ.trans (Permᴰ.symm (Permᴰ.middle w zs [])) (subst (λ t. Permᴰ t (x ∷ rest)) e p)) ∣₁
  where
    top : (w : Alloc) → OrBelow x w → x.addr ≤ w.addr → w ≡ x
    top w (inl q) k = q
    top w (inr q) k = absurd (omega arith)

-- The entry that is found, the others, and what a change of it comes to.
pub find_alloc_entry-perm :
    (xs : List Alloc) (addr i : ℕ)
    → find_alloc_entry xs addr ≡ some i
    → (x : Alloc) × (rest : List Alloc) × (x.addr ≡ addr)
      × Permᴰ xs (x ∷ rest)
      × ((f : Alloc → Alloc) → Permᴰ (update_at xs i f) (f x ∷ rest))
unfolding find_alloc_entry
find_alloc_entry-perm [] addr i h = absurd (none-ne-some h)
  where
    none-ne-some : none ≡ some i → ⊥
    none-ne-some q = cc
find_alloc_entry-perm (y ∷ ys) addr i h = elim (Bool-cases (y.addr == addr)) [
  | inl e ↦
      let z : zero ≡ i = some-injective _ _ (rw (e, find_alloc_entry) at h) in
      (y, ys, (==_iff _ _).0 e, Permᴰ.refl (y ∷ ys), λ f. rw (sym z) (Permᴰ.refl (f y ∷ ys)))
  | inr e ↦ elim (Option-cases (find_alloc_entry ys addr)) [
    | inl n ↦ absurd (none-ne-some (rw (e, n, find_alloc_entry) at h))
    | inr (j, n) ↦
        let z : suc j ≡ i = some-injective _ _ (rw (e, n, find_alloc_entry) at h) in
        let (x, rest, a, p, u) = find_alloc_entry-perm ys addr j n in
        (
          x,
          y ∷ rest,
          a,
          Permᴰ.trans (Permᴰ.cons refl p) (Permᴰ.swap refl refl),
          λ f. rw (sym z) (Permᴰ.trans (Permᴰ.cons refl (u f)) (Permᴰ.swap refl refl)),
        )
  ]
]
  where
    none-ne-some : none ≡ some i → ⊥
    none-ne-some q = cc

    some-injective : (a b : ℕ) → some a ≡ some b → a ≡ b
    some-injective a b q = cc

-- A sort of the entries, followed by the rest of the code.
pub sort_entries-and_then :
    {A : Type 0} {ys : List Alloc} (h : Heap) (k : Unit {0} → M Heap A)
    → sort_alloc_table h.allocs ≡ some ys
    → and_then (sort_entries h) k ≡ k tt (record h { allocs = ys })
sort_entries-and_then h k e = rw (e, sort_entries) refl
