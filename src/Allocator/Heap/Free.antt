-- ===== src/Allocator/Heap/Free.antt =====
-- `pure64_map_free`: which entries are left.
use pure.Prelude.{
  ℕ, ◌-◌, ◌^◌, ◌<◌, ◌≡◌, refl, ◌≢◌, false, none, some, List, [], ◌∷◌, drop_last, All, arith, inl,
  inr, Bool-cases, Option-cases, ◌==◌,
}
use mathlib.Core.List.{Perm, Permᴰ}
use mathlib.Core.List.Perm
use pure.Run.{Outcome, done}
use pure.Allocator.{Alloc, find_alloc_entry}
use pure.Allocator.Sort.Laws.{IsSorted, All-perm, sort_alloc_table-Sorts}
use pure.Allocator.Heap.{Heap, update_at, map_free}
use pure.Allocator.Heap.Last.{
  sort_entries-and_then, find_alloc_entry-perm, drop_last-perm, IsSorted-drop_last,
}

-- What a call for the address comes to: nothing if no block begins there, else the table without
-- one that does, in order.
pub data Frees (addr : ℕ) (h : Heap) (r : Outcome Heap (Unit {0})) : Type 0 where
  unknown : All (λ (x : Alloc). x.addr ≢ addr) h.allocs → r ≡ done tt h → Frees addr h r
  freed :
      (x : Alloc) (ys : List Alloc)
      → x.addr ≡ addr
      → Perm (x ∷ ys) h.allocs
      → IsSorted ys
      → r ≡ done tt (record h { allocs = ys })
      → Frees addr h r

not_found :
    (xs : List Alloc) (addr : ℕ)
    → find_alloc_entry xs addr ≡ none
    → All (λ (x : Alloc). x.addr ≢ addr) xs
unfolding find_alloc_entry
not_found [] addr h = tt
not_found (x ∷ xs) addr h = elim (Bool-cases (x.addr == addr)) [
  | inl e ↦ absurd (none-ne-some (rw (e, find_alloc_entry) at h))
  | inr e ↦ elim (Option-cases (find_alloc_entry xs addr)) [
    | inl n ↦ ((λ k. ground (arith, e)), not_found xs addr n)
    | inr (j, n) ↦ absurd (none-ne-some (rw (e, n, find_alloc_entry) at h))
  ]
]
  where
    none-ne-some : {j : ℕ} → some j ≡ none → ⊥
    none-ne-some q = cc

-- No block begins at the last address. Then `pure64_map_free` of an address other than NULL
-- removes exactly one block that begins there from the table, and sorts the others, or leaves the
-- table as it is if no block begins there.
pub map_free-Frees :
    (addr : ℕ) (h : Heap)
    → addr ≢ 0
    → All (λ (x : Alloc). x.addr < 2 ^ 64 - 1) h.allocs
    → Frees addr h (map_free addr h)
unfolding map_free
map_free-Frees addr h ne small = elim (Option-cases (find_alloc_entry h.allocs addr)) [
  | inl n ↦ unknown (not_found h.allocs addr n) (rw (not_null, n, map_free) refl)
  | inr (i, n) ↦
      let f : Alloc → Alloc = λ x. record x { addr = 2 ^ 64 - 1 } in
      let (x, rest, a, p, u) = find_alloc_entry-perm h.allocs addr i n in
      let (ys, e, q, s) = sort_alloc_table-Sorts (update_at h.allocs i f) in
      let low = All-perm (λ (y : Alloc). y.addr < 2 ^ 64 - 1) p small in
      freed x (drop_last ys) a
        (Perm.trans (Perm.cons x (drop_last-perm ys (f x) rest (Permᴰ.trans q (u f)) s low.1))
          (Perm.symm ∣ p ∣₁))
        (IsSorted-drop_last ys s) (rw (not_null, n, map_free) (sort_entries-and_then _ _ e))
]
  where
    not_null : (addr == 0) ≡ false
    not_null = ground arith
