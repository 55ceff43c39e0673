-- ===== src/Allocator/Heap/Malloc.antt =====
-- `pure64_map_malloc`: where the new block lies, and which address is returned.
use pure.Prelude.{
  ℕ, zero, suc, ◌+◌, ◌*◌, ◌^◌, ◌<◌, ◌≤◌, ◌≡◌, refl, ap, ◌∙◌, ◌≢◌, true, false, some, List, [], ◌∷◌,
  ◌++◌, drop_last, length, All, arith, inl, inr, Bool-cases, leb, ◌==◌,
}
use mathlib.Core.List.{Perm, Permᴰ}
use mathlib.Core.List.Permᴰ
use pure.Bits.{u64}
use pure.Run.{Outcome, done}
use pure.Allocator.{E820, Alloc, alloc_bytes, find_alloc_entry, find_suitable_addr}
use pure.Allocator.Search.{end_of, Chain, InBounds, find_suitable_addr-LiesIn}
use pure.Allocator.Sort.Laws.{All-perm, sort_alloc_table-Sorts}
use pure.Allocator.Heap.{
  Heap, update_at, reserved_at, round_up, last_addr, map_resize, append_alloc, place_last,
  map_malloc, boundary,
}
use pure.Allocator.Heap.Last.{sort_entries-and_then, drop_last-append}
use pure.Allocator.Heap.Apart.{
  All-update, Chain-update, Respects, HasBase, LiesIn-ApartOfAll, AllApart, AllApart-perm,
  Chain-AllApart, IsNonempty, Chain-of_sorted,
}

-- What the last part of an allocation comes to, for the blocks `xs` that are there.
pub data Allocates (size reserved : ℕ) (xs : List Alloc) (h : Heap) (r : Outcome Heap ℕ)
    : Type 0 where
  refused : r ≡ done 0 (record h { allocs = xs }) → Allocates size reserved xs h r
  allocated :
      (a : ℕ) (ys : List Alloc)
      → 0 < a
      → Perm ys ((record { addr = a; size = size; reserved = reserved }) ∷ xs)
      → Chain ys
      → r ≡ done (last_addr ys) (record h { allocs = ys })
      → Allocates size reserved xs h r

place_last-Allocates :
    (size reserved : ℕ) (xs : List Alloc) (h : Heap)
    → h.allocs ≡ xs ++ (record { addr = 0; size = size; reserved = reserved }) ∷ []
    → 0 < reserved
    → InBounds reserved xs
    → All IsNonempty xs
    → Chain xs
    → HasBase xs
    → Respects xs h.e820
    → Allocates size reserved xs h
        (place_last reserved (record { addr = 0; size = size; reserved = reserved }) h)
unfolding place_last
place_last-Allocates size reserved xs h q pos bounds full chain base respects =
    elim (Bool-cases (find_suitable_addr h.e820 xs reserved == 0)) [
      | inl z ↦ refused (rw (others, z, place_last) refl)
      | inr nz ↦
          let a = find_suitable_addr h.e820 xs reserved in
          let new : Alloc = record { addr = a; size = size; reserved = reserved } in
          let found : a ≢ 0 = λ k. ground (arith, nz) in
          let apart = LiesIn-ApartOfAll reserved a xs h.e820 pos base respects (
            find_suitable_addr-LiesIn h.e820 xs reserved (sections xs h.e820 respects) bounds chain
              found) in
          let (ys, e, p, s) = sort_alloc_table-Sorts (xs ++ new ∷ []) in
          let p' : Permᴰ ys (new ∷ xs) =
            Permᴰ.trans p
              (Permᴰ.trans (Permᴰ.middle new xs []) (Permᴰ.cons refl (Permᴰ.append-nil xs))) in
          let disjoint : AllApart ys =
            AllApart-perm (Permᴰ.symm p') (apart, Chain-AllApart xs chain) in
          let ne : All IsNonempty ys = All-perm IsNonempty (Permᴰ.symm p') (omega arith, full) in
          allocated a ys (ground (arith, nz)) ∣ p' ∣₁ (Chain-of_sorted ys s disjoint ne)
            (rw (others, nz, place_last) (sort_entries-and_then _ _ e))
    ]
  where
    others : drop_last h.allocs ≡ xs
    others = ap drop_last q ∙ drop_last-append xs _

    sections :
        (xs : List Alloc) (e820 : List E820)
        → Respects xs e820
        → All (λ (e : E820). e.addr + e.size + 1 < 2 ^ 64) e820
    sections xs [] r = tt
    sections xs (e ∷ e820) r = (r.0, sections xs e820 r.2)

-- The entries once the table, at index `i`, has been given room for one more.
abbrev pub grown : Heap → ℕ → List Alloc
grown h i =
    update_at h.allocs i (λ x. record x { size = u64 (u64 (length h.allocs + 1) * alloc_bytes) })

HasBase-update :
    (n i : ℕ) (xs : List Alloc) → HasBase xs → HasBase (update_at xs i (λ x. record x { size = n }))
HasBase-update n i [] b = b
HasBase-update n zero (x ∷ xs) (inl b) = inl b
HasBase-update n zero (x ∷ xs) (inr b) = inr b
HasBase-update n (suc i) (x ∷ xs) (inl b) = inl b
HasBase-update n (suc i) (x ∷ xs) (inr b) = inr (HasBase-update n i xs b)

Respects-update :
    (n i : ℕ) (xs : List Alloc) (e820 : List E820)
    → Respects xs e820
    → Respects (update_at xs i (λ x. record x { size = n })) e820
Respects-update n i xs [] r = tt
Respects-update n i xs (e ∷ e820) r = (
  r.0,
  (λ u.
      All-update (λ x. record x { size = n }) (λ x. refl) (λ x. refl)
        (λ x. x.addr < e.addr → end_of x ≤ e.addr) xs i (λ x k. k) (r.1 u)),
  Respects-update n i xs e820 r.2,
)

round_up-pos : (size : ℕ) → 0 < size → size + boundary < 2 ^ 64 → 0 < round_up size
round_up-pos size pos small = ground arith

-- Where the table's block has room, the entry is appended in place.
append_alloc-in_place :
    (i : ℕ) (h : Heap) (alloc : Alloc)
    → (h.table == 0) ≡ false
    → find_alloc_entry h.allocs h.table ≡ some i
    → leb (u64 (u64 (length h.allocs + 1) * alloc_bytes)) (reserved_at h.allocs i) ≡ true
    → append_alloc alloc h ≡ done true (record h { allocs = grown h i ++ alloc ∷ [] })
unfolding append_alloc
append_alloc-in_place i h alloc not_null found room = rw (resized, not_null, append_alloc) refl
  where
    n : ℕ
    n = u64 (u64 (length h.allocs + 1) * alloc_bytes)

    resized :
        map_resize h.table n h
        ≡ done (record { addr = h.table; copy = grown h i }) (record h { allocs = grown h i })
    resized = unfold map_resize in rw (found, room, map_resize) refl

-- The table is set up and its own block, at index `i`, has room for one more entry; the blocks
-- stand one behind the other, none of them empty, and reach from no place in front of a usable
-- section into it; there is a block at address 0; and no sum wraps around. Then
-- `pure64_map_malloc` of a size above 0 returns NULL and adds no block; or it adds one block, of
-- `size` bytes rounded up, which overlaps no other, puts the table in order, and returns the
-- address of the last block of the table, whichever the new one is.
pub map_malloc-Allocates :
    (size i : ℕ) (h : Heap)
    → h.table ≢ 0
    → find_alloc_entry h.allocs h.table ≡ some i
    → leb (u64 (u64 (length h.allocs + 1) * alloc_bytes)) (reserved_at h.allocs i) ≡ true
    → 0 < size
    → size + boundary < 2 ^ 64
    → InBounds (round_up size) h.allocs
    → All IsNonempty h.allocs
    → Chain h.allocs
    → HasBase h.allocs
    → Respects h.allocs h.e820
    → Allocates size (round_up size) (grown h i) h (map_malloc size h)
unfolding map_malloc
map_malloc-Allocates size i h set_up found room pos small bounds full chain base respects =
    rw (not_null, append_alloc-in_place i h alloc not_null found room, map_malloc)
      (again (
        place_last-Allocates size (round_up size) (grown h i) appended refl
          (round_up-pos size pos small)
          (All-update f (λ x. refl) (λ x. refl) _ h.allocs i (λ x k. k) bounds)
          (All-update f (λ x. refl) (λ x. refl) _ h.allocs i (λ x k. k) full)
          (Chain-update f (λ x. refl) (λ x. refl) h.allocs i chain)
          (HasBase-update n i h.allocs base) (Respects-update n i h.allocs h.e820 respects)))
  where
    n : ℕ
    n = u64 (u64 (length h.allocs + 1) * alloc_bytes)

    alloc : Alloc
    alloc = record { addr = 0; size = size; reserved = round_up size }

    f : Alloc → Alloc
    f x = record x { size = n }

    not_null : (h.table == 0) ≡ false
    not_null = ground arith

    appended : Heap
    appended = record h {
      allocs = grown h i ++ (record { addr = 0; size = size; reserved = round_up size }) ∷ [];
    }

    again :
        {r : Outcome Heap ℕ}
        → Allocates size (round_up size) (grown h i) appended r
        → Allocates size (round_up size) (grown h i) h r
    again (refused e) = refused e
    again (allocated a ys p q c e) = allocated a ys p q c e
