-- ===== src/Allocator/Table.antt =====
-- The allocation table that `pure64_map_init` sets up.
use pure.Prelude.{
  ℕ, ◌+◌, ◌*◌, ◌^◌, ◌<◌, ◌≤◌, ◌≡◌, sym, ◌⊎◌, inl, inr, true, none, some, List, [], ◌∷◌, All, arith,
  Option-cases,
}
use pure.Allocator.{E820, Alloc, e820_usable, table_addr, map_init, free_start, alloc_bytes}
use mathlib.Core.Path.{subst}
use pure.Allocator.Search.{Chain}

-- The table of two entries at `a` lies in a usable section.
abbrev pub HoldsTable : ℕ → List E820 → Type 0
HoldsTable a [] = ⊥
HoldsTable a (e ∷ e820) =
    ((e820_usable e ≡ true) × (e.addr ≤ a) × (a + alloc_bytes * 2 ≤ e.addr + e.size))
    ⊎ HoldsTable a e820

table_addr-HoldsTable :
    (a : ℕ) (e820 : List E820)
    → All (λ (e : E820). e.addr + e.size < 2 ^ 64) e820
    → table_addr e820 ≡ some a
    → (free_start ≤ a) × HoldsTable a e820
unfolding table_addr
table_addr-HoldsTable a [] sections e = absurd (none-ne-some e)
  where
    none-ne-some : none ≡ some a → ⊥
    none-ne-some q = cc
table_addr-HoldsTable a (e ∷ e820) sections h =
    ground (arith, table_addr-HoldsTable a e820 sections.1, sections.0)

abbrev pub entry : ℕ → ℕ → Alloc
entry addr size = record { addr = addr; size = size; reserved = size }

-- No section wraps around, and `pure64_map_init` finds a table. Then the table has an entry for
-- the first 0x70000 bytes and one for itself, which stand one behind the other, and it lies in a
-- usable section.
pub map_init-Chain :
    (e820 : List E820) {allocs : List Alloc}
    → All (λ (e : E820). e.addr + e.size < 2 ^ 64) e820
    → map_init e820 ≡ some allocs
    → (a : ℕ) × (allocs ≡ entry 0 free_start ∷ entry a (alloc_bytes * 2) ∷ [])
      × HoldsTable a e820
      × Chain allocs
unfolding map_init
map_init-Chain e820 {allocs} sections e = elim (Option-cases (table_addr e820)) [
  | inl k ↦ absurd (none-ne-some (rw (k, map_init) at e))
  | inr (a, k) ↦
      let q : allocs ≡ entry 0 free_start ∷ entry a (alloc_bytes * 2) ∷ [] =
        some-injective _ _ (sym (rw (k, map_init) at e)) in
      let (behind, holds) = table_addr-HoldsTable a e820 sections k in
      (a, q, holds, subst Chain (sym q) ((behind, tt), (tt, tt)))
]
  where
    none-ne-some : none ≡ some allocs → ⊥
    none-ne-some q = cc

    some-injective : (x y : List Alloc) → some x ≡ some y → x ≡ y
    some-injective x y q = cc
