-- ===== src/Allocator.antt =====
-- src/stage-three/map.c and e820.c: where the loader finds room for a block of memory. A table is
-- the list of its entries; addresses are numbers, and 0 is NULL.
pub mod Search
pub mod Table
pub mod Sort
pub mod Heap
use pure.Prelude.{
  ℕ, zero, suc, ◌+◌, ◌-◌, ◌*◌, ◌%◌, ◌^◌, Bool, true, false, not, ◌&&◌, ◌||◌, Option, none, some,
  List, [], ◌∷◌, ltb, leb, ◌==◌, if◌then◌else◌,
}
use pure.Bits.{u64}
use pure.Error.{enomem}
use pure.Run.{Outcome, done, failed, fault}

-- `struct pure64_e820`, without the attributes, which nothing reads.
pub record E820 : Type 0 where
  pub addr : ℕ
  pub size : ℕ
  pub type_ : ℕ

-- `struct pure64_alloc`
pub record Alloc : Type 0 where
  pub addr : ℕ
  pub size : ℕ
  pub reserved : ℕ

-- `pure64_e820_usable`
abbrev pub e820_usable : E820 → Bool
e820_usable e = e.type_ == 1

-- `pure64_e820_end`
abbrev pub e820_end : E820 → Bool
e820_end e = e.addr == 0 && e.size == 0

-- The inner loop of `find_suitable_addr`, from the candidate `addr`, in the memory section of
-- `size2` bytes at `addr2`. `none` is the loop that exits early.
unfoldable pub place : ℕ → ℕ → ℕ → ℕ → List Alloc → Option ℕ
place addr2 size2 size addr [] = some addr
place addr2 size2 size addr (alloc ∷ allocs) =
    let addr3 = Alloc.addr alloc in
    let size3 = Alloc.reserved alloc in
    elim (ltb addr3 addr2 || leb (u64 (addr2 + size2)) addr3) [
      | true ↦ place addr2 size2 size addr allocs
      | false ↦ elim (ltb addr3 (u64 (addr + size))) [
        | false ↦ place addr2 size2 size addr allocs
        | true ↦ elim (leb (u64 (addr2 + size2)) (u64 (u64 (addr3 + size3) + size))) [
          | true ↦ none
          | false ↦ place addr2 size2 size (u64 (addr3 + size3)) allocs
        ]
      ]
    ]

-- `find_suitable_addr`. The table of the sections ends at its end entry.
unfoldable pub find_suitable_addr : List E820 → List Alloc → ℕ → ℕ
unfolding place
find_suitable_addr [] allocs size = 0
find_suitable_addr (e ∷ e820) allocs size =
    let next = find_suitable_addr e820 allocs size in
    if e820_end e
    then 0
    else if not (e820_usable e)
    then next
    else if ltb (E820.size e) size
    then next
    else elim (place (E820.addr e) (E820.size e) size (if E820.addr e == 0 then 1 else E820.addr e)
        allocs) [ none ↦ next | some addr ↦ addr ]

-- `find_alloc_entry`, as the entry's index.
unfoldable pub find_alloc_entry : List Alloc → ℕ → Option ℕ
find_alloc_entry [] addr = none
find_alloc_entry (alloc ∷ allocs) addr =
    if Alloc.addr alloc == addr
    then some 0
    else elim (find_alloc_entry allocs addr) [ none ↦ none | some i ↦ some (suc i) ]

abbrev pub free_start : ℕ
free_start = 0x70000

-- The size of `struct pure64_alloc`.
abbrev pub alloc_bytes : ℕ
alloc_bytes = 24

-- The loop of `pure64_map_init`: the address for the allocation table.
unfoldable pub table_addr : List E820 → Option ℕ
table_addr [] = none
table_addr (e ∷ e820) =
    let next = table_addr e820 in
    let addr = E820.addr e in
    let size = E820.size e in
    if e820_end e
    then none
    else if not (e820_usable e)
    then next
    else if ltb (u64 (addr + size)) free_start
    then next
    else if ltb addr free_start
    then (if ltb size (free_start - addr)
        then next
        else if ltb (size - (free_start - addr)) (alloc_bytes * 2)
        then next
        else some free_start)
    else if ltb size (alloc_bytes * 2)
    then next
    else some addr

-- The allocation table that `pure64_map_init` leaves, where `none` is NULL.
unfoldable pub map_init : List E820 → Option (List Alloc)
unfolding table_addr
map_init e820 = elim (table_addr e820) [
  | none ↦ none
  | some addr ↦ some (
      (record { addr = 0; size = 0x70000; reserved = 0x70000 })
      ∷ (record { addr = addr; size = alloc_bytes * 2; reserved = alloc_bytes * 2 })
      ∷ [])
]

-- `pure64_map_reserve`. The loop reads on behind the end entry; what stands there is not known.
unfoldable pub map_reserve : List E820 → ℕ → ℕ → Outcome (Unit {0}) (Unit {0})
map_reserve [] addr size = fault
map_reserve (e ∷ e820) addr size =
    let next = map_reserve e820 addr size in
    if not (e820_end e) then done tt tt else if not (e820_usable e) then next else failed enomem tt
