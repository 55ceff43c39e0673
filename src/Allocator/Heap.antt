-- ===== src/Allocator/Heap.antt =====
-- `pure64_map_malloc`, `pure64_map_realloc` and `pure64_map_free` of src/stage-three/map.c. The
-- allocation table stands in a block that it describes itself, and moves when it grows.
pub mod Last
pub mod Apart
pub mod Free
pub mod Malloc
use pure.Prelude.{
  ℕ, zero, suc, ◌+◌, ◌-◌, ◌*◌, ◌%◌, ◌^◌, Bool, true, false, not, Option, none, some, List, [], ◌∷◌,
  ◌++◌, leb, ◌==◌, if◌then◌else◌, length, drop_last,
}
use pure.Bits.{u64}
use pure.Run.{Outcome, M, done, failed, fault, out_of_fuel, and_then, ◌>>=◌, ◌>>◌, ret}
use pure.Allocator.{E820, Alloc, alloc_bytes, find_alloc_entry, find_suitable_addr}
use pure.Allocator.Sort.{sort_alloc_table}

-- `struct pure64_map`: the address of the table, its entries, and the sections.
pub record Heap : Type 0 where
  pub table : ℕ
  pub allocs : List Alloc
  pub e820 : List E820

abbrev pub boundary : ℕ
boundary = 0x1000

-- `size` on a boundary.
abbrev pub round_up : ℕ → ℕ
round_up size = if size % boundary == 0 then size else u64 (size + (boundary - size % boundary))

-- The entry at an index, changed in place.
abbrev pub update_at : List Alloc → ℕ → (Alloc → Alloc) → List Alloc
update_at [] i f = []
update_at (x ∷ xs) zero f = f x ∷ xs
update_at (x ∷ xs) (suc i) f = x ∷ update_at xs i f

-- `reserved` of the entry at an index.
abbrev pub reserved_at : List Alloc → ℕ → ℕ
reserved_at [] i = 0
reserved_at (x ∷ xs) zero = Alloc.reserved x
reserved_at (x ∷ xs) (suc i) = reserved_at xs i

-- `sort_alloc_table` on the entries at `map->alloc_table`.
abbrev pub sort_entries : M Heap (Unit {0})
sort_entries h = elim (sort_alloc_table (Heap.allocs h)) [
  | none ↦ out_of_fuel
  | some ys ↦ done tt (record h { allocs = ys })
]

abbrev pub put_entries : List Alloc → M Heap (Unit {0})
put_entries xs h = done tt (record h { allocs = xs })

-- What `pure64_map_realloc` returns, and the entries that stand there if the block is that of the
-- table: the memory is copied before the sort, which works on the old place.
pub record Moved : Type 0 where
  pub addr : ℕ
  pub copy : List Alloc

-- `pure64_map_realloc`, of an address other than NULL.
unfoldable pub map_resize : ℕ → ℕ → M Heap Moved
map_resize addr size h = elim (find_alloc_entry (Heap.allocs h) addr) [
  | none ↦ done (record { addr = 0; copy = [] }) h
  | some i ↦
      if leb size (reserved_at (Heap.allocs h) i)
      then (let allocs : List Alloc = update_at (Heap.allocs h) i (λ x. record x { size = size }) in
          done (record { addr = addr; copy = allocs }) (record h { allocs = allocs }))
      else (let addr2 = find_suitable_addr (Heap.e820 h) (Heap.allocs h) size in
          if addr2 == 0
          then done (record { addr = 0; copy = [] }) h
          else (let allocs : List Alloc =
                update_at (Heap.allocs h) i
                  (λ x. record x { addr = addr2; size = size; reserved = round_up size }) in
              and_then (sort_entries (record h { allocs = allocs }))
                (λ _. ret (record { addr = addr2; copy = allocs }))))
]

-- `append_alloc`, where false is NULL.
unfoldable pub append_alloc : Alloc → M Heap Bool
unfolding map_resize
append_alloc alloc h =
    and_then (map_resize (Heap.table h) (u64 (u64 (length (Heap.allocs h) + 1) * alloc_bytes)) h)
      (λ m h'.
        if Moved.addr m == 0
        then done false h'
        else done true (record h' { table = Moved.addr m; allocs = Moved.copy m ++ alloc ∷ [] }))

-- The address in the last entry.
abbrev pub last_addr : List Alloc → ℕ
last_addr [] = 0
last_addr (x ∷ []) = Alloc.addr x
last_addr (x ∷ y ∷ xs) = last_addr (y ∷ xs)

-- The end of `pure64_map_malloc`: the new entry, which is the last, gets its address.
unfoldable pub place_last : ℕ → Alloc → M Heap ℕ
place_last reserved alloc h =
    let others = drop_last (Heap.allocs h) in
    let addr = find_suitable_addr (Heap.e820 h) others reserved in
    if addr == 0
    then done 0 (record h { allocs = others })
    else and_then
        (sort_entries (record h { allocs = others ++ (record alloc { addr = addr }) ∷ [] }))
        (λ _ h'. done (last_addr (Heap.allocs h')) h')

-- `pure64_map_malloc`
unfoldable pub map_malloc : ℕ → M Heap ℕ
unfolding append_alloc place_last
map_malloc size h =
    if Heap.table h == 0
    then done 0 h
    else (let alloc : Alloc = record { addr = 0; size = size; reserved = round_up size } in
        and_then (append_alloc alloc h)
          (λ appended. if appended then place_last (round_up size) alloc else ret 0))

-- `pure64_map_realloc`
unfoldable pub map_realloc : ℕ → ℕ → M Heap ℕ
unfolding map_malloc map_resize
map_realloc addr size h =
    if addr == 0
    then map_malloc size h
    else and_then (map_resize addr size h) (λ m. ret (Moved.addr m))

-- `pure64_map_free`
unfoldable pub map_free : ℕ → M Heap (Unit {0})
map_free addr h = if addr == 0 then done tt h else elim (find_alloc_entry (Heap.allocs h) addr) [
  | none ↦ done tt h
  | some i ↦
      and_then
        (sort_entries
          (record h { allocs = update_at (Heap.allocs h) i (λ x. record x { addr = 2 ^ 64 - 1 }) }))
        (λ _ h'. done tt (record h' { allocs = drop_last (Heap.allocs h') }))
]
