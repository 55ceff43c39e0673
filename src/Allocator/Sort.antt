-- ===== src/Allocator/Sort.antt =====
-- `sort_alloc_table` of src/stage-three/map.c, a bubble sort by address.
pub mod Laws
use pure.Prelude.{
  ℕ, zero, suc, ◌*◌, Bool, true, false, Option, none, some, List, [], ◌∷◌, ltb, if◌then◌else◌,
  length,
}
use pure.Allocator.{Alloc}

-- The `for` loop: `x` is the entry at the index, the list those behind it. The flag is
-- `sorted_flag`.
unfoldable pub bubble : Alloc → List Alloc → List Alloc × Bool
bubble x [] = (x ∷ [], false)
bubble x (y ∷ ys) = elim (ltb (Alloc.addr y) (Alloc.addr x)) [
  | true ↦ (y ∷ (bubble x ys).0, true)
  | false ↦ (x ∷ (bubble y ys).0, (bubble y ys).1)
]

unfoldable pub sort_pass : List Alloc → List Alloc × Bool
unfolding bubble
sort_pass [] = ([], false)
sort_pass (x ∷ xs) = bubble x xs

-- The passes. `none` is the end of the fuel.
unfoldable pub sort_loop : ℕ → List Alloc → Option (List Alloc)
unfolding sort_pass
sort_loop zero xs = none
sort_loop (suc fuel) xs = elim ((sort_pass xs).1) [
  | true ↦ sort_loop fuel (sort_pass xs).0
  | false ↦ some (sort_pass xs).0
]

-- `sort_alloc_table`. Every pass that changes something leaves fewer pairs in the wrong order.
unfoldable pub sort_alloc_table : List Alloc → Option (List Alloc)
unfolding sort_loop
sort_alloc_table xs = sort_loop (suc (length xs * length xs)) xs
