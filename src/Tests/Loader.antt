-- ===== src/Tests/Loader.antt =====
-- Concrete inputs for the loader of src/stage-three.
use pure.Prelude.{ℕ, ◌≡◌, refl, true, List, [], ◌∷◌, arith}
use pure.Run.{done}
use pure.Allocator.{E820, Alloc, find_alloc_entry, find_suitable_addr}
use pure.Allocator.Sort.{sort_alloc_table}
use pure.Allocator.Sort.Laws.{Sorts, sort_alloc_table-Sorts}
use pure.Allocator.Heap.{Heap, map_malloc, map_free}
use pure.Allocator.Heap.Free.{Frees, map_free-Frees}
use pure.Allocator.Heap.Malloc.{Allocates, grown, map_malloc-Allocates}
use pure.Debug.{FmtInfo, Printer, Arg, number, string, spec_x, fmt_info_init}
use pure.Debug.Print.{hex_string, hex_output, hex_arg, fmt_print_hex, debug}
use pure.Debug.Hex.{PrintsDigits, fmt_print_hex-digits}
use pure.Debug.Ends.{Ends, Anything}
use pure.Debug.Loop.{debug-Ends}
use pure.Debug.Bounds.{PrintsFew, fmt_print_hex-PrintsFew}
use pure.Debug.Text.{after_string, debug-string}

abbrev block : ℕ → ℕ → Alloc
block addr size = record { addr = addr; size = size; reserved = size }

-- A section of 1 MiB at 0x100000 and the end.
abbrev one_section : List E820
one_section =
    (record { addr = 0x100000; size = 0x100000; type_ = 1 })
    ∷ (record { addr = 0; size = 0; type_ = 0 })
    ∷ []

-- A table at 0x70000 with room, and a block with a gap in front of it.
abbrev sample_heap : Heap
sample_heap = record {
  table = 0x70000;
  allocs = block 0 0x70000 ∷ block 0x70000 0x1000 ∷ block 0x102000 0x1000 ∷ [];
  e820 = one_section;
}

sort_alloc_table-Sorts_example :
    Sorts (block 5 1 ∷ block 2 1 ∷ []) (sort_alloc_table (block 5 1 ∷ block 2 1 ∷ []))
sort_alloc_table-Sorts_example = sort_alloc_table-Sorts (block 5 1 ∷ block 2 1 ∷ [])

map_free-Frees_example : Frees 0x70000 sample_heap (map_free 0x70000 sample_heap)
map_free-Frees_example = map_free-Frees 0x70000 sample_heap (λ e. omega arith) (ground arith)

map_malloc-Allocates_example :
    Allocates 0x10 0x1000 (grown sample_heap 1) sample_heap (map_malloc 0x10 sample_heap)
map_malloc-Allocates_example =
    map_malloc-Allocates 0x10 1 sample_heap (λ e. omega arith) (unfold find_alloc_entry in refl)
      refl (omega arith) (omega arith) (ground arith) (ground arith) (ground arith) (ground arith)
      (ground arith)

-- The new block is the one at 0x100000; the address of the one at 0x102000 is returned.
map_malloc-runs :
    map_malloc 0x10 sample_heap
    ≡ done 0x102000 (record sample_heap {
      allocs =
          block 0 0x70000
          ∷ (record { addr = 0x70000; size = 96; reserved = 0x1000 })
          ∷ (record { addr = 0x100000; size = 0x10; reserved = 0x1000 })
          ∷ block 0x102000 0x1000
          ∷ [];
    })
unfolding map_malloc find_alloc_entry find_suitable_addr sort_alloc_table
map_malloc-runs = refl

-- `%4x`, and a printer with the arguments for it.
abbrev four_wide : FmtInfo
four_wide = record fmt_info_init { width = 4; width_set = true; specifier = spec_x }

abbrev printer : List Arg → Printer
printer args = record { info = fmt_info_init; args = args; out = [] }

fmt_print_hex-digits_example : PrintsDigits four_wide (printer (number 5 ∷ [])) 5 []
fmt_print_hex-digits_example =
    fmt_print_hex-digits four_wide (printer (number 5 ∷ [])) 5 [] refl refl refl

-- A field of width 4 comes out with three characters.
fmt_print_hex-runs :
    fmt_print_hex four_wide (printer (number 5 ∷ []))
    ≡ done tt (record { info = fmt_info_init; args = []; out = b' ' ∷ b' ' ∷ b'5' ∷ [] })
unfolding fmt_print_hex hex_string hex_output hex_arg
fmt_print_hex-runs = refl

debug-Ends_example : Ends Anything (debug (b'%' ∷ b'x' ∷ b'%' ∷ []) (printer (number 5 ∷ [])))
debug-Ends_example = debug-Ends (b'%' ∷ b'x' ∷ b'%' ∷ []) (printer (number 5 ∷ [])) (omega arith)

debug-string_example :
    debug (b'a' ∷ b'%' ∷ b's' ∷ b'b' ∷ []) (printer (string (b'c' ∷ []) ∷ []))
    ≡ done tt
        (record { info = after_string fmt_info_init; args = []; out = b'a' ∷ b'c' ∷ b'b' ∷ [] })
debug-string_example =
    debug-string (b'a' ∷ []) (b'b' ∷ []) (b'c' ∷ []) [] (printer (string (b'c' ∷ []) ∷ []))
      (omega arith) (omega arith) ((refl, refl), tt) ((refl, refl), tt) refl

fmt_print_hex-PrintsFew_example :
    PrintsFew (printer (number 0 ∷ [])) (fmt_print_hex four_wide (printer (number 0 ∷ [])))
fmt_print_hex-PrintsFew_example = fmt_print_hex-PrintsFew four_wide (printer (number 0 ∷ []))
