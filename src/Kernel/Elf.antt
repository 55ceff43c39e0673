-- ===== src/Kernel/Elf.antt =====
-- `load_kernel` on a file in ELF format.
use pure.Prelude.{
  ℕ, ◌+◌, ◌*◌, ◌^◌, ◌<◌, ◌≤◌, ◌≡◌, refl, ap, ◌∙◌, true, false, List, ltb, All, arith,
}
use pure.Bits.{u64}
use pure.Run.{and_then, ret}
use pure.Kernel.{
  Memory, Machine, Kernel, Segment, load, is_supported, has_elf_signature, load_segments,
  load_table, load_kernel_elf, load_kernel, int_product,
}
use pure.Kernel.Segments.{
  segments, IsGood, Apart, Places, Begins, int_product-56, load_segments-Places,
}

-- Every address holds a byte.
abbrev pub IsBytes : Memory → Type 0
IsBytes mem = (a : ℕ) → mem a < 256

-- The fields of the file's header that the loop uses.
abbrev pub e_phoff : Memory → Kernel → ℕ
e_phoff mem kernel = load 8 mem (kernel.address + 0x20)

abbrev pub e_phentsize : Memory → Kernel → ℕ
e_phentsize mem kernel = load 2 mem (kernel.address + 0x36)

abbrev pub e_phnum : Memory → Kernel → ℕ
e_phnum mem kernel = load 2 mem (kernel.address + 0x38)

-- The file begins as an executable for this machine, and its table of segment headers, 56 bytes
-- each, is within it.
abbrev pub IsExecutable : Memory → Kernel → Type 0
IsExecutable mem kernel =
    (has_elf_signature mem kernel ≡ true)
    × (is_supported mem kernel ≡ true)
    × (e_phentsize mem kernel ≡ 56)
    × (e_phoff mem kernel + e_phnum mem kernel * 56 ≤ kernel.data_size)
    × (kernel.address + kernel.data_size ≤ 2 ^ 64)

abbrev pub segments_of : Memory → Kernel → List Segment
segments_of mem kernel = segments mem (kernel.address + e_phoff mem kernel) (e_phnum mem kernel)

abbrev pub entry_of : Memory → Kernel → ℕ
entry_of mem kernel = load 8 mem (kernel.address + 0x18)

pub load-small : (mem : Memory) (a : ℕ) → IsBytes mem → load 2 mem a < 2 ^ 16
load-small mem a h = omega (arith, h (u64 a), h (u64 (a + 1)))

load_table_lem :
    (kernel : Kernel) (kentry off num : ℕ) (m : Machine)
    → num < 2 ^ 16
    → off + num * 56 ≤ kernel.data_size
    → kernel.data_size ≤ 2 ^ 64
    → load_table kernel kentry off 56 num m
      ≡ and_then (load_segments kernel off 56 num 0 m) (λ _. ret kentry)
unfolding load_table
load_table_lem kernel kentry off num m small inside fits =
    let e : ltb kernel.data_size (u64 (off + int_product num 56)) ≡ false =
      rw (int_product-56 num small) (ground arith) in
    rw (e, load_table) refl

to_elf :
    (kernel : Kernel) (m : Machine)
    → has_elf_signature m.memory kernel ≡ true
    → load_kernel kernel m ≡ load_kernel_elf kernel m
unfolding load_kernel
to_elf kernel m sig = rw (sig, load_kernel) refl

to_table :
    (kernel : Kernel) (m : Machine)
    → is_supported m.memory kernel ≡ true
    → load_kernel_elf kernel m
      ≡ load_table kernel
          (entry_of m.memory kernel)
          (e_phoff m.memory kernel)
          (e_phentsize m.memory kernel)
          (e_phnum m.memory kernel)
          m
unfolding load_kernel_elf
to_table kernel m sup = rw (sup, load_kernel_elf) refl

pub load_kernel-enters :
    (kernel : Kernel) (m : Machine)
    → IsBytes m.memory
    → IsExecutable m.memory kernel
    → load_kernel kernel m
      ≡ and_then
          (load_segments kernel (e_phoff m.memory kernel) 56 (e_phnum m.memory kernel) 0 m)
          (λ _. ret (entry_of m.memory kernel))
load_kernel-enters kernel m h (sig, sup, size, inside, fits) =
    let mem = m.memory in
    to_elf kernel m sig
    ∙ to_table kernel m sup
    ∙ ap
        (λ n. load_table kernel (entry_of mem kernel) (e_phoff mem kernel) n (e_phnum mem kernel) m)
        size
    ∙ load_table_lem kernel (entry_of mem kernel) (e_phoff mem kernel) (e_phnum mem kernel) m
        (load-small mem (kernel.address + 0x38) h) inside (omega arith)

-- The memory holds bytes, and in it a file in ELF format for this machine with segment headers of
-- 56 bytes, all within the file. Every loadable segment has its bytes within the file and room for
-- them at its address, from 1 MiB on, outside of the file, and no two are in each other's place.
-- The memory's sections do not begin with the end. Then `load_kernel` comes to enter the kernel at
-- the address that the file names; all bytes of all loadable segments stand at their addresses
-- then, and nothing else in the memory has changed.
pub load_kernel-Places :
    (kernel : Kernel) (m : Machine)
    → IsBytes m.memory
    → IsExecutable m.memory kernel
    → Begins m.e820
    → All (IsGood kernel) (segments_of m.memory kernel)
    → Apart (segments_of m.memory kernel)
    → Places kernel m.memory
        (segments_of m.memory kernel)
        (entry_of m.memory kernel)
        m
        (load_kernel kernel m)
load_kernel-Places kernel m h x b goods apart =
    let mem = m.memory in
    let phnum = e_phnum mem kernel in
    let (mem', e, places, kept) =
      load_segments-Places kernel mem x.4 phnum 0 (e_phoff mem kernel)
        (kernel.address + e_phoff mem kernel) m (omega arith)
        (omega (arith, load-small mem (kernel.address + 0x38) h)) (omega (arith, x.3)) b
        (λ a l k. refl) goods apart in
    (
      mem',
      load_kernel-enters kernel m h x ∙ ap (λ r. and_then r (λ _. ret (entry_of mem kernel))) e,
      places,
      kept,
    )
