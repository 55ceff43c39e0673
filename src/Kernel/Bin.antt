-- ===== src/Kernel/Bin.antt =====
-- `load_kernel` on a file that is not in ELF format.
use pure.Prelude.{ℕ, ◌+◌, ◌^◌, ◌≤◌, ◌≡◌, ◌∙◌, ap, false, [], ◌∷◌, arith}
use pure.Run.{and_then, ret}
use pure.Kernel.{
  Machine, Kernel, Segment, copy, answered, move, has_elf_signature, load_kernel_bin, load_kernel,
}
use pure.Kernel.Memory.{Disjoint, copy-inside, copy-Outside}
use pure.Kernel.Segments.{Places, Begins, map_reserve-grants}

-- The file as one segment at 1 MiB.
abbrev pub whole : Kernel → Segment
whole kernel = record {
  p_offset = 0;
  vaddr = 0x100000;
  p_filesz = kernel.data_size;
  p_memsz = kernel.data_size;
}

-- A file without the signature of ELF ends within 64-bit addresses, as does its copy at 1 MiB,
-- which does not overlap it, and the memory's sections do not begin with the end. Then
-- `load_kernel` comes to enter the kernel at 1 MiB, where the whole file stands then, and nothing
-- else in the memory has changed.
pub load_kernel-flat :
    (kernel : Kernel) (m : Machine)
    → has_elf_signature m.memory kernel ≡ false
    → Begins m.e820
    → kernel.address + kernel.data_size ≤ 2 ^ 64
    → 0x100000 + kernel.data_size ≤ 2 ^ 64
    → Disjoint 0x100000 kernel.data_size kernel.address kernel.data_size
    → Places kernel m.memory (whole kernel ∷ []) 0x100000 m (load_kernel kernel m)
unfolding load_kernel load_kernel_bin
load_kernel-flat kernel m sig b fits room apart = (
  copy size 0x100000 kernel.address m.memory,
  rw (sig, load_kernel, load_kernel_bin)
      (ap
        (λ r.
          and_then (and_then (answered r m) (λ _. move 0x100000 kernel.address size))
            (λ _. ret 0x100000))
        (map_reserve-grants m.e820 0x100000 size b)),
  (
    λ j h.
        copy-inside size 0x100000 kernel.address m.memory j room fits apart h
        ∙ ap m.memory (omega arith),
    tt,
  ),
  λ a o. copy-Outside size 0x100000 kernel.address m.memory a room o.0,
)
  where
    size : ℕ
    size = kernel.data_size
