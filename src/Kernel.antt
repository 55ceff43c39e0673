-- ===== src/Kernel.antt =====
-- `load_kernel` of src/stage-three/_start.c. The memory is that of the machine: the kernel's file,
-- the places of its segments and all else stand in it, and a copy can overwrite any of them.
pub mod Memory
pub mod Segments
pub mod Elf
pub mod Bin
pub mod Refuse
use pure.Prelude.{
  ℕ, zero, suc, ◌+◌, ◌-◌, ◌*◌, ◌%◌, ◌^◌, Bool, true, false, ◌&&◌, ◌||◌, not, List, [], ◌∷◌, ltb,
  leb, ◌==◌, if◌then◌else◌,
}
use pure.Error.{einval}
use pure.Bits.{u64}
use pure.Run.{Outcome, M, done, failed, fault, out_of_fuel, and_then, ◌>>=◌, ◌>>◌, ret, fail}
use pure.Allocator.{E820, map_reserve}

-- The byte at each address, below 256.
abbrev pub Memory : Type 0
Memory = ℕ → ℕ

-- The memory, and the sections of it that the firmware has named.
pub record Machine : Type 0 where
  pub memory : Memory
  pub e820 : List E820

-- The `data`, an address, and `data_size` of a `struct pure64_file`.
pub record Kernel : Type 0 where
  pub address : ℕ
  pub data_size : ℕ

abbrev pub load8 : Memory → ℕ → ℕ
load8 mem addr = mem (u64 addr)

abbrev pub store8 : Memory → ℕ → ℕ → Memory
store8 mem addr value a = if a == u64 addr then value else mem a

-- The number in `n` bytes, the lowest first.
abbrev pub load : ℕ → Memory → ℕ → ℕ
load zero mem addr = 0
load (suc n) mem addr = load8 mem addr + 256 * load n mem (addr + 1)

-- `pure64_memcpy`, one byte after the other.
unfoldable pub copy : ℕ → ℕ → ℕ → Memory → Memory
copy zero dst src mem = mem
copy (suc size) dst src mem = copy size (dst + 1) (src + 1) (store8 mem dst (load8 mem src))

-- `pure64_map_reserve`, which changes nothing.
abbrev pub answered : Outcome (Unit {0}) (Unit {0}) → M Machine (Unit {0})
answered (done u s) m = done tt m
answered (failed e s) m = failed e m
answered fault m = fault
answered out_of_fuel m = out_of_fuel

abbrev pub reserve : ℕ → ℕ → M Machine (Unit {0})
reserve addr size m = answered (map_reserve (Machine.e820 m) addr size) m

abbrev pub move : ℕ → ℕ → ℕ → M Machine (Unit {0})
move dst src size m = done tt (record m { memory = copy size dst src (Machine.memory m) })

-- The bytes in front of a loadable segment's header.
abbrev pub is_loadable : Memory → ℕ → Bool
is_loadable mem ph =
    (load8 mem ph == 1)
    && (load8 mem (ph + 1) == 0)
    && (load8 mem (ph + 2) == 0)
    && (load8 mem (ph + 3) == 0)

-- The fields of a segment's header that are used.
pub record Segment : Type 0 where
  pub p_offset : ℕ
  pub vaddr : ℕ
  pub p_filesz : ℕ
  pub p_memsz : ℕ

abbrev pub segment_at : Memory → ℕ → Segment
segment_at mem ph = record {
  p_offset = load 8 mem (ph + 0x08);
  vaddr = load 8 mem (ph + 0x10);
  p_filesz = load 8 mem (ph + 0x20);
  p_memsz = load 8 mem (ph + 0x28);
}

-- The tests of a segment, and the copy of its bytes.
unfoldable pub load_segment : Kernel → Segment → M Machine (Unit {0})
unfolding copy
load_segment kernel seg =
    if ltb (Segment.p_memsz seg) (Segment.p_filesz seg)
    then fail einval
    else if ltb (Segment.vaddr seg) 0x100000
    then fail einval
    else (reserve (Segment.vaddr seg) (Segment.p_filesz seg)
        >> move (Segment.vaddr seg) (Kernel.address kernel + Segment.p_offset seg)
            (Segment.p_filesz seg))

-- The body of the loop, for the header at an address.
unfoldable pub load_header : Kernel → ℕ → M Machine (Unit {0})
unfolding load_segment
load_header kernel ph m =
    if is_loadable (Machine.memory m) ph
    then load_segment kernel (segment_at (Machine.memory m) ph) m
    else done tt m

-- A product of type `int`, with its sign extended to 64 bits.
abbrev pub int_product : ℕ → ℕ → ℕ
int_product a b = let r = a * b % 2 ^ 32 in if ltb r (2 ^ 31) then r else r + (2 ^ 64 - 2 ^ 32)

-- The loop: `n` headers from the index `i` on, which stand `e_phentsize` apart.
unfoldable pub load_segments : Kernel → ℕ → ℕ → ℕ → ℕ → M Machine (Unit {0})
unfolding load_header
load_segments kernel e_phoff e_phentsize zero i = ret tt
load_segments kernel e_phoff e_phentsize (suc n) i =
    load_header kernel (Kernel.address kernel + e_phoff + int_product i e_phentsize)
    >> load_segments kernel e_phoff e_phentsize n (suc i)

-- The tests of the file's header.
abbrev pub is_supported : Memory → Kernel → Bool
is_supported mem kernel =
    let start = Kernel.address kernel in
    leb 0x3e (Kernel.data_size kernel)
    && (load8 mem (start + 0x04) == 2)
    && (load8 mem (start + 0x05) == 1)
    && ((load8 mem (start + 0x10) == 0x02) && (load8 mem (start + 0x11) == 0x00))
    && ((load8 mem (start + 0x12) == 0x3e) && (load8 mem (start + 0x13) == 0x00))

-- The second part of `load_kernel_elf`, with the fields of the file's header.
unfoldable pub load_table : Kernel → ℕ → ℕ → ℕ → ℕ → M Machine ℕ
unfolding load_segments
load_table kernel kentry e_phoff e_phentsize e_phnum =
    if ltb (Kernel.data_size kernel) (u64 (e_phoff + int_product e_phnum e_phentsize))
    then fail einval
    else (load_segments kernel e_phoff e_phentsize e_phnum 0 >> ret kentry)

-- `load_kernel_elf`. The result is the address at which the kernel is entered.
unfoldable pub load_kernel_elf : Kernel → M Machine ℕ
unfolding load_table
load_kernel_elf kernel m =
    let mem = Machine.memory m in
    let start = Kernel.address kernel in
    if is_supported mem kernel
    then load_table kernel (load 8 mem (start + 0x18)) (load 8 mem (start + 0x20))
        (load 2 mem (start + 0x36)) (load 2 mem (start + 0x38)) m
    else failed einval m

-- `load_kernel_bin`, with the same result.
unfoldable pub load_kernel_bin : Kernel → M Machine ℕ
unfolding copy
load_kernel_bin kernel =
    reserve 0x100000 (Kernel.data_size kernel)
    >> move 0x100000 (Kernel.address kernel) (Kernel.data_size kernel)
    >> ret 0x100000

abbrev pub has_elf_signature : Memory → Kernel → Bool
has_elf_signature mem kernel =
    leb 4 (Kernel.data_size kernel)
    && (load8 mem (Kernel.address kernel) == 0x7f)
    && (load8 mem (Kernel.address kernel + 1) == b'E')
    && (load8 mem (Kernel.address kernel + 2) == b'L')
    && (load8 mem (Kernel.address kernel + 3) == b'F')

-- `load_kernel`
unfoldable pub load_kernel : Kernel → M Machine ℕ
unfolding load_kernel_elf load_kernel_bin
load_kernel kernel m =
    if has_elf_signature (Machine.memory m) kernel
    then load_kernel_elf kernel m
    else load_kernel_bin kernel m
