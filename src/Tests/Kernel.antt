-- ===== src/Tests/Kernel.antt =====
-- Concrete kernels for `load_kernel`.
use pure.Prelude.{
  ℕ, zero, suc, ◌-◌, ◌<◌, ◌≡◌, refl, inr, List, [], ◌∷◌, ltb, get_or, length, All, if◌then◌else◌,
  arith,
}
use pure.Run.{Outcome, done, failed, fault, out_of_fuel}
use pure.CString.{Bytes}
use pure.Allocator.{map_reserve}
use pure.Kernel.{Machine, Kernel, load_kernel}
use pure.Kernel.Segments.{Places, segments}
use pure.Kernel.Elf.{IsBytes, segments_of, load_kernel-Places}
use pure.Kernel.Bin.{whole, load_kernel-flat}
use pure.Kernel.Refuse.{Refuses, load_kernel-Refuses}

-- A machine with a file at 0x1000, and one section of memory.
abbrev machine : Bytes → Machine
machine file = record {
  memory = λ a. if ltb a 0x1000 then 0 else get_or file (a - 0x1000) 0;
  e820 = (record { addr = 0; size = 0x1000000; type_ = 1 }) ∷ [];
}

abbrev kernel : Bytes → Kernel
kernel file = record { address = 0x1000; data_size = length file }

get_or-byte : (file : Bytes) (i : ℕ) → All (λ c. c < 256) file → get_or file i 0 < 256
get_or-byte [] i h = omega arith
get_or-byte (c ∷ file) zero h = h.0
get_or-byte (c ∷ file) (suc i) h = get_or-byte file i h.1

machine-IsBytes : (file : Bytes) → All (λ c. c < 256) file → IsBytes (Machine.memory (machine file))
machine-IsBytes file h a = ground (arith, get_or-byte file (a - 0x1000) h)

-- An ELF file with one segment of 3 bytes for 0x100000.
abbrev one_segment : Bytes
one_segment =
    127 ∷ 69 ∷ 76 ∷ 70 ∷ 2 ∷ 1 ∷ 0 ∷ 0 ∷ 0 ∷ 0 ∷ 0 ∷ 0 ∷ 0 ∷ 0 ∷ 0 ∷ 0 ∷ 2 ∷ 0 ∷ 62 ∷ 0 ∷ 0 ∷ 0 ∷ 0
    ∷ 0 ∷ 0 ∷ 0 ∷ 16 ∷ 0 ∷ 0 ∷ 0 ∷ 0 ∷ 0 ∷ 64 ∷ 0 ∷ 0 ∷ 0 ∷ 0 ∷ 0 ∷ 0 ∷ 0 ∷ 0 ∷ 0 ∷ 0 ∷ 0 ∷ 0 ∷ 0
    ∷ 0 ∷ 0 ∷ 0 ∷ 0 ∷ 0 ∷ 0 ∷ 0 ∷ 0 ∷ 56 ∷ 0 ∷ 1 ∷ 0 ∷ 0 ∷ 0 ∷ 0 ∷ 0 ∷ 0 ∷ 0 ∷ 1 ∷ 0 ∷ 0 ∷ 0 ∷ 0 ∷ 0
    ∷ 0 ∷ 0 ∷ 120 ∷ 0 ∷ 0 ∷ 0 ∷ 0 ∷ 0 ∷ 0 ∷ 0 ∷ 0 ∷ 0 ∷ 16 ∷ 0 ∷ 0 ∷ 0 ∷ 0 ∷ 0 ∷ 0 ∷ 0 ∷ 0 ∷ 0 ∷ 0
    ∷ 0 ∷ 0 ∷ 0 ∷ 3 ∷ 0 ∷ 0 ∷ 0 ∷ 0 ∷ 0 ∷ 0 ∷ 0 ∷ 8 ∷ 0 ∷ 0 ∷ 0 ∷ 0 ∷ 0 ∷ 0 ∷ 0 ∷ 0 ∷ 0 ∷ 0 ∷ 0 ∷ 0
    ∷ 0 ∷ 0 ∷ 0 ∷ 1 ∷ 2 ∷ 3 ∷ []

-- One with a second segment, for 0x1000.
abbrev low_segment : Bytes
low_segment =
    127 ∷ 69 ∷ 76 ∷ 70 ∷ 2 ∷ 1 ∷ 0 ∷ 0 ∷ 0 ∷ 0 ∷ 0 ∷ 0 ∷ 0 ∷ 0 ∷ 0 ∷ 0 ∷ 2 ∷ 0 ∷ 62 ∷ 0 ∷ 0 ∷ 0 ∷ 0
    ∷ 0 ∷ 0 ∷ 0 ∷ 16 ∷ 0 ∷ 0 ∷ 0 ∷ 0 ∷ 0 ∷ 64 ∷ 0 ∷ 0 ∷ 0 ∷ 0 ∷ 0 ∷ 0 ∷ 0 ∷ 0 ∷ 0 ∷ 0 ∷ 0 ∷ 0 ∷ 0
    ∷ 0 ∷ 0 ∷ 0 ∷ 0 ∷ 0 ∷ 0 ∷ 0 ∷ 0 ∷ 56 ∷ 0 ∷ 2 ∷ 0 ∷ 0 ∷ 0 ∷ 0 ∷ 0 ∷ 0 ∷ 0 ∷ 1 ∷ 0 ∷ 0 ∷ 0 ∷ 0 ∷ 0
    ∷ 0 ∷ 0 ∷ 176 ∷ 0 ∷ 0 ∷ 0 ∷ 0 ∷ 0 ∷ 0 ∷ 0 ∷ 0 ∷ 0 ∷ 16 ∷ 0 ∷ 0 ∷ 0 ∷ 0 ∷ 0 ∷ 0 ∷ 0 ∷ 0 ∷ 0 ∷ 0
    ∷ 0 ∷ 0 ∷ 0 ∷ 3 ∷ 0 ∷ 0 ∷ 0 ∷ 0 ∷ 0 ∷ 0 ∷ 0 ∷ 8 ∷ 0 ∷ 0 ∷ 0 ∷ 0 ∷ 0 ∷ 0 ∷ 0 ∷ 0 ∷ 0 ∷ 0 ∷ 0 ∷ 0
    ∷ 0 ∷ 0 ∷ 0 ∷ 1 ∷ 0 ∷ 0 ∷ 0 ∷ 0 ∷ 0 ∷ 0 ∷ 0 ∷ 176 ∷ 0 ∷ 0 ∷ 0 ∷ 0 ∷ 0 ∷ 0 ∷ 0 ∷ 0 ∷ 16 ∷ 0 ∷ 0
    ∷ 0 ∷ 0 ∷ 0 ∷ 0 ∷ 0 ∷ 0 ∷ 0 ∷ 0 ∷ 0 ∷ 0 ∷ 0 ∷ 0 ∷ 3 ∷ 0 ∷ 0 ∷ 0 ∷ 0 ∷ 0 ∷ 0 ∷ 0 ∷ 8 ∷ 0 ∷ 0 ∷ 0
    ∷ 0 ∷ 0 ∷ 0 ∷ 0 ∷ 0 ∷ 0 ∷ 0 ∷ 0 ∷ 0 ∷ 0 ∷ 0 ∷ 0 ∷ 1 ∷ 2 ∷ 3 ∷ []

load_kernel-Places_example :
    Places
      (kernel one_segment)
      (Machine.memory (machine one_segment))
      (segments_of (Machine.memory (machine one_segment)) (kernel one_segment))
      0x100000
      (machine one_segment)
      (load_kernel (kernel one_segment) (machine one_segment))
load_kernel-Places_example =
    load_kernel-Places (kernel one_segment) (machine one_segment)
      (machine-IsBytes one_segment (ground arith)) (refl, refl, refl, omega arith, omega arith) refl
      ((omega arith, omega arith, omega arith, omega arith, inr (omega arith)), tt) (tt, tt)

load_kernel-flat_example :
    Places
      (kernel (1 ∷ 2 ∷ 3 ∷ 4 ∷ 5 ∷ []))
      (Machine.memory (machine (1 ∷ 2 ∷ 3 ∷ 4 ∷ 5 ∷ [])))
      (whole (kernel (1 ∷ 2 ∷ 3 ∷ 4 ∷ 5 ∷ [])) ∷ [])
      0x100000
      (machine (1 ∷ 2 ∷ 3 ∷ 4 ∷ 5 ∷ []))
      (load_kernel (kernel (1 ∷ 2 ∷ 3 ∷ 4 ∷ 5 ∷ [])) (machine (1 ∷ 2 ∷ 3 ∷ 4 ∷ 5 ∷ [])))
load_kernel-flat_example =
    load_kernel-flat (kernel (1 ∷ 2 ∷ 3 ∷ 4 ∷ 5 ∷ [])) (machine (1 ∷ 2 ∷ 3 ∷ 4 ∷ 5 ∷ [])) refl refl
      (omega arith) (omega arith) (inr (omega arith))

load_kernel-Refuses_example :
    Refuses
      (kernel low_segment)
      (segments (Machine.memory (machine low_segment)) 0x1040 1)
      (machine low_segment)
      (load_kernel (kernel low_segment) (machine low_segment))
load_kernel-Refuses_example =
    load_kernel-Refuses (kernel low_segment) (machine low_segment)
      (machine-IsBytes low_segment (ground arith)) (refl, refl, refl, omega arith, omega arith) refl
      1 0 refl ((omega arith, omega arith, omega arith, omega arith, inr (omega arith)), tt)
      (tt, tt) refl (inr (omega arith))

-- Where the kernel is entered, the last byte of the segment then, and the byte behind it.
abbrev seen : Outcome Machine ℕ → List ℕ
seen (done entry m) = entry ∷ m.memory 0x100002 ∷ m.memory 0x100003 ∷ []
seen (failed e m) = []
seen fault = []
seen out_of_fuel = []

load_kernel-runs :
    seen (load_kernel (kernel one_segment) (machine one_segment)) ≡ 0x100000 ∷ 3 ∷ 0 ∷ []
unfolding load_kernel map_reserve
load_kernel-runs = refl
