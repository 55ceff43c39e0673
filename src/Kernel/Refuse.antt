-- ===== src/Kernel/Refuse.antt =====
-- `load_kernel` on a file with a segment that it refuses.
use pure.Prelude.{
  ℕ, zero, suc, ◌+◌, ◌*◌, ◌^◌, ◌<◌, ◌≤◌, ◌≡◌, refl, sym, ap, ◌∙◌, ◌⊎◌, inl, inr, true, List, [],
  ◌∷◌, ltb, All, arith, Bool-cases,
}
use mathlib.Core.Path.{subst}
use pure.Error.{einval}
use pure.Run.{Outcome, done, failed, fault, out_of_fuel, and_then, ret}
use pure.Kernel.{
  Memory, Machine, Kernel, Segment, is_loadable, segment_at, load_segment, load_header,
  load_segments, load_kernel, int_product,
}
use pure.Kernel.Memory.{Outside}
use pure.Kernel.Segments.{
  segments, IsGood, Apart, InPlace, Kept, Begins, int_product-56, load_segments-Places,
  is_loadable_same, segment_at_same, File,
}
use pure.Kernel.Elf.{
  IsBytes, IsExecutable, e_phoff, e_phnum, entry_of, load-small, load_kernel-enters,
}

abbrev pub IsBad : Segment → Type 0
IsBad seg = (seg.p_memsz < seg.p_filesz) ⊎ (seg.vaddr < 0x100000)

load_segment-refuses :
    (kernel : Kernel) (seg : Segment) (m : Machine)
    → IsBad seg
    → load_segment kernel seg m ≡ failed einval m
unfolding load_segment
load_segment-refuses kernel seg m bad = elim (Bool-cases (ltb seg.p_memsz seg.p_filesz)) [
  | inl e ↦ rw (e, load_segment) refl
  | inr e ↦ let low : ltb seg.vaddr 0x100000 ≡ true = ground arith in rw (e, low, load_segment) refl
]

load_header-refuses :
    (kernel : Kernel) (mem : Memory) (ph : ℕ) (m : Machine)
    → File kernel mem m.memory
    → kernel.address ≤ ph
    → ph + 56 ≤ kernel.address + kernel.data_size
    → kernel.address + kernel.data_size ≤ 2 ^ 64
    → is_loadable mem ph ≡ true
    → IsBad (segment_at mem ph)
    → load_header kernel ph m ≡ failed einval m
unfolding load_header
load_header-refuses kernel mem ph m same low high fits loadable bad =
    rw (sym (is_loadable_same kernel mem m.memory same ph low high fits) ∙ loadable, load_header)
      (load_segment-refuses kernel (segment_at m.memory ph) m
        (subst IsBad (segment_at_same kernel mem m.memory same ph low high fits) bad))

header_address : (a off i : ℕ) → i < 2 ^ 16 → a + off + int_product (0 + i) 56 ≡ a + off + i * 56
header_address a off i h =
    let e : 0 + i ≡ i = omega arith in
    ap (λ n. a + off + int_product n 56) e ∙ ap (λ n. a + off + n) (int_product-56 i h)

module _ (kernel : Kernel) (off size : ℕ) where
  -- What follows the first header, in two parts.
  rest-append :
      (n k i : ℕ) (r : Outcome Machine (Unit {0}))
      → ((m : Machine)
          → load_segments kernel off size (n + k) (suc i) m
            ≡ and_then
                (load_segments kernel off size n (suc i) m)
                (λ _. load_segments kernel off size k (suc i + n)))
      → and_then r (λ _. load_segments kernel off size (n + k) (suc i))
        ≡ and_then
            (and_then r (λ _. load_segments kernel off size n (suc i)))
            (λ _. load_segments kernel off size k (suc i + n))
  rest-append n k i (done u m) h = h m
  rest-append n k i (failed e m) h = refl
  rest-append n k i fault h = refl
  rest-append n k i out_of_fuel h = refl

  -- The headers up to an index, and those from there on.
  load_segments-append :
      (n k i : ℕ) (m : Machine)
      → load_segments kernel off size (n + k) i m
        ≡ and_then
            (load_segments kernel off size n i m)
            (λ _. load_segments kernel off size k (i + n))
  unfolding load_segments
  load_segments-append zero k i m =
      let e : zero + k ≡ k = omega arith in
      let f : i ≡ i + zero = omega arith in
      ap (λ x. load_segments kernel off size x i m) e
      ∙ ap (λ x. load_segments kernel off size k x m) f
  load_segments-append (suc n) k i m =
      let r = load_header kernel (kernel.address + off + int_product i size) m in
      let e : suc n + k ≡ suc (n + k) = omega arith in
      let f : suc i + n ≡ i + suc n = omega arith in
      ap (λ x. load_segments kernel off size x i m) e
      ∙ rest-append n k i r (load_segments-append n k (suc i))
      ∙ ap
          (λ x.
            and_then (and_then r (λ _. load_segments kernel off size n (suc i)))
              (λ _. load_segments kernel off size k x))
          f

-- The file is in no good segment's place.
Outside-file :
    (kernel : Kernel) (segs : List Segment) (a : ℕ)
    → All (IsGood kernel) segs
    → kernel.address ≤ a
    → a < kernel.address + kernel.data_size
    → All (λ (s : Segment). Outside s.vaddr s.p_filesz a) segs
Outside-file kernel [] a g l h = tt
Outside-file kernel (s ∷ segs) a ((g₁, g₂, g₃, g₄, g₅), gs) l h =
    (ground arith, Outside-file kernel segs a gs l h)

-- The code has loaded the segments and then refused with EINVAL.
abbrev pub Refuses : Kernel → List Segment → Machine → Outcome Machine ℕ → Type 0
Refuses kernel segs m r =
    (mem' : Memory) × (r ≡ failed einval (record m { memory = mem' }))
    × All (InPlace kernel m.memory mem') segs
    × Kept segs m.memory mem'

module _ (kernel : Kernel) (m : Machine) (bytes : IsBytes m.memory)
    (x : IsExecutable m.memory kernel) (b : Begins m.e820) (i k : ℕ)
    (count : e_phnum m.memory kernel ≡ i + suc k) where
  abbrev pub start : ℕ
  start = kernel.address + e_phoff m.memory kernel

  -- The memory holds bytes, and in it a file in ELF format for this machine with segment headers
  -- of 56 bytes, all within the file; the memory's sections do not begin with the end. The
  -- loadable segments of the first `i` headers have their bytes within the file and room for them
  -- from 1 MiB on, outside of the file and of each other's place. The next header is that of a
  -- loadable segment which is larger in the file than in memory or lies below 1 MiB. Then
  -- `load_kernel` does not enter the kernel but fails with EINVAL: the segments of the first `i`
  -- headers have been loaded, and nothing else in the memory has changed.
  pub load_kernel-Refuses :
      All (IsGood kernel) (segments m.memory start i)
      → Apart (segments m.memory start i)
      → is_loadable m.memory (start + i * 56) ≡ true
      → IsBad (segment_at m.memory (start + i * 56))
      → Refuses kernel (segments m.memory start i) m (load_kernel kernel m)
  unfolding load_segments
  load_kernel-Refuses goods apart loadable bad =
      let mem = m.memory in
      let off = e_phoff mem kernel in
      let small = load-small mem (kernel.address + 0x38) bytes in
      let inside : off + (i + suc k) * 56 ≤ kernel.data_size =
        subst (λ n. off + n * 56 ≤ kernel.data_size) count x.3 in
      let low : i < 2 ^ 16 = omega (arith, small, count) in
      let (mem', e, places, kept) =
        load_segments-Places kernel mem x.4 i 0 off start m (omega arith) (omega arith)
          (omega (arith, inside)) b (λ a l h. refl) goods apart in
      let m' : Machine = record m { memory = mem' } in
      let same : File kernel mem mem' = λ a l h. sym (kept a (Outside-file kernel _ a goods l h)) in
      (
        mem',
        load_kernel-enters kernel m bytes x
            ∙ ap
                (λ n. and_then (load_segments kernel off 56 n 0 m) (λ _. ret (entry_of mem kernel)))
                count
            ∙ ap (λ r. and_then r (λ _. ret (entry_of mem kernel)))
                (load_segments-append kernel off 56 i (suc k) 0 m
                  ∙ ap (λ r. and_then r (λ _. load_segments kernel off 56 (suc k) (0 + i))) e
                  ∙ ap (λ r. and_then r (λ _. load_segments kernel off 56 k (suc (0 + i))))
                      (refused m' same low (omega (arith, inside)))),
        places,
        kept,
      )
    where
      refused :
          (m' : Machine)
          → File kernel m.memory m'.memory
          → i < 2 ^ 16
          → e_phoff m.memory kernel + i * 56 + 56 ≤ kernel.data_size
          → load_header kernel
              (kernel.address + e_phoff m.memory kernel + int_product (0 + i) 56)
              m'
            ≡ failed einval m'
      refused m' same low inside =
          ap (λ h. load_header kernel h m')
            (header_address kernel.address (e_phoff m.memory kernel) i low)
          ∙ load_header-refuses kernel m.memory (start + i * 56) m' same (omega arith) (omega arith)
              x.4 loadable bad
