-- ===== src/Kernel/Segments.antt =====
-- The loop of `load_kernel_elf` over the headers of the segments.
use pure.Prelude.{
  ℕ, zero, suc, ◌+◌, ◌*◌, ◌^◌, ◌<◌, ◌≤◌, ◌≡◌, refl, sym, ap, ◌∙◌, inl, inr, true, false, List, [],
  ◌∷◌, ltb, if◌then◌else◌, All, arith, Bool-cases,
}
use mathlib.Core.Path.{subst}
use pure.Run.{Outcome, done, and_then}
use pure.Allocator.{E820, e820_end, map_reserve}
use pure.Kernel.{
  Memory, Machine, Kernel, Segment, load8, load, copy, is_loadable, segment_at, load_segment,
  load_header, load_segments, int_product, answered, move,
}
use pure.Kernel.Memory.{
  Outside, Disjoint, SameIn, u64-small, load-SameIn, copy-Outside, copy-inside,
}

-- The loadable segments of `n` headers, 56 bytes each, from an address on.
abbrev pub segments : Memory → ℕ → ℕ → List Segment
segments mem ph zero = []
segments mem ph (suc n) =
    let rest = segments mem (ph + 56) n in
    if is_loadable mem ph then segment_at mem ph ∷ rest else rest

-- The segment has room for its bytes, above 1 MiB and outside of the file, and they are in the
-- file.
abbrev pub IsGood : Kernel → Segment → Type 0
IsGood kernel seg =
    (seg.p_filesz ≤ seg.p_memsz)
    × (0x100000 ≤ seg.vaddr)
    × (seg.vaddr + seg.p_filesz ≤ 2 ^ 64)
    × (seg.p_offset + seg.p_filesz ≤ kernel.data_size)
    × Disjoint seg.vaddr seg.p_filesz kernel.address kernel.data_size

abbrev pub Apart : List Segment → Type 0
Apart [] = Unit
Apart (s ∷ ss) = All (λ (t : Segment). Disjoint s.vaddr s.p_filesz t.vaddr t.p_filesz) ss × Apart ss

-- The segment's bytes of the file in the memory `mem` stand at its address in `mem'`.
abbrev pub InPlace : Kernel → Memory → Memory → Segment → Type 0
InPlace kernel mem mem' seg =
    (j : ℕ) → j < seg.p_filesz → mem' (seg.vaddr + j) ≡ mem (kernel.address + seg.p_offset + j)

-- All that is in no segment is as it was.
abbrev pub Kept : List Segment → Memory → Memory → Type 0
Kept segs mem mem' =
    (a : ℕ) → All (λ (s : Segment). Outside s.vaddr s.p_filesz a) segs → mem' a ≡ mem a

-- The run has loaded the segments, whose bytes `mem` holds, into the memory of `m`.
abbrev pub Places :
    {A : Type 0} → Kernel → Memory → List Segment → A → Machine → Outcome Machine A → Type 0
Places kernel mem segs a m r =
    (mem' : Memory) × (r ≡ done a (record m { memory = mem' }))
    × All (InPlace kernel mem mem') segs
    × Kept segs m.memory mem'

abbrev pub File : Kernel → Memory → Memory → Type 0
File kernel mem mem' = SameIn kernel.address kernel.data_size mem mem'

-- The header of a segment is read the same in two memories that hold the same file.
module _ (kernel : Kernel) (mem mem' : Memory) (same : File kernel mem mem') (ph : ℕ)
    (low : kernel.address ≤ ph) (high : ph + 56 ≤ kernel.address + kernel.data_size)
    (fits : kernel.address + kernel.data_size ≤ 2 ^ 64) where
  load_same : (n k : ℕ) → k + n ≤ 56 → load n mem (ph + k) ≡ load n mem' (ph + k)
  load_same n k h =
      load-SameIn n kernel.address kernel.data_size (ph + k) mem mem' same fits (omega arith)
        (omega arith)

  load8_same : (k : ℕ) → k < 56 → load8 mem (ph + k) ≡ load8 mem' (ph + k)
  load8_same k h =
      let e = u64-small (ph + k) (omega arith) in
      ap mem e ∙ same (ph + k) (omega arith) (omega arith) ∙ ap mem' (sym e)

  load8_same-first : load8 mem ph ≡ load8 mem' ph
  load8_same-first =
      let e = u64-small ph (omega arith) in
      ap mem e ∙ same ph (omega arith) (omega arith) ∙ ap mem' (sym e)

  pub is_loadable_same : is_loadable mem ph ≡ is_loadable mem' ph
  is_loadable_same =
      rw
        (
          load8_same-first,
          load8_same 1 (omega arith),
          load8_same 2 (omega arith),
          load8_same 3 (omega arith),
        )
        refl

  pub segment_at_same : segment_at mem ph ≡ segment_at mem' ph
  segment_at_same =
      rw
        (
          load_same 8 0x08 (omega arith),
          load_same 8 0x10 (omega arith),
          load_same 8 0x20 (omega arith),
          load_same 8 0x28 (omega arith),
        )
        refl

pub int_product-56 : (i : ℕ) → i < 2 ^ 16 → int_product i 56 ≡ i * 56
int_product-56 i h = ground arith

-- A usable table does not begin with its end.
abbrev pub Begins : List E820 → Type 0
Begins [] = ⊥
Begins (e ∷ es) = e820_end e ≡ false

pub map_reserve-grants :
    (e820 : List E820) (addr size : ℕ) → Begins e820 → map_reserve e820 addr size ≡ done tt tt
unfolding map_reserve
map_reserve-grants [] addr size h = elim h [ ]
map_reserve-grants (e ∷ es) addr size h = rw h refl

-- The machine with the bytes of a segment copied.
abbrev pub copied : Kernel → Segment → Machine → Machine
copied kernel seg m = record m {
  memory = copy seg.p_filesz seg.vaddr (kernel.address + seg.p_offset) m.memory;
}

load_segment_lem :
    (kernel : Kernel) (seg : Segment) (m : Machine)
    → Begins m.e820
    → IsGood kernel seg
    → load_segment kernel seg m ≡ done tt (copied kernel seg m)
unfolding load_segment
load_segment_lem kernel seg m b (h, k, rest, more, apart) =
    let p : ltb seg.p_memsz seg.p_filesz ≡ false = ground arith in
    let q : ltb seg.vaddr 0x100000 ≡ false = ground arith in
    rw (p, q, load_segment)
      (ap
        (λ r.
          and_then (answered r m)
            (λ _. move seg.vaddr (kernel.address + seg.p_offset) seg.p_filesz))
        (map_reserve-grants m.e820 seg.vaddr seg.p_filesz b))

module _ (kernel : Kernel) (mem : Memory) (fits : kernel.address + kernel.data_size ≤ 2 ^ 64) where
  Outside-All :
      (seg : Segment) (segs : List Segment) (j : ℕ)
      → j < seg.p_filesz
      → All (λ (t : Segment). Disjoint seg.vaddr seg.p_filesz t.vaddr t.p_filesz) segs
      → All (λ (t : Segment). Outside t.vaddr t.p_filesz (seg.vaddr + j)) segs
  Outside-All seg [] j h a = tt
  Outside-All seg (t ∷ ts) j h (d, ds) = (ground arith, Outside-All seg ts j h ds)

  -- One segment is copied, and the others after it.
  Places-cons :
      {A : Type 0} (a : A) (seg : Segment) (segs : List Segment) (m : Machine)
      (r : Outcome Machine A)
      → File kernel mem m.memory
      → IsGood kernel seg
      → All (λ (t : Segment). Disjoint seg.vaddr seg.p_filesz t.vaddr t.p_filesz) segs
      → Places kernel mem segs a (copied kernel seg m) r
      → Places kernel mem (seg ∷ segs) a m r
  Places-cons a seg segs m r same (g₁, g₂, g₃, g₄, g₅) apart (mem', e, ps, kept) = (
    mem',
    e,
    (place, ps),
    λ x o. kept x o.1 ∙ copy-Outside seg.p_filesz seg.vaddr src m.memory x g₃ o.0,
  )
    where
      src : ℕ
      src = kernel.address + seg.p_offset

      place : InPlace kernel mem mem' seg
      place j l =
          kept (seg.vaddr + j) (Outside-All seg segs j l apart)
          ∙ copy-inside seg.p_filesz seg.vaddr (kernel.address + seg.p_offset) m.memory j g₃
              (omega arith) (ground arith) l
          ∙ sym (same (kernel.address + seg.p_offset + j) (omega arith) (omega arith))

  -- A copy into a good segment leaves the file.
  File-copy :
      (seg : Segment) (m : Machine)
      → File kernel mem m.memory
      → IsGood kernel seg
      → File kernel mem (Machine.memory (copied kernel seg m))
  File-copy seg m same (g₁, g₂, g₃, g₄, g₅) a low high =
      same a low high
      ∙ sym (
          copy-Outside seg.p_filesz seg.vaddr (kernel.address + seg.p_offset) m.memory a g₃
            (ground arith))

  module _ (ph : ℕ) (m : Machine) (same : File kernel mem m.memory) (low : kernel.address ≤ ph)
      (high : ph + 56 ≤ kernel.address + kernel.data_size) where
    load_header_skips : is_loadable mem ph ≡ false → load_header kernel ph m ≡ done tt m
    unfolding load_header
    load_header_skips e =
        rw (sym (is_loadable_same kernel mem m.memory same ph low high fits) ∙ e, load_header) refl

    load_header_copies :
        Begins m.e820
        → IsGood kernel (segment_at mem ph)
        → is_loadable mem ph ≡ true
        → load_header kernel ph m ≡ done tt (copied kernel (segment_at mem ph) m)
    unfolding load_header
    load_header_copies b good e =
        rw (sym (is_loadable_same kernel mem m.memory same ph low high fits) ∙ e, load_header)
          (ap (λ seg. load_segment kernel seg m)
              (sym (segment_at_same kernel mem m.memory same ph low high fits))
            ∙ load_segment_lem kernel (segment_at mem ph) m b good)

  pub load_segments-Places :
      (n i e_phoff ph : ℕ) (m : Machine)
      → ph ≡ kernel.address + e_phoff + i * 56
      → i + n < 2 ^ 16
      → e_phoff + (i + n) * 56 ≤ kernel.data_size
      → Begins m.e820
      → File kernel mem m.memory
      → All (IsGood kernel) (segments mem ph n)
      → Apart (segments mem ph n)
      → Places kernel mem (segments mem ph n) tt m (load_segments kernel e_phoff 56 n i m)
  unfolding load_segments
  load_segments-Places zero i e_phoff ph m q small inside b same goods apart =
      (m.memory, refl, tt, λ a o. refl)
  load_segments-Places (suc n) i e_phoff ph m q small inside b same goods apart =
      let here : kernel.address + e_phoff + int_product i 56 ≡ ph =
        rw (int_product-56 i (omega arith)) (sym q) in
      let low : kernel.address ≤ ph = omega arith in
      let high : ph + 56 ≤ kernel.address + kernel.data_size = omega arith in
      let next : ph + 56 ≡ kernel.address + e_phoff + suc i * 56 = omega arith in
      elim (Bool-cases (is_loadable mem ph)) [
        | inr e ↦
            let list : segments mem ph (suc n) ≡ segments mem (ph + 56) n = rw (e, segments) refl in
            step list
              (ap (λ h. load_header kernel h m) here ∙ load_header_skips ph m same low high e)
              (load_segments-Places n (suc i) e_phoff (ph + 56) m next (omega arith) (omega arith) b
                same (subst (All (IsGood kernel)) list goods) (subst Apart list apart))
        | inl e ↦
            let seg = segment_at mem ph in
            let list : segments mem ph (suc n) ≡ seg ∷ segments mem (ph + 56) n =
              rw (e, segments) refl in
            let goods' = subst (All (IsGood kernel)) list goods in
            let apart' = subst Apart list apart in
            step list
              (ap (λ h. load_header kernel h m) here
                ∙ load_header_copies ph m same low high b goods'.0 e)
              (Places-cons tt seg (segments mem (ph + 56) n) m _ same goods'.0 apart'.0 (
                load_segments-Places n (suc i) e_phoff (ph + 56) (copied kernel seg m) next
                  (omega arith) (omega arith) b (File-copy seg m same goods'.0) goods'.1 apart'.1))
      ]
    where
      step :
          {segs : List Segment} {m₁ : Machine}
          → segments mem ph (suc n) ≡ segs
          → load_header kernel (kernel.address + e_phoff + int_product i 56) m ≡ done tt m₁
          → Places kernel mem segs tt m (load_segments kernel e_phoff 56 n (suc i) m₁)
          → Places kernel mem
              (segments mem ph (suc n))
              tt
              m
              (load_segments kernel e_phoff 56 (suc n) i m)
      step {segs = segs} list header places =
          subst (λ ss. Places kernel mem ss tt m (load_segments kernel e_phoff 56 (suc n) i m))
            (sym list)
            (subst
              (λ r.
                Places kernel mem segs tt m
                  (and_then r (λ _. load_segments kernel e_phoff 56 n (suc i))))
              (sym header) places)
