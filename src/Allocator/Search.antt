-- ===== src/Allocator/Search.antt =====
-- Where `find_suitable_addr` of src/stage-three/map.c finds room.
use pure.Prelude.{
  ℕ, ◌+◌, ◌^◌, ◌<◌, ◌≤◌, ◌≡◌, refl, sym, ap, ◌∙◌, ◌≢◌, ◌⊎◌, inl, inr, true, false, none, some, List,
  [], ◌∷◌, All, arith, Bool-cases, Option-cases, ltb, leb, ◌||◌, ◌==◌, ==_iff, if◌then◌else◌,
}
use pure.Allocator.{E820, Alloc, e820_end, e820_usable, place, find_suitable_addr}
use pure.Bits.{u64}
use mathlib.Core.Path.{subst}

-- The first address behind a block.
abbrev pub end_of : Alloc → ℕ
end_of x = x.addr + x.reserved

-- The blocks stand one behind the other.
abbrev pub Chain : List Alloc → Type 0
Chain [] = Unit
Chain (x ∷ xs) = All (λ (y : Alloc). end_of x ≤ y.addr) xs × Chain xs

-- No sum of the search wraps around, and no block is the empty one at 0.
abbrev pub InBounds : ℕ → List Alloc → Type 0
InBounds size xs = All (λ (x : Alloc). (0 < end_of x) × (end_of x + size < 2 ^ 64)) xs

-- The block of `size` bytes at `a` overlaps none of the blocks that begin in the section.
abbrev pub Clear : ℕ → ℕ → ℕ → ℕ → List Alloc → Type 0
Clear addr2 size2 size a xs =
    All
      (λ (x : Alloc).
        addr2 ≤ x.addr → x.addr < addr2 + size2 → (a + size ≤ x.addr) ⊎ (end_of x ≤ a))
      xs

pub All-map :
    {P Q : Alloc → Type 0} (xs : List Alloc) → ((x : Alloc) → P x → Q x) → All P xs → All Q xs
All-map [] f h = tt
All-map (x ∷ xs) f h = (f x h.0, All-map xs f h.1)

module _ (addr2 size2 size : ℕ) (section : addr2 + size2 < 2 ^ 64) where
  -- Behind the candidate no block moves it.
  place_before :
      (addr : ℕ) (xs : List Alloc)
      → addr + size < 2 ^ 64
      → All (λ (x : Alloc). addr + size ≤ x.addr) xs
      → (place addr2 size2 size addr xs ≡ some addr) × Clear addr2 size2 size addr xs
  unfolding place
  place_before addr [] small h = (refl, tt)
  place_before addr (x ∷ xs) small h =
      let (p, c) = place_before addr xs small h.1 in (ground (arith, p), ((λ i j. inl h.0), c))

  -- A block that does not begin in the section, or that the candidate ends in front of, leaves it.
  place-step :
      (addr a : ℕ) (x : Alloc) (xs : List Alloc)
      → addr + size < 2 ^ 64
      → end_of x + size < 2 ^ 64
      → place addr2 size2 size addr (x ∷ xs) ≡ some a
      → ((addr2 ≤ x.addr → x.addr < addr2 + size2 → ⊥) × (place addr2 size2 size addr xs ≡ some a))
        ⊎ (((addr + size ≤ x.addr) × (place addr2 size2 size addr xs ≡ some a))
            ⊎ ((addr2 ≤ x.addr)
                × (end_of x + size < addr2 + size2)
                × (place addr2 size2 size (end_of x) xs ≡ some a)))
  unfolding place
  place-step addr a x xs small bound e =
      elim (Bool-cases (ltb x.addr addr2 || leb (u64 (addr2 + size2)) x.addr)) [
        | inl out ↦ inl ((λ i j. ground arith), rw (out, place) at e)
        | inr inside ↦ elim (Bool-cases (ltb x.addr (u64 (addr + size)))) [
          | inr ahead ↦ inr (inl (ground arith, rw (inside, ahead, place) at e))
          | inl hit ↦ inr (inr (ground arith, (moved inside hit).0, (moved inside hit).1))
        ]
      ]
    where
      wraps : u64 (x.addr + x.reserved) ≡ end_of x
      wraps = omega arith

      moved :
          (ltb x.addr addr2 || leb (u64 (addr2 + size2)) x.addr) ≡ false
          → ltb x.addr (u64 (addr + size)) ≡ true
          → (end_of x + size < addr2 + size2) × (place addr2 size2 size (end_of x) xs ≡ some a)
      moved inside hit =
          elim (Bool-cases (leb (u64 (addr2 + size2)) (u64 (u64 (x.addr + x.reserved) + size)))) [
            | inl full ↦ absurd (none-ne-some (rw (inside, hit, full, place) at e))
            | inr fits ↦ (ground (arith, wraps), rw wraps at (rw (inside, hit, fits, place) at e))
          ]
        where
          none-ne-some : none ≡ some a → ⊥
          none-ne-some q = cc

  -- What the candidate `addr` comes to: a block behind it, in front of the section's end if it was
  -- moved, that is clear of the others.
  abbrev Result : ℕ → List Alloc → ℕ → Type 0
  Result addr xs a =
      (addr ≤ a) × ((addr ≡ a) ⊎ (a + size < addr2 + size2)) × Clear addr2 size2 size a xs

  pub place-Clear :
      (addr a : ℕ) (xs : List Alloc)
      → addr + size < 2 ^ 64
      → InBounds size xs
      → Chain xs
      → All (λ (x : Alloc). addr2 ≤ x.addr → addr ≤ end_of x) xs
      → place addr2 size2 size addr xs ≡ some a
      → Result addr xs a
  place-Clear addr a [] small bounds chain low e =
      let q : addr ≡ a = unfold place in cc in (omega arith, inl q, tt)
  place-Clear addr a (x ∷ xs) small bounds chain low e =
      elim (place-step addr a x xs small bounds.0.1 e) [
        | inl (out, e') ↦
            let (l, m, c) = place-Clear addr a xs small bounds.1 chain.1 low.1 e' in
            (l, m, ((λ i j. absurd (out i j)), c))
        | inr (inl (ahead, e')) ↦
            let (p, c) = place_before addr xs small (All-map xs (λ y k. omega arith) chain.0) in
            let q : addr ≡ a = cc in
            subst (Result addr (x ∷ xs)) q (omega arith, inl refl, ((λ i j. inl ahead), c))
        | inr (inr (low', fits, e')) ↦
            let (l, m, c) =
              place-Clear (end_of x) a xs bounds.0.1 bounds.1 chain.1
                (All-map xs (λ y k _. omega arith) chain.0) e' in
            (omega (arith, low.0 low'), inr (within x m fits), ((λ i j. inr l), c))
      ]
    where
      within :
          (x : Alloc)
          → (end_of x ≡ a) ⊎ (a + size < addr2 + size2)
          → end_of x + size < addr2 + size2
          → a + size < addr2 + size2
      within x (inl e) f = omega arith
      within x (inr e) f = e

-- The block lies in one of the usable sections, or it has the size of one that begins at 0 and
-- begins at 1, so that its last byte is the one behind the section. It overlaps none of the blocks
-- that begin in the section.
abbrev pub LiesIn : ℕ → ℕ → List Alloc → List E820 → Type 0
LiesIn size a allocs [] = ⊥
LiesIn size a allocs (e ∷ e820) =
    ((e820_usable e ≡ true)
      × (e.addr ≤ a)
      × (0 < a)
      × (size ≤ e.size)
      × ((a + size ≤ e.addr + e.size) ⊎ ((e.addr ≡ 0) × (a ≡ 1) × (size ≡ e.size)))
      × Clear e.addr e.size size a allocs)
    ⊎ LiesIn size a allocs e820

ends_behind :
    (e : E820) (size a : ℕ)
    → e.addr ≡ 0
    → a ≡ 1
    → size ≤ e.size
    → (a + size ≤ e.addr + e.size) ⊎ ((e.addr ≡ 0) × (a ≡ 1) × (size ≡ e.size))
ends_behind e size a z o large = elim (Bool-cases (size == e.size)) [
  | inl q ↦ inr (z, o, (==_iff _ _).0 q)
  | inr q ↦ inl (ground (arith, q))
]

-- The first candidate in a section.
abbrev start : E820 → ℕ
start e = if e.addr == 0 then 1 else e.addr

-- One round of the outer loop.
find_suitable_addr-step :
    (e : E820) (e820 : List E820) (allocs : List Alloc) (size : ℕ)
    → (find_suitable_addr (e ∷ e820) allocs size ≡ 0)
      ⊎ ((find_suitable_addr (e ∷ e820) allocs size ≡ find_suitable_addr e820 allocs size)
          ⊎ ((e820_usable e ≡ true)
              × (size ≤ e.size)
              × (place e.addr e.size size (start e) allocs
                  ≡ some (find_suitable_addr (e ∷ e820) allocs size))))
unfolding find_suitable_addr
find_suitable_addr-step e e820 allocs size = elim (Bool-cases (e820_end e)) [
  | inl k ↦ inl (rw (k, find_suitable_addr) refl)
  | inr k ↦ elim (Bool-cases (e820_usable e)) [
    | inr u ↦ inr (inl (rw (k, u, find_suitable_addr) refl))
    | inl u ↦ elim (Bool-cases (ltb e.size size)) [
      | inl l ↦ inr (inl (rw (k, u, l, find_suitable_addr) refl))
      | inr l ↦ elim (Option-cases (place e.addr e.size size (start e) allocs)) [
        | inl p ↦ inr (inl (rw (k, u, l, p, find_suitable_addr) refl))
        | inr (a, p) ↦
            inr
              (inr (u, ground arith, p ∙ ap some (sym (rw (k, u, l, p, find_suitable_addr) refl))))
      ]
    ]
  ]
]

-- The blocks of the table stand one behind the other, none is empty at 0, and no sum of the search
-- wraps around. Then a result of `find_suitable_addr` other than NULL is a block of `size` bytes
-- in a usable section, with one exception: for a usable section at 0 of just `size` bytes it may be
-- the block from address 1 on, whose last byte is the one behind the section. The block overlaps no
-- block that begins in that section.
pub find_suitable_addr-LiesIn :
    (e820 : List E820) (allocs : List Alloc) (size : ℕ)
    → All (λ (e : E820). e.addr + e.size + 1 < 2 ^ 64) e820
    → InBounds size allocs
    → Chain allocs
    → find_suitable_addr e820 allocs size ≢ 0
    → LiesIn size (find_suitable_addr e820 allocs size) allocs e820
find_suitable_addr-LiesIn [] allocs size sections bounds chain found =
    unfold find_suitable_addr in found refl
find_suitable_addr-LiesIn (e ∷ e820) allocs size sections bounds chain found =
    elim (find_suitable_addr-step e e820 allocs size) [
      | inl k ↦ absurd (found k)
      | inr (inl k) ↦ inr (
          subst (λ v. LiesIn size v allocs e820) (sym k)
            (find_suitable_addr-LiesIn e820 allocs size sections.1 bounds chain
              (λ z. found (k ∙ z))))
      | inr (inr (usable, large, p)) ↦
          let (l, m, c) =
            place-Clear e.addr e.size size (omega (arith, sections.0)) (start e) _ allocs
              (ground (arith, sections.0)) bounds chain
              (All-map allocs (λ x b i. ground (arith, b.0)) bounds) p in
          inl (
            usable,
            ground (arith, l),
            ground (arith, l),
            large,
            elim m [
              | inl q ↦ elim (Bool-cases (e.addr == 0)) [
                | inl z ↦ ends_behind e size _ (ground (arith, z)) (ground (arith, q, z)) large
                | inr z ↦ inl (ground (arith, q, z, large))
              ]
              | inr q ↦ inl (omega (arith, q))
            ],
            c,
          )
    ]
