-- ===== src/Ahci/Slot.antt =====
-- src/stage-three/ahci.c: the slot that `find_cmdslot` chooses, and the halves of an address.
use pure.Prelude.{
  ℕ, zero, suc, ◌+◌, ◌*◌, ◌/◌, ◌%◌, ◌^◌, ◌≤◌, ◌<◌, ◌≡◌, sym, ap, ◌∙◌, arith, ◌⊎◌, inl, inr,
  Bool-cases, ◌==◌, ==_iff,
}
use Prim.Native.Nat.{max, bit_and, bit_or}
use pure.Bits.{low_or, zero-bit_or, bit_or-shifted}
use pure.Bits.Masks.{bit_and-low, bit_or_comm, bit_and-shifted, bit, bit-suc}
use pure.Ahci.{ahci_addr_get, ahci_addr_set, Port, find_slot, find_cmdslot}

-- The two halves are put together.
ahci_addr_get_lem :
    (l u : ℕ)
    → l < 2 ^ 32
    → u < 2 ^ 32
    → ahci_addr_get (record { lower = l; upper = u }) ≡ l + u * 2 ^ 32
unfolding ahci_addr_get
ahci_addr_get_lem l u hl hu =
    let fits : u * 2 ^ 32 % 2 ^ 64 ≡ u * 2 ^ 32 = omega arith in
    let masked : bit_and (u * 2 ^ 32) 0xffffffff00000000 ≡ u * 2 ^ 32 =
      omega (arith, bit_and-shifted 32 u 0xffffffff, bit_and-low 32 u) in
    let lower : bit_and l 0xffffffff ≡ l = omega (arith, bit_and-low 32 l) in
    ap (λ (t : ℕ). bit_or (bit_or 0 (bit_and t 0xffffffff00000000)) (bit_and l 0xffffffff)) fits
    ∙ ap (λ (t : ℕ). bit_or (bit_or 0 t) (bit_and l 0xffffffff)) masked
    ∙ ap (λ (t : ℕ). bit_or t (bit_and l 0xffffffff)) (zero-bit_or (u * 2 ^ 32))
    ∙ ap (bit_or (u * 2 ^ 32)) lower
    ∙ bit_or_comm (u * 2 ^ 32) l
    ∙ bit_or-shifted 32 l u hl

-- An address below 2 ^ 64 that is stored in an address field is read back from it.
pub ahci_addr_get-ahci_addr_set : (ptr : ℕ) → ptr < 2 ^ 64 → ahci_addr_get (ahci_addr_set ptr) ≡ ptr
unfolding ahci_addr_set
ahci_addr_get-ahci_addr_set ptr h =
    let upper : bit_and (ptr / 2 ^ 32) 0xffffffff ≡ ptr / 2 ^ 32 =
      omega (arith, bit_and-low 32 (ptr / 2 ^ 32)) in
    let lower : bit_and ptr 0xffffffff ≡ ptr % 2 ^ 32 = bit_and-low 32 ptr in
    ap (λ (t : ℕ). ahci_addr_get (record { lower = t; upper = bit_and (ptr / 2 ^ 32) 0xffffffff }))
      lower
    ∙ ap (λ (t : ℕ). ahci_addr_get (record { lower = ptr % 2 ^ 32; upper = t })) upper
    ∙ ahci_addr_get_lem (ptr % 2 ^ 32) (ptr / 2 ^ 32) (omega arith) (omega arith)
    ∙ omega arith

bit-bit_or : (d a b : ℕ) → bit (bit_or a b) d ≡ max (bit a d) (bit b d)
bit-bit_or zero a b = omega (arith, low_or a b)
bit-bit_or (suc d) a b =
    let half : bit_or a b / 2 ≡ bit_or (a / 2) (b / 2) = omega (arith, low_or a b) in
    rw (bit-suc (bit_or a b) d, bit-suc a d, bit-suc b d, half) (bit-bit_or d (a / 2) (b / 2))

-- The bits up to the one that is found.
below :
    (slots k : ℕ)
    → slots % 2 ≡ 1
    → ((d : ℕ) → d < k → bit (slots / 2) d ≡ 1)
    → (d : ℕ) → d < suc k
    → bit slots d ≡ 1
below slots k low high zero h = omega arith
below slots k low high (suc d) h = bit-suc slots d ∙ high d (omega arith)

max_one : (x y : ℕ) → max x y ≡ 1 → (x ≡ 1) ⊎ (y ≡ 1)
max_one x y h = ground arith

max_zero : (x y : ℕ) → max x y ≡ 0 → (x ≡ 0) × (y ≡ 0)
max_zero x y h = (omega arith, omega arith)

-- What the loop gives.
find_slot_lowest :
    (n slots i : ℕ)
    → (k : ℕ) × (find_slot n slots i ≡ i + k)
      × (k ≤ n)
      × ((d : ℕ) → d < k → bit slots d ≡ 1)
      × (k < n → bit slots k ≡ 0)
unfolding find_slot
find_slot_lowest zero slots i =
    (0, omega arith, omega arith, λ d h. absurd (omega arith), λ h. absurd (omega arith))
find_slot_lowest (suc n) slots i = elim (Bool-cases (bit_and slots 1 == 0)) [
  | inl e ↦ (
    0,
    rw e (omega arith),
    omega arith,
    λ d h. absurd (omega arith),
    λ h. omega (arith, (==_iff _ _).0 e, bit_and-low 1 slots),
  )
  | inr e ↦
      let (k, p, q, busy, free) = find_slot_lowest n (slots / 2) (suc i) in
      (
        suc k,
        rw e (omega arith),
        omega arith,
        below slots k (ground (arith, bit_and-low 1 slots)) busy,
        λ h. bit-suc slots k ∙ free (omega arith),
      )
]

-- `find_cmdslot` gives the lowest slot whose bit is neither in SACT nor in CI, and 32 exactly where
-- all 32 bits are in use: each slot below the one given is in use, and a slot below 32 that is given
-- is not.
pub find_cmdslot-lowest :
    {S : Type 0} (port : Port S) (s : S) (slot : ℕ)
    → (find_cmdslot port s).0 ≡ slot
    → let sact = (port.get_sact s).0 in
      let ci = (port.get_ci (port.get_sact s).1).0 in
      (slot ≤ 32)
      × ((d : ℕ) → d < slot → (bit sact d ≡ 1) ⊎ (bit ci d ≡ 1))
      × (slot < 32 → (bit sact slot ≡ 0) × (bit ci slot ≡ 0))
unfolding find_cmdslot
find_cmdslot-lowest port s slot e =
    let sact = (port.get_sact s).0 in
    let ci = (port.get_ci (port.get_sact s).1).0 in
    let (k, p, q, busy, free) = find_slot_lowest 32 (bit_or sact ci) 0 in
    let same : slot ≡ k = omega (arith, e, p) in
    (
      omega arith,
      λ d h. max_one _ _ (sym (bit-bit_or d sact ci) ∙ busy d (omega arith)),
      λ h. rw same (max_zero _ _ (sym (bit-bit_or k sact ci) ∙ free (omega arith))),
    )
