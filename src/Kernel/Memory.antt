-- ===== src/Kernel/Memory.antt =====
-- What a copy within the memory leaves where.
use pure.Prelude.{
  ℕ, zero, suc, ◌+◌, ◌^◌, ◌<◌, ◌≤◌, ◌≡◌, refl, sym, ap, ◌∙◌, ◌⊎◌, inl, inr, ◌==◌, ==_iff, arith,
  Bool-cases, ◌≢◌,
}
use pure.Bits.{u64}
use pure.Kernel.{Memory, load8, store8, load, copy}

pub u64-small : (a : ℕ) → a < 2 ^ 64 → u64 a ≡ a
u64-small a h = omega arith

store8-at : (mem : Memory) (addr value : ℕ) → addr < 2 ^ 64 → store8 mem addr value addr ≡ value
store8-at mem addr value h = ground (arith, u64-small addr h)

store8-apart :
    (mem : Memory) (addr value a : ℕ) → addr < 2 ^ 64 → a ≢ addr → store8 mem addr value a ≡ mem a
store8-apart mem addr value a h n = elim (Bool-cases (a == u64 addr)) [
  | inl e ↦ absurd (n ((==_iff a (u64 addr)).0 e ∙ u64-small addr h))
  | inr e ↦ rw (e, store8) refl
]

-- The address is not one of the `size` from `start` on.
abbrev pub Outside : ℕ → ℕ → ℕ → Type 0
Outside start size a = (a < start) ⊎ (start + size ≤ a)

-- The `n` bytes from `a` on and the `k` from `b` on are apart.
abbrev pub Disjoint : ℕ → ℕ → ℕ → ℕ → Type 0
Disjoint a n b k = (a + n ≤ b) ⊎ (b + k ≤ a)

pub copy-Outside :
    (n dst src : ℕ) (mem : Memory) (a : ℕ)
    → dst + n ≤ 2 ^ 64
    → Outside dst n a
    → copy n dst src mem a ≡ mem a
unfolding copy
copy-Outside zero dst src mem a h o = refl
copy-Outside (suc n) dst src mem a h o =
    copy-Outside n (dst + 1) (src + 1) _ a (omega arith) (ground arith)
    ∙ store8-apart mem dst (load8 mem src) a (omega arith) (λ e. ground arith)

pub copy-inside :
    (n dst src : ℕ) (mem : Memory) (j : ℕ)
    → dst + n ≤ 2 ^ 64
    → src + n ≤ 2 ^ 64
    → Disjoint dst n src n
    → j < n
    → copy n dst src mem (dst + j) ≡ mem (src + j)
unfolding copy
copy-inside zero dst src mem j h k d l = omega arith
copy-inside (suc n) dst src mem zero h k d l =
    let mem₁ = store8 mem dst (load8 mem src) in
    ap (copy n (dst + 1) (src + 1) mem₁) (omega arith)
    ∙ copy-Outside n (dst + 1) (src + 1) mem₁ dst (omega arith) (inl (omega arith))
    ∙ store8-at mem dst (load8 mem src) (omega arith)
    ∙ ap mem (omega arith)
copy-inside (suc n) dst src mem (suc j) h k d l =
    let mem₁ = store8 mem dst (load8 mem src) in
    ap (copy n (dst + 1) (src + 1) mem₁) (omega arith)
    ∙ copy-inside n (dst + 1) (src + 1) mem₁ j (omega arith) (omega arith) (ground arith)
        (omega arith)
    ∙ store8-apart mem dst (load8 mem src) (src + 1 + j) (omega arith) (λ e. ground arith)
    ∙ ap mem (omega arith)

-- The same bytes in `size` places from `start` on.
abbrev pub SameIn : ℕ → ℕ → Memory → Memory → Type 0
SameIn start size mem mem' = (a : ℕ) → start ≤ a → a < start + size → mem a ≡ mem' a

pub load-SameIn :
    (n start size addr : ℕ) (mem mem' : Memory)
    → SameIn start size mem mem'
    → start + size ≤ 2 ^ 64
    → start ≤ addr
    → addr + n ≤ start + size
    → load n mem addr ≡ load n mem' addr
load-SameIn zero start size addr mem mem' s h k l = refl
load-SameIn (suc n) start size addr mem mem' s h k l =
    let e = u64-small addr (omega arith) in
    let first : load8 mem addr ≡ load8 mem' addr =
      ap mem e ∙ s addr k (omega arith) ∙ ap mem' (sym e) in
    let rest = load-SameIn n start size (addr + 1) mem mem' s h (omega arith) (omega arith) in
    rw (first, rest) refl
