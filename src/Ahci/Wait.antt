-- ===== src/Ahci/Wait.antt =====
-- src/stage-three/ahci.c: `ahci_port_read` as a dialogue with a device that completes its commands.
use pure.Prelude.{
  ℕ, zero, suc, ◌+◌, ◌^◌, ◌<◌, ◌≤◌, ◌≡◌, refl, arith, ◌⊎◌, inl, inr, Bool-cases, ◌==◌, ==_iff, Bool,
  true, false,
}
use Prim.Native.Nat.{bit_and}
use pure.Bits.Masks.{bit, bit-eq-zero, bit-eq-one}
use mathlib.Core.Path.{subst}
use pure.Run.{done, and_then}
use pure.Ahci.{Port, find_cmdslot}
use pure.Ahci.Slot.{find_cmdslot-lowest}
use pure.Ahci.Command.{ahci_port_read, issue, set_up, spin_loop, spin_limit, wait_loop, check_is}

counter_differs : (a n : ℕ) → a ≡ 0 + n + 1 → (a == n) ≡ false
counter_differs a n h = ground arith

slot_below : (n : ℕ) → n ≤ 32 → (n == 32) ≡ false → n < 32
slot_below n le e = ground arith

module _ {S : Type 0} (port : Port S) where
  -- From a state in which a command was issued in the slot, the registers are read in turn until CI
  -- shows that the command is no longer pending, where the next read of IS decides, or until IS shows
  -- a task file error while it is. `true` stands for success.
  pub data Polls (slot : ℕ) : S → Bool → S → Type 0 where
    success :
        {s t u : S} (ci is : ℕ)
        → port.get_ci s ≡ (ci, t)
        → bit ci slot ≡ 0
        → port.get_is t ≡ (is, u)
        → bit is 30 ≡ 0
        → Polls slot s true u
    late_error :
        {s t u : S} (ci is : ℕ)
        → port.get_ci s ≡ (ci, t)
        → bit ci slot ≡ 0
        → port.get_is t ≡ (is, u)
        → bit is 30 ≡ 1
        → Polls slot s false u
    early_error :
        {s t u : S} (ci is : ℕ)
        → port.get_ci s ≡ (ci, t)
        → bit ci slot ≡ 1
        → port.get_is t ≡ (is, u)
        → bit is 30 ≡ 1
        → Polls slot s false u
    pending :
        {s t u v : S} {r : Bool} (ci is : ℕ)
        → port.get_ci s ≡ (ci, t)
        → bit ci slot ≡ 1
        → port.get_is t ≡ (is, u)
        → bit is 30 ≡ 0
        → Polls slot u r v
        → Polls slot s r v

  -- What the device has left to do falls with each look at a command that is pending and has no
  -- error, and is below `fuel` when the command is issued.
  pub record Completes (fuel : ℕ) : Type 0 where
    pub measure : S → ℕ
    pub falls :
        (slot : ℕ) (s : S)
        → bit (port.get_ci s).0 slot ≡ 1
        → bit (port.get_is (port.get_ci s).1).0 30 ≡ 0
        → measure (port.get_is (port.get_ci s).1).1 < measure s
    pub starts : (slot : ℕ) (s : S) → measure (port.set_ci (2 ^ slot) s) < fuel

  -- The wait ends, as the dialogue goes.
  wait_loop-Polls :
      (m : S → ℕ)
      → ((slot : ℕ) (s : S)
          → bit (port.get_ci s).0 slot ≡ 1
          → bit (port.get_is (port.get_ci s).1).0 30 ≡ 0
          → m (port.get_is (port.get_ci s).1).1 < m s)
      → (f slot : ℕ) (s : S) → m s < f
      → (r : Bool) × (t : S) × (and_then (wait_loop port f slot s) (check_is port) ≡ done r t)
        × Polls slot s r t
  unfolding wait_loop check_is
  wait_loop-Polls m falls zero slot s h = absurd (omega arith)
  wait_loop-Polls m falls (suc f) slot s h =
      let ci = port.get_ci s in
      let is = port.get_is ci.1 in
      elim (Bool-cases (bit_and ci.0 (2 ^ slot) == 0)) [
        | inl e ↦ elim (Bool-cases (bit_and is.0 (2 ^ 30) == 0)) [
          | inl k ↦ (
            true,
            is.1,
            rw (e, and_then, check_is, k) refl,
            success ci.0 is.0 refl (bit-eq-zero _ slot e) refl (bit-eq-zero _ 30 k),
          )
          | inr k ↦ (
            false,
            is.1,
            rw (e, and_then, check_is, k) refl,
            late_error ci.0 is.0 refl (bit-eq-zero _ slot e) refl (bit-eq-one _ 30 k),
          )
        ]
        | inr e ↦ elim (Bool-cases (bit_and is.0 (2 ^ 30) == 0)) [
          | inl k ↦
              let busy = bit-eq-one ci.0 slot e in
              let fine = bit-eq-zero is.0 30 k in
              let (r, t, p, polls) =
                wait_loop-Polls m falls f slot is.1 (omega (arith, falls slot s busy fine)) in
              (r, t, rw (e, k) p, pending ci.0 is.0 refl busy refl fine polls)
          | inr k ↦ (
            false,
            is.1,
            rw (e, k, and_then, check_is) refl,
            early_error ci.0 is.0 refl (bit-eq-one _ slot e) refl (bit-eq-one _ 30 k),
          )
        ]
      ]

  -- The first loop ends with a counter that is one too high for the test behind it.
  spin_loop_counter : (n spin : ℕ) (s : S) → (spin_loop port n spin s).0 ≡ spin + n + 1
  unfolding spin_loop
  spin_loop_counter zero spin s = omega arith
  spin_loop_counter (suc n) spin s =
      omega (arith, spin_loop_counter n (suc spin) (port.get_tfd s).1)

  -- What `find_cmdslot` read of SACT and of CI.
  abbrev pub sact_of : S → ℕ
  sact_of s = (port.get_sact s).0

  abbrev pub ci_of : S → ℕ
  ci_of s = (port.get_ci (port.get_sact s).1).0

  -- The slots below are in use by SACT or by CI.
  abbrev pub AllUsed : ℕ → S → Type 0
  AllUsed slot s = (d : ℕ) → d < slot → (bit (sact_of s) d ≡ 1) ⊎ (bit (ci_of s) d ≡ 1)

  -- The lowest slot that is in use by neither.
  abbrev pub IsFree : ℕ → S → Type 0
  IsFree slot s =
      AllUsed slot s × (slot < 32) × (bit (sact_of s) slot ≡ 0) × (bit (ci_of s) slot ≡ 0)

  -- The device completes its commands, and `fuel` bounds the looks that it takes. Then
  -- `ahci_port_read` returns: -1 where SACT or CI show each of the 32 slots in use, and else what the
  -- dialogue with the device comes to once the command is issued in the lowest slot that neither shows
  -- in use. No wait for the port to become ready comes before that: the
  -- command is issued whatever the task file data show.
  pub ahci_port_read-Polls :
      (fuel : ℕ) (completes : Completes fuel) (sector sector_count buf : ℕ) (s : S)
      → let s0 = port.set_is 0xffffffff s in
        let (slot, s1) = find_cmdslot port s0 in
        let (spin, s2) =
          spin_loop port spin_limit 0 (set_up port slot sector sector_count buf s1) in
        (r : Bool) × (t : S) × (ahci_port_read port fuel sector sector_count buf s ≡ done r t)
        × ((AllUsed 32 s0 × (r ≡ false) × (t ≡ s1))
            ⊎ (IsFree slot s0 × Polls slot (port.set_ci (2 ^ slot) s2) r t))
  unfolding ahci_port_read issue
  ahci_port_read-Polls fuel completes sector sector_count buf s =
      let found = find_cmdslot port (port.set_is 0xffffffff s) in
      let spun =
        spin_loop port spin_limit 0 (set_up port found.0 sector sector_count buf found.1) in
      let (most, used, free) = find_cmdslot-lowest port (port.set_is 0xffffffff s) found.0 refl in
      elim (Bool-cases (found.0 == 32)) [
        | inl e ↦ (
          false,
          found.1,
          rw e refl,
          inl (
            subst (λ n. AllUsed n (port.set_is 0xffffffff s)) ((==_iff _ _).0 e) used,
            refl,
            refl,
          ),
        )
        | inr e ↦
            let below = slot_below found.0 most e in
            let late : (spun.0 == spin_limit) ≡ false = counter_differs spun.0 spin_limit (
              spin_loop_counter spin_limit 0
                (set_up port found.0 sector sector_count buf found.1)) in
            let (r, t, p, polls) =
              wait_loop-Polls completes.measure completes.falls fuel found.0
                (port.set_ci (2 ^ found.0) spun.1) (completes.starts found.0 spun.1) in
            (r, t, rw e (rw late p), inr ((used, below, (free below).0, (free below).1), polls))
      ]
