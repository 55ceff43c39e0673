-- ===== src/Ahci/Prdt.antt =====
-- src/stage-three/ahci.c: the parts of memory that the entries of a command's table describe.
use pure.Prelude.{
  ℕ, zero, suc, ◌+◌, ◌-◌, ◌*◌, ◌/◌, ◌%◌, ◌^◌, ◌≤◌, ◌<◌, ◌≡◌, refl, sym, ap, ◌∙◌, arith, ltb→lt, ◌⊎◌,
  inl, inr, Bool-cases, ltb, List, [], ◌∷◌, length,
}
use Prim.Native.Nat.{min, bit_and}
use mathlib.Core.Path.{subst}
use native.Mathlib.Nat.{add_assoc, add-zero}
use pure.Bits.{bit_and-0xff}
use pure.Ahci.{ahci_addr_get, PrdtEntry}
use pure.Ahci.Slot.{ahci_addr_get-ahci_addr_set}
use pure.Ahci.Command.{
  prdt_payload, byte_total, prdt_count, entry_count, prdt_entries, read_entries, read_fis,
  sector_total,
}

-- The entries describe the memory from one address up to another: each a part of 1 to 32 KiB, and
-- each from where the one before it ends.
abbrev pub Tiles : ℕ → List PrdtEntry → ℕ → Type 0
Tiles from [] upto = from ≡ upto
Tiles from (entry ∷ entries) upto =
    (ahci_addr_get entry.address ≡ from)
    × (entry.byte_count < 0x8000)
    × Tiles (from + (entry.byte_count + 1)) entries upto

-- `n` entries are what `rest` bytes need.
abbrev Needs : ℕ → ℕ → Type 0
Needs n rest = (rest ≤ n * 0x8000) × (n * 0x8000 < rest + 0x8000)

-- The number of bytes of an entry.
entry_count_lem :
    (byte_count offset : ℕ)
    → offset < byte_count
    → (entry_count byte_count offset < 0x8000)
      × (offset + (entry_count byte_count offset + 1) ≤ byte_count)
      × ((offset + (entry_count byte_count offset + 1) ≡ byte_count)
          ⊎ (entry_count byte_count offset ≡ 0x7fff))
unfolding entry_count
entry_count_lem byte_count offset h = elim (Bool-cases (ltb (byte_count - offset) prdt_payload)) [
  | inl e ↦ rw e (last_part (ltb→lt _ _ e))
  | inr e ↦ rw e (omega arith, ground arith, inr (omega arith))
]
  where
    last_part :
        byte_count - offset < 0x8000
        → ((byte_count - offset - 1) % 2 ^ 22 < 0x8000)
          × (offset + ((byte_count - offset - 1) % 2 ^ 22 + 1) ≤ byte_count)
          × ((offset + ((byte_count - offset - 1) % 2 ^ 22 + 1) ≡ byte_count)
              ⊎ ((byte_count - offset - 1) % 2 ^ 22 ≡ 0x7fff))
    last_part k = (omega arith, omega arith, inl (omega arith))

Needs-next :
    (n byte_count offset k : ℕ)
    → Needs (suc n) (byte_count - offset)
    → k < 0x8000
    → (offset + (k + 1) ≡ byte_count) ⊎ (k ≡ 0x7fff)
    → Needs n (byte_count - (offset + (k + 1)))
Needs-next n byte_count offset k needs small (inl e) = omega arith
Needs-next n byte_count offset k needs small (inr e) = omega arith

prdt_entries-Tiles :
    (n byte_count buf offset : ℕ)
    → buf + byte_count ≤ 2 ^ 64
    → Needs n (byte_count - offset)
    → offset ≤ byte_count
    → Tiles (buf + offset) (prdt_entries n byte_count buf offset) (buf + byte_count)
unfolding prdt_entries
prdt_entries-Tiles zero byte_count buf offset fits needs le = omega arith
prdt_entries-Tiles (suc n) byte_count buf offset fits needs le =
    let k = entry_count byte_count offset in
    let (small, within, last) = entry_count_lem byte_count offset (omega arith) in
    (
      ahci_addr_get-ahci_addr_set (buf + offset) (omega arith),
      small,
      subst (λ a. Tiles a (prdt_entries n byte_count buf (offset + (k + 1))) (buf + byte_count))
          (sym (add_assoc buf offset (k + 1)))
          (prdt_entries-Tiles n byte_count buf (offset + (k + 1)) fits
            (Needs-next n byte_count offset k needs small last) within),
    )

length-prdt_entries :
    (n byte_count buf offset : ℕ) → length (prdt_entries n byte_count buf offset) ≡ n
unfolding prdt_entries
length-prdt_entries zero byte_count buf offset = refl
length-prdt_entries (suc n) byte_count buf offset =
    ap suc (length-prdt_entries n byte_count buf (offset + (entry_count byte_count offset + 1)))

byte_total_lem :
    (sector_count : ℕ)
    → sector_count < 2 ^ 23
    → byte_total sector_count ≡ min (sector_count * 512) 0x80000
unfolding byte_total
byte_total_lem sector_count h = ground arith

sector_total_lem :
    (sector_count : ℕ)
    → sector_count < 2 ^ 23
    → (sector_total sector_count * 512 ≡ min (sector_count * 512) 0x80000)
unfolding sector_total
sector_total_lem sector_count h = ground arith

prdt_count-Needs :
    (byte_count : ℕ)
    → byte_count ≤ 0x80000
    → Needs (prdt_count byte_count) byte_count × (prdt_count byte_count ≤ 16)
unfolding prdt_count
prdt_count-Needs byte_count h = ground arith

-- The command for a read of fewer than 2 ^ 23 sectors from a sector below 2 ^ 48 on, to a buffer with
-- 512 KiB of the address space from its address on. The sector number in the command is the one asked
-- for, and its sector count comes to the bytes asked for, but at most 512 KiB. At most 16 entries
-- divide just these bytes of the buffer, from its address on and without a gap, into parts of 1 to
-- 32768 bytes.
pub read_entries-Tiles :
    (sector sector_count buf : ℕ)
    → sector < 2 ^ 48
    → sector_count < 2 ^ 23
    → buf + 0x80000 ≤ 2 ^ 64
    → let fis = read_fis sector (sector_total sector_count) in
      let bytes = (fis.countl + fis.counth * 2 ^ 8) * 512 in
      (bytes ≡ min (sector_count * 512) 0x80000)
      × Tiles buf (read_entries sector_count buf) (buf + bytes)
      × (length (read_entries sector_count buf) ≤ 16)
      × (fis.lba0
            + fis.lba1 * 2 ^ 8
            + fis.lba2 * 2 ^ 16
            + fis.lba3 * 2 ^ 24
            + fis.lba4 * 2 ^ 32
            + fis.lba5 * 2 ^ 40
          ≡ sector)
unfolding read_entries read_fis
read_entries-Tiles sector sector_count buf hs hc hb =
    let bytes : (bit_and (sector_total sector_count / 2 ^ 0) 0xff
            + bit_and (sector_total sector_count / 2 ^ 8) 0xff * 2 ^ 8)
          * 512
        ≡ min (sector_count * 512) 0x80000 =
      omega (
        arith,
        sector_total_lem sector_count hc,
        bit_and-0xff (sector_total sector_count / 2 ^ 0),
        bit_and-0xff (sector_total sector_count / 2 ^ 8),
      ) in
    let (needs, few) =
      prdt_count-Needs (byte_total sector_count) (omega (arith, byte_total_lem sector_count hc)) in
    (
      bytes,
      subst (λ a. Tiles buf (read_entries sector_count buf) (buf + a))
          (byte_total_lem sector_count hc ∙ sym bytes)
          (subst (λ a. Tiles a (read_entries sector_count buf) (buf + byte_total sector_count))
            (add-zero buf)
            (prdt_entries-Tiles (prdt_count (byte_total sector_count)) (byte_total sector_count) buf
              0 (omega (arith, byte_total_lem sector_count hc)) (omega (arith, needs))
              (omega arith))),
      omega (
        arith,
        few,
        length-prdt_entries (prdt_count (byte_total sector_count)) (byte_total sector_count) buf 0,
      ),
      omega (
        arith,
        bit_and-0xff (sector / 2 ^ 0x00),
        bit_and-0xff (sector / 2 ^ 0x08),
        bit_and-0xff (sector / 2 ^ 0x10),
        bit_and-0xff (sector / 2 ^ 0x18),
        bit_and-0xff (sector / 2 ^ 0x20),
        bit_and-0xff (sector / 2 ^ 0x28),
      ),
    )
