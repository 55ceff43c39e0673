-- ===== src/Pci.antt =====
-- src/stage-three/pci.c: the configuration registers, and the search for devices.
pub mod Visit
use pure.Prelude.{ℕ, zero, suc, ◌*◌, ◌/◌, ◌%◌, ◌^◌, Option, none, some, ◌==◌, if◌then◌else◌}
use Prim.Native.Nat.{bit_and, bit_or}
use pure.Run.{Outcome, M, and_then, ◌>>=◌, ◌>>◌, ret}

-- `PCI_CONFIG_ADDRESS` and `PCI_CONFIG_DATA`
abbrev pub address_port : ℕ
address_port = 0xcf8

abbrev pub data_port : ℕ
data_port = 0xcfc

-- The address that `pci_read` builds.
abbrev pub config_address : ℕ → ℕ → ℕ → ℕ → ℕ
config_address bus slot func reg =
    bit_or
      (bit_or (bit_or (bit_or (bit_or 0 (bus * 2 ^ 16)) (slot * 2 ^ 11)) (func * 2 ^ 8))
        (bit_and reg 0xfc))
      0x80000000

-- The instructions `outl` and `inl` of a machine whose state is an `S`.
module _ {S : Type 0} (out32 : ℕ → ℕ → M S (Unit {0})) (in32 : ℕ → M S ℕ) where
  unfoldable pub pci_read : ℕ → ℕ → ℕ → ℕ → M S ℕ
  pci_read bus slot func reg =
      out32 address_port (config_address bus slot func reg) >> in32 data_port

  unfoldable pub pci_read_bar5 : ℕ → ℕ → M S ℕ
  unfolding pci_read
  pci_read_bar5 bus slot = pci_read bus slot 0 0x24

  unfoldable pub pci_read_class : ℕ → ℕ → M S ℕ
  unfolding pci_read
  pci_read_class bus slot = pci_read bus slot 0 8 >>= λ n. ret (bit_and n 0xff000000 / 2 ^ 24)

  unfoldable pub pci_read_interface : ℕ → ℕ → M S ℕ
  unfolding pci_read
  pci_read_interface bus slot = pci_read bus slot 0 8 >>= λ n. ret (bit_and n 0xff00 / 2 ^ 8)

  unfoldable pub pci_read_subclass : ℕ → ℕ → M S ℕ
  unfolding pci_read
  pci_read_subclass bus slot = pci_read bus slot 0 8 >>= λ n. ret (bit_and n 0xff0000 / 2 ^ 16)

  unfoldable pub pci_read_vendor : ℕ → ℕ → M S ℕ
  unfolding pci_read
  pci_read_vendor bus slot = pci_read bus slot 0 0 >>= λ n. ret (bit_and n 0xffff)

  module _ (func : ℕ → ℕ → M S ℕ) where
    -- The inner loop: `n` slots from `slot` on. The result is that of the call that ended the
    -- search, or 0.
    unfoldable pub visit_slots : ℕ → ℕ → ℕ → M S ℕ
    unfolding pci_read_vendor
    visit_slots bus zero slot = ret 0
    visit_slots bus (suc n) slot = pci_read_vendor bus slot >>= λ vendor.
        if vendor == 0xffff
        then ret 0
        else (func bus slot >>= λ r. if r == 0 then visit_slots bus n (suc slot) else ret r)

    -- The outer loop: `n` buses from `bus` on.
    unfoldable pub visit_buses : ℕ → ℕ → M S ℕ
    unfolding visit_slots
    visit_buses zero bus = ret 0
    visit_buses (suc n) bus =
        visit_slots bus 32 0 >>= λ r. if r == 0 then visit_buses n (suc bus) else ret r

  -- `pci_visit`, where `none` is a NULL function.
  unfoldable pub pci_visit : Option (ℕ → ℕ → M S ℕ) → M S ℕ
  unfolding visit_buses
  pci_visit none = ret 0
  pci_visit (some func) = visit_buses func 255 0
