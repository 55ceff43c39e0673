-- ===== src/Ahci/Visit.antt =====
-- src/stage-three/ahci.c: the controllers and the ports that `ahci_visit` calls its visitor for.
use pure.Prelude.{ℕ, zero, suc, ◌+◌, ◌*◌, ◌^◌, Option, none, some, ◌==◌, if◌then◌else◌}
use Prim.Native.Nat.{bit_and}
use pure.Run.{M, ret, ◌>>=◌}
use pure.Pci.{pci_read_class, pci_read_subclass, pci_read_bar5, pci_visit}

-- `PCI_CLASS_STORAGE` and `PCI_SUBCLASS_SATA`
abbrev pub class_storage : ℕ
class_storage = 0x01

abbrev pub subclass_sata : ℕ
subclass_sata = 0x06

-- `struct ahci_visitor`, where `none` is a NULL function. `data` is part of the state.
pub record AhciVisitor (S : Type 0) : Type 0 where
  pub visit_base : Option (ℕ → M S ℕ)
  pub visit_port : Option (ℕ → M S ℕ)

abbrev pub notify : {S : Type 0} → Option (ℕ → M S ℕ) → ℕ → M S ℕ
notify none a = ret 0
notify (some f) a = f a

-- The address of a port's registers.
abbrev pub port_address : ℕ → ℕ → ℕ
port_address base i = base + 0x100 + i * 0x80

-- The machine: the instructions of the PCI ports, and `base->pi` in memory.
module _ {S : Type 0} (out32 : ℕ → ℕ → M S (Unit {0})) (in32 : ℕ → M S ℕ)
    (base_pi : ℕ → M S ℕ) where
  unfoldable pub ahci_base_ports_implemented : ℕ → M S ℕ
  ahci_base_ports_implemented base = base_pi base

  module _ (visitor : AhciVisitor S) where
    -- The loop over the ports, `n` ports from `i` on.
    unfoldable pub visit_ports : ℕ → ℕ → ℕ → M S ℕ
    visit_ports zero base i = ret 0
    visit_ports (suc n) base i =
        let rest = visit_ports n base (suc i) in
        base_pi base >>= λ implemented.
        if bit_and implemented (2 ^ i) == 0
        then rest
        else (notify (visitor.visit_port) (port_address base i) >>= λ r.
            if r == 0 then rest else ret r)

    -- The code from `base` on.
    unfoldable pub visit_controller : ℕ → ℕ → M S ℕ
    visit_controller bus slot = pci_read_bar5 out32 in32 bus slot >>= λ base.
        notify (visitor.visit_base) base >>= λ r. if r == 0 then visit_ports 32 base 0 else ret r

    unfoldable pub find_ahci : ℕ → ℕ → M S ℕ
    find_ahci bus slot = pci_read_class out32 in32 bus slot >>= λ cls.
        if cls == class_storage
        then visit_controller bus slot
        else (pci_read_subclass out32 in32 bus slot >>= λ subclass.
            if subclass == subclass_sata then visit_controller bus slot else ret 0)

    unfoldable pub ahci_visit : M S ℕ
    ahci_visit = pci_visit out32 in32 (some find_ahci)
