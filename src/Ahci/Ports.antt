-- ===== src/Ahci/Ports.antt =====
-- src/stage-three/ahci.c: `ahci_visit` as a walk along the implemented ports.
use pure.Prelude.{
  ℕ, zero, suc, ◌^◌, ◌/◌, ◌≡◌, refl, ap, ◌∙◌, List, [], ◌∷◌, Option, none, some, ◌==◌, ◌||◌,
  if◌then◌else◌, Bool-cases, inl, inr,
}
use Prim.Native.Nat.{bit_and}
use pure.Run.{M, done, and_then, ret, on_second}
use pure.Pci.{config_address, pci_read, pci_read_class, pci_read_subclass, pci_read_bar5}
use pure.Pci.Visit.{
  each, forget, forget-with_first, forget-on_zero, on_zero, Reads, buses, pci_visit-simulates,
}
use pure.Ahci.Visit.{
  AhciVisitor, notify, port_address, visit_ports, visit_controller, find_ahci, ahci_visit,
  class_storage, subclass_sata,
}
use pure.Bits.Masks.{bit, bit-eq-zero, bit-eq-one}

-- The addresses of the implemented ports, of `n` from `i` on.
abbrev pub ports_of : ℕ → ℕ → ℕ → ℕ → List ℕ
ports_of implemented base zero i = []
ports_of implemented base (suc n) i =
    let rest = ports_of implemented base n (suc i) in
    if bit implemented i == 1 then port_address base i ∷ rest else rest

-- The function is called for one after the other, until it gives something else than 0.
abbrev pub each_port : {S : Type 0} → (ℕ → M S ℕ) → List ℕ → M S ℕ
each_port f [] s = done 0 s
each_port f (a ∷ ports) s = and_then (f a s) (λ r. if r == 0 then each_port f ports else ret r)

-- What is read of a device.
abbrev pub class_of : (ℕ → ℕ) → ℕ → ℕ → ℕ
class_of config bus slot = bit_and (config (config_address bus slot 0 8)) 0xff000000 / 2 ^ 24

abbrev pub subclass_of : (ℕ → ℕ) → ℕ → ℕ → ℕ
subclass_of config bus slot = bit_and (config (config_address bus slot 0 8)) 0xff0000 / 2 ^ 16

abbrev pub base_of : (ℕ → ℕ) → ℕ → ℕ → ℕ
base_of config bus slot = config (config_address bus slot 0 0x24)

-- What is done for a device: its base and its implemented ports, where it counts as a controller.
abbrev pub on_device : {S : Type 0} → (ℕ → ℕ) → (ℕ → ℕ) → AhciVisitor S → ℕ → ℕ → M S ℕ
on_device config memory visitor bus slot s =
    let base = base_of config bus slot in
    if (class_of config bus slot == class_storage) || (subclass_of config bus slot == subclass_sata)
    then and_then (notify visitor.visit_base base s) (λ r.
      if r == 0
      then each_port (notify visitor.visit_port) (ports_of (memory base) base 32 0)
      else ret r)
    else done 0 s

-- The visitor as the machine calls it.
abbrev pub lift : {L S : Type 0} → Option (ℕ → M S ℕ) → Option (ℕ → M (L × S) ℕ)
lift none = none
lift (some f) = some (λ a. on_second (f a))

abbrev pub lifted : {L S : Type 0} → AhciVisitor S → AhciVisitor (L × S)
lifted visitor = record {
  visit_base = lift visitor.visit_base;
  visit_port = lift visitor.visit_port;
}

forget-notify :
    {L S : Type 0} (f : Option (ℕ → M S ℕ)) (a : ℕ) (l : L) (s : S)
    → forget (notify (lift f) a (l, s)) ≡ notify f a s
forget-notify none a l s = refl
forget-notify (some f) a l s = forget-with_first l (f a s)

module _ {L S : Type 0} (out32 : ℕ → ℕ → M (L × S) (Unit {0})) (in32 : ℕ → M (L × S) ℕ)
    (base_pi : ℕ → M (L × S) ℕ) (config memory : ℕ → ℕ) (reads : Reads out32 in32 config)
    (looks : (a : ℕ) (l : L) (s : S) → base_pi a (l, s) ≡ done (memory a) (l, s))
    (visitor : AhciVisitor S) where
  visit_ports-each :
      (n base i : ℕ) (l : L) (s : S)
      → forget (visit_ports out32 in32 base_pi (lifted visitor) n base i (l, s))
        ≡ each_port (notify visitor.visit_port) (ports_of (memory base) base n i) s
  unfolding visit_ports
  visit_ports-each zero base i l s = refl
  visit_ports-each (suc n) base i l s =
      rw (looks base l s, visit_ports)
        (elim (Bool-cases (bit_and (memory base) (2 ^ i) == 0)) [
          | inl e ↦ rw (e, bit-eq-zero _ i e) (visit_ports-each n base (suc i) l s)
          | inr e ↦
              rw (e, bit-eq-one _ i e)
                (forget-on_zero (notify (lift visitor.visit_port) (port_address base i) (l, s)) _ _
                    (visit_ports-each n base (suc i))
                  ∙ ap
                      (λ r. on_zero r (
                        each_port (notify visitor.visit_port)
                          (ports_of (memory base) base n (suc i))))
                      (forget-notify visitor.visit_port (port_address base i) l s))
        ])

  visit_controller-each :
      (bus slot : ℕ) (l : L) (s : S)
      → forget (visit_controller out32 in32 base_pi (lifted visitor) bus slot (l, s))
        ≡ on_zero (notify visitor.visit_base (base_of config bus slot) s) (
            each_port
              (notify visitor.visit_port)
              (ports_of (memory (base_of config bus slot)) (base_of config bus slot) 32 0))
  unfolding visit_controller pci_read_bar5 pci_read
  visit_controller-each bus slot l s =
      let (l', e) = reads (config_address bus slot 0 0x24) l s in
      let base = base_of config bus slot in
      rw (e, visit_controller)
        (forget-on_zero (notify (lift visitor.visit_base) base (l', s)) _ _
            (visit_ports-each 32 base 0)
          ∙ ap
              (λ r.
                on_zero r
                  (each_port (notify visitor.visit_port) (ports_of (memory base) base 32 0)))
              (forget-notify visitor.visit_base base l' s))

  find_ahci-on_device :
      (bus slot : ℕ) (l : L) (s : S)
      → forget (find_ahci out32 in32 base_pi (lifted visitor) bus slot (l, s))
        ≡ on_device config memory visitor bus slot s
  unfolding find_ahci pci_read_class pci_read_subclass pci_read
  find_ahci-on_device bus slot l s =
      let (l', e) = reads (config_address bus slot 0 8) l s in
      let (l'', e') = reads (config_address bus slot 0 8) l' s in
      rw (e, find_ahci)
        (elim (Bool-cases (class_of config bus slot == class_storage)) [
          | inl c ↦ rw c (visit_controller-each bus slot l' s)
          | inr c ↦ rw c (
              rw (e', find_ahci)
                (elim (Bool-cases (subclass_of config bus slot == subclass_sata)) [
                  | inl d ↦ rw d (visit_controller-each bus slot l'' s)
                  | inr d ↦ rw d refl
                ]))
        ])

  -- Writing an address to the address port and then reading the data port gives the register at that
  -- address and changes nothing but the state of the ports; `base->pi` is what the memory holds; the
  -- visitor does not use the ports. Then `ahci_visit` goes through the devices in the order of
  -- `pci_visit`. For a device whose class is 1 or whose subclass is 6, and for no other, it calls
  -- `visit_base` for what the register BAR5 holds and then `visit_port` for the implemented ports, in
  -- order. It stops at the first call that does not give 0 and returns what that gave, or 0.
  pub ahci_visit-each :
      (l : L) (s : S)
      → forget (ahci_visit out32 in32 base_pi (lifted visitor) (l, s))
        ≡ each (on_device config memory visitor) (buses config 255 0) s
  unfolding ahci_visit
  ahci_visit-each l s =
      pci_visit-simulates out32 in32 config reads (find_ahci out32 in32 base_pi (lifted visitor))
        (on_device config memory visitor) find_ahci-on_device l s
