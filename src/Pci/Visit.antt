-- ===== src/Pci/Visit.antt =====
-- The devices that `pci_visit` calls its function for.
use pure.Prelude.{
  ℕ, zero, suc, ◌≡◌, refl, sym, ap, ◌∙◌, List, [], ◌∷◌, ◌++◌, some, ◌==◌, if◌then◌else◌, Bool-cases,
  inl, inr,
}
use Prim.Native.Nat.{bit_and}
use pure.Run.{Outcome, M, done, failed, fault, out_of_fuel, and_then, ret, with_first, on_second}
use pure.Pci.{
  address_port, data_port, config_address, pci_read, pci_read_vendor, visit_slots, visit_buses,
  pci_visit,
}

-- What is read at the registers of a device: the vendor is 0xffff where there is none.
abbrev pub vendor_of : (ℕ → ℕ) → ℕ → ℕ → ℕ
vendor_of config bus slot = bit_and (config (config_address bus slot 0 0)) 0xffff

-- The devices in the slots of a bus, up to the first empty slot, and those on all buses.
abbrev pub slots : (ℕ → ℕ) → ℕ → ℕ → ℕ → List (ℕ × ℕ)
slots config bus zero slot = []
slots config bus (suc n) slot =
    let rest = slots config bus n (suc slot) in
    if vendor_of config bus slot == 0xffff then [] else (bus, slot) ∷ rest

abbrev pub buses : (ℕ → ℕ) → ℕ → ℕ → List (ℕ × ℕ)
buses config zero bus = []
buses config (suc n) bus = slots config bus 32 0 ++ buses config n (suc bus)

-- The function is called for one after the other, until it gives something else than 0.
abbrev pub each : {S : Type 0} → (ℕ → ℕ → M S ℕ) → List (ℕ × ℕ) → M S ℕ
each func [] s = done 0 s
each func ((bus, slot) ∷ ds) s =
    and_then (func bus slot s) (λ r. if r == 0 then each func ds else ret r)

module _ {S : Type 0} where
  -- What follows a call that gives 0.
  abbrev pub on_zero : Outcome S ℕ → M S ℕ → Outcome S ℕ
  on_zero r f = and_then r (λ x. if x == 0 then f else ret x)

  on_zero_ext : (r : Outcome S ℕ) (f g : M S ℕ) → ((s : S) → f s ≡ g s) → on_zero r f ≡ on_zero r g
  on_zero_ext (done x s) f g h = elim (Bool-cases (x == 0)) [
    | inl e ↦ rw (e, on_zero) (h s)
    | inr e ↦ rw (e, on_zero) refl
  ]
  on_zero_ext (failed e s) f g h = refl
  on_zero_ext fault f g h = refl
  on_zero_ext out_of_fuel f g h = refl

  on_zero_assoc :
      (r : Outcome S ℕ) (f g : M S ℕ) → on_zero (on_zero r f) g ≡ on_zero r (λ s. on_zero (f s) g)
  on_zero_assoc (done x s) f g = elim (Bool-cases (x == 0)) [
    | inl e ↦ rw (e, on_zero) refl
    | inr e ↦ rw (e, on_zero) (rw (e, on_zero) refl)
  ]
  on_zero_assoc (failed e s) f g = refl
  on_zero_assoc fault f g = refl
  on_zero_assoc out_of_fuel f g = refl

  each-append :
      (func : ℕ → ℕ → M S ℕ) (ds ds' : List (ℕ × ℕ)) (s : S)
      → each func (ds ++ ds') s ≡ on_zero (each func ds s) (each func ds')
  each-append func [] ds' s = refl
  each-append func ((bus, slot) ∷ ds) ds' s =
      on_zero_ext (func bus slot s) (each func (ds ++ ds'))
        (λ t. on_zero (each func ds t) (each func ds')) (each-append func ds ds')
      ∙ sym (on_zero_assoc (func bus slot s) (each func ds) (each func ds'))

module _ {L S : Type 0} where
  -- A run seen without the state of the ports.
  abbrev pub forget : {A : Type 0} → Outcome (L × S) A → Outcome S A
  forget (done a (l, s)) = done a s
  forget (failed e (l, s)) = failed e s
  forget fault = fault
  forget out_of_fuel = out_of_fuel

  pub forget-with_first : {A : Type 0} (l : L) (r : Outcome S A) → forget (with_first l r) ≡ r
  forget-with_first l (done a s) = refl
  forget-with_first l (failed e s) = refl
  forget-with_first l fault = refl
  forget-with_first l out_of_fuel = refl

  pub forget-on_zero :
      (r : Outcome (L × S) ℕ) (f : M (L × S) ℕ) (g : M S ℕ)
      → ((l : L) (s : S) → forget (f (l, s)) ≡ g s)
      → forget (on_zero r f) ≡ on_zero (forget r) g
  forget-on_zero (done x (l, s)) f g h = elim (Bool-cases (x == 0)) [
    | inl e ↦ rw (e, on_zero) (h l s)
    | inr e ↦ rw (e, on_zero) refl
  ]
  forget-on_zero (failed e (l, s)) f g h = refl
  forget-on_zero fault f g h = refl
  forget-on_zero out_of_fuel f g h = refl

-- Writing an address to the address port and then reading the data port gives the register at that
-- address, and changes nothing but the state of the ports.
abbrev pub Reads :
    {L S : Type 0} → (ℕ → ℕ → M (L × S) (Unit {0})) → (ℕ → M (L × S) ℕ) → (ℕ → ℕ) → Type 0
Reads {L} {S} out32 in32 config =
    (a : ℕ) (l : L) (s : S)
    → (l' : L) × (and_then (out32 address_port a (l, s)) (λ u. in32 data_port)
        ≡ done (config a) (l', s))

module _ {L S : Type 0} (out32 : ℕ → ℕ → M (L × S) (Unit {0})) (in32 : ℕ → M (L × S) ℕ)
    (config : ℕ → ℕ) (reads : Reads out32 in32 config) where
  pci_read_vendor_lem :
      (bus slot : ℕ) (l : L) (s : S)
      → (l' : L) × (pci_read_vendor out32 in32 bus slot (l, s)
          ≡ done (vendor_of config bus slot) (l', s))
  unfolding pci_read_vendor pci_read
  pci_read_vendor_lem bus slot l s =
      let (l', e) = reads (config_address bus slot 0 0) l s in
      (l', ap (λ r. and_then r (λ n. ret (bit_and n 0xffff))) e)

  -- A function for `pci_visit` that comes to `func` for all states of the ports.
  module _ (visitor : ℕ → ℕ → M (L × S) ℕ) (func : ℕ → ℕ → M S ℕ)
      (simulates : (bus slot : ℕ) (l : L) (s : S)
        → forget (visitor bus slot (l, s)) ≡ func bus slot s) where
    visit_slots-each :
        (bus n slot : ℕ) (l : L) (s : S)
        → forget (visit_slots out32 in32 visitor bus n slot (l, s))
          ≡ each func (slots config bus n slot) s
    unfolding visit_slots
    visit_slots-each bus zero slot l s = refl
    visit_slots-each bus (suc n) slot l s =
        let (l', v) = pci_read_vendor_lem bus slot l s in
        rw (v, visit_slots)
          (elim (Bool-cases (vendor_of config bus slot == 0xffff)) [
            | inl e ↦ rw e refl
            | inr e ↦ rw e (
                forget-on_zero (visitor bus slot (l', s)) _ _ (visit_slots-each bus n (suc slot))
                ∙ ap (λ r. on_zero r (each func (slots config bus n (suc slot))))
                    (simulates bus slot l' s))
          ])

    visit_buses-each :
        (n bus : ℕ) (l : L) (s : S)
        → forget (visit_buses out32 in32 visitor n bus (l, s)) ≡ each func (buses config n bus) s
    unfolding visit_buses
    visit_buses-each zero bus l s = refl
    visit_buses-each (suc n) bus l s =
        forget-on_zero (visit_slots out32 in32 visitor bus 32 0 (l, s))
          (visit_buses out32 in32 visitor n (suc bus)) (each func (buses config n (suc bus)))
          (visit_buses-each n (suc bus))
        ∙ ap (λ r. on_zero r (each func (buses config n (suc bus)))) (visit_slots-each bus 32 0 l s)
        ∙ sym (each-append func (slots config bus 32 0) (buses config n (suc bus)) s)

    pub pci_visit-simulates :
        (l : L) (s : S)
        → forget (pci_visit out32 in32 (some visitor) (l, s)) ≡ each func (buses config 255 0) s
    unfolding pci_visit
    pci_visit-simulates l s = visit_buses-each 255 0 l s

  -- Writing an address to the address port and then reading the data port gives the register at
  -- that address and changes nothing but the state of the ports; the function given does not use
  -- the ports. Then `pci_visit` calls the function for the devices on the buses 0 to 254, bus by
  -- bus and slot by slot, on each bus up to the first slot without a device. It stops at the first
  -- call that does not give 0 and returns what that gave, or 0.
  pub pci_visit-each :
      (func : ℕ → ℕ → M S ℕ) (l : L) (s : S)
      → forget (pci_visit out32 in32 (some (λ bus slot. on_second (func bus slot))) (l, s))
        ≡ each func (buses config 255 0) s
  pci_visit-each func l s =
      pci_visit-simulates (λ bus slot. on_second (func bus slot)) func
        (λ bus slot l s. forget-with_first l (func bus slot s)) l s
