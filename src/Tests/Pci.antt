-- ===== src/Tests/Pci.antt =====
-- A machine for `pci_visit` with two devices on the first bus.
use pure.Prelude.{ℕ, ◌≡◌, refl, some, List, [], ◌∷◌, ◌++◌, ◌==◌, ◌||◌, if◌then◌else◌}
use pure.Run.{M, done, on_second}
use pure.Pci.{pci_visit, config_address}
use pure.Pci.Visit.{forget, buses, each, pci_visit-each}

abbrev config : ℕ → ℕ
config a = if (a == config_address 0 0 0 0) || (a == config_address 0 1 0 0) then 0x8086 else 0xffff

-- The state is the address that was written last, and the devices that were visited.
abbrev State : Type 0
State = ℕ × List (ℕ × ℕ)

abbrev out32 : ℕ → ℕ → M State (Unit {0})
out32 port a s = done tt (a, s.1)

abbrev in32 : ℕ → M State ℕ
in32 port s = done (config s.0) s

-- The second device ends the search.
abbrev visit : ℕ → ℕ → M (List (ℕ × ℕ)) ℕ
visit bus slot log = done slot (log ++ (bus, slot) ∷ [])

pci_visit-each_example :
    forget (pci_visit out32 in32 (some (λ bus slot. on_second (visit bus slot))) (0, []))
    ≡ each visit (buses config 255 0) []
pci_visit-each_example = pci_visit-each out32 in32 config (λ a l s. (a, refl)) visit 0 []

pci_visit-runs :
    forget (pci_visit out32 in32 (some (λ bus slot. on_second (visit bus slot))) (0, []))
    ≡ done 1 ((0, 0) ∷ (0, 1) ∷ [])
unfolding pci_visit
pci_visit-runs = refl
