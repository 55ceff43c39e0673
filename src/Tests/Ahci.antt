-- ===== src/Tests/Ahci.antt =====
-- A port with a device that takes three looks to complete a command, a disk behind a port, and a
-- machine with one controller.
use pure.Prelude.{
  ℕ, zero, suc, ◌+◌, ◌*◌, ◌%◌, ◌^◌, ◌≤◌, ◌<◌, ◌≡◌, refl, arith, Bool, true, false, none, some, List,
  [], ◌∷◌, ◌++◌, replicate, length, length-replicate, ◌==◌, if◌then◌else◌, inl, inr, ◌⊎◌,
}
use Prim.Native.Nat.{min}
use native.Mathlib.Nat.{zero-div}
use pure.Bits.Masks.{bit}
use pure.CString.{Bytes}
use pure.Run.{M, done, fault}
use pure.Pci.{config_address, pci_visit, pci_read_class, pci_read_subclass, pci_read_bar5, pci_read}
use pure.Pci.Visit.{forget, buses, each}
use pure.Ahci.{Port, find_cmdslot}
use pure.Ahci.Command.{
  ahci_port_read, read_entries, read_fis, sector_total, set_up, spin_loop, spin_limit,
}
use pure.Ahci.Prdt.{Tiles, read_entries-Tiles}
use pure.Ahci.Wait.{Polls, Completes, AllUsed, IsFree, ahci_port_read-Polls}
use pure.Ahci.Stream.{AhciStream, ahci_stream_init, stream_set_pos, stream_read, is_cached}
use pure.Ahci.Disk.{bytes_at, Serves, IsCoherent, Gives}
use pure.Ahci.Reads.{stream_read-short}
use pure.Ahci.Long.{stream_read-long}
use pure.Ahci.Overflow.{stream_read-short_fault}
use pure.Ahci.Visit.{AhciVisitor, ahci_visit, find_ahci, visit_controller, visit_ports}
use pure.Ahci.Ports.{on_device, lifted, ahci_visit-each}

read_entries-Tiles_example :
    let fis = read_fis 1000 (sector_total 100) in
    let bytes = (fis.countl + fis.counth * 2 ^ 8) * 512 in
    (bytes ≡ min (100 * 512) 0x80000)
    × Tiles 0x200000 (read_entries 100 0x200000) (0x200000 + bytes)
    × (length (read_entries 100 0x200000) ≤ 16)
    × (fis.lba0
          + fis.lba1 * 2 ^ 8
          + fis.lba2 * 2 ^ 16
          + fis.lba3 * 2 ^ 24
          + fis.lba4 * 2 ^ 32
          + fis.lba5 * 2 ^ 40
        ≡ 1000)
read_entries-Tiles_example =
    read_entries-Tiles 1000 100 0x200000 (omega arith) (omega arith) (omega arith)

-- The state is the number of looks until the command is complete.
abbrev look : ℕ → ℕ × ℕ
look zero = (0, 0)
look (suc n) = (0xffffffff, n)

abbrev slow_port : Port ℕ
slow_port = record {
  command_list = λ s. (record { lower = 0x1000; upper = 0 }, s);
  get_is = λ s. (0, s);
  set_is = λ n s. s;
  get_tfd = λ s. (0x50, s);
  get_sig = λ s. (0x101, s);
  get_sact = λ s. (0, s);
  get_ci = look;
  set_ci = λ n s. 3;
  header = λ list slot s. record {
    cfl = 0;
    write = 0;
    prdt_length = 0;
    command_table = record { lower = 0x2000; upper = 0 };
  };
  set_header = λ list slot h s. s;
  set_table = λ table t s. s;
}

slow_port-Completes : Completes slow_port 5
slow_port-Completes = record { measure = λ s. s; falls = falls; starts = λ slot s. omega arith }
  where
    falls : (slot s : ℕ) → bit (look s).0 slot ≡ 1 → ◌≡◌ {A = ℕ} (bit 0 30) 0 → (look s).1 < s
    falls slot zero h k = absurd (omega (arith, h, zero-div (2 ^ slot)))
    falls slot (suc n) h k = omega arith

ahci_port_read-Polls_example :
    let (slot, s1) = find_cmdslot slow_port 0 in
    let (spin, s2) = spin_loop slow_port spin_limit 0 (set_up slow_port slot 59 1 0x200000 s1) in
    (r : Bool) × (t : ℕ) × (ahci_port_read slow_port 5 59 1 0x200000 0 ≡ done r t)
    × ((AllUsed slow_port 32 0 × (r ≡ false) × (t ≡ s1))
        ⊎ (IsFree slow_port slot 0 × Polls slow_port slot 3 r t))
ahci_port_read-Polls_example = ahci_port_read-Polls slow_port 5 slow_port-Completes 59 1 0x200000 0

-- A disk whose bytes are their addresses, modulo 256.
abbrev disk : ℕ → ℕ
disk a = a % 256

abbrev disk_port : ℕ → ℕ → M (Unit {0}) (Bool × Bytes)
disk_port sector count p = done (true, bytes_at disk (sector * 512) (count * 512)) p

disk_port-Serves : Serves disk_port disk
disk_port-Serves sector count p h k = (p, refl)

abbrev fresh : ℕ → AhciStream
fresh pos = record { position = pos; buf = replicate 512 0; buf_offset = 0; buf_length = 0 }

fresh-IsCoherent : (pos : ℕ) → IsCoherent disk (fresh pos)
fresh-IsCoherent pos = record {
  whole = length-replicate {A = ℕ} 512 0;
  at_sector = refl;
  below = omega arith;
  holds = inl refl;
}

stream_read-short_example :
    Gives disk 8 (fresh 30208) 30208 (stream_read disk_port 8 (replicate 8 0) (fresh 30208, tt))
stream_read-short_example =
    stream_read-short disk_port disk disk_port-Serves 8 (fresh 30208) tt (replicate 8 0)
      (fresh-IsCoherent 30208) (omega arith) (omega arith) (omega arith) (inl refl) (omega arith)
      refl

stream_read-long_example :
    Gives disk 2000
      (fresh 30208)
      0
      (stream_read disk_port 2000 (replicate 2000 0) (fresh 30208, tt))
stream_read-long_example =
    stream_read-long disk_port disk disk_port-Serves 2000 (fresh 30208) tt (replicate 2000 0)
      (fresh-IsCoherent 30208) refl (omega arith) (omega arith) (omega arith)
      (length-replicate {A = ℕ} 2000 0)

stream_read-short_fault_example : stream_read disk_port 8 (replicate 8 0) (fresh 30216, tt) ≡ fault
stream_read-short_fault_example =
    stream_read-short_fault disk_port disk disk_port-Serves 8 (fresh 30216) tt (replicate 8 0)
      (fresh-IsCoherent 30216) (omega arith) (omega arith)
      (inr ((λ e. absurd (omega (arith, e))), (λ e. absurd (omega (arith, e))))) (omega arith) refl

-- The port as it comes from `ahci_stream_init` and a change of the position.
stream-starts : stream_set_pos 30208 (ahci_stream_init (replicate 512 0)) ≡ fresh 30208
unfolding stream_set_pos ahci_stream_init
stream-starts = refl

-- One controller in slot 1 of the first bus, with the ports 0 and 5.
abbrev config : ℕ → ℕ
config a =
    if a == config_address 0 0 0 0
    then 0x8086
    else if a == config_address 0 1 0 0
    then 0x8086
    else if a == config_address 0 1 0 8
    then 0x01060100
    else if a == config_address 0 1 0 0x24
    then 0xfebf0000
    else if a == config_address 0 0 0 8
    then 0x06000000
    else 0xffff

abbrev State : Type 0
State = ℕ × List ℕ

abbrev out32 : ℕ → ℕ → M State (Unit {0})
out32 port a s = done tt (a, s.1)

abbrev in32 : ℕ → M State ℕ
in32 port s = done (config s.0) s

abbrev base_pi : ℕ → M State ℕ
base_pi base s = done 0x21 s

abbrev logger : AhciVisitor (List ℕ)
logger = record { visit_base = none; visit_port = some (λ a log. done 0 (log ++ a ∷ [])) }

ahci_visit-each_example :
    forget (ahci_visit out32 in32 base_pi (lifted logger) (0, []))
    ≡ each (on_device config (λ base. 0x21) logger) (buses config 255 0) []
ahci_visit-each_example =
    ahci_visit-each out32 in32 base_pi config (λ base. 0x21) (λ a l s. (a, refl)) (λ a l s. refl)
      logger 0 []

ahci_visit-runs :
    forget (ahci_visit out32 in32 base_pi (lifted logger) (0, []))
    ≡ done 0 (0xfebf0100 ∷ 0xfebf0380 ∷ [])
unfolding ahci_visit find_ahci visit_controller visit_ports pci_visit pci_read_class
    pci_read_subclass pci_read_bar5 pci_read
ahci_visit-runs = refl

-- A second read of 8 bytes in the sector comes from the cache.
second-cached :
    is_cached (record { position = 30216; buf = []; buf_offset = 30208; buf_length = 512 }) 8 ≡ true
unfolding is_cached
second-cached = refl
