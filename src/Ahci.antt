-- ===== src/Ahci.antt =====
-- src/stage-three/ahci.h and the structures and register helpers of src/stage-three/ahci.c.
pub mod Slot
pub mod Command
pub mod Prdt
pub mod Wait
pub mod Stream
pub mod Disk
pub mod Buffer
pub mod Reads
pub mod Long
pub mod Overflow
pub mod Visit
pub mod Ports
use pure.Prelude.{ℕ, zero, suc, ◌+◌, ◌*◌, ◌/◌, ◌%◌, ◌^◌, List, Bool, ◌==◌, if◌then◌else◌, replicate}
use Prim.Native.Nat.{bit_and, bit_or}
use pure.CString.{Bytes}

-- `struct ahci_addr`, two numbers of 32 bits.
pub record AhciAddr : Type 0 where
  pub lower : ℕ
  pub upper : ℕ

unfoldable pub ahci_addr_get : AhciAddr → ℕ
ahci_addr_get addr =
    bit_or (bit_or 0 (bit_and (addr.upper * 2 ^ 0x20 % 2 ^ 64) 0xffffffff00000000))
      (bit_and addr.lower 0x00000000ffffffff)

-- The address field that `ahci_addr_set` leaves.
unfoldable pub ahci_addr_set : ℕ → AhciAddr
ahci_addr_set ptr = record {
  lower = bit_and ptr 0xffffffff;
  upper = bit_and (ptr / 2 ^ 0x20) 0xffffffff;
}

-- `struct ahci_port` as the driver uses it: the volatile registers, of which each read gives a
-- value and may find the device further on, and the memory that the command list leads to. `S` is
-- the state of the machine. `header` and `set_header` are the fields of
-- `((struct command_list *) list)->headers[slot]`.
pub record CommandHeader : Type 0 where
  pub cfl : ℕ
  pub write : ℕ
  pub prdt_length : ℕ
  pub command_table : AhciAddr

-- `struct prdt_entry`; `byte_count` has 22 bits, and `i` is the interrupt bit.
pub record PrdtEntry : Type 0 where
  pub address : AhciAddr
  pub byte_count : ℕ
  pub i : ℕ

-- `struct reg_h2d`, the fields that are not left at zero.
pub record RegH2d : Type 0 where
  pub fis_type : ℕ
  pub c : ℕ
  pub command : ℕ
  pub lba0 : ℕ
  pub lba1 : ℕ
  pub lba2 : ℕ
  pub device : ℕ
  pub lba3 : ℕ
  pub lba4 : ℕ
  pub lba5 : ℕ
  pub countl : ℕ
  pub counth : ℕ

-- `struct command_table` with its command as a `struct reg_h2d`, and the entries that are not left
-- at zero.
pub record CommandTable : Type 0 where
  pub cfis : RegH2d
  pub entries : List PrdtEntry

pub record Port (S : Type 0) : Type 0 where
  pub command_list : S → AhciAddr × S
  pub get_is : S → ℕ × S
  pub set_is : ℕ → S → S
  pub get_tfd : S → ℕ × S
  pub get_sig : S → ℕ × S
  pub get_sact : S → ℕ × S
  pub get_ci : S → ℕ × S
  pub set_ci : ℕ → S → S
  pub header : ℕ → ℕ → S → CommandHeader
  pub set_header : ℕ → ℕ → CommandHeader → S → S
  pub set_table : ℕ → CommandTable → S → S

-- The loop of `find_cmdslot`, with `n` slots left.
unfoldable pub find_slot : ℕ → ℕ → ℕ → ℕ
find_slot zero slots i = i
find_slot (suc n) slots i =
    let rest = find_slot n (slots / 2) (suc i) in if bit_and slots 1 == 0 then i else rest

unfoldable pub find_cmdslot : {S : Type 0} → Port S → S → ℕ × S
unfolding find_slot
find_cmdslot port s =
    let (sact, s1) = port.get_sact s in
    let (ci, s2) = port.get_ci s1 in (find_slot 32 (bit_or sact ci) 0, s2)

unfoldable pub ahci_port_is_sata_drive : {S : Type 0} → Port S → S → Bool × S
ahci_port_is_sata_drive port s = let (sig, s1) = port.get_sig s in (sig == 0x101, s1)
