-- ===== src/Ahci/Command.antt =====
-- src/stage-three/ahci.c: the command that `ahci_port_read` gives to a port.
use pure.Prelude.{
  ℕ, zero, suc, ◌+◌, ◌-◌, ◌*◌, ◌/◌, ◌%◌, ◌^◌, List, [], ◌∷◌, Bool, true, false, ◌==◌, ltb,
  if◌then◌else◌,
}
use Prim.Native.Nat.{bit_and}
use pure.Run.{M, done, out_of_fuel, and_then}
use pure.Ahci.{ahci_addr_get, ahci_addr_set, PrdtEntry, RegH2d, Port, find_cmdslot}

-- `PRDT_COUNT`, `prdt_payload` and `TASK_FILE_ERROR`
abbrev pub prdt_limit : ℕ
prdt_limit = 0x10

abbrev pub prdt_payload : ℕ
prdt_payload = 0x8000

abbrev pub task_file_error : ℕ
task_file_error = 2 ^ 30

-- `byte_count` and `sector_count` once they are cut to what the entries can hold. The product is
-- one of 32-bit numbers.
unfoldable pub byte_total : ℕ → ℕ
byte_total sector_count =
    let byte_count = sector_count * 512 % 2 ^ 32 in
    if ltb (prdt_payload * prdt_limit) byte_count then prdt_payload * prdt_limit else byte_count

unfoldable pub sector_total : ℕ → ℕ
sector_total sector_count =
    let byte_count = sector_count * 512 % 2 ^ 32 in
    if ltb (prdt_payload * prdt_limit) byte_count
    then prdt_payload * prdt_limit / 512
    else sector_count

unfoldable pub prdt_count : ℕ → ℕ
prdt_count byte_count =
    if byte_count % prdt_payload == 0
    then byte_count / prdt_payload
    else (byte_count + prdt_payload) / prdt_payload

-- The value that the field `byte_count` of the entry at an offset is set to. It has 22 bits.
unfoldable pub entry_count : ℕ → ℕ → ℕ
entry_count byte_count offset =
    (if ltb (byte_count - offset) prdt_payload then byte_count - offset - 1 else prdt_payload - 1)
    % 2 ^ 22

-- The loop over the entries, with `n` entries left. `buf` is the address of the caller's buffer.
unfoldable pub prdt_entries : ℕ → ℕ → ℕ → ℕ → List PrdtEntry
unfolding entry_count
prdt_entries zero byte_count buf offset = []
prdt_entries (suc n) byte_count buf offset =
    record {
      address = ahci_addr_set (buf + offset);
      byte_count = entry_count byte_count offset;
      i = 1;
    }
    ∷ prdt_entries n byte_count buf (offset + (entry_count byte_count offset + 1))

-- The entries of the table for a read.
unfoldable pub read_entries : ℕ → ℕ → List PrdtEntry
unfolding prdt_entries byte_total prdt_count
read_entries sector_count buf =
    prdt_entries (prdt_count (byte_total sector_count)) (byte_total sector_count) buf 0

-- `(sector >> shift) & 0xff`
abbrev pub lba : ℕ → ℕ → ℕ
lba sector shift = bit_and (sector / 2 ^ shift) 0xff

unfoldable pub read_fis : ℕ → ℕ → RegH2d
read_fis sector sector_count = record {
  fis_type = 0x27;
  c = 1;
  command = 0x25;
  lba0 = lba sector 0x00;
  lba1 = lba sector 0x08;
  lba2 = lba sector 0x10;
  device = 2 ^ 6;
  lba3 = lba sector 0x18;
  lba4 = lba sector 0x20;
  lba5 = lba sector 0x28;
  countl = bit_and (sector_count / 2 ^ 0) 0xff;
  counth = bit_and (sector_count / 2 ^ 8) 0xff;
}

-- The number of rounds that the first wait has.
unfoldable pub spin_limit : ℕ
spin_limit = 1000000

module _ {S : Type 0} (port : Port S) where
  -- The header and the table of the slot, as the code leaves them.
  unfoldable pub set_up : ℕ → ℕ → ℕ → ℕ → S → S
  unfolding read_fis read_entries sector_total prdt_count byte_total
  set_up slot sector sector_count buf s =
      let (list_addr, s1) = port.command_list s in
      let list = ahci_addr_get list_addr in
      let old = port.header list slot s1 in
      let count = prdt_count (byte_total sector_count) in
      let s2 =
        port.set_header list slot (record old { cfl = 20 / 4; write = 0; prdt_length = count })
          s1 in
      port.set_table (ahci_addr_get old.command_table)
        (record {
          cfis = read_fis sector (sector_total sector_count);
          entries = read_entries sector_count buf;
        })
        s2

  -- `while (spin++ < 1000000)` with `n` rounds left, and the counter when it has ended. Each round
  -- reads the task file data; whether a bit of `ATA_DEV_BUSY & ATA_DEV_DRQ` is in it or not, the next
  -- round follows.
  unfoldable pub spin_loop : ℕ → ℕ → S → ℕ × S
  spin_loop zero spin s = (suc spin, s)
  spin_loop (suc n) spin s = let (tfd, s1) = port.get_tfd s in spin_loop n (suc spin) s1

  -- The rounds of `while (1)`: `true` is the `break`, and `false` the result -1.
  unfoldable pub wait_loop : ℕ → ℕ → M S Bool
  wait_loop zero slot s = out_of_fuel
  wait_loop (suc f) slot s =
      let (ci, s1) = port.get_ci s in
      let (is, s2) = port.get_is s1 in
      let rest = wait_loop f slot s2 in
      if bit_and ci (2 ^ slot) == 0
      then done true s1
      else if bit_and is task_file_error == 0
      then rest
      else done false s2

  -- What follows the second loop.
  unfoldable pub check_is : Bool → M S Bool
  check_is false s = done false s
  check_is true s = let (is, s1) = port.get_is s in done (bit_and is task_file_error == 0) s1

  -- The code from the free slot on.
  unfoldable pub issue : ℕ → ℕ → ℕ → ℕ → ℕ → M S Bool
  unfolding set_up spin_loop wait_loop check_is
  issue fuel slot sector sector_count buf s =
      let (spin, s1) = spin_loop spin_limit 0 (set_up slot sector sector_count buf s) in
      if spin == spin_limit
      then done false s1
      else and_then (wait_loop fuel slot (port.set_ci (2 ^ slot) s1)) check_is

  -- `fuel` bounds the rounds of `while (1)`; `true` is the result 0, and `false` the result -1.
  unfoldable pub ahci_port_read : ℕ → ℕ → ℕ → ℕ → M S Bool
  unfolding find_cmdslot issue
  ahci_port_read fuel sector sector_count buf s =
      let (slot, s1) = find_cmdslot port (port.set_is 0xffffffff s) in
      if slot == 32 then done false s1 else issue fuel slot sector sector_count buf s1
