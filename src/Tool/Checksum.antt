-- ===== src/Tool/Checksum.antt =====
-- src/util/pure64.c: the checksums of the headers of a disk with a GPT.
use pure.Prelude.{ℕ, zero, suc, [], ◌∷◌, ◌+◌, ◌-◌, ◌*◌, ◌/◌, ◌%◌, ◌^◌, Bool}
use Prim.Native.Nat.{bit_and, bit_xor}
use pure.Bits.{u64}
use pure.CString.{Bytes}
use pure.Stream.{number64}
use pure.Tool.Host.{HostFile, or_fail, write_all, read_all, bytes32}
use pure.Tool.Gpt.{headers_size}

-- The inner loop of `crc32`, with `n` rounds left, and the outer one. `-(crc & 1)` has 32 bits.
unfoldable pub crc_bits : ℕ → ℕ → ℕ
crc_bits zero crc = crc
crc_bits (suc n) crc =
    let mask = (2 ^ 32 - bit_and crc 1) % 2 ^ 32 in
    crc_bits n (bit_xor (crc / 2) (bit_and 0xEDB88320 mask))

unfoldable pub crc_bytes : Bytes → ℕ → ℕ
unfolding crc_bits
crc_bytes [] crc = crc
crc_bytes (byte ∷ buf) crc = crc_bytes buf (crc_bits 8 (bit_xor crc byte))

-- `crc32`; `~crc` has 32 bits.
unfoldable pub crc32 : Bytes → ℕ
unfolding crc_bytes
crc32 buf = 2 ^ 32 - 1 - crc_bytes buf 0xFFFFFFFF

-- The buffers that the functions allocate are taken to be there.
module _ {S : Type 0} (file : HostFile S) where
  unfoldable pub calculate_header_checksum : ℕ → S → Bool × S
  calculate_header_checksum header_location s = or_fail (file.fseek header_location s) λ s.
      read_all file 92 s λ buf s.
        or_fail (file.fseek (header_location + 16) s) λ s. write_all file (bytes32 (crc32 buf)) s

  -- `(backup_lba * 512) - (GPT_PARTITION_HEADER_COUNT * GPT_PARTITION_HEADER_SIZE)`, in 64 bits.
  abbrev pub backup_array : ℕ → ℕ
  backup_array backup_lba = u64 (u64 (backup_lba * 512) + 2 ^ 64 - headers_size)

  unfoldable pub calculate_partition_headers_checksum : S → Bool × S
  calculate_partition_headers_checksum s = or_fail (file.fseek 1024 s) λ s.
      read_all file headers_size s λ buf s. or_fail (file.fseek (512 + 88) s) λ s.
        or_fail (write_all file (bytes32 (crc32 buf)) s) λ s. or_fail (file.fseek (512 + 32) s) λ s.
          read_all file 8 s λ lba s. or_fail (file.fseek (backup_array (number64 lba)) s) λ s.
            read_all file headers_size s λ buf s.
              or_fail (file.fseek (u64 (u64 (number64 lba * 512) + 88)) s)
                λ s. write_all file (bytes32 (crc32 buf)) s

  unfoldable pub calculate_checksums : S → Bool × S
  calculate_checksums s = or_fail (calculate_partition_headers_checksum s) λ s.
      or_fail (calculate_header_checksum 512 s) λ s.
        or_fail (file.fseek (512 + 32) s)
          λ s. read_all file 8 s λ lba s. calculate_header_checksum (u64 (number64 lba * 512)) s
