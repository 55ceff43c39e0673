-- ===== src/Tool/Init.antt =====
-- src/util/pure64.c: `init`, which writes a disk with a GPT to a file of the host.
use pure.Prelude.{
  ℕ, zero, suc, [], ◌∷◌, List, ◌+◌, ◌-◌, ◌*◌, ◌/◌, Bool, false, ◌==◌, ltb, if◌then◌else◌, Option,
  none, some,
}
use pure.CString.{Bytes, same}
use pure.Stream.{bytes64}
use pure.Uuid.{uuid_parse}
use pure.Tool.Gpt.{
  GptHeader, headers_size, minimum_size, padded, primary_header, backup_header, backup_headers_at,
}
use pure.Tool.Host.{HostFile, or_fail, bytes32}
use pure.Tool.Checksum.{calculate_checksums}

-- The rounds of the last loop of `export_gpt_header`.
abbrev pub padding_rounds : ℕ
padding_rounds = (512 - 92) / 4

module _ {S : Type 0} (file : HostFile S) where
  -- `zero_file_data`
  unfoldable pub zero_file_data : ℕ → S → S
  zero_file_data zero s = s
  zero_file_data (suc n) s = zero_file_data n (file.fputc 0 s)

  -- `write_count += fwrite(…)`
  abbrev pub count_write : Bytes → ℕ × S → ℕ × S
  count_write xs (count, s) = let (n, t) = file.fwrite xs s in (count + n, t)

  -- The last loop, with `n` rounds left.
  unfoldable pub write_padding : ℕ → ℕ × S → ℕ × S
  write_padding zero w = w
  write_padding (suc n) w = write_padding n (count_write (0 ∷ 0 ∷ 0 ∷ 0 ∷ []) w)

  -- The fields in the order of the calls. The host is little-endian.
  abbrev pub header_fields : GptHeader → List Bytes
  header_fields h =
      (b'E' ∷ b'F' ∷ b'I' ∷ b' ' ∷ b'P' ∷ b'A' ∷ b'R' ∷ b'T' ∷ [])
      ∷ (0 ∷ 0 ∷ 1 ∷ 0 ∷ [])
      ∷ (0x5c ∷ 0 ∷ 0 ∷ 0 ∷ [])
      ∷ (0 ∷ 0 ∷ 0 ∷ 0 ∷ [])
      ∷ (0 ∷ 0 ∷ 0 ∷ 0 ∷ [])
      ∷ bytes64 h.current_lba
      ∷ bytes64 h.backup_lba
      ∷ bytes64 h.first_usable_lba
      ∷ bytes64 h.last_usable_lba
      ∷ h.disk_uuid
      ∷ bytes64 h.partition_headers_lba
      ∷ bytes32 h.partition_header_count
      ∷ (0x80 ∷ 0 ∷ 0 ∷ 0 ∷ [])
      ∷ (0 ∷ 0 ∷ 0 ∷ 0 ∷ [])
      ∷ []

  -- One call of `fwrite` after the other.
  unfoldable pub write_fields : List Bytes → ℕ × S → ℕ × S
  write_fields [] w = w
  write_fields (xs ∷ fields) w = write_fields fields (count_write xs w)

  unfoldable pub export_gpt_header : GptHeader → S → Bool × S
  unfolding write_fields write_padding
  export_gpt_header h s =
      let (count, t) = write_padding padding_rounds (write_fields (header_fields h) (0, s)) in
      (count == 512, t)

  -- The code from the primary header on, for a disk of `disk_size` bytes.
  unfoldable pub write_disk : GptHeader → S → Bool × S
  unfolding zero_file_data export_gpt_header
  write_disk h s = or_fail (export_gpt_header h s) λ s.
      or_fail (file.fseek (backup_headers_at h) (zero_file_data headers_size s)) λ s.
        or_fail (file.fseek (h.backup_lba * 512) (zero_file_data headers_size s))
          λ s. or_fail (export_gpt_header (backup_header h) s) (calculate_checksums file)

abbrev pub opt_disk_uuid : Bytes
opt_disk_uuid = b'-' ∷ b'-' ∷ b'd' ∷ b'i' ∷ b's' ∷ b'k' ∷ b'-' ∷ b'u' ∷ b'u' ∷ b'i' ∷ b'd' ∷ []

abbrev pub opt_disk_size : Bytes
opt_disk_size = b'-' ∷ b'-' ∷ b'd' ∷ b'i' ∷ b's' ∷ b'k' ∷ b'-' ∷ b's' ∷ b'i' ∷ b'z' ∷ b'e' ∷ []

-- `sscanf(…, "%llu", &disk_size) != 0`; where it is 0 nothing is stored.
module _ (scanned : Bytes → Bool) where
  -- The loop over the options: `none` is a return of EXIT_FAILURE, and the result the disk's UUID,
  -- `none` for NULL. The argument of `--disk-size` is looked at as an option again.
  unfoldable pub parse_init : List Bytes → Option Bytes → Option (Option Bytes)
  parse_init [] uuid = some uuid
  parse_init (arg ∷ []) uuid = if same arg opt_disk_uuid then some none else none
  parse_init (arg ∷ value ∷ args) uuid =
      let behind = parse_init args (some value) in
      let next = parse_init (value ∷ args) uuid in
      if same arg opt_disk_uuid
      then behind
      else if same arg opt_disk_size
      then (if scanned value then none else next)
      else none

-- `PURE64_DEFAULT_DISK_UUID`
abbrev pub default_uuid : Bytes
default_uuid =
    b'7' ∷ b'4' ∷ b'a' ∷ b'7' ∷ b'c' ∷ b'1' ∷ b'4' ∷ b'a' ∷ b'-' ∷ b'7' ∷ b'1' ∷ b'1' ∷ b'd' ∷ b'-'
    ∷ b'4' ∷ b'2' ∷ b'9' ∷ b'3' ∷ b'-' ∷ b'a' ∷ b'7' ∷ b'3' ∷ b'1' ∷ b'-' ∷ b'5' ∷ b'6' ∷ b'9'
    ∷ b'c' ∷ b'a' ∷ b'6' ∷ b'5' ∷ b'6' ∷ b'7' ∷ b'9' ∷ b'9' ∷ b'e' ∷ []

abbrev pub or_default : Option Bytes → Bytes
or_default none = default_uuid
or_default (some str) = str

-- `open_new` is `fopen(filename, "wb+")`, `mbr_data` the generated boot record, and `old` what the
-- structure for the UUID holds.
module _ {S : Type 0} (file : HostFile S) (open_new : S → Bool × S) (mbr_data : Bytes) where
  -- `disk_size` stays what it is set to at first.
  abbrev pub initial_size : ℕ
  initial_size = 1 * 1024 * 1024

  -- The code from `pure64_uuid_parse` on.
  unfoldable pub init_disk : ℕ → Option Bytes → S → Bool × S
  unfolding write_disk
  init_disk disk_size none s = (false, s)
  init_disk disk_size (some uuid) s = or_fail (open_new s) λ s.
      let (n, t) = file.fwrite mbr_data s in
      if n == 512 then write_disk file (primary_header uuid disk_size) t else (false, t)

  -- What follows the loop over the options; `none` is a loop that has not ended on the fuel given.
  unfoldable pub init_with : ℕ → Bytes → Option (Option Bytes) → S → Option (Bool × S)
  unfolding init_disk
  init_with fuel old none s = some (false, s)
  init_with fuel old (some str) s =
      if ltb initial_size minimum_size
      then some (false, s)
      else elim (uuid_parse fuel old (or_default str)) [
        | none ↦ none
        | some uuid ↦ some (init_disk (padded initial_size) uuid s)
      ]

  unfoldable pub pure64_init : ℕ → (Bytes → Bool) → Bytes → List Bytes → S → Option (Bool × S)
  unfolding parse_init init_with
  pure64_init fuel scanned old args s = init_with fuel old (parse_init scanned args none) s
