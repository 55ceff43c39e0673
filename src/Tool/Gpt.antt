-- ===== src/Tool/Gpt.antt =====
-- The disk that `init` of src/util/pure64.c lays out, and the header that it writes.
use pure.Prelude.{
  ℕ, ◌+◌, ◌-◌, ◌*◌, ◌/◌, ◌%◌, ◌^◌, ◌<◌, ◌≤◌, ◌≡◌, refl, sym, ◌==◌, if◌then◌else◌, arith,
}
use mathlib.Core.Path.{subst}
use pure.Bits.{u64}
use pure.CString.{Bytes}

-- `struct gpt_header`
pub record GptHeader : Type 0 where
  pub current_lba : ℕ
  pub backup_lba : ℕ
  pub first_usable_lba : ℕ
  pub last_usable_lba : ℕ
  pub disk_uuid : Bytes
  pub partition_headers_lba : ℕ
  pub partition_header_count : ℕ

-- `GPT_PARTITION_HEADER_COUNT * GPT_PARTITION_HEADER_SIZE`
abbrev pub headers_size : ℕ
headers_size = 128 * 128

-- `minimum_size`
abbrev pub minimum_size : ℕ
minimum_size = 92 + headers_size + 128 * 512 + headers_size + 92

-- The size of the disk, to the next sector.
abbrev pub padded : ℕ → ℕ
padded disk_size =
    if disk_size % 512 == 0 then disk_size else u64 (disk_size + (512 - disk_size % 512))

-- The header in front, for a disk of whole sectors.
abbrev pub primary_header : Bytes → ℕ → GptHeader
primary_header uuid disk_size =
    let backup = (disk_size - 512) / 512 in
    record {
      current_lba = 1;
      backup_lba = backup;
      first_usable_lba = ((1 + 1) * 512 + headers_size) / 512;
      last_usable_lba = (backup * 512 - headers_size - 512) / 512;
      disk_uuid = uuid;
      partition_headers_lba = 2;
      partition_header_count = 128;
    }

-- Where the partition headers at the end are zeroed.
abbrev pub backup_headers_at : GptHeader → ℕ
backup_headers_at h = GptHeader.backup_lba h * 512 - headers_size

-- The header at the end, from the one in front.
abbrev pub backup_header : GptHeader → GptHeader
backup_header h = record h {
  partition_headers_lba = (GptHeader.backup_lba h * 512 - headers_size - 512) / 512;
  current_lba = GptHeader.backup_lba h;
  backup_lba = 1;
}

-- What holds of the disk's layout: it has whole sectors, the last of which is that of the backup
-- header; the sectors for partitions begin behind the headers in front and end before the headers
-- at the end. The backup header names the sector in front of its partition headers as their first.
abbrev pub IsLaidOut : ℕ → GptHeader → Type 0
IsLaidOut size h =
    ((h.backup_lba + 1) * 512 ≡ size)
    × (h.partition_headers_lba * 512 + headers_size ≡ h.first_usable_lba * 512)
    × (h.first_usable_lba + 125 ≤ h.last_usable_lba)
    × ((h.last_usable_lba + 1) * 512 ≡ backup_headers_at h)
    × (backup_headers_at h + headers_size ≡ h.backup_lba * 512)
    × (((backup_header h).partition_headers_lba + 1) * 512 ≡ backup_headers_at h)

padded-sectors :
    (disk_size : ℕ) → disk_size + 512 < 2 ^ 64 → padded disk_size ≡ (disk_size + 511) / 512 * 512
padded-sectors disk_size h = ground arith

sectors-IsLaidOut :
    (uuid : Bytes) (k : ℕ) → 193 ≤ k → IsLaidOut (k * 512) (primary_header uuid (k * 512))
sectors-IsLaidOut uuid k h = (omega arith, refl, omega arith, omega arith, omega arith, omega arith)

-- For a disk of at least `minimum_size` bytes, below 2 ^ 64 less a sector, the padded size has
-- whole sectors, less than a sector more than asked for, and the disk is laid out: the last sector
-- is that of the backup header; the partition headers in front end where the sectors for partitions
-- begin, at least 126 of them; these end where the partition headers at the end begin, which end
-- where the backup header begins. The backup header gives the sector in front of them as their
-- first.
pub primary_header-IsLaidOut :
    (uuid : Bytes) (disk_size : ℕ)
    → minimum_size ≤ disk_size
    → disk_size + 512 < 2 ^ 64
    → (disk_size ≤ padded disk_size)
      × (padded disk_size < disk_size + 512)
      × IsLaidOut (padded disk_size) (primary_header uuid (padded disk_size))
primary_header-IsLaidOut uuid disk_size low high =
    let e = padded-sectors disk_size high in
    (
      omega arith,
      omega arith,
      subst (λ n. IsLaidOut n (primary_header uuid n)) (sym e)
          (sectors-IsLaidOut uuid ((disk_size + 511) / 512) (omega arith)),
    )
