-- ===== src/Tests/Disk.antt =====
-- A file of the host as bytes by their addresses, and a disk in it.
use pure.Prelude.{
  ℕ, ◌+◌, ◌-◌, ◌*◌, ◌<◌, ◌≤◌, ◌≡◌, refl, arith, true, some, none, ◌⊎◌, inl, inr, [], ◌∷◌, length,
  replicate,
}
use Prim.Native.Nat.{min, max}
use pure.CString.{Bytes}
use pure.Stream.{bytes64}
use pure.Ahci.Disk.{bytes_at}
use pure.Tool.Host.{HostFile, IsFile, stored}
use pure.Tool.Stored.{bytes_at-stored, stored_out}
use pure.Tool.Gpt.{headers_size}
use pure.Uuid.{uuid_parse, hex_value}
use pure.Tool.Init.{parse_init, default_uuid, pure64_init}
use pure.Tool.Made.{first_header, second_header, pure64_init-Makes}
use pure.Tool.Image.{IsHeader}
use pure.Tool.Checksum.{crc32, calculate_checksums}
use pure.Tool.Sums.{IsSealed, Free}
use pure.Tool.Sealed.{HasBackup, calculate_checksums-IsSealed}

record Ram : Type 0 where
  byte : ℕ → ℕ
  size : ℕ
  position : ℕ

abbrev ram_write : Bytes → Ram → Ram
ram_write xs s = record {
  byte = stored (Ram.position s) xs (Ram.byte s);
  size = max (Ram.size s) (Ram.position s + length xs);
  position = Ram.position s + length xs;
}

abbrev ram_file : HostFile Ram
ram_file = record {
  fseek = λ p s. (true, record s { position = p });
  ftell = λ s. (some (Ram.position s), s);
  fwrite = λ xs s. (length xs, ram_write xs s);
  fread = λ n s. (
    bytes_at (Ram.byte s) (Ram.position s) (min n (Ram.size s - Ram.position s)),
    record s { position = Ram.position s + min n (Ram.size s - Ram.position s) },
  );
  fputc = λ c s. ram_write (c ∷ []) s;
}

ram_file-reads :
    (n : ℕ) (s : Ram)
    → Ram.position s + n ≤ Ram.size s
    → (t : Ram) × (ram_file.fread n s ≡ (bytes_at (Ram.byte s) (Ram.position s) n, t))
      × (Ram.byte t ≡ Ram.byte s)
      × (Ram.size t ≡ Ram.size s)
      × (Ram.position t ≡ Ram.position s + n)
ram_file-reads n s h =
    let e : min n (Ram.size s - Ram.position s) ≡ n = omega arith in
    (record s { position = Ram.position s + n }, rw e refl, refl, refl, refl)

abbrev ram_file-IsFile : IsFile ram_file
ram_file-IsFile = record {
  byte = Ram.byte;
  size = Ram.size;
  position = Ram.position;
  seeks = λ p s. (record s { position = p }, refl, refl, refl, refl);
  reads = ram_file-reads;
  writes = λ xs s. (ram_write xs s, refl, refl, refl, refl);
  puts = λ c s. (refl, refl, refl);
}

-- The smallest disk: only the sector of the backup header is there to be read.
abbrev disk : Ram
disk = record { byte = stored 544 (bytes64 66) (λ a. 0); size = 67 * 512; position = 0 }

disk-HasBackup : HasBackup ram_file ram_file-IsFile 66 disk
unfolding bytes64
disk-HasBackup = record {
  named = bytes_at-stored 544 (bytes64 66) (λ a. 0);
  room = omega arith;
  inside = omega arith;
  small = omega arith;
}

disk-zeros : (x : ℕ) → (x < 544) ⊎ (552 ≤ x) → Ram.byte disk x ≡ 0
unfolding bytes64
disk-zeros x h = stored_out 544 (bytes64 66) (λ a. 0) x h

calculate_checksums-IsSealed_example :
    (t : Ram) × (calculate_checksums ram_file disk ≡ (true, t))
    × IsSealed (Ram.byte t) 512 1024
    × IsSealed (Ram.byte t) (66 * 512) (66 * 512 - headers_size)
    × ((x : ℕ) → Free (Ram.byte disk) 66 x → Ram.byte t x ≡ Ram.byte disk x)
calculate_checksums-IsSealed_example =
    calculate_checksums-IsSealed ram_file ram_file-IsFile 66 disk disk-HasBackup
      (λ x l k. disk-zeros x (inl (omega arith))) (λ x l k. disk-zeros x (inr (omega arith)))

abbrev disk_uuid : Bytes
disk_uuid =
    0x4a ∷ 0xc1 ∷ 0xa7 ∷ 0x74 ∷ 0x1d ∷ 0x71 ∷ 0x93 ∷ 0x42 ∷ 0xa7 ∷ 0x31 ∷ 0x56 ∷ 0x9c ∷ 0xa6 ∷ 0x56
    ∷ 0x79 ∷ 0x9e ∷ []

default_uuid-parsed : uuid_parse 37 (replicate 16 0) default_uuid ≡ some (some disk_uuid)
unfolding uuid_parse hex_value
default_uuid-parsed = refl

no_options : parse_init (λ t. true) [] none ≡ some none
unfolding parse_init
no_options = refl

abbrev empty_file : Ram
empty_file = record { byte = λ a. 0; size = 0; position = 0 }

-- `init` without an option.
pure64_init-Makes_example :
    (t : Ram) × (pure64_init ram_file
        (λ s. (true, empty_file))
        (replicate 512 0x90)
        37
        (λ t. true)
        (replicate 16 0)
        []
        disk
      ≡ some (true, t))
    × (bytes_at (Ram.byte t) 0 512 ≡ replicate 512 0x90)
    × IsSealed (Ram.byte t) 512 1024
    × IsSealed (Ram.byte t) (2047 * 512) (2047 * 512 - headers_size)
    × IsHeader (Ram.byte t) 512 (first_header disk_uuid)
    × IsHeader (Ram.byte t) (2047 * 512) (second_header disk_uuid)
pure64_init-Makes_example =
    pure64_init-Makes ram_file ram_file-IsFile (λ s. (true, empty_file)) (replicate 512 0x90) 37
      (λ t. true) (replicate 16 0) [] none disk_uuid disk empty_file no_options default_uuid-parsed
      refl refl refl

-- The check value of CRC-32.
crc32-check : crc32 (b'1' ∷ b'2' ∷ b'3' ∷ b'4' ∷ b'5' ∷ b'6' ∷ b'7' ∷ b'8' ∷ b'9' ∷ []) ≡ 0xCBF43926
unfolding crc32
crc32-check = refl
