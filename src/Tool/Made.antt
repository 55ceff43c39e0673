-- ===== src/Tool/Made.antt =====
-- src/util/pure64.c: what `init` makes of a new file.
use pure.Prelude.{
  ℕ, [], ◌*◌, ◌-◌, ◌≡◌, refl, sym, ap, ◌∙◌, arith, length, Option, some, none, Bool, true, false,
  ◌==◌, ==_iff, List, if◌then◌else◌,
}
use pure.CString.{Bytes}
use pure.Uuid.{uuid_parse, reorder, parse_loop}
use pure.Ahci.Disk.{bytes_at}
use pure.Tool.Image.{IsHeader}
use pure.Tool.Gpt.{GptHeader, headers_size, primary_header}
use pure.Tool.Host.{HostFile, IsFile, stored}
use pure.Tool.Stored.{bytes_at_ext, bytes_at-stored}
use pure.Tool.Sums.{IsSealed}
use pure.Tool.Init.{parse_init, or_default, write_disk, init_disk, init_with, pure64_init}
use pure.Tool.Fresh.{or_fail-true, write_disk-IsSealed}

length-reordered :
    (fuel : ℕ) (text old uuid : Bytes) (r : Option (Option Bytes))
    → parse_loop fuel text [] old text ≡ r
    → uuid_parse fuel old text ≡ some (some uuid)
    → length uuid ≡ 16
unfolding uuid_parse reorder
length-reordered fuel text old uuid none p e = absurd (none-ne-some (rw (p, uuid_parse) at e))
  where
    none-ne-some : none ≡ some (some uuid) → ⊥
    none-ne-some q = cc
length-reordered fuel text old uuid (some none) p e =
    absurd (none-ne-some (rw (p, uuid_parse) at e))
  where
    none-ne-some : some none ≡ some (some uuid) → ⊥
    none-ne-some q = cc
length-reordered fuel text old uuid (some (some bytes)) p e =
    ap
      (λ (r : Option (Option Bytes)). elim r [
        | none ↦ 16
        | some none ↦ 16
        | some (some u) ↦ length u
      ])
      (sym (rw (p, uuid_parse) at e))

length-uuid_parse :
    (fuel : ℕ) (old text uuid : Bytes)
    → uuid_parse fuel old text ≡ some (some uuid)
    → length uuid ≡ 16
length-uuid_parse fuel old text uuid e =
    length-reordered fuel text old uuid (parse_loop fuel text [] old text) refl e

-- The headers of a disk of 1 MiB. The second names sector 2014 as the first of its partition headers,
-- which begin with sector 2015.
abbrev pub first_header : Bytes → GptHeader
first_header uuid = record {
  current_lba = 1;
  backup_lba = 2047;
  first_usable_lba = 34;
  last_usable_lba = 2014;
  disk_uuid = uuid;
  partition_headers_lba = 2;
  partition_header_count = 128;
}

abbrev pub second_header : Bytes → GptHeader
second_header uuid = record {
  current_lba = 2047;
  backup_lba = 1;
  first_usable_lba = 34;
  last_usable_lba = 2014;
  disk_uuid = uuid;
  partition_headers_lba = 2014;
  partition_header_count = 128;
}

module _ {S : Type 0} (file : HostFile S) (is : IsFile file) (open_new : S → Bool × S)
    (mbr_data : Bytes) where
  open is use {byte, position}

  init_disk-IsSealed :
      (uuid : Bytes) (s s1 : S)
      → length uuid ≡ 16
      → open_new s ≡ (true, s1)
      → position s1 ≡ 0
      → length mbr_data ≡ 512
      → (t : S) × (init_disk file open_new mbr_data 1048576 (some uuid) s ≡ (true, t))
        × (bytes_at (byte t) 0 512 ≡ mbr_data)
        × IsSealed (byte t) 512 1024
        × IsSealed (byte t) (2047 * 512) (2047 * 512 - headers_size)
        × IsHeader (byte t) 512 (first_header uuid)
        × IsHeader (byte t) (2047 * 512) (second_header uuid)
  unfolding init_disk
  init_disk-IsSealed uuid s s1 k opened start whole =
      let (s2, e2, b2, z2, p2) = is.writes mbr_data s1 in
      let (t, e, front, back, primary, backup, kept) =
        write_disk-IsSealed file is (primary_header uuid 1048576) s2 k (omega arith) (omega arith)
          (omega (arith, p2, start, whole)) in
      (
        t,
        or_fail-true opened _
            ∙ ap
                (λ (r : ℕ × S).
                  if r.0 == 512
                  then write_disk file (primary_header uuid 1048576) r.1
                  else (false, r.1))
                e2
            ∙ ap
                (λ (c : Bool).
                  if c then write_disk file (primary_header uuid 1048576) s2 else (false, s2))
                ((==_iff _ _).1 whole)
            ∙ e,
        bytes_at_ext (byte t) (byte s2) 0 512 (λ x l r. kept x r)
            ∙ ap (λ f. bytes_at f 0 512) b2
            ∙ ap (λ (p : ℕ). bytes_at (stored p mbr_data (byte s1)) 0 512) start
            ∙ ap (λ (n : ℕ). bytes_at (stored 0 mbr_data (byte s1)) 0 n) (sym whole)
            ∙ bytes_at-stored 0 mbr_data (byte s1),
        front,
        back,
        primary,
        backup,
      )

  -- Let the file keep the laws of `IsFile`, let the options and the UUID be well formed, let the
  -- file be opened with its position at 0, and let the boot record have 512 bytes. Then `init`
  -- succeeds. The file begins with the boot record. At 512 and at the last sector of 1 MiB, sector
  -- 2047, stand a primary header and a backup header with the signature, the revision, the sectors
  -- for a disk of that size, the UUID and 128 partition headers of 128 bytes, zeros behind, and the
  -- checksums of themselves and of their partition headers.
  pub pure64_init-Makes :
      (fuel : ℕ) (scanned : Bytes → Bool) (old : Bytes) (args : List Bytes) (str : Option Bytes)
      (uuid : Bytes) (s s1 : S)
      → parse_init scanned args none ≡ some str
      → uuid_parse fuel old (or_default str) ≡ some (some uuid)
      → open_new s ≡ (true, s1)
      → position s1 ≡ 0
      → length mbr_data ≡ 512
      → (t : S) × (pure64_init file open_new mbr_data fuel scanned old args s ≡ some (true, t))
        × (bytes_at (byte t) 0 512 ≡ mbr_data)
        × IsSealed (byte t) 512 1024
        × IsSealed (byte t) (2047 * 512) (2047 * 512 - headers_size)
        × IsHeader (byte t) 512 (first_header uuid)
        × IsHeader (byte t) (2047 * 512) (second_header uuid)
  unfolding pure64_init init_with
  pure64_init-Makes fuel scanned old args str uuid s s1 parsed spelled opened start whole =
      let (t, e, boot, front, back, primary, backup) =
        init_disk-IsSealed uuid s s1 (length-uuid_parse fuel old (or_default str) uuid spelled)
          opened start whole in
      (
        t,
        ap (λ o. init_with file open_new mbr_data fuel old o s) parsed
            ∙ ap
                (λ (u : Option (Option Bytes)). elim u [
                  | none ↦ none
                  | some uuid ↦ some (init_disk file open_new mbr_data 1048576 uuid s)
                ])
                spelled
            ∙ ap some e,
        boot,
        front,
        back,
        primary,
        backup,
      )
