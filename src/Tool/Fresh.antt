-- ===== src/Tool/Fresh.antt =====
-- src/util/pure64.c: the disk that `init` writes.
use pure.Prelude.{
  ℕ, ◌+◌, ◌-◌, ◌*◌, ◌^◌, ◌≤◌, ◌<◌, ◌≡◌, refl, ap, ◌∙◌, arith, length, get_or, inl, inr, replicate,
  Bool, true,
}
use pure.CString.{Bytes}
use pure.Stream.{bytes64}
use pure.Ahci.Disk.{bytes_at}
use pure.Tool.Gpt.{GptHeader, headers_size, backup_header, backup_headers_at}
use pure.Tool.Host.{HostFile, IsFile, stored, or_fail}
use pure.Tool.Stored.{stored_in, stored_out, bytes_at-stored_out}
use pure.Tool.Sums.{IsSealed, Free}
use pure.Tool.Image.{IsHeader, IsHeader-ext, Outside, header_image-IsHeader}
use pure.Tool.Checksum.{calculate_checksums}
use pure.Tool.Sealed.{HasBackup, calculate_checksums-IsSealed}
use pure.Tool.Init.{zero_file_data, padding_rounds, write_disk}
use pure.Tool.Written.{zero_file_data-Wrote}
use pure.Tool.Header.{
  header_image, length-header_image, header_image-backup_lba, header_image-zeros,
  export_gpt_header-Wrote,
}

pub or_fail-true :
    {S : Type 0} {r : Bool × S} {t : S}
    → r ≡ (true, t)
    → (next : S → Bool × S) → or_fail r next ≡ next t
or_fail-true e next = ap (λ r. or_fail r next) e

stored_to : {f g : ℕ → ℕ} {p q : ℕ} (xs : Bytes) → f ≡ g → p ≡ q → stored p xs f ≡ stored q xs g
stored_to {f} {g} {p} {q} xs e k = ap (λ f. stored p xs f) e ∙ ap (λ (p : ℕ). stored p xs g) k

module _ {S : Type 0} (file : HostFile S) (is : IsFile file) where
  open is use {byte, size, position}

  -- The zeros that are written for one array of partition headers.
  abbrev no_headers : Bytes
  no_headers = replicate headers_size 0

  -- The bytes of the disk when everything but the checksums is written.
  abbrev unsealed : GptHeader → (ℕ → ℕ) → ℕ → ℕ
  unsealed h f = stored (h.backup_lba * 512) (header_image file (backup_header h) padding_rounds) (
      stored (backup_headers_at h) no_headers
        (stored 1024 no_headers (stored 512 (header_image file h padding_rounds) f)))

  unsealed-names :
      (h : GptHeader) (f : ℕ → ℕ)
      → 66 ≤ h.backup_lba
      → bytes_at (unsealed h f) 544 8 ≡ bytes64 h.backup_lba
  unsealed-names h f room =
      bytes_at-stored_out (h.backup_lba * 512) (header_image file (backup_header h) padding_rounds)
        _ 544 8 (inl (omega arith))
      ∙ bytes_at-stored_out (backup_headers_at h) no_headers _ 544 8 (inl (omega arith))
      ∙ bytes_at-stored_out 1024 no_headers _ 544 8 (inl (omega arith))
      ∙ header_image-backup_lba file h padding_rounds 512 f

  checksum_zero :
      (h : GptHeader) (p : ℕ) (f : ℕ → ℕ) (x : ℕ)
      → length h.disk_uuid ≡ 16
      → p + 16 ≤ x
      → x < p + 20
      → stored p (header_image file h padding_rounds) f x ≡ 0
  checksum_zero h p f x k low high =
      let e : x - p ≡ 16 + (x - (p + 16)) = omega arith in
      stored_in p (header_image file h padding_rounds) f x (omega arith)
        (omega (arith, length-header_image file h padding_rounds k))
      ∙ ap (λ (i : ℕ). get_or (header_image file h padding_rounds) i 0) e
      ∙ header_image-zeros file h padding_rounds (x - (p + 16)) (omega arith)

  unsealed-front :
      (h : GptHeader) (f : ℕ → ℕ) (x : ℕ)
      → length h.disk_uuid ≡ 16
      → 66 ≤ h.backup_lba
      → 528 ≤ x
      → x < 532
      → unsealed h f x ≡ 0
  unsealed-front h f x k room low high =
      stored_out (h.backup_lba * 512) (header_image file (backup_header h) padding_rounds)
        (stored (backup_headers_at h) no_headers
          (stored 1024 no_headers (stored 512 (header_image file h padding_rounds) f)))
        x (inl (omega arith))
      ∙ stored_out (backup_headers_at h) no_headers
          (stored 1024 no_headers (stored 512 (header_image file h padding_rounds) f)) x
          (inl (omega arith))
      ∙ stored_out 1024 no_headers (stored 512 (header_image file h padding_rounds) f) x
          (inl (omega arith))
      ∙ checksum_zero h 512 f x k low high

  -- All of `write_disk` but the checksums.
  write_disk-unsealed :
      (h : GptHeader) (s : S)
      → length h.disk_uuid ≡ 16
      → position s ≡ 512
      → (t : S) × (write_disk file h s ≡ calculate_checksums file t)
        × (byte t ≡ unsealed h (byte s))
        × (h.backup_lba * 512 + 512 ≤ size t)
  unfolding write_disk
  write_disk-unsealed h s k start =
      let (s1, e1, w1) = export_gpt_header-Wrote file is h s k in
      let p1 : position s1 ≡ 1024 =
        omega (arith, w1.moved, start, length-header_image file h padding_rounds k) in
      let (s3, e3, b3, z3, p3) =
        is.seeks (backup_headers_at h) (zero_file_data file headers_size s1) in
      let (s5, e5, b5, z5, p5) =
        is.seeks (h.backup_lba * 512) (zero_file_data file headers_size s3) in
      let (s6, e6, w6) = export_gpt_header-Wrote file is (backup_header h) s5 k in
      let w2 = zero_file_data-Wrote file is headers_size s1 in
      let w4 = zero_file_data-Wrote file is headers_size s3 in
      let inside : h.backup_lba * 512 + 512 ≤ size s6 = omega (
        arith,
        w6.within,
        w6.moved,
        p5,
        length-header_image file (backup_header h) padding_rounds k,
      ) in
      let f1 : byte s1 ≡ stored 512 (header_image file h padding_rounds) (byte s) =
        w1.bytes ∙ stored_to (header_image file h padding_rounds) refl start in
      let f3 = b3 ∙ w2.bytes ∙ stored_to no_headers f1 p1 in
      let f5 = b5 ∙ w4.bytes ∙ stored_to no_headers f3 p3 in
      (
        s6,
        or_fail-true e1 _
            ∙ or_fail-true e3 _
            ∙ or_fail-true e5 _
            ∙ or_fail-true e6 (calculate_checksums file),
        w6.bytes ∙ stored_to (header_image file (backup_header h) padding_rounds) f5 p5,
        inside,
      )

  unsealed-boot :
      (h : GptHeader) (f : ℕ → ℕ) (x : ℕ) → 66 ≤ h.backup_lba → x < 512 → unsealed h f x ≡ f x
  unsealed-boot h f x room k =
      stored_out (h.backup_lba * 512) (header_image file (backup_header h) padding_rounds)
        (stored (backup_headers_at h) no_headers
          (stored 1024 no_headers (stored 512 (header_image file h padding_rounds) f)))
        x (inl (omega arith))
      ∙ stored_out (backup_headers_at h) no_headers
          (stored 1024 no_headers (stored 512 (header_image file h padding_rounds) f)) x
          (inl (omega arith))
      ∙ stored_out 1024 no_headers (stored 512 (header_image file h padding_rounds) f) x
          (inl (omega arith))
      ∙ stored_out 512 (header_image file h padding_rounds) f x (inl k)

  unsealed-primary :
      (h : GptHeader) (f : ℕ → ℕ)
      → length h.disk_uuid ≡ 16
      → 66 ≤ h.backup_lba
      → IsHeader (unsealed h f) 512 h
  unsealed-primary h f k room =
      IsHeader-ext (unsealed h f) (stored 512 (header_image file h padding_rounds) f) 512 h
        (λ x out.
          stored_out (h.backup_lba * 512) (header_image file (backup_header h) padding_rounds)
            (stored (backup_headers_at h) no_headers
              (stored 1024 no_headers (stored 512 (header_image file h padding_rounds) f)))
            x (inl (omega (arith, out.1)))
          ∙ stored_out (backup_headers_at h) no_headers
              (stored 1024 no_headers (stored 512 (header_image file h padding_rounds) f)) x
              (inl (omega (arith, out.1)))
          ∙ stored_out 1024 no_headers (stored 512 (header_image file h padding_rounds) f) x
              (inl (omega (arith, out.1))))
        (header_image-IsHeader file h 512 f k)

  unsealed-backup :
      (h : GptHeader) (f : ℕ → ℕ)
      → length h.disk_uuid ≡ 16
      → IsHeader (unsealed h f) (h.backup_lba * 512) (backup_header h)
  unsealed-backup h f k =
      header_image-IsHeader file (backup_header h) (h.backup_lba * 512)
        (stored (backup_headers_at h) no_headers
          (stored 1024 no_headers (stored 512 (header_image file h padding_rounds) f)))
        k

  -- On a file that keeps the laws of `IsFile` and stands behind the boot record, and for a header
  -- with a UUID of 16 bytes whose backup has a sector from 66 on with its end below 2 ^ 64, writing
  -- the disk succeeds. In the file that it gives, the primary header and the backup header at the
  -- sector that the header names hold their fields and the checksums of themselves and of their
  -- partition headers, and the 512 bytes in front of them are as they were.
  pub write_disk-IsSealed :
      (h : GptHeader) (s : S)
      → length h.disk_uuid ≡ 16
      → 66 ≤ h.backup_lba
      → h.backup_lba * 512 + 512 < 2 ^ 64
      → position s ≡ 512
      → (t : S) × (write_disk file h s ≡ (true, t))
        × IsSealed (byte t) 512 1024
        × IsSealed (byte t) (h.backup_lba * 512) (backup_headers_at h)
        × IsHeader (byte t) 512 h
        × IsHeader (byte t) (h.backup_lba * 512) (backup_header h)
        × ((x : ℕ) → x < 512 → byte t x ≡ byte s x)
  write_disk-IsSealed h s k room small start =
      let b = h.backup_lba in
      let (u, e, f, inside) = write_disk-unsealed h s k start in
      let has : HasBackup file is b u = record {
        named = ap (λ f. bytes_at f 544 8) f ∙ unsealed-names h (byte s) room;
        room = room;
        inside = inside;
        small = small;
      } in
      let inside_front : (x : ℕ) → Outside 512 x → Free (byte u) b x = λ x out. (
        elim out.3 [ inl l ↦ inl (omega arith) | inr r ↦ inr (omega arith) ],
        inl (omega (arith, out.1)),
        elim out.2 [ inl l ↦ inl (omega arith) | inr r ↦ inr (omega arith) ],
        inl (omega (arith, out.1)),
      ) in
      let inside_back : (x : ℕ) → Outside (b * 512) x → Free (byte u) b x =
        λ x out. (inr (omega (arith, out.0)), out.3, inr (omega (arith, out.0)), out.2) in
      let (t, d, front, back, kept) =
        calculate_checksums-IsSealed file is b u has
          (λ x l r. ap (λ f. f x) f ∙ unsealed-front h (byte s) x k room l r)
          (λ x l r.
            ap (λ f. f x) f
            ∙ checksum_zero (backup_header h) (b * 512)
                (stored (backup_headers_at h) no_headers (
                  stored 1024 no_headers
                    (stored 512 (header_image file h padding_rounds) (byte s))))
                x k l r) in
      (
        t,
        e ∙ d,
        front,
        back,
        IsHeader-ext (byte t) (unsealed h (byte s)) 512 h
            (λ x out. kept x (inside_front x out) ∙ ap (λ f. f x) f)
            (unsealed-primary h (byte s) k room),
        IsHeader-ext (byte t) (unsealed h (byte s)) (b * 512) (backup_header h)
            (λ x out. kept x (inside_back x out) ∙ ap (λ f. f x) f) (unsealed-backup h (byte s) k),
        λ x l.
            kept x (inl (omega arith), inl (omega arith), inl (omega arith), inl (omega arith))
            ∙ ap (λ f. f x) f
            ∙ unsealed-boot h (byte s) x room l,
      )
