-- ===== src/Tool/Header.antt =====
-- src/util/pure64.c: the sector that `export_gpt_header` writes.
use pure.Prelude.{
  ℕ, zero, suc, [], ◌∷◌, ◌++◌, ◌+◌, ◌*◌, ◌<◌, ◌≡◌, refl, sym, ap, ◌∙◌, arith, length, get_or, inl,
  replicate, length-append, Bool, true, ◌==◌, ==_iff, drop, take,
}
use pure.CString.{Bytes}
use pure.Stream.{bytes64}
use pure.Ahci.Disk.{bytes_at}
use pure.Tool.Gpt.{GptHeader}
use pure.Tool.Host.{HostFile, IsFile, stored, bytes32}
use pure.Tool.Stored.{bytes_at-stored, bytes_at-stored_out}
use pure.Tool.Init.{
  count_write, write_padding, write_fields, header_fields, padding_rounds, export_gpt_header,
}
use pure.Tool.Written.{stored-append, joined, Wrote, Wrote-and_then, write_fields-Wrote}

abbrev pub four : Bytes
four = 0 ∷ 0 ∷ 0 ∷ 0 ∷ []

length-joined : (n : ℕ) → length (joined (replicate n four)) ≡ n * 4
length-joined zero = refl
length-joined (suc n) = omega (arith, length-joined n)

-- A part in the middle of what was stored.
pub bytes_at-middle :
    (p : ℕ) (xs ys zs : Bytes) (f : ℕ → ℕ)
    → bytes_at (stored p (xs ++ (ys ++ zs)) f) (p + length xs) (length ys) ≡ ys
bytes_at-middle p xs ys zs f =
    ap (λ g. bytes_at g (p + length xs) (length ys))
      (sym (stored-append (p + length xs) ys zs (stored p xs f) ∙ stored-append p xs (ys ++ zs) f))
    ∙ bytes_at-stored_out (p + length xs + length ys) zs (stored (p + length xs) ys (stored p xs f))
        (p + length xs) (length ys) (inl (omega arith))
    ∙ bytes_at-stored (p + length xs) ys (stored p xs f)

module _ {S : Type 0} (file : HostFile S) where
  -- The 512 bytes of a header, with `n` times four zeros at its end.
  abbrev pub header_image : GptHeader → ℕ → Bytes
  header_image h n = joined (header_fields file h) ++ joined (replicate n four)

  pub length-fields :
      (h : GptHeader) → length h.disk_uuid ≡ 16 → length (joined (header_fields file h)) ≡ 92
  unfolding bytes64 bytes32
  length-fields h k =
      let rest =
        bytes64 h.partition_headers_lba
        ++ (bytes32 h.partition_header_count
            ++ ((0x80 ∷ 0 ∷ 0 ∷ 0 ∷ []) ++ (0 ∷ 0 ∷ 0 ∷ 0 ∷ []))) in
      omega (arith, k, length-append h.disk_uuid rest)

  pub length-header_image :
      (h : GptHeader) (n : ℕ) → length h.disk_uuid ≡ 16 → length (header_image h n) ≡ 92 + n * 4
  length-header_image h n k = omega (
    arith,
    length-append (joined (header_fields file h)) (joined (replicate n four)),
    length-fields h k,
    length-joined n,
  )

  -- The backup header's sector, in its place.
  pub header_image-backup_lba :
      (h : GptHeader) (n p : ℕ) (f : ℕ → ℕ)
      → bytes_at (stored p (header_image h n) f) (p + 32) 8 ≡ bytes64 h.backup_lba
  unfolding bytes64
  header_image-backup_lba h n p f =
      bytes_at-middle p (joined (take 6 (header_fields file h))) (bytes64 h.backup_lba)
        (joined (drop 7 (header_fields file h)) ++ joined (replicate n four)) f

  -- The checksum's place holds zeros.
  pub header_image-zeros :
      (h : GptHeader) (n j : ℕ) → j < 4 → get_or (header_image h n) (16 + j) 0 ≡ 0
  header_image-zeros h n zero k = refl
  header_image-zeros h n (suc zero) k = refl
  header_image-zeros h n (suc (suc zero)) k = refl
  header_image-zeros h n (suc (suc (suc zero))) k = refl
  header_image-zeros h n (suc (suc (suc (suc j)))) k = absurd (omega arith)

module _ {S : Type 0} (file : HostFile S) (is : IsFile file) where
  open is use {byte, size, position}

  write_padding-write_fields :
      (n : ℕ) (w : ℕ × S) → write_padding file n w ≡ write_fields file (replicate n four) w
  unfolding write_padding write_fields
  write_padding-write_fields zero w = refl
  write_padding-write_fields (suc n) w = write_padding-write_fields n (count_write file four w)

  export_padded :
      (h : GptHeader) (n : ℕ) (s : S)
      → (t : S) × (write_padding file n (write_fields file (header_fields file h) (0, s))
          ≡ (length (header_image file h n), t))
        × Wrote file is (header_image file h n) s t
  export_padded h n s =
      let (t, e, w) = write_fields-Wrote file is (header_fields file h) 0 s in
      let (u, e', v) =
        write_fields-Wrote file is (replicate n four) (0 + length (joined (header_fields file h)))
          t in
      (
        u,
        write_padding-write_fields n _
            ∙ ap (write_fields file (replicate n four)) e
            ∙ e'
            ∙ ap (λ (c : ℕ). (c, u))
                (omega (
                  arith,
                  length-append (joined (header_fields file h)) (joined (replicate n four)),
                )),
        Wrote-and_then file is _ _ s t u w v,
      )

  pub export_gpt_header-Wrote :
      (h : GptHeader) (s : S)
      → length h.disk_uuid ≡ 16
      → (t : S) × (export_gpt_header file h s ≡ (true, t))
        × Wrote file is (header_image file h padding_rounds) s t
  unfolding export_gpt_header
  export_gpt_header-Wrote h s k =
      let (t, e, w) = export_padded h padding_rounds s in
      (
        t,
        ap (λ (r : ℕ × S). (r.0 == 512, r.1)) e
            ∙ ap (λ (b : Bool). (b, t))
                ((==_iff _ _).1 (length-header_image file h padding_rounds k)),
        w,
      )
