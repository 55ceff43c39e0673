-- ===== src/Tool/Image.antt =====
-- src/util/pure64.c: what stands in a header that `export_gpt_header` wrote.
use pure.Prelude.{
  ℕ, [], ◌∷◌, ◌++◌, ◌+◌, ◌<◌, ◌≤◌, ◌≡◌, sym, ap, ◌∙◌, arith, length, ◌⊎◌, inl, inr, replicate,
  length-append, append_assoc, take,
}
use pure.CString.{Bytes}
use pure.Stream.{bytes64}
use pure.Ahci.Disk.{bytes_at}
use pure.Tool.Gpt.{GptHeader}
use pure.Tool.Host.{HostFile, stored, bytes32}
use pure.Tool.Stored.{bytes_at_ext}
use pure.Tool.Init.{padding_rounds, header_fields}
use pure.Tool.Written.{joined}
use pure.Tool.Header.{four, header_image, length-fields, bytes_at-middle}

-- The signature, the revision and the size of a header.
abbrev pub header_start : Bytes
header_start =
    b'E' ∷ b'F' ∷ b'I' ∷ b' ' ∷ b'P' ∷ b'A' ∷ b'R' ∷ b'T' ∷ 0 ∷ 0 ∷ 1 ∷ 0 ∷ 92 ∷ 0 ∷ 0 ∷ 0 ∷ []

-- What follows the UUID, up to the checksum of the partition headers.
abbrev array_part : GptHeader → Bytes
array_part h =
    bytes64 h.partition_headers_lba ++ (bytes32 h.partition_header_count ++ (128 ∷ 0 ∷ 0 ∷ 0 ∷ []))

-- What stands between the two checksums.
abbrev pub header_part : GptHeader → Bytes
header_part h =
    0
    ∷ 0
    ∷ 0
    ∷ 0
    ∷ (bytes64 h.current_lba
        ++ (bytes64 h.backup_lba
            ++ (bytes64 h.first_usable_lba
                ++ (bytes64 h.last_usable_lba ++ (h.disk_uuid ++ array_part h)))))

-- The 512 bytes from `p` on are a header with these fields, whatever its two checksums are.
abbrev pub IsHeader : (ℕ → ℕ) → ℕ → GptHeader → Type 0
IsHeader f p h =
    (bytes_at f p 16 ≡ header_start)
    × (bytes_at f (p + 20) 68 ≡ header_part h)
    × (bytes_at f (p + 92) 420 ≡ replicate 420 0)

-- A place in a header where no checksum stands.
abbrev pub Outside : ℕ → ℕ → Type 0
Outside p x =
    (p ≤ x) × (x < p + 512) × ((x < p + 16) ⊎ (p + 20 ≤ x)) × ((x < p + 88) ⊎ (p + 92 ≤ x))

pub IsHeader-ext :
    (f g : ℕ → ℕ) (p : ℕ) (h : GptHeader)
    → ((x : ℕ) → Outside p x → f x ≡ g x)
    → IsHeader g p h
    → IsHeader f p h
IsHeader-ext f g p h same (start, part, padding) = (
  bytes_at_ext f g p 16 (λ x l r. same x (l, omega arith, inl r, inl (omega arith))) ∙ start,
  bytes_at_ext f g (p + 20) 68
        (λ x l r. same x (omega arith, omega arith, inr l, inl (omega arith)))
      ∙ part,
  bytes_at_ext f g (p + 92) 420
        (λ x l r. same x (omega arith, omega arith, inr (omega arith), inr l))
      ∙ padding,
)

module _ {S : Type 0} (file : HostFile S) where
  length-header_part : (h : GptHeader) → length h.disk_uuid ≡ 16 → length (header_part h) ≡ 68
  unfolding bytes64 bytes32
  length-header_part h k = omega (arith, k, length-append h.disk_uuid (array_part h))

  header_image-parts :
      (h : GptHeader) (n : ℕ)
      → header_image file h n
        ≡ (header_start ++ four) ++ (header_part h ++ (four ++ joined (replicate n four)))
  unfolding bytes64 bytes32
  header_image-parts h n =
      let pad = joined (replicate n four) in
      ap (λ t. joined (take 9 (header_fields file h)) ++ t)
        (append_assoc h.disk_uuid (array_part h ++ four) pad
          ∙ sym (append_assoc h.disk_uuid (array_part h) (four ++ pad)))

  pub header_image-IsHeader :
      (h : GptHeader) (p : ℕ) (f : ℕ → ℕ)
      → length h.disk_uuid ≡ 16
      → IsHeader (stored p (header_image file h padding_rounds) f) p h
  header_image-IsHeader h p f k =
      let pad = joined (replicate padding_rounds four) in
      let parts = header_image-parts h padding_rounds in
      (
        ap (λ t. bytes_at (stored p t f) p 16) parts
            ∙ ap
                (λ (q : ℕ).
                  bytes_at (stored p (header_start ++ (four ++ (header_part h ++ (four ++ pad)))) f)
                    q 16)
                (omega arith)
            ∙ bytes_at-middle p [] header_start (four ++ (header_part h ++ (four ++ pad))) f,
        ap (λ t. bytes_at (stored p t f) (p + 20) 68) parts
            ∙ ap
                (λ (n : ℕ).
                  bytes_at (stored p ((header_start ++ four) ++ (header_part h ++ (four ++ pad))) f)
                    (p + 20) n)
                (sym (length-header_part h k))
            ∙ bytes_at-middle p (header_start ++ four) (header_part h) (four ++ pad) f,
        ap (λ (q : ℕ). bytes_at (stored p (header_image file h padding_rounds) f) q 420)
              (omega (arith, length-fields file h k))
            ∙ bytes_at-middle p (joined (header_fields file h)) pad [] f,
      )
