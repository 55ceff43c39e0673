-- ===== src/Mbr/Laws.antt =====
-- The bytes of a boot record, and `pure64_mbr_write` with `pure64_mbr_read`.
use pure.Prelude.{
  ℕ, ◌+◌, ◌^◌, ◌<◌, ◌≡◌, refl, ◌∙◌, ap, sym, ◌++◌, append_assoc, length, length-append, drop,
}
use pure.Run.{done, and_then}
use pure.CString.{Bytes}
use pure.Stream.{Stream, stream_read, stream_write, encode_uint16, bytes16, bytes64}
use pure.Stream.Tape.{
  IsTape, Puts, Puts-and_then, Gets, Gets-and_then, encode_uint16-Puts, encode_uint64-Puts,
  decode_uint16-Gets, decode_uint64-Gets, read-Gets,
}
use pure.Mbr.{Dap, Mbr, dap_read, dap_write, mbr_read, mbr_write}

-- The fields have the sizes and the ranges of their C types.
pub record DapFits (dap : Dap) : Type 0 where
  pub reserved_fits : length (dap.reserved) ≡ 2
  pub sector_count_fits : dap.sector_count < 2 ^ 16
  pub address_fits : dap.address < 2 ^ 16
  pub segment_fits : dap.segment < 2 ^ 16
  pub sector_fits : dap.sector < 2 ^ 64

pub record MbrFits (mbr : Mbr) : Type 0 where
  pub code_fits : length (mbr.code) ≡ 476
  pub st2dap_fits : DapFits mbr.st2dap
  pub st3dap_fits : DapFits mbr.st3dap
  pub boot_signature_fits : mbr.boot_signature < 2 ^ 16

-- The bytes of the fields in the order of the structures.
unfoldable pub dap_image : Dap → Bytes
dap_image dap =
    dap.reserved
    ++ (bytes16 dap.sector_count
        ++ (bytes16 dap.address ++ (bytes16 dap.segment ++ bytes64 dap.sector)))

unfoldable pub mbr_image : Mbr → Bytes
mbr_image mbr =
    mbr.code ++ (dap_image mbr.st2dap ++ (dap_image mbr.st3dap ++ bytes16 mbr.boot_signature))

length-dap_image : (dap : Dap) → DapFits dap → length (dap_image dap) ≡ 16
unfolding dap_image bytes16 bytes64
length-dap_image dap fits = length-append dap.reserved _ ∙ ap (λ n. n + 14) fits.reserved_fits

length-mbr_image : (mbr : Mbr) → MbrFits mbr → length (mbr_image mbr) ≡ 510
unfolding mbr_image bytes16
length-mbr_image mbr fits = simp (
  length-append,
  fits.code_fits,
  length-dap_image mbr.st2dap fits.st2dap_fits,
  length-dap_image mbr.st3dap fits.st3dap_fits,
)

module _ {S : Type 0} (st : Stream S) (tape : IsTape st) where
  open tape use {before, behind}

  dap_write-Puts : (dap : Dap) (s : S) → Puts st tape (dap_image dap) (dap_write st dap s) s
  unfolding dap_write dap_image
  dap_write-Puts dap s =
      Puts-and_then st tape dap.reserved _ s _ _ (tape.writes s dap.reserved) λ s₁.
        Puts-and_then st tape (bytes16 dap.sector_count) _ s₁ _ _
          (encode_uint16-Puts st tape dap.sector_count s₁)
          λ s₂.
            Puts-and_then st tape (bytes16 dap.address) _ s₂ _ _
              (encode_uint16-Puts st tape dap.address s₂)
              λ s₃.
                Puts-and_then st tape (bytes16 dap.segment) _ s₃ _ _
                  (encode_uint16-Puts st tape dap.segment s₃)
                  λ s₄. encode_uint64-Puts st tape dap.sector s₄

  read_n-Gets :
      (n : ℕ) (xs ys : Bytes) (s : S)
      → length xs ≡ n
      → behind s ≡ xs ++ ys
      → Gets st tape xs ys (stream_read st n s)
  read_n-Gets n xs ys s e h = rw (sym e) (read-Gets st tape xs ys s h)

  dap_read-Gets :
      (dap : Dap) (ys : Bytes) (s : S)
      → DapFits dap
      → behind s ≡ dap_image dap ++ ys
      → Gets st tape dap ys (dap_read st s)
  unfolding dap_read dap_image
  dap_read-Gets dap ys s fits h =
      let h' = simp append_assoc at h in
      Gets-and_then st tape dap.reserved dap _ ys _ _
        (read_n-Gets 2 dap.reserved _ s fits.reserved_fits h')
        λ s₁ h₁.
          Gets-and_then st tape dap.sector_count dap _ ys _ _
            (decode_uint16-Gets st tape dap.sector_count _ s₁ fits.sector_count_fits h₁)
            λ s₂ h₂.
              Gets-and_then st tape dap.address dap _ ys _ _
                (decode_uint16-Gets st tape dap.address _ s₂ fits.address_fits h₂)
                λ s₃ h₃.
                  Gets-and_then st tape dap.segment dap _ ys _ _
                    (decode_uint16-Gets st tape dap.segment _ s₃ fits.segment_fits h₃)
                    λ s₄ h₄.
                      Gets-and_then st tape dap.sector dap ys ys _ _
                        (decode_uint64-Gets st tape dap.sector ys s₄ fits.sector_fits h₄)
                        λ s₅ h₅. (s₅, refl, h₅)

  fields_write-Puts :
      (mbr : Mbr) (s : S)
      → Puts st tape
          (mbr_image mbr)
          (and_then (stream_write st mbr.code s) λ _ s.
            and_then
              (dap_write st mbr.st2dap s)
              λ _ s. and_then (dap_write st mbr.st3dap s) λ _. encode_uint16 st mbr.boot_signature)
          s
  unfolding mbr_image
  fields_write-Puts mbr s = Puts-and_then st tape mbr.code _ s _ _ (tape.writes s mbr.code) λ s₁.
      Puts-and_then st tape (dap_image mbr.st2dap) _ s₁ _ _ (dap_write-Puts mbr.st2dap s₁) λ s₂.
        Puts-and_then st tape (dap_image mbr.st3dap) _ s₂ _ _ (dap_write-Puts mbr.st3dap s₂)
          λ s₃. encode_uint16-Puts st tape mbr.boot_signature s₃

  mbr_read-Gets :
      (mbr : Mbr) (ys : Bytes) (s : S)
      → MbrFits mbr
      → before s ++ behind s ≡ mbr_image mbr ++ ys
      → Gets st tape mbr ys (mbr_read st s)
  unfolding mbr_read mbr_image
  mbr_read-Gets mbr ys s fits h =
      let (s₀, e₀, _, b₀) = tape.rewinds s in
      let h' = simp append_assoc at h in
      Gets-and_then st tape tt mbr _ ys _ _ (s₀, e₀, b₀ ∙ h')
        λ s₁ h₁.
          Gets-and_then st tape mbr.code mbr _ ys _ _
            (read_n-Gets 476 mbr.code _ s₁ fits.code_fits h₁)
            λ s₂ h₂.
              Gets-and_then st tape mbr.st2dap mbr _ ys _ _
                (dap_read-Gets mbr.st2dap _ s₂ fits.st2dap_fits h₂)
                λ s₃ h₃.
                  Gets-and_then st tape mbr.st3dap mbr _ ys _ _
                    (dap_read-Gets mbr.st3dap _ s₃ fits.st3dap_fits h₃)
                    λ s₄ h₄.
                      Gets-and_then st tape mbr.boot_signature mbr ys ys _ _
                        (decode_uint16-Gets st tape mbr.boot_signature ys s₄
                          fits.boot_signature_fits h₄)
                        λ s₅ h₅. (s₅, refl, h₅)

  -- On a stream over bytes, wherever its position is, `pure64_mbr_write` of a record whose fields
  -- are in range succeeds and puts the record's bytes in front, over the first 510 bytes that the
  -- stream held, and no other; and `pure64_mbr_read` gives the record back after that.
  pub mbr_read-mbr_write :
      (mbr : Mbr) (s : S)
      → MbrFits mbr
      → (t : S) × (mbr_write st mbr s ≡ done tt t)
        × (before t ≡ mbr_image mbr)
        × (behind t ≡ drop 510 (before s ++ behind s))
        × (u : S) × (mbr_read st t ≡ done mbr u)
  unfolding mbr_write
  mbr_read-mbr_write mbr s fits =
      let (s₀, e₀, b₀, h₀) = tape.rewinds s in
      let (t, e, b, h) = fields_write-Puts mbr s₀ in
      let bt : before t ≡ mbr_image mbr = b ∙ ap (λ z. z ++ mbr_image mbr) b₀ in
      let (u, eu, _) = mbr_read-Gets mbr (behind t) t fits (ap (λ z. z ++ behind t) bt) in
      (
        t,
        rw e₀ e,
        bt,
        h ∙ ap (λ n. drop n (behind s₀)) (length-mbr_image mbr fits) ∙ ap (drop 510) h₀,
        u,
        eu,
      )
