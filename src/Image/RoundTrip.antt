-- ===== src/Image/RoundTrip.antt =====
-- `pure64_fs_export` and `pure64_fs_import` one after the other.
use pure.Prelude.{
  ℕ, zero, suc, ◌+◌, ◌*◌, ◌^◌, ◌<◌, ◌≤◌, ◌≡◌, refl, ◌∙◌, ap, List, [], ◌∷◌, ◌++◌, append_assoc,
  length, All, lt→ltb, ltb, arith,
}
use pure.Run.{Outcome, M, Mem, done, and_then, with_second}
use pure.CString
use pure.Stream.{Stream, bytes64}
use pure.Stream.Tape.{IsTape, encode_uint64-Puts, decode_uint64-Gets, read-Gets}
use pure.Dir.{File, Dir, dir, Dirs, nil, cons, count}
use pure.Fs.{Fs, signature_value}
use pure.Image.{
  fs_size, fs_export, fs_import, check_signature, within, decode, read, file_import, files_import,
  dirs_import, dir_import,
}
use pure.Image.Tree.{dir_export-Puts}
use pure.Image.Bytes.{
  file_image, files_image, dir_image, dirs_image, FileFits, DirFits, DirsFit, height, heights,
}

-- The structure after an export.
abbrev pub with_size : Fs → Fs
with_size fs = record fs { size = fs_size fs }

unfoldable pub fs_image : Fs → CString.Bytes
fs_image fs = bytes64 fs.signature ++ (bytes64 (fs_size fs) ++ dir_image fs.root)

module _ {S : Type 0} (st : Stream S) (tape : IsTape st) where
  open tape use {behind}

  -- With every request granted the run reads the value, and `ys` is left behind the position.
  abbrev pub Takes : {A : Type 0} → A → CString.Bytes → Outcome (S × Mem) A → Type 0
  Takes a ys r = (t : S) × (r ≡ done a (t, [])) × (behind t ≡ ys)

  Takes-and_then :
      {A B : Type 0} (a : A) (b : B) (ys zs : CString.Bytes) (r : Outcome (S × Mem) A)
      (k : A → M (S × Mem) B)
      → Takes a ys r
      → ((t : S) → behind t ≡ ys → Takes b zs (k a (t, [])))
      → Takes b zs (and_then r k)
  Takes-and_then a b ys zs r k (t, e, h) next = let (u, e', h') = next t h in (u, rw e e', h')

  Takes-within :
      {B : Type 0} (n m : ℕ) (b : B) (zs : CString.Bytes) (s : S) (k : M (S × Mem) B)
      → n < m
      → Takes b zs (k (s, []))
      → Takes b zs (and_then (within st (ltb n m) (s, [])) (λ _. k))
  Takes-within n m b zs s k h t = rw (lt→ltb n m h) t

  decode-Takes :
      (n : ℕ) (ys : CString.Bytes) (s : S)
      → n < 2 ^ 64
      → behind s ≡ bytes64 n ++ ys
      → Takes n ys (decode st (s, []))
  decode-Takes n ys s small h =
      let (t, e, h') = decode_uint64-Gets st tape n ys s small h in (t, ap (with_second []) e, h')

  read-Takes :
      (xs ys : CString.Bytes) (s : S)
      → behind s ≡ xs ++ ys
      → Takes xs ys (read st (length xs) (s, []))
  read-Takes xs ys s h =
      let (t, e, h') = read-Gets st tape xs ys s h in (t, ap (with_second []) e, h')

  file_import-Takes :
      (f : File) (ys : CString.Bytes) (s : S)
      → FileFits f
      → behind s ≡ file_image f ++ ys
      → Takes f ys (file_import st (s, []))
  unfolding file_import file_image
  file_import-Takes f ys s fits h =
      let h' = simp append_assoc at h in
      Takes-and_then (length f.name) f _ ys _ _
        (decode-Takes (length f.name) _ s (omega (arith, fits.name_fits)) h')
        λ s₁ h₁.
          Takes-and_then (length f.contents) f _ ys _ _
            (decode-Takes (length f.contents) _ s₁ fits.contents_fit h₁)
            λ s₂ h₂. Takes-within (length f.name + 1) (2 ^ 64) f ys s₂ _ fits.name_fits (
              Takes-and_then f.name f _ ys _ _ (read-Takes f.name _ s₂ h₂) λ s₃ h₃.
                Takes-and_then f.contents f ys ys _ _ (read-Takes f.contents ys s₃ h₃)
                  λ s₄ h₄. (s₄, refl, h₄))

  files_import-Takes :
      (files : List File) (ys : CString.Bytes) (s : S)
      → All FileFits files
      → behind s ≡ files_image files ++ ys
      → Takes files ys (files_import st (length files) (s, []))
  unfolding files_import files_image
  files_import-Takes [] ys s fits h = (s, refl, h)
  files_import-Takes (f ∷ files) ys s fits h =
      Takes-and_then f (f ∷ files) (files_image files ++ ys) ys _ _
        (file_import-Takes f _ s fits.0 (h ∙ append_assoc (file_image f) (files_image files) ys))
        λ s₁ h₁.
          Takes-and_then files (f ∷ files) ys ys _ _ (files_import-Takes files ys s₁ fits.1 h₁)
            λ s₂ h₂. (s₂, refl, h₂)

  mutual
    unfolding dir_import dir_image DirFits height

    dir_import-reads :
        (d : Dir) (fuel : ℕ) (ys : CString.Bytes) (s : S)
        → height d ≤ fuel
        → DirFits d
        → behind s ≡ dir_image d ++ ys
        → Takes d ys (dir_import st fuel (s, []))
    dir_import-reads (dir name subdirs files) zero ys s deep fits h = absurd (omega arith)
    dir_import-reads (dir name subdirs files) (suc fuel) ys s deep fits h =
        let d = dir name subdirs files in
        let h' = simp append_assoc at h in
        Takes-and_then (length name) d _ ys _ _
          (decode-Takes (length name) _ s (omega (arith, fits.0)) h')
          λ s₁ h₁.
            Takes-and_then (count subdirs) d _ ys _ _
              (decode-Takes (count subdirs) _ s₁ (omega (arith, fits.1)) h₁)
              λ s₂ h₂.
                Takes-and_then (length files) d _ ys _ _
                  (decode-Takes (length files) _ s₂ (omega (arith, fits.2)) h₂)
                  λ s₃ h₃. Takes-within (length name + 1) (2 ^ 64) d ys s₃ _ fits.0 (
                    Takes-and_then name d _ ys _ _ (read-Takes name _ s₃ h₃) λ s₄ h₄.
                      Takes-within (count subdirs * 48) (2 ^ 64) d ys s₄ _ fits.1 (
                        Takes-within (length files * 32) (2 ^ 64) d ys s₄ _ fits.2 (
                          Takes-and_then subdirs d _ ys _ _
                            (dirs_import-reads subdirs fuel _ s₄ (omega arith) fits.3 h₄)
                            λ s₅ h₅.
                              Takes-and_then files d ys ys _ _
                                (files_import-Takes files ys s₅ fits.4 h₅)
                                λ s₆ h₆. (s₆, refl, h₆))))

    dirs_import-reads :
        (ds : Dirs) (fuel : ℕ) (ys : CString.Bytes) (s : S)
        → heights ds ≤ fuel
        → DirsFit ds
        → behind s ≡ dirs_image ds ++ ys
        → Takes ds ys (dirs_import st (dir_import st fuel) (count ds) (s, []))
    dirs_import-reads nil fuel ys s deep fits h = (s, refl, h)
    dirs_import-reads (cons d ds) fuel ys s deep fits h =
        Takes-and_then d (cons d ds) (dirs_image ds ++ ys) ys _ _
          (dir_import-reads d fuel _ s (omega arith) fits.0
            (h ∙ append_assoc (dir_image d) (dirs_image ds) ys))
          λ s₁ h₁.
            Takes-and_then ds (cons d ds) ys ys _ _
              (dirs_import-reads ds fuel ys s₁ (omega arith) fits.1 h₁) λ s₂ h₂. (s₂, refl, h₂)

  pub dir_import-Takes :
      (d : Dir) (fuel : ℕ) (ys : CString.Bytes) (s : S)
      → height d ≤ fuel
      → DirFits d
      → behind s ≡ dir_image d ++ ys
      → Takes d ys (dir_import st fuel (s, []))
  dir_import-Takes d fuel ys s = dir_import-reads d fuel ys s

  fs_export-writes :
      (fs : Fs) (s : S)
      → (t : S) × (fs_export st fs s ≡ done (with_size fs) t)
        × (tape.before t ≡ tape.before s ++ fs_image fs)
  unfolding fs_export fs_image
  fs_export-writes fs s =
      let (s₁, e₁, b₁, _) = encode_uint64-Puts st tape fs.signature s in
      let (s₂, e₂, b₂, _) = encode_uint64-Puts st tape (fs_size fs) s₁ in
      let (s₃, e₃, b₃, _) = dir_export-Puts st tape fs.root s₂ in
      (s₃, rw (e₁, e₂, e₃) refl, simp (b₃, b₂, b₁, append_assoc))

  Takes-check_signature :
      {B : Type 0} (n : ℕ) (b : B) (zs : CString.Bytes) (s : S) (k : M (S × Mem) B)
      → n ≡ signature_value
      → Takes b zs (k (s, []))
      → Takes b zs (and_then (check_signature st n (s, [])) (λ _. k))
  Takes-check_signature n b zs s k e h = rw e h

  fs_size-lt : (fs : Fs) → fs_size fs < 2 ^ 64
  unfolding fs_size
  fs_size-lt fs = omega arith

  fs_import-Takes :
      (fs : Fs) (fuel : ℕ) (ys : CString.Bytes) (s : S)
      → fs.signature ≡ signature_value
      → DirFits fs.root
      → height fs.root ≤ fuel
      → behind s ≡ fs_image fs ++ ys
      → Takes (with_size fs) ys (fs_import st fuel (s, []))
  unfolding fs_import fs_image
  fs_import-Takes fs fuel ys s signed fits deep h =
      let h' = simp append_assoc at h in
      Takes-and_then fs.signature (with_size fs) _ ys _ _
        (decode-Takes fs.signature _ s (omega (arith, signed)) h')
        λ s₁ h₁. Takes-check_signature fs.signature (with_size fs) ys s₁ _ signed (
          Takes-and_then (fs_size fs) (with_size fs) _ ys _ _
            (decode-Takes (fs_size fs) _ s₁ (fs_size-lt fs) h₁)
            λ s₂ h₂.
              Takes-and_then fs.root (with_size fs) ys ys _ _
                (dir_import-Takes fs.root fuel ys s₂ deep fits h₂) λ s₃ h₃. (s₃, refl, h₃))

  -- The file system has the signature of Pure64, and its sizes and counts and what is computed of
  -- them are below 2 ^ 64. Then, on a stream over bytes: `pure64_fs_export` succeeds and puts the
  -- image's bytes at the position; and with the allocator granting every request, from any
  -- position behind which those bytes stand, followed by others, `pure64_fs_import` gives the file
  -- system that the export left, its size field included, and stops at the others. Any fuel from
  -- the height of the tree on is enough.
  pub fs_import-fs_export :
      (fs : Fs) (s : S)
      → fs.signature ≡ signature_value
      → DirFits fs.root
      → (t : S) × (fs_export st fs s ≡ done (with_size fs) t)
        × (tape.before t ≡ tape.before s ++ fs_image fs)
        × ((fuel : ℕ) (rest : CString.Bytes) (u : S)
            → height fs.root ≤ fuel
            → behind u ≡ fs_image fs ++ rest
            → Takes (with_size fs) rest (fs_import st fuel (u, [])))
  fs_import-fs_export fs s signed fits =
      let (t, e, b) = fs_export-writes fs s in
      (t, e, b, λ fuel rest u deep h. fs_import-Takes fs fuel rest u signed fits deep h)
