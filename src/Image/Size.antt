-- ===== src/Image/Size.antt =====
-- The size that `pure64_fs_export` stores, against the number of bytes that it writes.
use pure.Prelude.{ℕ, ◌+◌, ◌%◌, ◌^◌, ◌≡◌, refl, List, [], ◌∷◌, ◌++◌, length, length-append, arith}
use pure.CString
use pure.Stream.{bytes64}
use pure.Dir.{File, Dir, dir, Dirs, nil, cons}
use pure.Fs.{Fs}
use pure.Image.{file_size, files_size, dir_size, dirs_size, fs_size}
use pure.Bits.{u64}
use pure.Image.Bytes.{file_image, files_image, dir_image, dirs_image}
use pure.Image.RoundTrip.{fs_image}

-- The lengths of all directories' names.
unfoldable mutual
  pub dir_names_size : Dir → ℕ
  dir_names_size (dir name subdirs files) = length name + dirs_names_size subdirs

  pub dirs_names_size : Dirs → ℕ
  dirs_names_size nil = 0
  dirs_names_size (cons d ds) = dir_names_size d + dirs_names_size ds

length-bytes64 : (n : ℕ) → length (bytes64 n) ≡ 8
unfolding bytes64
length-bytes64 n = refl

length-append_bytes : (xs ys : CString.Bytes) → length (xs ++ ys) ≡ length xs + length ys
length-append_bytes = length-append

ruleset lengths = (arith, length-bytes64, length-append_bytes)

length-file_image : (f : File) → length (file_image f) ≡ 16 + length f.name + length f.contents
unfolding file_image
length-file_image f = omega lengths

files_size-image :
    (size : ℕ) (files : List File)
    → files_size size files % 2 ^ 64 ≡ (size + length (files_image files)) % 2 ^ 64
unfolding files_size files_image
files_size-image size [] = omega arith
files_size-image size (f ∷ files) =
    omega (lengths, files_size-image (u64 (size + file_size f)) files, length-file_image f)

mutual
  unfolding dir_size dir_image dir_names_size

  dir_size-image :
      (d : Dir) → (dir_size d + dir_names_size d) % 2 ^ 64 ≡ length (dir_image d) % 2 ^ 64
  dir_size-image (dir name subdirs files) =
      omega (lengths, files_size-image (dirs_size subdirs 24) files, dirs_size-image subdirs 24)

  dirs_size-image :
      (ds : Dirs) (size : ℕ)
      → (dirs_size ds size + dirs_names_size ds) % 2 ^ 64 ≡ (size + length (dirs_image ds)) % 2 ^ 64
  dirs_size-image nil size = omega arith
  dirs_size-image (cons d ds) size =
      omega (lengths, dirs_size-image ds (u64 (size + dir_size d)), dir_size-image d)

-- Modulo 2 ^ 64, the image is longer than the size that is stored in it by the lengths of the
-- names of all directories.
pub fs_size-image :
    (fs : Fs) → (fs_size fs + dir_names_size fs.root) % 2 ^ 64 ≡ length (fs_image fs) % 2 ^ 64
unfolding fs_size fs_image
fs_size-image fs = omega (lengths, dir_size-image fs.root)
