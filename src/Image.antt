-- ===== src/Image.antt =====
-- The file system image: the export and import functions of src/lib/fs.c, dir.c and file.c.
pub mod Bytes
pub mod Tree
pub mod RoundTrip
pub mod Size
use pure.Prelude.{
  ℕ, zero, suc, ◌+◌, ◌*◌, ◌%◌, ◌^◌, Bool, true, false, List, [], ◌∷◌, ltb, ◌==◌, ◌&&◌,
  if◌then◌else◌, length,
}
use pure.Bits.{u64}
use pure.Error.{einval, enomem}
use pure.Run.{
  Outcome, M, Mem, done, failed, fault, out_of_fuel, and_then, ◌>>=◌, ◌>>◌, ret, fail, answer,
  on_first, on_second, with_first, with_second,
}
use pure.CString
use pure.Stream.{Stream, stream_read, stream_write, encode_uint64, decode_uint64}
use pure.Dir.{File, Dir, dir, Dirs, nil, cons, count}
use pure.Fs.{Fs, signature_value}

-- `pure64_file_size` of fs.c
unfoldable pub file_size : File → ℕ
file_size f = u64 (16 + length f.name + length f.contents)

-- The second loop of `pure64_dir_size`.
unfoldable pub files_size : ℕ → List File → ℕ
unfolding file_size
files_size size [] = size
files_size size (f ∷ files) = files_size (u64 (size + file_size f)) files

-- `pure64_dir_size` of fs.c, and its first loop.
unfoldable mutual
  pub dir_size : Dir → ℕ
  dir_size (dir name subdirs files) = files_size (dirs_size subdirs 24) files

  pub dirs_size : Dirs → ℕ → ℕ
  dirs_size nil size = size
  dirs_size (cons d ds) size = dirs_size ds (u64 (size + dir_size d))

-- `pure64_fs_size`
unfoldable pub fs_size : Fs → ℕ
fs_size fs = u64 (16 + dir_size fs.root)

module _ {S : Type 0} (st : Stream S) where
  -- `pure64_file_export`
  unfoldable pub file_export : File → M S (Unit {0})
  file_export f = do
    encode_uint64 st (length f.name)
    encode_uint64 st (length f.contents)
    stream_write st f.name
    stream_write st f.contents

  -- The second loop of `pure64_dir_export`.
  unfoldable pub files_export : List File → M S (Unit {0})
  unfolding file_export
  files_export [] = ret tt
  files_export (f ∷ files) = file_export f >> files_export files

  -- `pure64_dir_export`, and its first loop.
  unfoldable mutual
    pub dir_export : Dir → M S (Unit {0})
    dir_export (dir name subdirs files) = do
      encode_uint64 st (length name)
      encode_uint64 st (count subdirs)
      encode_uint64 st (length files)
      stream_write st name
      dirs_export subdirs
      files_export files

    pub dirs_export : Dirs → M S (Unit {0})
    dirs_export nil = ret tt
    dirs_export (cons d ds) = dir_export d >> dirs_export ds

  -- `pure64_fs_export`: the size is stored in the structure too.
  unfoldable pub fs_export : Fs → M S Fs
  fs_export fs = do
    encode_uint64 st fs.signature
    encode_uint64 st (fs_size fs)
    dir_export fs.root
    ret (record fs { size = fs_size fs })

  -- A buffer is written up to a size that the request for it did not wrap around to.
  abbrev pub within : Bool → M (S × Mem) (Unit {0})
  within true w = done tt w
  within false w = fault

  abbrev pub decode : M (S × Mem) ℕ
  decode = on_first (decode_uint64 st)

  abbrev pub read : ℕ → M (S × Mem) CString.Bytes
  read size = on_first (stream_read st size)

  -- Calls of `pure64_malloc` whose results are tested together.
  abbrev pub request_two : M (S × Mem) (Unit {0})
  request_two = on_second (do a ← answer; b ← answer; if a && b then ret tt else fail enomem)

  abbrev pub request_three : M (S × Mem) (Unit {0})
  request_three =
      on_second (do a ← answer; b ← answer; c ← answer; if a && b && c then ret tt else fail enomem)

  -- `pure64_file_import`. The name's buffer has `name_size + 1` bytes, in 64 bits.
  unfoldable pub file_import : M (S × Mem) File
  file_import = do
    name_size ← decode
    data_size ← decode
    request_two
    within (ltb (name_size + 1) (2 ^ 64))
    name ← read name_size
    contents ← read data_size
    ret (record { name = name; contents = contents })

  -- The last loop of `pure64_dir_import`.
  unfoldable pub files_import : ℕ → M (S × Mem) (List File)
  unfolding file_import
  files_import zero = ret []
  files_import (suc n) = do f ← file_import; files ← files_import n; ret (f ∷ files)

  -- The loop over the subdirectories, given the import of one.
  unfoldable pub dirs_import : M (S × Mem) Dir → ℕ → M (S × Mem) Dirs
  dirs_import one zero = ret nil
  dirs_import one (suc n) = do d ← one; ds ← dirs_import one n; ret (cons d ds)

  -- `pure64_dir_import`, on fuel for the nesting. The arrays have `subdir_count * 48` and
  -- `file_count * 32` bytes, in 64 bits.
  unfoldable pub dir_import : ℕ → M (S × Mem) Dir
  unfolding dirs_import files_import
  dir_import zero w = out_of_fuel
  dir_import (suc fuel) w =
      (do
        name_size ← decode
        subdir_count ← decode
        file_count ← decode
        request_three
        within (ltb (name_size + 1) (2 ^ 64))
        name ← read name_size
        within (ltb (subdir_count * 48) (2 ^ 64))
        within (ltb (file_count * 32) (2 ^ 64))
        subdirs ← dirs_import (dir_import fuel) subdir_count
        files ← files_import file_count
        ret (dir name subdirs files))
        w

  abbrev pub check_signature : ℕ → M (S × Mem) (Unit {0})
  check_signature signature = if signature == signature_value then ret tt else fail einval

  -- `pure64_fs_import`
  unfoldable pub fs_import : ℕ → M (S × Mem) Fs
  unfolding dir_import
  fs_import fuel = do
    signature ← decode
    check_signature signature
    size ← decode
    root ← dir_import fuel
    ret (record { signature = signature; size = size; root = root })
