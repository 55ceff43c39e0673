-- ===== src/Fs.antt =====
-- src/lib/fs.c: directories and files by their paths.
pub mod Names
pub mod View
pub mod Insert
pub mod Create
pub mod Valid
pub mod Make
pub mod Open
use pure.Prelude.{
  ℕ, zero, suc, ◌%◌, ◌^◌, Bool, true, false, Option, none, some, List, [], ◌∷◌, map, if◌then◌else◌,
  length, take,
}
use pure.Error.{einval, enoent}
use pure.Run.{Outcome, M, Mem, done, failed, fault, out_of_fuel, and_then, ◌>>=◌, ret, fail}
use pure.CString.{Bytes, same}
use pure.Path.{FilePath, PathName, path_init, path_parse, path_normalize}
use pure.Dir.{
  File, Dir, dir, Dirs, nil, cons, dir_name, count, dir_init, dir_add_file, dir_add_subdir,
}

-- `PURE64_SIGNATURE`
abbrev pub signature_value : ℕ
signature_value = 0x5346343665727550

-- `struct pure64_fs`
pub record Fs : Type 0 where
  pub signature : ℕ
  pub size : ℕ
  pub root : Dir

-- `pure64_fs_init`
abbrev pub fs_init : Fs
fs_init = record { signature = signature_value; size = 0; root = dir_init }

-- A `uint64_t` count kept in an `unsigned int`.
abbrev pub u32 : ℕ → ℕ
u32 n = n % 2 ^ 32

-- The names of a path that the loops below read: as many as `name_count`, an `unsigned int`,
-- says.
abbrev pub counted_names : FilePath → List Bytes
counted_names path = map (λ n. PathName.data_ n) (take (u32 (length path)) path)

-- What every function below begins with: parse, normalize, and count the names.
unfoldable pub names_of : Bytes → M Mem (List Bytes)
names_of path_str = path_parse path_init path_str >>= λ path.
    path_normalize path >>= λ path'. ret (counted_names path')

-- The inner loop of the lookups: the first subdirectory of that name, among the first
-- `subdir_count`.
unfoldable pub find_first : ℕ → Bytes → Dirs → Option Dir
find_first zero name ds = none
find_first (suc subdir_count) name nil = none
find_first (suc subdir_count) name (cons d ds) =
    if same (dir_name d) name then some d else find_first subdir_count name ds

-- The same loop where what follows changes the directory that was found, in place.
unfoldable pub update_first : ℕ → Bytes → (Dir → M Mem Dir) → Dirs → M Mem Dirs
update_first zero name f ds = fail enoent
update_first (suc subdir_count) name f nil = fail enoent
update_first (suc subdir_count) name f (cons d ds) =
    if same (dir_name d) name
    then (f d >>= λ d'. ret (cons d' ds))
    else (update_first subdir_count name f ds >>= λ ds'. ret (cons d ds'))

-- The outer loop of `pure64_fs_make_dir` and `pure64_fs_make_file` and the call behind it: all
-- names but the last lead to the parent directory, to which the last is added.
unfoldable pub add_at : (Dir → Bytes → M Mem Dir) → Bytes → List Bytes → Dir → M Mem Dir
unfolding update_first
add_at add n [] d = add d n
add_at add n (n' ∷ rest) (dir name subdirs files) =
    update_first (u32 (count subdirs)) n (add_at add n' rest) subdirs >>= λ subdirs'.
    ret (dir name subdirs' files)

abbrev pub add_by_names : (Dir → Bytes → M Mem Dir) → Fs → List Bytes → M Mem Fs
add_by_names add fs [] = fail einval
add_by_names add fs (n ∷ rest) =
    add_at add n rest fs.root >>= λ root'. ret (record fs { root = root' })

-- `pure64_fs_make_dir`
unfoldable pub fs_make_dir : Fs → Bytes → M Mem Fs
fs_make_dir fs path_str = names_of path_str >>= λ names. add_by_names dir_add_subdir fs names

-- `pure64_fs_make_file`
unfoldable pub fs_make_file : Fs → Bytes → M Mem Fs
fs_make_file fs path_str = names_of path_str >>= λ names. add_by_names dir_add_file fs names

-- The outer loop of `pure64_fs_open_dir`, where `none` is NULL.
unfoldable pub find_dir : List Bytes → Dir → Option Dir
unfolding find_first
find_dir [] d = some d
find_dir (n ∷ ns) (dir name subdirs files) = elim (find_first (u32 (count subdirs)) n subdirs) [
  | none ↦ none
  | some d ↦ find_dir ns d
]

-- The rounds of the last loop of `pure64_fs_open_file` in which its `unsigned int` has not come to
-- 0 again.
abbrev pub u32_rounds : ℕ
u32_rounds = 2 ^ 32

-- That loop with so many rounds left, over the files that are left. The files are counted by a
-- `uint64_t`: with no round left it begins with the first file again and, as it found nothing, does
-- not end. The outer `none` is that.
unfoldable pub find_file_named : ℕ → Bytes → List File → Option (Option File)
find_file_named zero name files = none
find_file_named (suc rounds) name [] = some none
find_file_named (suc rounds) name (f ∷ files) =
    if same f.name name then some (some f) else find_file_named rounds name files

-- The loops of `pure64_fs_open_file`: all names but the last lead to the parent directory.
unfoldable pub find_file : Bytes → List Bytes → Dir → Option (Option File)
unfolding find_first find_file_named
find_file n [] (dir name subdirs files) = find_file_named u32_rounds n files
find_file n (n' ∷ rest) (dir name subdirs files) =
    elim (find_first (u32 (count subdirs)) n subdirs) [
      | none ↦ some none
      | some d ↦ find_file n' rest d
    ]

-- A step that returns NULL where the path could not be parsed.
abbrev pub or_null {ℓ} : {A : Type ℓ} → Outcome Mem (Option A) → Outcome Mem (Option A)
or_null (done a m) = done a m
or_null (failed e m) = done none m
or_null fault = fault
or_null out_of_fuel = out_of_fuel

abbrev pub find_file_by_names : Dir → List Bytes → Option (Option File)
find_file_by_names root [] = some none
find_file_by_names root (n ∷ rest) = find_file n rest root

-- A loop that may not have ended.
abbrev pub ended {ℓ} : {A : Type ℓ} → Option A → M Mem A
ended none m = out_of_fuel
ended (some a) m = done a m

-- `pure64_fs_open_dir`
unfoldable pub fs_open_dir : Fs → Bytes → M Mem (Option Dir)
fs_open_dir fs path_str m =
    or_null ((names_of path_str >>= λ names. ret (find_dir names fs.root)) m)

-- `pure64_fs_open_file`
unfoldable pub fs_open_file : Fs → Bytes → M Mem (Option File)
fs_open_file fs path_str m =
    or_null ((names_of path_str >>= λ names. ended (find_file_by_names fs.root names)) m)
