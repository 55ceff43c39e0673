-- ===== src/Dir.antt =====
-- src/lib/dir.c and src/lib/file.c: the tree of directories and files. A pointer and the count
-- beside it are a list, a name and its size a `Bytes`; NULL with size 0 is the empty list.
use pure.Prelude.{ℕ, suc, Bool, true, false, List, [], ◌∷◌, ◌++◌, ◌||◌, if◌then◌else◌}
use pure.Error.{eexist}
use pure.Run.{M, Mem, ◌>>=◌, ◌>>◌, ret, fail, alloc}
use pure.CString.{Bytes, same, copy_name}

-- `struct pure64_file`
pub record File : Type 0 where
  pub name : Bytes
  pub contents : Bytes

-- `struct pure64_dir`: the name, the subdirectories and the files.
mutual
  pub data Dir : Type 0 where
    dir : Bytes → Dirs → List File → Dir

  pub data Dirs : Type 0 where
    nil : Dirs
    cons : Dir → Dirs → Dirs

abbrev pub dir_name : Dir → Bytes
dir_name (dir name subdirs files) = name

abbrev pub subdirs_of : Dir → Dirs
subdirs_of (dir name subdirs files) = subdirs

abbrev pub files_of : Dir → List File
files_of (dir name subdirs files) = files

-- `subdir_count`
abbrev pub count : Dirs → ℕ
count nil = 0
count (cons d ds) = suc (count ds)

abbrev pub snoc : Dirs → Dir → Dirs
snoc nil d = cons d nil
snoc (cons e ds) d = cons e (snoc ds d)

-- `pure64_file_init` and `pure64_dir_init`
abbrev pub file_init : File
file_init = record { name = []; contents = [] }

abbrev pub dir_init : Dir
dir_init = dir [] nil []

-- `pure64_file_set_name`
unfoldable pub file_set_name : File → Bytes → M Mem File
file_set_name file name = do alloc; ret (record file { name = copy_name name })

-- `pure64_dir_set_name`
unfoldable pub dir_set_name : Dir → Bytes → M Mem Dir
dir_set_name d name = do alloc; ret (dir (copy_name name) (subdirs_of d) (files_of d))

-- The two loops of `pure64_dir_name_exists`.
unfoldable pub file_named : List File → Bytes → Bool
file_named [] name = false
file_named (f ∷ files) name = same f.name name || file_named files name

unfoldable pub subdir_named : Dirs → Bytes → Bool
subdir_named nil name = false
subdir_named (cons d ds) name = same (dir_name d) name || subdir_named ds name

unfoldable pub dir_name_exists : Dir → Bytes → Bool
unfolding file_named subdir_named
dir_name_exists (dir name subdirs files) name' =
    if file_named files name' then true else subdir_named subdirs name'

-- `pure64_dir_add_file`: the array grows by one file, which is then named.
unfoldable pub dir_add_file : Dir → Bytes → M Mem Dir
unfolding file_set_name
dir_add_file d name = if dir_name_exists d name then fail eexist else (do
  alloc
  file ← file_set_name file_init name
  ret (dir (dir_name d) (subdirs_of d) (files_of d ++ file ∷ [])))

-- `pure64_dir_add_subdir`
unfoldable pub dir_add_subdir : Dir → Bytes → M Mem Dir
unfolding dir_set_name
dir_add_subdir d name = if dir_name_exists d name then fail eexist else (do
  alloc
  subdir ← dir_set_name dir_init name
  ret (dir (dir_name d) (snoc (subdirs_of d) subdir) (files_of d)))
