-- ===== src/Tool.antt =====
-- The image tool, src/util/pure64.c: its command line, and the commands on a file system.
pub mod Args
pub mod Cat
pub mod Contents
pub mod Cp
pub mod Gpt
pub mod Host
pub mod Checksum
pub mod Stored
pub mod Sums
pub mod Sealed
pub mod Init
pub mod Ramfs
pub mod Written
pub mod Fresh
pub mod Header
pub mod Made
pub mod Image
use pure.Prelude.{
  ℕ, zero, suc, Bool, true, false, ◌&&◌, ◌||◌, Option, none, some, List, [], ◌∷◌, ◌++◌,
  if◌then◌else◌, ◌==◌, drop,
}
use pure.Run.{Outcome, M, Mem, done, failed, fault, out_of_fuel, and_then, ◌>>=◌, ret, answer}
use pure.CString.{Bytes, same, first_char, text}
use pure.Dir.{File, Dir, dir, Dirs, nil, cons, dir_name, count}
use pure.Fs.{
  Fs, u32, names_of, fs_make_dir, fs_make_file, fs_open_dir, fs_open_file, or_null,
  find_file_by_names, u32_rounds, ended,
}

-- `check_opt`
abbrev pub check_opt : Bytes → Bytes → ℕ → Bool
check_opt arg opt s_opt =
    same (b'-' ∷ s_opt ∷ []) arg
    || ((first_char arg == b'-') && (first_char (drop 1 arg) == b'-') && same (drop 2 arg) opt)

-- `is_opt`
abbrev pub is_opt : Bytes → Bool
is_opt argv = first_char argv == b'-'

abbrev pub word_help : Bytes
word_help = b'h' ∷ b'e' ∷ b'l' ∷ b'p' ∷ []

abbrev pub word_file : Bytes
word_file = b'f' ∷ b'i' ∷ b'l' ∷ b'e' ∷ []

-- What the loop of `main` over the arguments comes to.
pub data Call : Type 0 where
  help : Call
  unknown_option : Bytes → Call
  no_filename : Call
  no_command : Call
  call : Bytes → Bytes → List Bytes → Call

-- The loop, with the file name so far. Behind the last argument stands NULL.
unfoldable pub parse_args : Bytes → List Bytes → Call
parse_args filename [] = no_command
parse_args filename (arg ∷ []) =
    if check_opt arg word_help b'h'
    then help
    else if check_opt arg word_file b'f'
    then no_filename
    else if is_opt arg
    then unknown_option arg
    else call filename arg []
parse_args filename (arg ∷ arg' ∷ args) =
    let rest = parse_args arg' args in
    if check_opt arg word_help b'h'
    then help
    else if check_opt arg word_file b'f'
    then rest
    else if is_opt arg
    then unknown_option arg
    else call filename arg (arg' ∷ args)

-- Whether a command succeeds, what it leaves of the file system, and what it has printed.
pub record Exit : Type 0 where
  pub success : Bool
  pub fs : Fs
  pub out : Bytes

abbrev exit : {A : Type 0} → Bool → Fs → Bytes → M A Exit
exit success fs out m = done (record { success = success; fs = fs; out = out }) m

-- A call whose error ends the command.
abbrev pub or_exit : {A : Type 0} → Fs → Bytes → Outcome Mem A → (A → M Mem Exit) → Outcome Mem Exit
or_exit fs out (done a m) f = f a m
or_exit fs out (failed e m) f = exit false fs out m
or_exit fs out fault f = fault
or_exit fs out out_of_fuel f = out_of_fuel

-- A pointer that ends the command if it is NULL.
abbrev pub or_missing : {A : Type 0} → Fs → Bytes → (A → M Mem Exit) → Option A → M Mem Exit
or_missing fs out f none = exit false fs out
or_missing fs out f (some a) = f a

-- `pure64_cat`: `out` is what is printed so far.
unfoldable pub cat : Fs → List Bytes → Bytes → M Mem Exit
cat fs [] out = exit true fs out
cat fs (path ∷ paths) out =
    fs_open_file fs path
    >>= or_missing fs out (λ (file : File). cat fs paths (out ++ file.contents))

-- The lines of `pure64_ls`.
abbrev line : Bytes → Bytes → Bytes
line front name = front ++ (text name ++ 10 ∷ [])

abbrev pub dir_lines : Dirs → Bytes
dir_lines nil = []
dir_lines (cons d ds) =
    line (b'd' ∷ b'i' ∷ b'r' ∷ b' ' ∷ b' ' ∷ b':' ∷ b' ' ∷ []) (dir_name d) ++ dir_lines ds

abbrev pub file_lines : List File → Bytes
file_lines [] = []
file_lines (f ∷ files) =
    line (b'f' ∷ b'i' ∷ b'l' ∷ b'e' ∷ b' ' ∷ b':' ∷ b' ' ∷ []) (File.name f) ++ file_lines files

abbrev pub listing : Bytes → Dir → Bytes
listing path (dir name subdirs files) =
    text path ++ (b':' ∷ 10 ∷ []) ++ dir_lines subdirs ++ file_lines files

-- The loop of `pure64_ls`, and the default argument.
unfoldable pub ls_loop : Fs → List Bytes → Bytes → M Mem Exit
ls_loop fs [] out = exit true fs out
ls_loop fs (path ∷ paths) out =
    fs_open_dir fs path
    >>= or_missing fs out (λ (subdir : Dir). ls_loop fs paths (out ++ listing path subdir))

unfoldable pub ls : Fs → List Bytes → M Mem Exit
unfolding ls_loop
ls fs [] = ls_loop fs ((b'/' ∷ []) ∷ []) []
ls fs (path ∷ paths) = ls_loop fs (path ∷ paths) []

-- `pure64_mkdir`
unfoldable pub mkdir : Fs → List Bytes → M Mem Exit
mkdir fs [] m = exit true fs [] m
mkdir fs (path ∷ paths) m = or_exit fs [] (fs_make_dir fs path m) (λ fs'. mkdir fs' paths)

-- The file that `pure64_fs_open_file` gives a pointer to, with other contents.
-- The file is the one that the last loop of `pure64_fs_open_file` ended at, by the rounds left.
unfoldable pub set_file_named : ℕ → Bytes → Bytes → List File → List File
set_file_named zero contents name files = files
set_file_named (suc rounds) contents name [] = []
set_file_named (suc rounds) contents name (f ∷ files) =
    if same f.name name
    then (record f { contents = contents }) ∷ files
    else f ∷ set_file_named rounds contents name files

unfoldable pub set_in_first : ℕ → Bytes → (Dir → Dir) → Dirs → Dirs
set_in_first zero name f ds = ds
set_in_first (suc subdir_count) name f nil = nil
set_in_first (suc subdir_count) name f (cons d ds) =
    if same (dir_name d) name then cons (f d) ds else cons d (set_in_first subdir_count name f ds)

unfoldable pub set_contents : Bytes → Bytes → List Bytes → Dir → Dir
unfolding set_file_named set_in_first
set_contents contents n [] (dir name subdirs files) =
    dir name subdirs (set_file_named u32_rounds contents n files)
set_contents contents n (n' ∷ rest) (dir name subdirs files) =
    dir name (set_in_first (u32 (count subdirs)) n (set_contents contents n' rest) subdirs) files

abbrev pub set_by_names : Bytes → Fs → List Bytes → Fs
set_by_names contents fs [] = fs
set_by_names contents fs (n ∷ rest) = record fs { root = set_contents contents n rest fs.root }

-- The pointer that `pure64_fs_open_file` returns, as the names that lead to the file.
abbrev pub place_of : List Bytes → Option File → Option (List Bytes)
place_of names none = none
place_of names (some f) = some names

unfoldable pub fs_open_place : Fs → Bytes → M Mem (Option (List Bytes))
fs_open_place fs path_str m = or_null (
    (names_of path_str >>= λ names.
    ended (find_file_by_names fs.root names) >>= λ o. ret (place_of names o))
      m)

abbrev read_into : Fs → List Bytes → Option Bytes → M Mem Exit
read_into fs names none = exit false fs []
read_into fs names (some contents) = exit true (set_by_names contents fs names) []

-- The end of `pure64_cp`: the destination is opened, a buffer for the contents is allocated, and
-- the source is read into it, where `none` is a read that fails: the size of the new file stays 0.
unfoldable pub write_to : Fs → Bytes → Option Bytes → M Mem Exit
unfolding set_contents fs_open_place
write_to fs dst_path contents =
    fs_open_place fs dst_path
    >>= or_missing fs [] (λ names.
      answer >>= λ granted. if granted then read_into fs names contents else exit false fs [])

-- The files of the host: `none` is one that cannot be opened or measured, `some none` one that
-- cannot be read then.
abbrev pub HostRead : Type 0
HostRead = Bytes → Option (Option Bytes)

-- `pure64_cp`.
unfoldable pub cp : HostRead → Fs → List Bytes → M Mem Exit
unfolding write_to
cp read fs [] = exit false fs []
cp read fs (src_path ∷ []) = exit false fs []
cp read fs (src_path ∷ dst_path ∷ rest) =
    or_missing fs []
      (λ contents m.
        or_exit fs [] (fs_make_file fs dst_path m) (λ fs'. write_to fs' dst_path contents))
      (read src_path)

abbrev pub word_cat : Bytes
word_cat = b'c' ∷ b'a' ∷ b't' ∷ []

abbrev pub word_cp : Bytes
word_cp = b'c' ∷ b'p' ∷ []

abbrev pub word_ls : Bytes
word_ls = b'l' ∷ b's' ∷ []

abbrev pub word_mkdir : Bytes
word_mkdir = b'm' ∷ b'k' ∷ b'd' ∷ b'i' ∷ b'r' ∷ []

abbrev pub word_rm : Bytes
word_rm = b'r' ∷ b'm' ∷ []

abbrev pub word_rmdir : Bytes
word_rmdir = b'r' ∷ b'm' ∷ b'd' ∷ b'i' ∷ b'r' ∷ []

-- The part of `main` behind the import of the file system: the choice of the command. `rm` and
-- `rmdir` do nothing.
unfoldable pub run_command : HostRead → Fs → Bytes → List Bytes → M Mem Exit
unfolding cat cp ls mkdir
run_command read fs name args =
    if same name word_cat
    then cat fs args []
    else if same name word_cp
    then cp read fs args
    else if same name word_ls
    then ls fs args
    else if same name word_mkdir
    then mkdir fs args
    else if same name word_rm
    then exit true fs []
    else if same name word_rmdir
    then exit true fs []
    else exit false fs []
