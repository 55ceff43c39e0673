-- ===== src/Tool/Args.antt =====
-- The command line of the image tool.
use pure.Prelude.{ℕ, ◌≡◌, refl, Bool, true, false, List, [], ◌∷◌, All, arith}
use pure.CString.{Bytes, IsByte, same}
use pure.Tool.{check_opt, is_opt, call, parse_args, word_help, word_file}

-- `--file` and `-f`.
abbrev file_option : Bool → Bytes
file_option true = b'-' ∷ b'-' ∷ b'f' ∷ b'i' ∷ b'l' ∷ b'e' ∷ []
file_option false = b'-' ∷ b'f' ∷ []

-- Arguments that begin with a file option and a file name, for each of the file names; `true` stands
-- for the long form of the option.
abbrev pub with_files : List (Bool × Bytes) → List Bytes → List Bytes
with_files [] args = args
with_files ((long, f) ∷ files) args = file_option long ∷ f ∷ with_files files args

abbrev pub last_of : Bytes → List (Bool × Bytes) → Bytes
last_of filename [] = filename
last_of filename ((long, f) ∷ files) = last_of f files

dash_first :
    (s : ℕ) (arg : Bytes) → All IsByte arg → is_opt arg ≡ false → same (b'-' ∷ s ∷ []) arg ≡ false
unfolding same
dash_first s [] t h = refl
dash_first s (c ∷ arg) t h = ground arith

check_opt-no_option :
    (arg opt : Bytes) (s : ℕ) → All IsByte arg → is_opt arg ≡ false → check_opt arg opt s ≡ false
check_opt-no_option arg opt s t h = rw (dash_first s arg t h, h) refl

-- The file name is that of the last `-f` or `--file` in front of the command, or the one at the start, and
-- what follows a command, which does not begin with `-`, is left to it.
pub parse_args-with_files :
    (filename : Bytes) (files : List (Bool × Bytes)) (cmd : Bytes) (args : List Bytes)
    → All IsByte cmd
    → is_opt cmd ≡ false
    → parse_args filename (with_files files (cmd ∷ args)) ≡ call (last_of filename files) cmd args
unfolding parse_args same
parse_args-with_files filename [] cmd [] t h =
    rw
      (
        check_opt-no_option cmd word_help b'h' t h,
        check_opt-no_option cmd word_file b'f' t h,
        h,
        parse_args,
      )
      refl
parse_args-with_files filename [] cmd (a ∷ args) t h =
    rw
      (
        check_opt-no_option cmd word_help b'h' t h,
        check_opt-no_option cmd word_file b'f' t h,
        h,
        parse_args,
      )
      refl
parse_args-with_files filename ((true, f) ∷ files) cmd args t h =
    parse_args-with_files f files cmd args t h
parse_args-with_files filename ((false, f) ∷ files) cmd args t h =
    parse_args-with_files f files cmd args t h
