-- ===== src/Error.antt =====
-- The error codes of include/pure64/error.h and `pure64_strerror` of src/lib/error.c.
pub mod Text
use Prim.Native.String.{String}
use pure.Prelude.{ℕ, ◌==◌, if◌then◌else◌}

pub data Error : Type 0 where
  efault enomem eisdir enotdir enoent eexist einval enosys eio : Error

-- The values of the `PURE64_E…` macros. Zero is success.
abbrev pub code : Error → ℕ
code efault = 1
code enomem = 2
code eisdir = 3
code enotdir = 4
code enoent = 5
code eexist = 6
code einval = 7
code enosys = 8
code eio = 9

abbrev pub unknown_text : String
unknown_text = "Unknown error has occurred."

-- The switch of `pure64_strerror`, a case to a test.
unfoldable pub strerror : ℕ → String
strerror e =
    if e == 0
    then "Success"
    else if e == 1
    then "Bad address was detected."
    else if e == 2
    then "Not enough memory available."
    else if e == 3
    then "Entry is a directory."
    else if e == 4
    then "Entry is not a directory."
    else if e == 6
    then "Entry exists already."
    else if e == 7
    then "Invalid argument was detected."
    else if e == 8
    then "Functionality not implemented."
    else if e == 9
    then "I/O error occured"
    else unknown_text
