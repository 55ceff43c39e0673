-- ===== src/Debug.antt =====
-- src/stage-three/debug.c: formatted output to the serial port.
pub mod Parse
pub mod Print
pub mod Hex
pub mod Ends
pub mod Loop
pub mod Text
pub mod Bounds
use pure.Prelude.{
  ℕ, zero, suc, ◌+◌, ◌-◌, ◌%◌, ◌^◌, Bool, true, false, Option, none, some, List, [], ◌∷◌, ◌++◌,
}
use pure.Run.{Outcome, M, done, failed, fault, out_of_fuel, and_then, ◌>>=◌, ◌>>◌, ret}
use pure.CString.{Bytes}

-- `LENGTH_…`, where 0 is none.
pub data Length : Type 0 where
  none_given len_hh len_h len_l len_ll len_j len_z len_t len_L : Length

-- `SPECIFIER_…`, where 0 is none.
pub data Specifier : Type 0 where
  no_specifier spec_d spec_u spec_x spec_X spec_c spec_s spec_p : Specifier

-- `struct fmt_info`
pub record FmtInfo : Type 0 where
  pub flags : ℕ
  pub width : ℕ
  pub width_arg : Bool
  pub width_set : Bool
  pub precision : ℕ
  pub precision_arg : Bool
  pub precision_set : Bool
  pub length_ : Length
  pub length_set : Bool
  pub specifier : Specifier

-- `fmt_info_init`
abbrev pub fmt_info_init : FmtInfo
fmt_info_init = record {
  flags = 0;
  width = 0;
  width_arg = false;
  width_set = false;
  precision = 0;
  precision_arg = false;
  precision_set = false;
  length_ = none_given;
  length_set = false;
  specifier = no_specifier;
}

-- What stands behind a `va_list`: numbers, and pointers to texts.
pub data Arg : Type 0 where
  number : ℕ → Arg
  string : Bytes → Arg

-- `fmt_info`, the arguments that are left, and the characters printed.
pub record Printer : Type 0 where
  pub info : FmtInfo
  pub args : List Arg
  pub out : Bytes

abbrev pub put_info : FmtInfo → M Printer (Unit {0})
put_info info p = done tt (record p { info = info })

abbrev pub get_info : M Printer FmtInfo
get_info p = done (Printer.info p) p

-- `va_arg` of an unsigned type of `bits` bits. An argument that is missing or of another kind is a
-- fault.
abbrev pub take_number : ℕ → List Arg → Printer → Outcome Printer ℕ
take_number bits [] p = fault
take_number bits (number n ∷ args) p = done (n % 2 ^ bits) (record p { args = args })
take_number bits (string s ∷ args) p = fault

abbrev pub va_number : ℕ → M Printer ℕ
va_number bits p = take_number bits (Printer.args p) p

abbrev pub take_string : List Arg → Printer → Outcome Printer Bytes
take_string [] p = fault
take_string (number n ∷ args) p = fault
take_string (string s ∷ args) p = done s (record p { args = args })

abbrev pub va_string : M Printer Bytes
va_string p = take_string (Printer.args p) p

-- `debug_putc`
abbrev pub debug_putc : ℕ → M Printer (Unit {0})
debug_putc c p = done tt (record p { out = Printer.out p ++ c ∷ [] })

-- `debug_putc`, one character after the other.
abbrev pub print_all : Bytes → M Printer (Unit {0})
print_all s p = done tt (record p { out = Printer.out p ++ s })
