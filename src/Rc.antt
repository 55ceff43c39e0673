-- ===== src/Rc.antt =====
-- src/util/rc.c: the compiler of a file into C source.
pub mod RoundTrip
use Prim.Native.String
use Prim.Native.String.{String}
use Prim.Native.Char.{code}
use mathlib.Core.Option.{map as option_map}
use pure.Prelude.{
  ℕ, zero, suc, [], ◌∷◌, ◌++◌, List, ◌+◌, ◌-◌, ◌*◌, ◌/◌, ◌%◌, Bool, true, false, ◌==◌, ltb,
  if◌then◌else◌, length, take, drop, Option, none, some,
}
use pure.CString.{Bytes, same}

-- The characters of a text.
abbrev pub codes : String → Bytes
codes String.[] = []
codes (String.◌∷◌ c s) = code c ∷ codes s

-- `%02x`
abbrev pub hex_digit : ℕ → ℕ
hex_digit d = if ltb d 10 then b'0' + d else b'a' + d - 10

abbrev pub hex_byte : ℕ → Bytes
hex_byte n = b'0' ∷ b'x' ∷ hex_digit (n / 16) ∷ hex_digit (n % 16) ∷ []

-- The inner loop of `write_source` over the bytes that were read.
unfoldable pub write_bytes : Bytes → Bytes
write_bytes [] = []
write_bytes (x ∷ []) = hex_byte x ++ b',' ∷ 10 ∷ []
write_bytes (x ∷ y ∷ buf) = hex_byte x ++ (b',' ∷ b' ' ∷ write_bytes (y ∷ buf))

-- The loop `while (!feof(plan->in))`, on the bytes that the input still has. The end of the input is
-- seen by the read that wants more than there is. `none` means that the fuel ran out.
unfoldable pub write_lines : ℕ → Bytes → Option Bytes
unfolding write_bytes
write_lines zero input = none
write_lines (suc fuel) input =
    let line = 9 ∷ write_bytes (take 16 input) in
    let rest = option_map (λ out. line ++ out) (write_lines fuel (drop 16 input)) in
    if ltb (length (take 16 input)) 16 then some line else rest

-- `struct plan` without the files. `input` is what the input file holds.
pub record Plan : Type 0 where
  pub input : Bytes
  pub header_path : Bytes
  pub source_path : Bytes
  pub name : Bytes

abbrev pub notice : Bytes
notice =
    codes "/* This is an automatically generated file.\n"
    ++ (codes " * Edits of this file will be lost at build time.\n" ++ codes " */\n")

-- What `write_source` prints in front of the bytes and behind them.
abbrev pub source_head : Plan → Bytes
source_head plan =
    notice
    ++ (codes "\n"
        ++ (codes "#include \""
            ++ (plan.header_path
                ++ (codes "\"\n"
                    ++ (codes "\n"
                        ++ (codes "const unsigned char "
                            ++ (plan.name ++ codes "_bytes[] = {\n")))))))

abbrev pub source_tail : Plan → Bytes
source_tail plan =
    codes "};\n"
    ++ (codes "\n"
        ++ (codes "const void *"
            ++ (plan.name
                ++ (codes " = "
                    ++ (plan.name
                        ++ (codes "_bytes;\n"
                            ++ (codes "\n"
                                ++ (codes "const unsigned long int "
                                    ++ (plan.name
                                        ++ (codes "_size = sizeof("
                                            ++ (plan.name ++ codes "_bytes);\n")))))))))))

unfoldable pub write_source : ℕ → Plan → Option Bytes
unfolding write_lines
write_source fuel plan =
    option_map (λ lines. source_head plan ++ (lines ++ source_tail plan))
      (write_lines fuel plan.input)

-- `isalnum` and `toupper` of the C library.
module _ (isalnum : ℕ → Bool) (toupper : ℕ → ℕ) where
  unfoldable pub write_macro : Bytes → Bytes
  write_macro [] = []
  write_macro (c ∷ name) =
      if c == 0 then [] else (if isalnum c then toupper c else b'_') ∷ write_macro name

  unfoldable pub write_header : Plan → Bytes
  unfolding write_macro
  write_header plan =
      notice
      ++ (codes "\n#ifndef SWANSON_RC_"
          ++ (write_macro plan.header_path
              ++ (codes "\n#define SWANSON_RC_"
                  ++ (write_macro plan.header_path
                      ++ (codes
                            "\n\n#ifdef __cplusplus\nextern \"C\" {\n#endif\n\nextern const void *"
                          ++ (plan.name
                              ++ (codes ";\n\nextern const unsigned long int "
                                  ++ (plan.name
                                      ++ (codes
                                            "_size;\n\n#ifdef __cplusplus\n} /* extern \"C\" */\n#endif\n\n#endif /* SWANSON_RC_"
                                          ++ (write_macro plan.header_path
                                              ++ codes " */\n"))))))))))

  -- The header and the source.
  unfoldable pub execute_plan : ℕ → Plan → Option (Bytes × Bytes)
  unfolding write_header write_source
  execute_plan fuel plan =
      option_map (λ source. (write_header plan, source)) (write_source fuel plan)

-- The paths and the name given so far; `none` is NULL.
pub record Options : Type 0 where
  pub header : Option Bytes
  pub source : Option Bytes
  pub input : Option Bytes
  pub name : Option Bytes

abbrev pub no_options : Options
no_options = record { header = none; source = none; input = none; name = none }

-- The argument behind an option, where `none` is the NULL behind the last.
abbrev pub set_option : Bytes → Option Bytes → Options → Option Options
set_option arg value opts =
    if same arg (codes "--header")
    then some (record opts { header = value })
    else if same arg (codes "--source")
    then some (record opts { source = value })
    else if same arg (codes "--input")
    then some (record opts { input = value })
    else if same arg (codes "--name")
    then some (record opts { name = value })
    else none

-- The loop of `main`; `none` is a return of EXIT_FAILURE, for `--help` too.
unfoldable pub parse_options : List Bytes → Options → Option Options
parse_options [] opts = some opts
parse_options (arg ∷ []) opts = set_option arg none opts
parse_options (arg ∷ value ∷ args) opts = elim (set_option arg (some value) opts) [
  | none ↦ none
  | some opts' ↦ parse_options args opts'
]

-- The files of the host: opening for writing, opening for reading with what the file holds, where
-- `none` is NULL, and what is stored in an open file by its path.
module _ {S : Type 0} (isalnum : ℕ → Bool) (toupper : ℕ → ℕ) (open_write : Bytes → S → Bool × S)
    (open_read : Bytes → S → Option Bytes × S) (store : Bytes → Bytes → S → S) where
  -- The code from the last `fopen` on.
  abbrev pub read_input : ℕ → Bytes → Bytes → Bytes → Option Bytes × S → Option (Bool × S)
  read_input fuel header source name (none, s) = some (false, s)
  read_input fuel header source name (some bytes, s) =
      option_map (λ texts. (true, store source texts.1 (store header texts.0 s)))
        (execute_plan isalnum toupper fuel
          (record { input = bytes; header_path = header; source_path = source; name = name }))

  -- The code from the first `fopen` on. The result is whether EXIT_SUCCESS is returned.
  unfoldable pub compile : ℕ → Bytes → Bytes → Bytes → Bytes → S → Option (Bool × S)
  compile fuel header source input name s =
      let (source_open, s1) = open_write source s in
      let (header_open, s2) = open_write header s1 in
      if source_open
      then (if header_open
          then read_input fuel header source name (open_read input s2)
          else some (false, s2))
      else some (false, s1)

  -- The tests behind the loop of `main`.
  unfoldable pub compile_options : ℕ → Option Options → S → Option (Bool × S)
  compile_options fuel none s = some (false, s)
  compile_options fuel (some opts) s = elim opts.header [
    | none ↦ some (false, s)
    | some header ↦ elim opts.source [
      | none ↦ some (false, s)
      | some source ↦ elim opts.input [
        | none ↦ some (false, s)
        | some input ↦ elim opts.name [
          | none ↦ some (false, s)
          | some name ↦ compile fuel header source input name s
        ]
      ]
    ]
  ]

  unfoldable pub main : ℕ → List Bytes → S → Option (Bool × S)
  unfolding compile_options compile
  main fuel args s = compile_options fuel (parse_options args no_options) s
