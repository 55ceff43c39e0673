-- ===== src/Debug/Print.antt =====
-- `fmt_print` and `debug` of src/stage-three/debug.c.
use pure.Prelude.{
  ℕ, zero, suc, ◌+◌, ◌/◌, ◌^◌, true, false, ◌&&◌, Option, none, some, [], ◌∷◌, ◌++◌, ltb, ◌==◌,
  if◌then◌else◌, drop, take, get_or, length,
}
use Prim.Native.Nat.{bit_and}
use pure.Run.{M, done, fault, out_of_fuel, and_then, ◌>>=◌, ◌>>◌, ret}
use pure.CString.{Bytes, first_char, strlen}
use pure.CString.Index.{at_index}
use pure.Fs.{u32}
use pure.Debug.{
  Length, none_given, len_hh, len_h, len_l, len_ll, len_j, len_z, len_t, len_L, Specifier,
  no_specifier, spec_d, spec_u, spec_x, spec_X, spec_c, spec_s, spec_p, FmtInfo, Printer, get_info,
  put_info, fmt_info_init, va_number, va_string, debug_putc, print_all,
}
use pure.Debug.Parse.{fmt_parse}

abbrev pub hextable : Bytes
hextable =
    b'0' ∷ b'1' ∷ b'2' ∷ b'3' ∷ b'4' ∷ b'5' ∷ b'6' ∷ b'7' ∷ b'8' ∷ b'9' ∷ b'a' ∷ b'b' ∷ b'c' ∷ b'd'
    ∷ b'e' ∷ b'f' ∷ []

-- `str`: the characters `hextable[(n >> 4 * i) & 0xf]` for the `ch_count` values of `i` from
-- above.
unfoldable pub hex_string : ℕ → ℕ → Bytes
hex_string zero n = []
hex_string (suc i) n = get_or hextable (bit_and (n / 16 ^ i) 0xf) 0 ∷ hex_string i n

-- `bits / 4` for a length modifier whose bits are supported, and the argument. `none` is a return
-- without printing; for `h` and `hh` the bits are `sizeof` alone, which is not supported.
abbrev pub length_arg : Length → M Printer (Option (ℕ × ℕ))
length_arg none_given = ret none
length_arg len_hh = va_number 32 >>= λ n. ret none
length_arg len_h = va_number 32 >>= λ n. ret none
length_arg len_l = va_number 64 >>= λ n. ret (some (16, n))
length_arg len_ll = va_number 64 >>= λ n. ret (some (16, n))
length_arg len_j = ret none
length_arg len_z = ret none
length_arg len_t = ret none
length_arg len_L = ret none

-- The same without a modifier.
abbrev pub specifier_arg : Specifier → M Printer (Option (ℕ × ℕ))
specifier_arg no_specifier = va_number 32 >>= λ n. ret (some (8, n))
specifier_arg spec_d = va_number 32 >>= λ n. ret (some (8, n))
specifier_arg spec_u = va_number 32 >>= λ n. ret (some (8, n))
specifier_arg spec_x = va_number 32 >>= λ n. ret (some (8, n))
specifier_arg spec_X = va_number 32 >>= λ n. ret (some (8, n))
specifier_arg spec_c = va_number 32 >>= λ n. ret (some (8, n))
specifier_arg spec_s = va_number 32 >>= λ n. ret (some (8, n))
specifier_arg spec_p = va_number 64 >>= λ n. ret (some (16, n))

-- The first part of `fmt_print_hex`.
unfoldable pub hex_arg : FmtInfo → M Printer (Option (ℕ × ℕ))
hex_arg info =
    if FmtInfo.length_set info
    then length_arg (FmtInfo.length_ info)
    else specifier_arg (FmtInfo.specifier info)

-- The padding of a leading zero with `left` characters from it on, as a text of at most one
-- character.
abbrev pub pad : FmtInfo → ℕ → Bytes
pad info left =
    if FmtInfo.width_set info && ltb left (FmtInfo.width info)
    then (if bit_and (FmtInfo.flags info) 0x10 == 0 then b' ' ∷ [] else b'0' ∷ [])
    else []

-- The loop over the leading zeros, and what follows it: what is printed for `str`.
unfoldable pub hex_output : FmtInfo → Bytes → Bytes
hex_output info [] = b'0' ∷ []
hex_output info (c ∷ str) = elim (c == b'0') [
  | true ↦ pad info (length (c ∷ str)) ++ hex_output info str
  | false ↦ c ∷ str
]

-- The second part.
abbrev pub print_hex : FmtInfo → Option (ℕ × ℕ) → M Printer (Unit {0})
print_hex info none = ret tt
print_hex info (some (ch_count, n)) = print_all (hex_output info (hex_string ch_count n))

-- `fmt_print_hex`
unfoldable pub fmt_print_hex : FmtInfo → M Printer (Unit {0})
unfolding hex_arg hex_output hex_string
fmt_print_hex info = hex_arg info >>= print_hex info

-- `debug_print_string` of the first `len` characters. A read behind the terminator is a fault.
abbrev pub print_string : Bytes → ℕ → M Printer (Unit {0})
print_string str len =
    if ltb (length str + 1) len then (λ p. fault) else print_all (take len (str ++ 0 ∷ []))

-- `fmt_print_string`
unfoldable pub fmt_print_string : FmtInfo → M Printer (Unit {0})
fmt_print_string info = va_string >>= λ str.
    print_string str
      (if FmtInfo.precision_set info then FmtInfo.precision info else u32 (strlen str))

-- The choice that `fmt_print` makes.
abbrev pub print_field : FmtInfo → Specifier → M Printer (Unit {0})
print_field info no_specifier = ret tt
print_field info spec_d = ret tt
print_field info spec_u = ret tt
print_field info spec_x = fmt_print_hex info
print_field info spec_X = ret tt
print_field info spec_c = ret tt
print_field info spec_s = fmt_print_string info
print_field info spec_p = fmt_print_hex info

-- `fmt_print`
unfoldable pub fmt_print : M Printer (Unit {0})
unfolding fmt_print_hex fmt_print_string
fmt_print = get_info >>= λ info. print_field info (FmtInfo.specifier info)

-- The body of the loop of `debug`: with a field, it is printed; else the first character is, or
-- `%` for `%%`. The result is the text that is left.
unfoldable pub debug_step : Bytes → ℕ → Bytes → Option Bytes → M Printer Bytes
unfolding fmt_print at_index
debug_step format c fmt (some rest) = fmt_print >> ret rest
debug_step format c fmt none =
    if c == b'%' && first_char (at_index format fmt) == b'%'
    then (debug_putc b'%' >> ret (drop 1 fmt))
    else (debug_putc c >> ret fmt)

-- The loop of `debug` over the text that is left of the format.
unfoldable pub debug_loop : ℕ → Bytes → Bytes → M Printer (Unit {0})
unfolding fmt_parse debug_step at_index
debug_loop zero format fmt p = out_of_fuel
debug_loop (suc fuel) format [] p = done tt p
debug_loop (suc fuel) format (c ∷ fmt) p = elim (c == 0) [
  | true ↦ done tt p
  | false ↦
      and_then ((fmt_parse (c ∷ fmt) >>= debug_step format c fmt) p)
        (λ rest. debug_loop fuel format (at_index format rest))
]

-- `debug`, with the arguments given and `fmt_info_init`. In a format of fewer than 2 ^ 32 characters
-- every round leaves less of the text.
unfoldable pub debug : Bytes → M Printer (Unit {0})
unfolding debug_loop
debug fmt = put_info fmt_info_init >> debug_loop (suc (length fmt)) fmt fmt
