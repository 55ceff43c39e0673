-- ===== src/Debug/Parse.antt =====
-- `fmt_parse` of src/stage-three/debug.c. The text that is left is the result, so the number that
-- the code returns is how much shorter it has become; `none` is its return of 0.
use pure.Prelude.{
  ℕ, zero, suc, ◌-◌, Bool, true, false, ◌&&◌, ◌||◌, not, Option, none, some, [], ◌∷◌, leb, ◌==◌,
  if◌then◌else◌, drop,
}
use Prim.Native.Nat.{bit_or}
use pure.Run.{M, ◌>>=◌, ◌>>◌, ret}
use pure.CString.{Bytes, first_char}
use pure.Debug.{
  Length, none_given, len_hh, len_h, len_l, len_ll, len_j, len_z, len_t, len_L, Specifier, spec_d,
  spec_u, spec_x, spec_X, spec_c, spec_s, spec_p, Printer, put_info, get_info, va_number,
}

-- `pure64_isdigit`
abbrev pub isdigit : ℕ → Bool
isdigit c = leb b'0' c && leb c b'9'

-- The flag of a character.
unfoldable pub flag_of : ℕ → Option ℕ
flag_of c =
    if c == b'-'
    then some 0x01
    else if c == b'+'
    then some 0x02
    else if c == b' '
    then some 0x04
    else if c == b'#'
    then some 0x08
    else if c == b'0'
    then some 0x10
    else none

-- The first loop: the flags, and the text behind them.
unfoldable pub parse_flags : ℕ → Bytes → ℕ × Bytes
unfolding flag_of
parse_flags flags [] = (flags, [])
parse_flags flags (c ∷ fmt) = elim (flag_of c) [
  | none ↦ (flags, c ∷ fmt)
  | some f ↦ parse_flags (bit_or flags f) fmt
]

-- The width, and its argument.
unfoldable pub parse_width : Bytes → M Printer Bytes
parse_width fmt = get_info >>= λ info.
    let c = first_char fmt in
    if isdigit c && not (c == b'0')
    then (put_info (record info { width = c - b'0'; width_arg = false; width_set = true })
        >> ret (drop 1 fmt))
    else if c == b'*'
    then (va_number 32 >>= λ n.
        put_info (record info { width = n; width_arg = true; width_set = true })
        >> ret (drop 1 fmt))
    else (put_info (record info { width = 0; width_set = false }) >> ret fmt)

-- The precision, and its argument.
unfoldable pub parse_precision : Bytes → M Printer (Option Bytes)
parse_precision fmt = get_info >>= λ info.
    if first_char fmt == b'.'
    then (let c = first_char (drop 1 fmt) in
        if isdigit c
        then (put_info
              (record info { precision = c - b'0'; precision_arg = false; precision_set = true })
            >> ret (some (drop 2 fmt)))
        else if c == b'*'
        then (va_number 32 >>= λ n.
            put_info (record info { precision = n; precision_arg = true; precision_set = true })
            >> ret (some (drop 2 fmt)))
        else (put_info (record info { precision = 0; precision_arg = false; precision_set = false })
            >> ret none))
    else ret (some fmt)

-- The length modifier, and how many characters it has.
unfoldable pub length_of : Bytes → Length × ℕ
length_of fmt =
    let c = first_char fmt in
    let c' = first_char (drop 1 fmt) in
    if c == b'h' && c' == b'h'
    then (len_hh, 2)
    else if c == b'h'
    then (len_h, 1)
    else if c == b'l' && c' == b'l'
    then (len_ll, 2)
    else if c == b'l'
    then (len_l, 1)
    else if c == b'j'
    then (len_j, 1)
    else if c == b'z'
    then (len_z, 1)
    else if c == b't'
    then (len_t, 1)
    else if c == b'L'
    then (len_L, 1)
    else (none_given, 0)

unfoldable pub parse_length : Bytes → M Printer Bytes
unfolding length_of
parse_length fmt = get_info >>= λ info.
    put_info (record info {
      length_ = (length_of fmt).0;
      length_set = elim ((length_of fmt).1) [ zero ↦ false | suc n ↦ true ];
    })
    >> ret (drop ((length_of fmt).1) fmt)

unfoldable pub specifier_of : ℕ → Option Specifier
specifier_of c =
    if c == b'd' || c == b'i'
    then some spec_d
    else if c == b'u'
    then some spec_u
    else if c == b'x'
    then some spec_x
    else if c == b'X'
    then some spec_X
    else if c == b'c'
    then some spec_c
    else if c == b's'
    then some spec_s
    else if c == b'p'
    then some spec_p
    else none

unfoldable pub parse_specifier : Bytes → M Printer (Option Bytes)
unfolding specifier_of
parse_specifier fmt = get_info >>= λ info. elim (specifier_of (first_char fmt)) [
  | none ↦ ret none
  | some s ↦ put_info (record info { specifier = s }) >> ret (some (drop 1 fmt))
]

-- What follows the precision.
abbrev pub parse_tail : Option Bytes → M Printer (Option Bytes)
parse_tail none = ret none
parse_tail (some fmt) = parse_length fmt >>= λ fmt₁. parse_specifier fmt₁

-- `fmt_parse`
unfoldable pub fmt_parse : Bytes → M Printer (Option Bytes)
unfolding parse_flags parse_width parse_precision parse_length parse_specifier
fmt_parse [] = ret none
fmt_parse (c ∷ fmt) =
    if c == b'%'
    then (get_info >>= λ info. put_info (record info { flags = (parse_flags 0 fmt).0 }) >>= λ _.
        parse_width ((parse_flags 0 fmt).1) >>= λ fmt₁. parse_precision fmt₁ >>= parse_tail)
    else ret none
