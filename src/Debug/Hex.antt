-- ===== src/Debug/Hex.antt =====
-- Hexadecimal fields: their digits, and their padding.
use pure.Prelude.{
  ℕ, zero, suc, ◌+◌, ◌-◌, ◌*◌, ◌/◌, ◌%◌, ◌^◌, ◌<◌, ◌≤◌, ◌≡◌, refl, sym, ap, ◌∙◌, Bool, true, false,
  ◌&&◌, ◌||◌, All, List, [], ◌∷◌, ◌++◌, ltb, leb, ◌==◌, if◌then◌else◌, length, replicate,
  append_assoc, get_or, arith, Bool-cases, inl, inr, ==_iff,
}
use Prim.Native.Nat.{min, bit_and}
use pure.Bits.{bit_and-0xf, every, every_lem}
use native.Mathlib.Nat.{div-add-mod, div-div-eq-div-mul, pow-suc}
use pure.Run.{done}
use pure.CString.{Bytes, first_char}
use pure.Debug.{FmtInfo, Printer, Arg, number, spec_x}
use pure.Debug.Print.{hextable, hex_string, pad, hex_output, hex_arg, fmt_print_hex}

-- The value of a digit, and of a text of digits.
abbrev pub digit_value : ℕ → ℕ
digit_value c = if leb c b'9' then c - b'0' else c - b'a' + 10

abbrev pub value_of : Bytes → ℕ
value_of [] = 0
value_of (c ∷ str) = digit_value c * 16 ^ length str + value_of str

pub length-hex_string : (k n : ℕ) → length (hex_string k n) ≡ k
unfolding hex_string
length-hex_string zero n = refl
length-hex_string (suc k) n = ap suc (length-hex_string k n)

digit_table : every 16 (λ d. digit_value (get_or hextable d 0) == d) ≡ true
unfolding every
digit_table = refl

digit_value-hextable : (d : ℕ) → d < 16 → digit_value (get_or hextable d 0) ≡ d
digit_value-hextable d h =
    (==_iff _ _).0 (every_lem 16 (λ d. digit_value (get_or hextable d 0) == d) d digit_table h)

div_mod_step : (n m : ℕ) → n % (m * 16) ≡ n / m % 16 * m + n % m
div_mod_step n m =
    let q = n / m in
    let e : m * 16 * (q / 16) + n % (m * 16) ≡ n =
      rw (sym (div-div-eq-div-mul n m 16)) at (div-add-mod n (m * 16)) in
    let f : (16 * (q / 16) + q % 16) * m ≡ q * m = ap (λ t. t * m) (div-add-mod q 16) in
    grind (arith, e, f, div-add-mod n m)

value_of-hex_string : (k n : ℕ) → value_of (hex_string k n) ≡ n % 16 ^ k
unfolding hex_string
value_of-hex_string zero n = omega arith
value_of-hex_string (suc k) n =
    rw
      (
        length-hex_string k n,
        bit_and-0xf (n / 16 ^ k),
        digit_value-hextable (n / 16 ^ k % 16) (omega arith),
        value_of-hex_string k n,
        pow-suc,
      )
      (sym (div_mod_step n (16 ^ k)))

-- The characters that are digits.
abbrev pub is_hex : ℕ → Bool
is_hex c = (leb b'0' c && leb c b'9') || (leb b'a' c && leb c b'f')

abbrev pub IsHex : Bytes → Type 0
IsHex = All (λ c. is_hex c ≡ true)

hex_table : every 16 (λ d. is_hex (get_or hextable d 0)) ≡ true
unfolding every
hex_table = refl

hex_string-IsHex : (k n : ℕ) → IsHex (hex_string k n)
unfolding hex_string
hex_string-IsHex zero n = tt
hex_string-IsHex (suc k) n = (
  every_lem 16 (λ d. is_hex (get_or hextable d 0)) (bit_and (n / 16 ^ k) 0xf) hex_table
      (omega (arith, bit_and-0xf (n / 16 ^ k))),
  hex_string-IsHex k n,
)

-- The digits without the leading zeros, as they are shown.
abbrev pub strip : Bytes → Bytes
strip [] = []
strip (c ∷ str) = let rest = strip str in if c == b'0' then rest else c ∷ str

abbrev pub shown : Bytes → Bytes
shown [] = b'0' ∷ []
shown (c ∷ str) = c ∷ str

-- How far the padding reaches, counted from the last digit, and what it is made of.
abbrev pub reach : FmtInfo → ℕ → ℕ
reach info count = if info.width_set then min count (info.width - 1) else 0

abbrev pub pad_char : FmtInfo → ℕ
pad_char info = if bit_and info.flags 0x10 == 0 then b' ' else b'0'

strip-IsHex : (str : Bytes) → IsHex str → IsHex (strip str)
strip-IsHex [] h = tt
strip-IsHex (c ∷ str) h = elim (Bool-cases (c == b'0')) [
  | inl e ↦ rw (e, strip) (strip-IsHex str h.1)
  | inr e ↦ rw (e, strip) h
]

length-strip : (str : Bytes) → length (strip str) ≤ length str
length-strip [] = omega arith
length-strip (c ∷ str) = ground (arith, length-strip str)

pub value_of-strip : (str : Bytes) → value_of (strip str) ≡ value_of str
value_of-strip [] = refl
value_of-strip (c ∷ str) = elim (Bool-cases (c == b'0')) [
  | inl e ↦
      let z : digit_value c ≡ 0 = ground (arith, e) in
      rw (e, strip) (value_of-strip str ∙ rw z (omega arith))
  | inr e ↦ rw (e, strip) refl
]

pad-replicate :
    (info : FmtInfo) (m s : ℕ)
    → s ≤ m
    → pad info (suc m) ++ replicate (reach info m - s) (pad_char info)
      ≡ replicate (reach info (suc m) - s) (pad_char info)
pad-replicate info m s h = elim (Bool-cases info.width_set) [
  | inr e ↦ rw (e, pad, reach) refl
  | inl e ↦ elim (Bool-cases (ltb (suc m) info.width)) [
    | inl l ↦
        let p : pad info (suc m) ≡ pad_char info ∷ [] =
          elim (Bool-cases (bit_and info.flags 0x10 == 0)) [
            | inl z ↦ rw (e, l, z, pad) refl
            | inr z ↦ rw (e, l, z, pad) refl
          ] in
        let r : suc (reach info m - s) ≡ reach info (suc m) - s =
          rw (e, reach) (ground (arith, l)) in
        ap (λ t. t ++ replicate (reach info m - s) (pad_char info)) p
        ∙ ap (λ k. replicate k (pad_char info)) r
    | inr l ↦
        let p : pad info (suc m) ≡ [] = rw (e, l, pad) refl in
        let r : reach info m - s ≡ reach info (suc m) - s = rw (e, reach) (ground (arith, l)) in
        ap (λ t. t ++ replicate (reach info m - s) (pad_char info)) p
        ∙ ap (λ k. replicate k (pad_char info)) r
  ]
]

pub hex_output_lem :
    (info : FmtInfo) (str : Bytes)
    → hex_output info str
      ≡ replicate (reach info (length str) - length (strip str)) (pad_char info)
        ++ shown (strip str)
unfolding hex_output
hex_output_lem info [] = rw (no_reach info) refl
  where
    no_reach : (info : FmtInfo) → reach info 0 - 0 ≡ 0
    no_reach info = ground arith
hex_output_lem info (c ∷ str) = elim (Bool-cases (c == b'0')) [
  | inl e ↦
      let n = reach info (length str) - length (strip str) in
      let rep = replicate n (pad_char info) in
      rw (e, hex_output, strip)
        (ap (λ t. pad info (suc (length str)) ++ t) (hex_output_lem info str)
          ∙ sym (append_assoc (pad info (suc (length str))) rep (shown (strip str)))
          ∙ ap (λ t. t ++ shown (strip str))
              (pad-replicate info (length str) (length (strip str)) (length-strip str)))
  | inr e ↦ rw (e, hex_output, strip) (rw (none_left info (length str)) refl)
]
  where
    none_left : (info : FmtInfo) (m : ℕ) → reach info (suc m) - suc m ≡ 0
    none_left info m = ground arith

first_digit-strip : (str : Bytes) → (first_char (strip str) == b'0') ≡ false
first_digit-strip [] = refl
first_digit-strip (c ∷ str) = ground (arith, first_digit-strip str)

-- The field is printed as `digits`, which are characters from `0` to `9` and from `a` to `f`, have
-- the value of the argument and no zero in front.
abbrev pub PrintsDigits : FmtInfo → Printer → ℕ → List Arg → Type 0
PrintsDigits info p n args =
    (digits : Bytes) × (value_of digits ≡ n % 2 ^ 32)
    × IsHex digits
    × ((first_char digits == b'0') ≡ false)
    × (fmt_print_hex info p
        ≡ done tt (record p {
          args = args;
          out = p.out ++ (replicate (reach info 8 - length digits) (pad_char info) ++ shown digits);
        }))

-- A field `%x` without a length modifier takes a 32-bit argument and prints digits,
-- `0` to `9` and `a` to `f`, that begin with no zero and have its value, or one zero if the value is 0. Where a width was set, it
-- is padded in front, with zeros under the flag 0x10 and with spaces else, until there are one
-- fewer characters than the width, at most 8; the zero of the value 0 is not counted.
pub fmt_print_hex-digits :
    (info : FmtInfo) (p : Printer) (n : ℕ) (args : List Arg)
    → p.args ≡ number n ∷ args
    → info.length_set ≡ false
    → info.specifier ≡ spec_x
    → PrintsDigits info p n args
unfolding fmt_print_hex hex_arg
fmt_print_hex-digits info p n args e l s =
    let m = n % 2 ^ 32 in
    let str = hex_string 8 m in
    (
      strip str,
      value_of-strip str ∙ value_of-hex_string 8 m ∙ omega arith,
      strip-IsHex str (hex_string-IsHex 8 m),
      first_digit-strip str,
      rw (l, s, e, fmt_print_hex) (rw (hex_output_lem info str, length-hex_string 8 m) refl),
    )
