-- ===== src/Debug/Bounds.antt =====
-- How much a hexadecimal field prints.
use pure.Prelude.{
  ℕ, suc, ◌+◌, ◌<◌, ◌≤◌, ◌≡◌, refl, sym, ap, ◌∙◌, Option, none, some, List, [], ◌∷◌, ◌++◌, length,
  length-append, append-nil, arith, Bool-cases, inl, inr, ◌==◌,
}
use pure.Run.{Outcome, done, failed, fault, out_of_fuel, and_then, ret}
use pure.CString.{Bytes}
use pure.Debug.{
  Arg, number, string, Length, none_given, len_hh, len_h, len_l, len_ll, len_j, len_z, len_t, len_L,
  Specifier, no_specifier, spec_d, spec_u, spec_x, spec_X, spec_c, spec_s, spec_p, FmtInfo, Printer,
  take_number,
}
use pure.Debug.Print.{
  length_arg, specifier_arg, hex_arg, hex_string, pad, hex_output, print_hex, fmt_print_hex,
}
use pure.Debug.Hex.{length-hex_string}

-- The number of digits is from 1 to 16, and nothing is printed.
abbrev HexArg : Printer → Outcome Printer (Option (ℕ × ℕ)) → Type 0
HexArg p (done none q) = q.out ≡ p.out
HexArg p (done (some (k, n)) q) = (0 < k) × (k ≤ 16) × (q.out ≡ p.out)
HexArg p (failed e q) = ⊥
HexArg p fault = Unit
HexArg p out_of_fuel = ⊥

taken_some :
    (bits k : ℕ) (p : Printer)
    → 0 < k
    → k ≤ 16
    → HexArg p (and_then (take_number bits p.args p) (λ n. ret (some (k, n))))
taken_some bits k p h l = from p.args
  where
    from :
        (args : List Arg) → HexArg p (and_then (take_number bits args p) (λ n. ret (some (k, n))))
    from [] = tt
    from (number n ∷ args) = (h, l, refl)
    from (string s ∷ args) = tt

taken_none :
    (bits : ℕ) (p : Printer) → HexArg p (and_then (take_number bits p.args p) (λ n. ret none))
taken_none bits p = from p.args
  where
    from : (args : List Arg) → HexArg p (and_then (take_number bits args p) (λ n. ret none))
    from [] = tt
    from (number n ∷ args) = refl
    from (string s ∷ args) = tt

length_arg-HexArg : (l : Length) (p : Printer) → HexArg p (length_arg l p)
length_arg-HexArg none_given p = refl
length_arg-HexArg len_hh p = taken_none 32 p
length_arg-HexArg len_h p = taken_none 32 p
length_arg-HexArg len_l p = taken_some 64 16 p (omega arith) (omega arith)
length_arg-HexArg len_ll p = taken_some 64 16 p (omega arith) (omega arith)
length_arg-HexArg len_j p = refl
length_arg-HexArg len_z p = refl
length_arg-HexArg len_t p = refl
length_arg-HexArg len_L p = refl

specifier_arg-HexArg : (s : Specifier) (p : Printer) → HexArg p (specifier_arg s p)
specifier_arg-HexArg no_specifier p = taken_some 32 8 p (omega arith) (omega arith)
specifier_arg-HexArg spec_d p = taken_some 32 8 p (omega arith) (omega arith)
specifier_arg-HexArg spec_u p = taken_some 32 8 p (omega arith) (omega arith)
specifier_arg-HexArg spec_x p = taken_some 32 8 p (omega arith) (omega arith)
specifier_arg-HexArg spec_X p = taken_some 32 8 p (omega arith) (omega arith)
specifier_arg-HexArg spec_c p = taken_some 32 8 p (omega arith) (omega arith)
specifier_arg-HexArg spec_s p = taken_some 32 8 p (omega arith) (omega arith)
specifier_arg-HexArg spec_p p = taken_some 64 16 p (omega arith) (omega arith)

hex_arg-HexArg : (info : FmtInfo) (p : Printer) → HexArg p (hex_arg info p)
unfolding hex_arg
hex_arg-HexArg info p = elim (Bool-cases info.length_set) [
  | inl e ↦ rw (e, hex_arg) (length_arg-HexArg info.length_ p)
  | inr e ↦ rw (e, hex_arg) (specifier_arg-HexArg info.specifier p)
]

length-pad : (info : FmtInfo) (left : ℕ) → length (pad info left) ≤ 1
length-pad info left = ground arith

length-hex_output : (info : FmtInfo) (str : Bytes) → length (hex_output info str) ≤ length str + 1
unfolding hex_output
length-hex_output info [] = omega arith
length-hex_output info (c ∷ str) = elim (Bool-cases (c == b'0')) [
  | inl e ↦
      rw (e, hex_output)
        (omega (
          arith,
          length-append (pad info (suc (length str))) (hex_output info str),
          length-pad info (suc (length str)),
          length-hex_output info str,
        ))
  | inr e ↦ rw (e, hex_output) (omega arith)
]

-- The run has printed at most 17 characters, or stands where the argument is missing or of another
-- kind.
abbrev pub PrintsFew : Printer → Outcome Printer (Unit {0}) → Type 0
PrintsFew p (done u q) = (s : Bytes) × (q.out ≡ p.out ++ s) × (length s ≤ 17)
PrintsFew p (failed e q) = ⊥
PrintsFew p fault = Unit
PrintsFew p out_of_fuel = ⊥

print_hex-PrintsFew :
    (info : FmtInfo) (p : Printer) (r : Outcome Printer (Option (ℕ × ℕ)))
    → HexArg p r
    → PrintsFew p (and_then r (print_hex info))
print_hex-PrintsFew info p (done none q) h = ([], h ∙ sym (append-nil p.out), omega arith)
print_hex-PrintsFew info p (done (some (k, n)) q) (h, l, e) =
    let str = hex_string k n in
    (
      hex_output info str,
      ap (λ t. t ++ hex_output info str) e,
      omega (arith, length-hex_output info str, length-hex_string k n),
    )
print_hex-PrintsFew info p (failed e q) h = h
print_hex-PrintsFew info p fault h = tt
print_hex-PrintsFew info p out_of_fuel h = h

-- Whatever the field asks for, its width included, `fmt_print_hex` adds at most 17 characters to
-- what is printed, unless its argument is missing or of another kind.
pub fmt_print_hex-PrintsFew : (info : FmtInfo) (p : Printer) → PrintsFew p (fmt_print_hex info p)
unfolding fmt_print_hex
fmt_print_hex-PrintsFew info p = print_hex-PrintsFew info p (hex_arg info p) (hex_arg-HexArg info p)
