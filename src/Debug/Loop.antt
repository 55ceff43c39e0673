-- ===== src/Debug/Loop.antt =====
-- `debug` always comes to its end.
use pure.Prelude.{
  ℕ, zero, suc, ◌+◌, ◌^◌, ◌<◌, ◌&&◌, Option, none, some, List, [], ◌∷◌, length, arith, Bool-cases,
  inl, inr, ◌==◌, ltb,
}
use pure.Run.{and_then, ret, ◌>>=◌}
use pure.CString.{Bytes, first_char}
use pure.CString.Index.{at_index, at_index-short}
use pure.Debug.{
  Length, none_given, len_hh, len_h, len_l, len_ll, len_j, len_z, len_t, len_L, Specifier,
  no_specifier, spec_d, spec_u, spec_x, spec_X, spec_c, spec_s, spec_p, FmtInfo, Printer, Arg,
  number, string, take_number, take_string,
}
use pure.Debug.Parse.{fmt_parse}
use pure.Debug.Print.{
  fmt_print, length_arg, specifier_arg, hex_arg, print_hex, fmt_print_hex, print_field, debug_step,
  fmt_print_string, print_string, debug_loop, debug,
}
use pure.Debug.Ends.{
  Ends, Ends-and_then, Anything, AtMost, AtMost?, length_refl, length-drop, take_number-Ends,
  fmt_parse-Ends,
}

taken :
    {A : Type 0} (bits : ℕ) (f : ℕ → A) (p : Printer)
    → Ends Anything (and_then (take_number bits p.args p) (λ n. ret (f n)))
taken bits f p =
    Ends-and_then Anything Anything (take_number bits p.args p) (λ n. ret (f n))
      (take_number-Ends bits p.args p) (λ n q h. tt)

length_arg-Ends : (l : Length) (p : Printer) → Ends Anything (length_arg l p)
length_arg-Ends none_given p = tt
length_arg-Ends len_hh p = taken 32 (λ n. none) p
length_arg-Ends len_h p = taken 32 (λ n. none) p
length_arg-Ends len_l p = taken 64 (λ n. some (16, n)) p
length_arg-Ends len_ll p = taken 64 (λ n. some (16, n)) p
length_arg-Ends len_j p = tt
length_arg-Ends len_z p = tt
length_arg-Ends len_t p = tt
length_arg-Ends len_L p = tt

specifier_arg-Ends : (s : Specifier) (p : Printer) → Ends Anything (specifier_arg s p)
specifier_arg-Ends no_specifier p = taken 32 (λ n. some (8, n)) p
specifier_arg-Ends spec_d p = taken 32 (λ n. some (8, n)) p
specifier_arg-Ends spec_u p = taken 32 (λ n. some (8, n)) p
specifier_arg-Ends spec_x p = taken 32 (λ n. some (8, n)) p
specifier_arg-Ends spec_X p = taken 32 (λ n. some (8, n)) p
specifier_arg-Ends spec_c p = taken 32 (λ n. some (8, n)) p
specifier_arg-Ends spec_s p = taken 32 (λ n. some (8, n)) p
specifier_arg-Ends spec_p p = taken 64 (λ n. some (16, n)) p

hex_arg-Ends : (info : FmtInfo) (p : Printer) → Ends Anything (hex_arg info p)
unfolding hex_arg
hex_arg-Ends info p = elim (Bool-cases info.length_set) [
  | inl e ↦ rw (e, hex_arg) (length_arg-Ends info.length_ p)
  | inr e ↦ rw (e, hex_arg) (specifier_arg-Ends info.specifier p)
]

print_string-Ends : (s : Bytes) (n : ℕ) (p : Printer) → Ends Anything (print_string s n p)
print_string-Ends s n p = elim (Bool-cases (ltb (length s + 1) n)) [
  | inl e ↦ rw (e, print_string) tt
  | inr e ↦ rw (e, print_string) tt
]

take_string-Ends : (args : List Arg) (p : Printer) → Ends Anything (take_string args p)
take_string-Ends [] p = tt
take_string-Ends (number n ∷ args) p = tt
take_string-Ends (string s ∷ args) p = tt

print_hex-Ends :
    (info : FmtInfo) (o : Option (ℕ × ℕ)) (p : Printer) → Ends Anything (print_hex info o p)
print_hex-Ends info none p = tt
print_hex-Ends info (some (k, n)) p = tt

fmt_print_hex-Ends : (info : FmtInfo) (p : Printer) → Ends Anything (fmt_print_hex info p)
unfolding fmt_print_hex
fmt_print_hex-Ends info p =
    Ends-and_then Anything Anything (hex_arg info p) (print_hex info) (hex_arg-Ends info p)
      (λ o q h. print_hex-Ends info o q)

fmt_print_string-Ends : (info : FmtInfo) (p : Printer) → Ends Anything (fmt_print_string info p)
unfolding fmt_print_string
fmt_print_string-Ends info p =
    Ends-and_then Anything Anything (take_string p.args p) _ (take_string-Ends p.args p)
      (λ str q h. print_string-Ends str _ q)

print_field-Ends :
    (info : FmtInfo) (s : Specifier) (p : Printer) → Ends Anything (print_field info s p)
print_field-Ends info no_specifier p = tt
print_field-Ends info spec_d p = tt
print_field-Ends info spec_u p = tt
print_field-Ends info spec_x p = fmt_print_hex-Ends info p
print_field-Ends info spec_X p = tt
print_field-Ends info spec_c p = tt
print_field-Ends info spec_s p = fmt_print_string-Ends info p
print_field-Ends info spec_p p = fmt_print_hex-Ends info p

debug_step-Ends :
    (format : Bytes) (c : ℕ) (s : Bytes) (o : Option Bytes) (p : Printer)
    → AtMost? (length s) o
    → Ends (AtMost (length s)) (debug_step format c s o p)
unfolding debug_step fmt_print
debug_step-Ends format c s (some rest) p h =
    Ends-and_then Anything (AtMost (length s)) (print_field p.info p.info.specifier p) _
      (print_field-Ends p.info p.info.specifier p) (λ u q k. h)
debug_step-Ends format c s none p h =
    elim (Bool-cases (c == b'%' && first_char (at_index format s) == b'%')) [
      | inl e ↦ rw (e, debug_step) (length-drop 1 s)
      | inr e ↦ rw (e, debug_step) (length_refl s)
    ]

debug_loop-Ends :
    (fuel : ℕ) (format s : Bytes) (p : Printer)
    → length format < 2 ^ 32
    → length s < fuel
    → Ends Anything (debug_loop fuel format s p)
unfolding debug_loop
debug_loop-Ends zero format s p short h = omega arith
debug_loop-Ends (suc fuel) format [] p short h = tt
debug_loop-Ends (suc fuel) format (c ∷ s) p short h = elim (Bool-cases (c == 0)) [
  | inl e ↦ rw (e, debug_loop) tt
  | inr e ↦
      rw (e, debug_loop)
        (Ends-and_then (AtMost (length s)) Anything
          ((fmt_parse (c ∷ s) >>= debug_step format c s) p)
          (λ rest. debug_loop fuel format (at_index format rest))
          (Ends-and_then (AtMost? (length s)) (AtMost (length s)) (fmt_parse (c ∷ s) p)
            (debug_step format c s) (fmt_parse-Ends c s p) (debug_step-Ends format c s))
          (λ t q k.
            rw (at_index-short format t short)
              (debug_loop-Ends fuel format t q short (omega arith))))
]

-- For every format of fewer than 2 ^ 32 characters and all arguments, `debug` comes to its end: its loop, which skips what a field
-- takes of the format, has no more rounds than the format has characters.
pub debug-Ends : (fmt : Bytes) (p : Printer) → length fmt < 2 ^ 32 → Ends Anything (debug fmt p)
unfolding debug
debug-Ends fmt p short = debug_loop-Ends (suc (length fmt)) fmt fmt _ short (omega arith)
