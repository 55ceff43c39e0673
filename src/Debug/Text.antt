-- ===== src/Debug/Text.antt =====
-- What `debug` prints for plain text and for a `%s` field in it.
use pure.Prelude.{
  ℕ, suc, ◌+◌, ◌≤◌, ◌<◌, ◌^◌, ◌≡◌, refl, sym, ap, ◌∙◌, false, List, [], ◌∷◌, ◌++◌, ltb, ◌==◌,
  length, take, append_assoc, append-nil, All, arith, Bool-cases, inl, inr,
}
use pure.Run.{done}
use pure.CString.{Bytes, strlen, text}
use pure.Debug.{FmtInfo, Printer, Arg, string, none_given, spec_s, fmt_info_init}
use pure.Debug.Parse.{
  fmt_parse, parse_flags, parse_width, parse_precision, parse_length, parse_specifier, flag_of,
  length_of, specifier_of,
}
use pure.Fs.{u32}
use pure.CString.Index.{at_index-short}
use pure.Debug.Print.{print_string, fmt_print_string, fmt_print, debug_step, debug_loop, debug}

-- Characters that neither begin a field nor end the text.
abbrev pub IsPlain : Bytes → Type 0
IsPlain = All (λ c. ((c == b'%') ≡ false) × ((c == 0) ≡ false))

plus_zero : (n : ℕ) → 0 + n ≡ n
plus_zero n = omega arith

suc_plus : (n m : ℕ) → suc n + m ≡ suc (n + m)
suc_plus n m = omega arith

-- Plain text is printed, one round for each of its characters.
debug_loop-append :
    (fuel : ℕ) (format pre s : Bytes) (p : Printer)
    → length format < 2 ^ 32
    → IsPlain pre
    → debug_loop (length pre + fuel) format (pre ++ s) p
      ≡ debug_loop fuel format s (record p { out = p.out ++ pre })
unfolding debug_loop fmt_parse debug_step
debug_loop-append fuel format [] s p short h =
    rw (plus_zero fuel)
      (ap (λ t. debug_loop fuel format s (record p { out = t })) (sym (append-nil p.out)))
debug_loop-append fuel format (c ∷ pre) s p short ((h, z), hs) =
    rw (suc_plus (length pre) fuel, z, h, debug_loop, fmt_parse)
      (rw (h, debug_step)
        (ap (λ t. debug_loop (length pre + fuel) format t (record p { out = p.out ++ c ∷ [] }))
            (at_index-short format (pre ++ s) short)
          ∙ debug_loop-append fuel format pre s (record p { out = p.out ++ c ∷ [] }) short hs
          ∙ ap (λ t. debug_loop fuel format s (record p { out = t }))
              (append_assoc p.out (c ∷ []) pre)))

take-strlen : (s : Bytes) → take (strlen s) (s ++ 0 ∷ []) ≡ text s
unfolding strlen
take-strlen [] = refl
take-strlen (c ∷ s) = elim (Bool-cases (c == 0)) [
  | inl e ↦ rw e refl
  | inr e ↦ rw e (ap (λ t. c ∷ t) (take-strlen s))
]

strlen-length : (s : Bytes) → strlen s ≤ length s
unfolding strlen
strlen-length [] = omega arith
strlen-length (c ∷ s) = ground (arith, strlen-length s)

strlen-bound : (s : Bytes) → ltb (length s + 1) (strlen s) ≡ false
strlen-bound s = ground (arith, strlen-length s)

print_string_lem :
    (s : Bytes) (p : Printer)
    → print_string s (strlen s) p ≡ done tt (record p { out = p.out ++ text s })
print_string_lem s p = rw (strlen-bound s, print_string, take-strlen s) refl

-- What is left in `fmt_info` by a `%s` field.
abbrev pub after_string : FmtInfo → FmtInfo
after_string info = record info {
  flags = 0;
  width = 0;
  width_set = false;
  length_ = none_given;
  length_set = false;
  specifier = spec_s;
}

debug_loop-string :
    (fuel : ℕ) (format s str : Bytes) (args : List Arg) (p : Printer)
    → length format < 2 ^ 32
    → length str < 2 ^ 32
    → p.args ≡ string str ∷ args
    → p.info.precision_set ≡ false
    → debug_loop (suc fuel) format (b'%' ∷ b's' ∷ s) p
      ≡ debug_loop fuel format s
          (record p { args = args; info = after_string p.info; out = p.out ++ text str })
unfolding debug_loop fmt_parse debug_step fmt_print fmt_print_string parse_flags parse_width
    parse_precision parse_length parse_specifier flag_of length_of specifier_of
debug_loop-string fuel format s str args p short fits e f =
    let whole : u32 (strlen str) ≡ strlen str = omega (arith, strlen-length str) in
    rw
      (
        f,
        e,
        fmt_print,
        fmt_print_string,
        print_string,
        whole,
        strlen-bound str,
        take-strlen str,
        at_index-short format s short,
      )
      refl

-- A format of fewer than 2 ^ 32 characters that is plain text with one field `%s` in it prints the
-- text with the string in place of the field, if the next argument is a string of fewer than 2 ^ 32
-- characters; the other arguments are left.
pub debug-string :
    (pre post str : Bytes) (args : List Arg) (p : Printer)
    → length (pre ++ b'%' ∷ b's' ∷ post) < 2 ^ 32
    → length str < 2 ^ 32
    → IsPlain pre
    → IsPlain post
    → p.args ≡ string str ∷ args
    → debug (pre ++ b'%' ∷ b's' ∷ post) p
      ≡ done tt (record p {
        info = after_string fmt_info_init;
        args = args;
        out = p.out ++ (pre ++ (text str ++ post));
      })
unfolding debug debug_loop
debug-string pre post str args p short fits h k e =
    let format = pre ++ b'%' ∷ b's' ∷ post in
    let p₀ : Printer = record p { info = fmt_info_init } in
    let p₁ : Printer = record p₀ { out = p.out ++ pre } in
    let p₂ : Printer = record p₁ {
      info = after_string fmt_info_init;
      args = args;
      out = p₁.out ++ text str;
    } in
    rw (fuel_enough pre post) (
      debug_loop-append (suc (length post + 2)) format pre (b'%' ∷ b's' ∷ post) p₀ short h
      ∙ debug_loop-string (length post + 2) format post str args p₁ short fits e refl
      ∙ rest format p₂ short k
      ∙ ap (λ t. done tt (record p₂ { out = t }))
          (append_assoc (p.out ++ pre) (text str) post ∙ append_assoc p.out pre (text str ++ post)))
  where
    fuel_enough :
        (pre post : Bytes)
        → suc (length (pre ++ b'%' ∷ b's' ∷ post)) ≡ length pre + suc (length post + 2)
    fuel_enough [] post = omega arith
    fuel_enough (c ∷ pre) post = omega (arith, fuel_enough pre post)

    rest :
        (format : Bytes) (q : Printer)
        → length format < 2 ^ 32
        → IsPlain post
        → debug_loop (length post + 2) format post q ≡ done tt (record q { out = q.out ++ post })
    rest format q short k =
        ap (λ t. debug_loop (length post + 2) format t q) (sym (append-nil post))
        ∙ debug_loop-append 2 format post [] q short k
