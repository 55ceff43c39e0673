-- ===== src/Debug/Ends.antt =====
-- Runs that come to an end, and those of `fmt_parse`.
use pure.Prelude.{
  ℕ, zero, suc, ◌≤◌, ◌&&◌, not, Option, none, some, List, [], ◌∷◌, length, drop, arith, Bool-cases,
  Option-cases, inl, inr, ◌==◌,
}
use pure.Run.{Outcome, M, done, failed, fault, out_of_fuel, and_then}
use Prim.Native.Nat.{bit_or}
use pure.CString.{Bytes, first_char}
use pure.Debug.{Printer, Arg, number, string, take_number}
use pure.Debug.Parse.{
  isdigit, parse_flags, parse_width, parse_precision, parse_tail, parse_length, length_of,
  parse_specifier, specifier_of, fmt_parse,
}

-- The run does not end for want of fuel, and a value that it gives has the property.
abbrev pub Ends : {A : Type 0} → (A → Type 0) → Outcome Printer A → Type 0
Ends P (done a p) = P a
Ends P (failed e p) = Unit
Ends P fault = Unit
Ends P out_of_fuel = ⊥

pub Ends-and_then :
    {A B : Type 0} (P : A → Type 0) (Q : B → Type 0) (r : Outcome Printer A) (k : A → M Printer B)
    → Ends P r
    → ((a : A) (p : Printer) → P a → Ends Q (k a p))
    → Ends Q (and_then r k)
Ends-and_then P Q (done a p) k h rest = rest a p h
Ends-and_then P Q (failed e p) k h rest = tt
Ends-and_then P Q fault k h rest = tt
Ends-and_then P Q out_of_fuel k h rest = elim h [ ]

abbrev pub AtMost : ℕ → Bytes → Type 0
AtMost n s = length s ≤ n

abbrev pub AtMost? : ℕ → Option Bytes → Type 0
AtMost? n none = Unit
AtMost? n (some s) = length s ≤ n

abbrev pub Anything : {A : Type 0} → A → Type 0
Anything a = Unit

pub length-drop : (n : ℕ) (s : Bytes) → length (drop n s) ≤ length s
length-drop zero s = omega arith
length-drop (suc n) [] = omega arith
length-drop (suc n) (c ∷ s) = omega (arith, length-drop n s)

parse_flags-length : (flags : ℕ) (s : Bytes) → length (parse_flags flags s).1 ≤ length s
unfolding parse_flags
parse_flags-length flags [] = omega arith
parse_flags-length flags (c ∷ s) = ground (
  arith,
  parse_flags-length flags s,
  parse_flags-length (bit_or flags 0x01) s,
  parse_flags-length (bit_or flags 0x02) s,
  parse_flags-length (bit_or flags 0x04) s,
  parse_flags-length (bit_or flags 0x08) s,
  parse_flags-length (bit_or flags 0x10) s,
)

pub take_number-Ends :
    (bits : ℕ) (args : List Arg) (p : Printer) → Ends Anything (take_number bits args p)
take_number-Ends bits [] p = tt
take_number-Ends bits (number n ∷ args) p = tt
take_number-Ends bits (string s ∷ args) p = tt

pub length_refl : (s : Bytes) → length s ≤ length s
length_refl s = omega arith

parse_width-Ends : (s : Bytes) (p : Printer) → Ends (AtMost (length s)) (parse_width s p)
unfolding parse_width
parse_width-Ends s p = elim (Bool-cases (isdigit (first_char s) && not (first_char s == b'0'))) [
  | inl d ↦ rw (d, parse_width) (length-drop 1 s)
  | inr d ↦ elim (Bool-cases (first_char s == b'*')) [
    | inl e ↦
        rw (d, e, parse_width)
          (Ends-and_then Anything (AtMost (length s)) (take_number 32 p.args p) _
            (take_number-Ends 32 p.args p) (λ n q h. length-drop 1 s))
    | inr e ↦ rw (d, e, parse_width) (length_refl s)
  ]
]

parse_precision-Ends : (s : Bytes) (p : Printer) → Ends (AtMost? (length s)) (parse_precision s p)
unfolding parse_precision
parse_precision-Ends s p = elim (Bool-cases (first_char s == b'.')) [
  | inr c ↦ rw (c, parse_precision) (length_refl s)
  | inl c ↦ elim (Bool-cases (isdigit (first_char (drop 1 s)))) [
    | inl d ↦ rw (c, d, parse_precision) (length-drop 2 s)
    | inr d ↦ elim (Bool-cases (first_char (drop 1 s) == b'*')) [
      | inl e ↦
          rw (c, d, e, parse_precision)
            (Ends-and_then Anything (AtMost? (length s)) (take_number 32 p.args p) _
              (take_number-Ends 32 p.args p) (λ n q h. length-drop 2 s))
      | inr e ↦ rw (c, d, e, parse_precision) tt
    ]
  ]
]

parse_specifier-Ends :
    (n : ℕ) (s : Bytes) (p : Printer) → length s ≤ n → Ends (AtMost? n) (parse_specifier s p)
unfolding parse_specifier
parse_specifier-Ends n s p h = elim (Option-cases (specifier_of (first_char s))) [
  | inl e ↦ rw (e, parse_specifier) tt
  | inr (x, e) ↦ rw (e, parse_specifier) (omega (arith, length-drop 1 s))
]

parse_tail-Ends :
    (n : ℕ) (o : Option Bytes) (p : Printer) → AtMost? n o → Ends (AtMost? n) (parse_tail o p)
unfolding parse_length
parse_tail-Ends n none p h = tt
parse_tail-Ends n (some s) p h =
    parse_specifier-Ends n (drop (length_of s).1 s) _ (omega (arith, length-drop (length_of s).1 s))

AtMost?-trans : (n m : ℕ) (o : Option Bytes) → n ≤ m → AtMost? n o → AtMost? m o
AtMost?-trans n m none h k = tt
AtMost?-trans n m (some s) h k = omega arith

-- A field that is parsed is not empty.
pub fmt_parse-Ends :
    (c : ℕ) (s : Bytes) (p : Printer) → Ends (AtMost? (length s)) (fmt_parse (c ∷ s) p)
unfolding fmt_parse
fmt_parse-Ends c s p = elim (Bool-cases (c == b'%')) [
  | inr e ↦ rw (e, fmt_parse) tt
  | inl e ↦
      let p₁ : Printer = record p { info = record p.info { flags = (parse_flags 0 s).0 } } in
      let s₁ = (parse_flags 0 s).1 in
      rw (e, fmt_parse)
        (Ends-and_then (AtMost (length s₁)) (AtMost? (length s)) (parse_width s₁ p₁) _
          (parse_width-Ends s₁ p₁)
          (λ s₂ p₂ h₂.
            let h : length s₂ ≤ length s = omega (arith, parse_flags-length 0 s) in
            Ends-and_then (AtMost? (length s₂)) (AtMost? (length s)) (parse_precision s₂ p₂) _
              (parse_precision-Ends s₂ p₂)
              (λ o p₃ h₃.
                parse_tail-Ends (length s) o p₃ (AtMost?-trans (length s₂) (length s) o h h₃))))
]
