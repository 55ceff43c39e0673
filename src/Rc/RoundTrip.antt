-- ===== src/Rc/RoundTrip.antt =====
-- src/util/rc.c: the bytes of the input, read from the source that is written.
use mathlib.Core.Option.{map as option_map}
use pure.Prelude.{
  ℕ, zero, suc, [], ◌∷◌, ◌++◌, ◌+◌, ◌-◌, ◌*◌, ◌/◌, ◌%◌, ◌<◌, ◌≡◌, refl, sym, ap, ◌∙◌, arith, Bool,
  true, Option, none, ◌==◌, ◌&&◌, ◌||◌, leb, ltb, ltb→lt, if◌then◌else◌, length, take, drop, some,
  All, append-nil, Bool-cases, inl, inr,
}
use pure.CString.{Bytes}
use pure.Rc.{
  hex_digit, hex_byte, write_bytes, write_lines, Plan, write_source, source_head, source_tail,
}

-- The value of a hexadecimal digit.
abbrev hex_value : ℕ → Option ℕ
hex_value c =
    if leb b'0' c && leb c b'9'
    then some (c - b'0')
    else if leb b'a' c && leb c b'f'
    then some (c + 10 - b'a')
    else none

abbrev is_space : ℕ → Bool
is_space c = c == 9 || (c == 10 || c == b' ')

-- The number that two digits spell, in front of the others.
abbrev add_number : Option ℕ → Option ℕ → Option Bytes → Option Bytes
add_number none low others = none
add_number (some high) none others = none
add_number (some high) (some low) others = option_map (λ bytes. (high * 16 + low) ∷ bytes) others

abbrev is_number : ℕ → ℕ → ℕ → Bool
is_number a b comma = a == b'0' && (b == b'x' && comma == b',')

-- The numbers of the initializer of an array: each is `0x` with two hexadecimal digits and has a comma
-- behind it. Between them stand tabs, newlines and spaces, and nothing else.
pub values : Bytes → Option Bytes
values [] = some []
values (a ∷ []) = if is_space a then some [] else none
values (a ∷ b ∷ []) = if is_space a && is_space b then some [] else none
values (a ∷ b ∷ h ∷ []) = if is_space a && (is_space b && is_space h) then some [] else none
values (a ∷ b ∷ h ∷ l ∷ []) =
    if is_space a && (is_space b && (is_space h && is_space l)) then some [] else none
values (a ∷ b ∷ h ∷ l ∷ comma ∷ text) =
    let next = values (b ∷ h ∷ l ∷ comma ∷ text) in
    let found = add_number (hex_value h) (hex_value l) (values text) in
    if is_space a then next else if is_number a b comma then found else none

-- White space is passed over.
values-skip : (c : ℕ) (text : Bytes) → is_space c ≡ true → values (c ∷ text) ≡ values text
unfolding values
values-skip c [] e = rw e refl
values-skip c (a ∷ []) e = rw e refl
values-skip c (a ∷ b ∷ []) e = rw e refl
values-skip c (a ∷ b ∷ h ∷ []) e = rw e refl
values-skip c (a ∷ b ∷ h ∷ l ∷ text) e = rw e refl

hex_value-hex_digit : (d : ℕ) → d < 16 → hex_value (hex_digit d) ≡ some d
hex_value-hex_digit d h = ground arith

values-hex_byte :
    (x : ℕ) (text : Bytes)
    → x < 256
    → values (hex_byte x ++ b',' ∷ text) ≡ option_map (λ bytes. x ∷ bytes) (values text)
unfolding values
values-hex_byte x text h =
    let high = hex_value-hex_digit (x / 16) (omega arith) in
    let low = hex_value-hex_digit (x % 16) (omega arith) in
    let whole : x / 16 * 16 + x % 16 ≡ x = omega arith in
    ap (λ o. add_number o (hex_value (hex_digit (x % 16))) (values text)) high
    ∙ ap (λ o. add_number (some (x / 16)) o (values text)) low
    ∙ ap (λ (n : ℕ). option_map (λ bytes. n ∷ bytes) (values text)) whole

-- What is read behind some bytes.
option_map-append :
    (x : ℕ) (buf : Bytes) (o : Option Bytes)
    → option_map (λ bytes. x ∷ bytes) (option_map (λ bytes. buf ++ bytes) o)
      ≡ option_map (λ bytes. x ∷ (buf ++ bytes)) o
option_map-append x buf none = refl
option_map-append x buf (some bytes) = refl

option_map-nil : (o : Option Bytes) → o ≡ option_map (λ bytes. bytes) o
option_map-nil none = refl
option_map-nil (some bytes) = refl

values-write_bytes :
    (buf text : Bytes)
    → All (λ x. x < 256) buf
    → values (write_bytes buf ++ text) ≡ option_map (λ bytes. buf ++ bytes) (values text)
unfolding write_bytes
values-write_bytes [] text h = option_map-nil (values text)
values-write_bytes (x ∷ []) text (h, u) =
    values-hex_byte x (10 ∷ text) h
    ∙ ap (option_map (λ bytes. x ∷ bytes)) (values-skip 10 text refl)
values-write_bytes (x ∷ y ∷ buf) text (h, k) =
    values-hex_byte x (b' ' ∷ (write_bytes (y ∷ buf) ++ text)) h
    ∙ ap (option_map (λ bytes. x ∷ bytes)) (
        values-skip b' ' (write_bytes (y ∷ buf) ++ text) refl ∙ values-write_bytes (y ∷ buf) text k)
    ∙ option_map-append x (y ∷ buf) (values text)

-- The first bytes and the others.
take-drop : (n : ℕ) (xs : Bytes) → take n xs ++ drop n xs ≡ xs
take-drop zero xs = refl
take-drop (suc n) [] = refl
take-drop (suc n) (x ∷ xs) = ap (λ t. x ∷ t) (take-drop n xs)

length-drop : (n : ℕ) (xs : Bytes) → length (take n xs) + length (drop n xs) ≡ length xs
length-drop zero xs = omega arith
length-drop (suc n) [] = omega arith
length-drop (suc n) (x ∷ xs) = omega (arith, length-drop n xs)

drop-short : (n : ℕ) (xs : Bytes) → length (take n xs) < n → drop n xs ≡ []
drop-short zero xs h = absurd (omega arith)
drop-short (suc n) [] h = refl
drop-short (suc n) (x ∷ xs) h = drop-short n xs (omega arith)

All-take-drop :
    (n : ℕ) (xs : Bytes)
    → All (λ x. x < 256) xs
    → All (λ x. x < 256) (take n xs) × All (λ x. x < 256) (drop n xs)
All-take-drop zero xs h = (tt, h)
All-take-drop (suc n) [] h = (tt, tt)
All-take-drop (suc n) (x ∷ xs) (h, k) = let (p, q) = All-take-drop n xs k in ((h, p), q)

write_lines-values :
    (fuel : ℕ) (input : Bytes)
    → All (λ x. x < 256) input
    → length input < fuel
    → (lines : Bytes) × (write_lines fuel input ≡ some lines) × (values lines ≡ some input)
unfolding write_lines values
write_lines-values zero input small h = absurd (omega arith)
write_lines-values (suc fuel) input small h =
    let (first, others) = All-take-drop 16 input small in
    elim (Bool-cases (ltb (length (take 16 input)) 16)) [
      | inl e ↦ (
        9 ∷ write_bytes (take 16 input),
        rw e refl,
        values-skip 9 (write_bytes (take 16 input)) refl
            ∙ ap values (sym (append-nil (write_bytes (take 16 input))))
            ∙ values-write_bytes (take 16 input) [] first
            ∙ ap (λ t. some (take 16 input ++ t)) (sym (drop-short 16 input (ltb→lt _ _ e)))
            ∙ ap some (take-drop 16 input),
      )
      | inr e ↦
          let (out, p, q) =
            write_lines-values fuel (drop 16 input) others (ground (arith, length-drop 16 input)) in
          (
            9 ∷ (write_bytes (take 16 input) ++ out),
            rw (e, p) refl,
            values-skip 9 (write_bytes (take 16 input) ++ out) refl
                ∙ values-write_bytes (take 16 input) out first
                ∙ ap (option_map (λ bytes. take 16 input ++ bytes)) q
                ∙ ap some (take-drop 16 input),
          )
    ]

-- For an input of bytes, `write_source` comes to its end on more fuel than the input has bytes. What
-- it prints between the opening and the closing of the array is read again as the bytes of the input,
-- in order: numbers `0x` of two hexadecimal digits, each with a comma behind it, and else nothing but
-- white space.
pub write_source-values :
    (fuel : ℕ) (plan : Plan)
    → All (λ x. x < 256) plan.input
    → length plan.input < fuel
    → (lines : Bytes) × (write_source fuel plan
        ≡ some (source_head plan ++ (lines ++ source_tail plan)))
      × (values lines ≡ some plan.input)
unfolding write_source
write_source-values fuel plan small h =
    let (lines, e, v) = write_lines-values fuel plan.input small h in
    (lines, ap (option_map (λ lines. source_head plan ++ (lines ++ source_tail plan))) e, v)
