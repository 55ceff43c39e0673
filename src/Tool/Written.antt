-- ===== src/Tool/Written.antt =====
-- src/util/pure64.c: what a file holds after several writes one behind the other.
use pure.Prelude.{
  ℕ, zero, suc, [], ◌∷◌, ◌++◌, List, ◌+◌, ◌-◌, ◌≤◌, ◌<◌, ◌≡◌, refl, sym, ap, ◌∙◌, arith, length,
  get_or, ◌⊎◌, inl, inr, replicate, length-append,
}
use mathlib.Core.Path.{fun_ext}
use native.Mathlib.Decide.{dec_lt}
use pure.CString.{Bytes}
use pure.Tool.Host.{HostFile, IsFile, stored}
use pure.Tool.Stored.{stored_in, stored_out}
use pure.Tool.Init.{zero_file_data, write_fields}

get_or-append_left : (xs ys : Bytes) (i : ℕ) → i < length xs → get_or (xs ++ ys) i 0 ≡ get_or xs i 0
get_or-append_left [] ys i h = absurd (omega arith)
get_or-append_left (x ∷ xs) ys zero h = refl
get_or-append_left (x ∷ xs) ys (suc i) h = get_or-append_left xs ys i (omega arith)

get_or-append_right : (xs ys : Bytes) (i : ℕ) → get_or (xs ++ ys) (length xs + i) 0 ≡ get_or ys i 0
get_or-append_right [] ys i = ap (λ (n : ℕ). get_or ys n 0) (omega arith)
get_or-append_right (x ∷ xs) ys i =
    let e : suc (length xs) + i ≡ suc (length xs + i) = omega arith in
    ap (λ (n : ℕ). get_or (x ∷ (xs ++ ys)) n 0) e ∙ get_or-append_right xs ys i

-- The place of an address with respect to two parts one behind the other.
data Place (p m n a : ℕ) : Type 0 where
  front : a < p → Place p m n a
  first : p ≤ a → a < p + m → Place p m n a
  second : p + m ≤ a → a < p + m + n → Place p m n a
  back : p + m + n ≤ a → Place p m n a

place : (p m n a : ℕ) → Place p m n a
place p m n a = elim (dec_lt a p) [
  | yes h ↦ front h
  | no h ↦ elim (dec_lt a (p + m)) [
    | yes k ↦ first (omega arith) k
    | no k ↦ elim (dec_lt a (p + m + n)) [
      | yes l ↦ second (omega arith) l
      | no l ↦ back (omega arith)
    ]
  ]
]

pub stored-append :
    (p : ℕ) (xs ys : Bytes) (f : ℕ → ℕ)
    → stored (p + length xs) ys (stored p xs f) ≡ stored p (xs ++ ys) f
stored-append p xs ys f = fun_ext (λ a. at_each a (place p (length xs) (length ys) a))
  where
    at_each :
        (a : ℕ)
        → Place p (length xs) (length ys) a
        → stored (p + length xs) ys (stored p xs f) a ≡ stored p (xs ++ ys) f a
    at_each a (front h) =
        stored_out (p + length xs) ys (stored p xs f) a (inl (omega arith))
        ∙ stored_out p xs f a (inl h)
        ∙ sym (stored_out p (xs ++ ys) f a (inl h))
    at_each a (first h k) =
        stored_out (p + length xs) ys (stored p xs f) a (inl k)
        ∙ stored_in p xs f a h k
        ∙ sym (
            stored_in p (xs ++ ys) f a h (omega (arith, length-append xs ys))
            ∙ get_or-append_left xs ys (a - p) (omega arith))
    at_each a (second h k) =
        let e : a - p ≡ length xs + (a - (p + length xs)) = omega arith in
        stored_in (p + length xs) ys (stored p xs f) a h k
        ∙ sym (
            stored_in p (xs ++ ys) f a (omega arith) (omega (arith, length-append xs ys))
            ∙ ap (λ (n : ℕ). get_or (xs ++ ys) n 0) e
            ∙ get_or-append_right xs ys (a - (p + length xs)))
    at_each a (back h) =
        stored_out (p + length xs) ys (stored p xs f) a (inr h)
        ∙ stored_out p xs f a (inr (omega arith))
        ∙ sym (stored_out p (xs ++ ys) f a (inr (omega (arith, length-append xs ys))))

stored-nothing : (p : ℕ) (f : ℕ → ℕ) → stored p [] f ≡ f
stored-nothing p f = fun_ext (λ a. stored_out p [] f a (nowhere a))
  where
    nowhere : (a : ℕ) → (a < p) ⊎ (p + 0 ≤ a)
    nowhere a = elim (dec_lt a p) [ yes h ↦ inl h | no h ↦ inr (omega arith) ]

abbrev pub joined : List Bytes → Bytes
joined [] = []
joined (xs ∷ fields) = xs ++ joined fields

module _ {S : Type 0} (file : HostFile S) (is : IsFile file) where
  open is use {byte, size, position}

  -- From the state `s` on the bytes were written. With them the file goes on to the position.
  pub record Wrote (xs : Bytes) (s t : S) : Type 0 where
    pub bytes : byte t ≡ stored (position s) xs (byte s)
    pub moved : position t ≡ position s + length xs
    pub grown : size s ≤ size t
    pub within : 1 ≤ length xs → position t ≤ size t

  pub Wrote-and_then :
      (xs ys : Bytes) (s t u : S) → Wrote xs s t → Wrote ys t u → Wrote (xs ++ ys) s u
  Wrote-and_then xs ys s t u w v = record {
    bytes =
        v.bytes
        ∙ ap (λ f. stored (position t) ys f) w.bytes
        ∙ ap (λ (p : ℕ). stored p ys (stored (position s) xs (byte s))) w.moved
        ∙ stored-append (position s) xs ys (byte s);
    moved = omega (arith, w.moved, v.moved, length-append xs ys);
    grown = omega (arith, w.grown, v.grown);
    within = λ h. reaches (dec_lt 0 (length ys)) h;
  }
    where
      reaches : Dec (0 < length ys) → 1 ≤ length (xs ++ ys) → position u ≤ size u
      reaches (yes k) h = v.within k
      reaches (no k) h =
          let there = w.within (omega (arith, length-append xs ys)) in
          omega (arith, there, v.moved, v.grown)

  Wrote-nothing : (s : S) → Wrote [] s s
  Wrote-nothing s = record {
    bytes = sym (stored-nothing (position s) (byte s));
    moved = omega arith;
    grown = omega arith;
    within = λ h. absurd (omega arith);
  }

  pub write_fields-Wrote :
      (fields : List Bytes) (count : ℕ) (s : S)
      → (t : S) × (write_fields file fields (count, s) ≡ (count + length (joined fields), t))
        × Wrote (joined fields) s t
  unfolding write_fields
  write_fields-Wrote [] count s = (s, ap (λ (n : ℕ). (n, s)) (omega arith), Wrote-nothing s)
  write_fields-Wrote (xs ∷ fields) count s =
      let (t, e, b, z, p) = is.writes xs s in
      let (u, e', w) = write_fields-Wrote fields (count + length xs) t in
      (
        u,
        rw e (e' ∙ ap (λ (n : ℕ). (n, u)) (omega (arith, length-append xs (joined fields)))),
        Wrote-and_then xs (joined fields) s t u
            (record { bytes = b; moved = p; grown = omega arith; within = λ h. omega arith }) w,
      )

  pub zero_file_data-Wrote : (n : ℕ) (s : S) → Wrote (replicate n 0) s (zero_file_data file n s)
  unfolding zero_file_data
  zero_file_data-Wrote zero s = Wrote-nothing s
  zero_file_data-Wrote (suc n) s =
      let (b, z, p) = is.puts 0 s in
      Wrote-and_then (0 ∷ []) (replicate n 0) s (file.fputc 0 s) _
        (record { bytes = b; moved = p; grown = omega arith; within = λ h. omega arith })
        (zero_file_data-Wrote n (file.fputc 0 s))
