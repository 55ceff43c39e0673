-- ===== src/CString/Compare.antt =====
-- `pure64_strcmp` as a comparison of texts.
use pure.Prelude.{ℕ, ◌<◌, ◌≡◌, refl, ◌↔◌, true, [], ◌∷◌, All, arith}
use pure.CString.{
  Bytes, IsByte, IsText, Cmp, greater, less, equal, text, strcmp, is_equal, same, compare_char,
}

abbrev pub opposite : Cmp → Cmp
opposite greater = less
opposite less = greater
opposite equal = equal

compare_char-equal : (a b : ℕ) → a < 256 → b < 256 → compare_char a b ≡ equal → a ≡ b
compare_char-equal a b ha hb h = ground arith

compare_char-opposite : (a b : ℕ) → compare_char b a ≡ opposite (compare_char a b)
compare_char-opposite a b = ground arith

strcmp-equal : (a b : Bytes) → All IsByte a → All IsByte b → strcmp a b ≡ equal → text a ≡ text b
unfolding strcmp
strcmp-equal [] [] ha hb h = refl
strcmp-equal [] (y ∷ b) ha hb h = ground (arith, compare_char-equal 0 y)
strcmp-equal (x ∷ a) [] ha hb h = ground (arith, compare_char-equal x 0)
strcmp-equal (x ∷ a) (y ∷ b) ha hb h =
    ground (arith, compare_char-equal x y, strcmp-equal a b ha.1 hb.1)

equal-strcmp : (a b : Bytes) → text a ≡ text b → strcmp a b ≡ equal
unfolding strcmp
equal-strcmp [] [] h = refl
equal-strcmp [] (y ∷ b) h = ground arith
equal-strcmp (x ∷ a) [] h = ground arith
equal-strcmp (x ∷ a) (y ∷ b) h = ground (arith, equal-strcmp a b)

-- For buffers of bytes, `pure64_strcmp` returns 0 exactly when the two hold the same text up to
-- the first NUL.
strcmp_iff : (a b : Bytes) → All IsByte a → All IsByte b → (strcmp a b ≡ equal) ↔ (text a ≡ text b)
strcmp_iff a b ha hb = (strcmp-equal a b ha hb, equal-strcmp a b)

-- Exchanging the arguments of `pure64_strcmp` exchanges the results 1 and -1.
pub strcmp-opposite : (a b : Bytes) → strcmp b a ≡ opposite (strcmp a b)
unfolding strcmp
strcmp-opposite [] [] = refl
strcmp-opposite [] (y ∷ b) = ground arith
strcmp-opposite (x ∷ a) [] = ground arith
strcmp-opposite (x ∷ a) (y ∷ b) = ground (arith, strcmp-opposite a b)

pub IsText-IsByte : (a : Bytes) → IsText a → All IsByte a
IsText-IsByte [] h = tt
IsText-IsByte (c ∷ a) h = (h.0.1, IsText-IsByte a h.1)

pub text_of_IsText : (a : Bytes) → IsText a → text a ≡ a
text_of_IsText [] h = refl
text_of_IsText (c ∷ a) h = ground (arith, text_of_IsText a h.1)

is_equal_iff : (c : Cmp) → (is_equal c ≡ true) ↔ (c ≡ equal)
is_equal_iff c = ground arith

-- On names without NUL the test is equality.
pub same_iff : (a b : Bytes) → IsText a → IsText b → (same a b ≡ true) ↔ (a ≡ b)
unfolding same
same_iff a b ha hb = ground (
  arith,
  strcmp_iff a b (IsText-IsByte a ha) (IsText-IsByte b hb),
  text_of_IsText a ha,
  text_of_IsText b hb,
)

pub same_refl : (a : Bytes) → same a a ≡ true
unfolding same
same_refl a = ground (arith, equal-strcmp a a refl)

pub same_comm : (a b : Bytes) → same a b ≡ same b a
unfolding same
same_comm a b = ground (arith, strcmp-opposite a b)
