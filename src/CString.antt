-- ===== src/CString.antt =====
-- src/lib/string.c: byte strings as C sees them. A `Bytes` is a buffer; where it ends without a
-- NUL, the byte behind its end is the terminator.
pub mod Compare
pub mod Index
pub mod Copy
use pure.Prelude.{
  ℕ, zero, suc, ◌+◌, ◌%◌, ◌<◌, Bool, true, false, List, [], ◌∷◌, ltb, ◌==◌, if◌then◌else◌, All,
  take, replicate,
}

abbrev pub Bytes : Type 0
Bytes = List ℕ

-- A byte, and a byte other than NUL.
abbrev pub IsByte : ℕ → Type 0
IsByte c = c < 256

abbrev pub IsChar : ℕ → Type 0
IsChar c = (0 < c) × (c < 256)

abbrev pub IsText : Bytes → Type 0
IsText = All IsChar

-- `pure64_strlen`
unfoldable pub strlen : Bytes → ℕ
strlen [] = 0
strlen (c ∷ cs) = if c == 0 then 0 else suc (strlen cs)

-- The text in a buffer: what stands before the first NUL.
abbrev pub text : Bytes → Bytes
text [] = []
text (c ∷ cs) = if c == 0 then [] else c ∷ text cs

-- `pure64_memset`: the first `size` bytes are set to the value as an unsigned char. A write behind
-- the end of the list is left out.
unfoldable pub memset : Bytes → ℕ → ℕ → Bytes
memset dst value zero = dst
memset [] value (suc size) = []
memset (d ∷ dst) value (suc size) = (value % 256) ∷ memset dst value size

-- `pure64_memcpy`: the first `size` bytes are taken from the source.
unfoldable pub memcpy : Bytes → Bytes → ℕ → Bytes
memcpy dst src zero = dst
memcpy [] src (suc size) = []
memcpy (d ∷ dst) [] (suc size) = d ∷ dst
memcpy (d ∷ dst) (s ∷ src) (suc size) = s ∷ memcpy dst src size

-- The values 1, -1 and 0 of `pure64_strcmp`.
pub data Cmp : Type 0 where
  greater less equal : Cmp

-- `char` is signed on x86-64: the values in the order of the signed characters.
abbrev pub signed_rank : ℕ → ℕ
signed_rank c = (c + 128) % 256

abbrev pub compare_char : ℕ → ℕ → Cmp
compare_char a b =
    if ltb (signed_rank b) (signed_rank a)
    then greater
    else if ltb (signed_rank a) (signed_rank b)
    then less
    else equal

abbrev pub first_char : Bytes → ℕ
first_char [] = 0
first_char (c ∷ cs) = c

-- `pure64_strcmp`
unfoldable pub strcmp : Bytes → Bytes → Cmp
strcmp [] b = compare_char 0 (first_char b)
strcmp (x ∷ a) [] = compare_char x 0
strcmp (x ∷ a) (y ∷ b) =
    let rest = strcmp a b in
    if x == 0 then compare_char x y else if x == y then rest else compare_char x y

abbrev pub is_equal : Cmp → Bool
is_equal equal = true
is_equal _ = false

-- The test `pure64_strcmp(a, b) == 0`.
unfoldable pub same : Bytes → Bytes → Bool
unfolding strcmp
same a b = is_equal (strcmp a b)

-- What `malloc(strlen(name) + 1)`, `memcpy` and the terminator leave of a name, without the
-- terminator.
unfoldable pub copy_name : Bytes → Bytes
unfolding strlen memcpy
copy_name name = take (strlen name) (memcpy (replicate (suc (strlen name)) 0) name (strlen name))
