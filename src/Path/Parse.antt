-- ===== src/Path/Parse.antt =====
-- `pure64_path_parse` against splitting at the separators.
use pure.Prelude.{
  ℕ, ◌+◌, ◌<◌, ◌≤◌, ◌≡◌, refl, List, [], ◌∷◌, ◌++◌, map, append_assoc, append-nil, ◌∙◌, leb, lt→ltb,
  if◌then◌else◌, length, length-append, All-append, Bool-cases, inl, inr, arith,
}
use pure.Run.{M, Mem, ◌>>=◌}
use pure.Run.Agrees.{Answer, value, Agrees, Agrees-and_then, alloc-Agrees, ret-Agrees}
use pure.CString.{Bytes, IsText, IsChar, copy_name, strlen}
use pure.CString.Copy.{copy_name-text}
use pure.CString.Compare.{text_of_IsText}
use pure.Path.{
  FilePath, named, is_separator, path_push_child, path_parse, parse_loop, reserve, store,
}

-- The pieces between the separators, the empty ones too.
abbrev pub prepend : Bytes → List Bytes → List Bytes
prepend w [] = w ∷ []
prepend w (v ∷ vs) = (w ++ v) ∷ vs

abbrev pub fields : Bytes → List Bytes
fields [] = [] ∷ []
fields (c ∷ cs) =
    let rest = fields cs in if is_separator c then [] ∷ rest else prepend (c ∷ []) rest

abbrev pub nonempty : List Bytes → List Bytes
nonempty [] = []
nonempty ([] ∷ ws) = nonempty ws
nonempty ((c ∷ cs) ∷ ws) = (c ∷ cs) ∷ nonempty ws

-- The names in a path string.
abbrev pub names_in : Bytes → List Bytes
names_in s = nonempty (fields s)

strlen_of_IsText : (s : Bytes) → IsText s → strlen s ≡ length s
unfolding strlen
strlen_of_IsText [] h = refl
strlen_of_IsText (c ∷ s) h = ground (arith, strlen_of_IsText s h.1)

pub copy_name_of_IsText : (s : Bytes) → IsText s → copy_name s ≡ s
copy_name_of_IsText s h = copy_name-text s ∙ text_of_IsText s h

-- A pushed name stands behind the others.
pub path_push_child-Agrees :
    (path : FilePath) (name : Bytes) (m : Mem)
    → IsText name
    → Agrees m (value (path ++ named name ∷ [])) (path_push_child path name m)
unfolding path_push_child
path_push_child-Agrees path name m h =
    rw (copy_name_of_IsText name h, strlen_of_IsText name h)
      (Agrees-and_then _ (alloc-Agrees m)
        λ m₁. Agrees-and_then _ (alloc-Agrees m₁) λ m₂. ret-Agrees _ m₂)

reserve-Agrees :
    (tmp_size tmp_res : ℕ) (m : Mem)
    → Agrees m
        (value (if leb tmp_res (tmp_size + 1) then tmp_res + 64 else tmp_res))
        (reserve tmp_size tmp_res m)
reserve-Agrees tmp_size tmp_res m = elim (Bool-cases (leb tmp_res (tmp_size + 1))) [
  | inl e ↦ rw e (Agrees-and_then _ (alloc-Agrees m) λ m₁. ret-Agrees _ m₁)
  | inr e ↦ rw e (ret-Agrees _ m)
]

store-Agrees :
    (tmp : Bytes) (res c : ℕ) (m : Mem)
    → length tmp + 1 < res
    → Agrees m (value (tmp ++ c ∷ [])) (store tmp res c m)
store-Agrees tmp res c m h = rw (lt→ltb _ _ h) (ret-Agrees _ m)

pub prepend-prepend :
    (u v : Bytes) (ws : List Bytes) → prepend u (prepend v ws) ≡ prepend (u ++ v) ws
prepend-prepend u v [] = refl
prepend-prepend u v (w ∷ ws) = rw append_assoc

pub prepend_nil : (s : Bytes) → prepend [] (fields s) ≡ fields s
prepend_nil [] = refl
prepend_nil (c ∷ s) = elim (Bool-cases (is_separator c)) [
  | inl e ↦ rw e
  | inr e ↦ rw e (prepend-prepend [] (c ∷ []) (fields s))
]

-- A character that is no separator, followed by the rest of the loop.
parse_char-Agrees :
    (tmp : Bytes) (res c : ℕ) (m : Mem) {y : Answer FilePath} (k : Bytes → ℕ → M Mem FilePath)
    → length tmp ≤ res
    → ((res' : ℕ) (m' : Mem)
        → length (tmp ++ c ∷ []) ≤ res'
        → Agrees m' y (k (tmp ++ c ∷ []) res' m'))
    → Agrees m y ((reserve (length tmp) res >>= λ res'. store tmp res' c >>= λ tmp'. k tmp' res') m)
parse_char-Agrees tmp res c m k h rest = Agrees-and_then _ (reserve-Agrees (length tmp) res m) λ m₁.
    Agrees-and_then _ (store-Agrees tmp _ c m₁ (ground arith))
      λ m₂. rest _ m₂ (rw length-append (ground arith))

-- The pushes of the loop, from any state that the loop can reach.
parse_loop-Agrees :
    (s : Bytes) (path : FilePath) (tmp : Bytes) (res : ℕ) (m : Mem)
    → IsText s
    → IsText tmp
    → length tmp ≤ res
    → Agrees m
        (value (path ++ map named (nonempty (prepend tmp (fields s)))))
        (parse_loop s path tmp res m)
unfolding parse_loop
parse_loop-Agrees [] path [] res m hs ht hr = rw append-nil (ret-Agrees path m)
parse_loop-Agrees [] path (t ∷ ts) res m hs ht hr =
    rw append-nil (path_push_child-Agrees path (t ∷ ts) m ht)
parse_loop-Agrees (c ∷ s) path [] res m hs ht hr = elim (Bool-cases (is_separator c)) [
  | inl e ↦ rw (e, parse_loop) (rw prepend_nil at (parse_loop-Agrees s path [] res m hs.1 ht hr))
  | inr e ↦
      rw (e, parse_loop, prepend-prepend)
        (parse_char-Agrees [] res c m (parse_loop s path) hr
          λ res' m' hr'. parse_loop-Agrees s path (c ∷ []) res' m' hs.1 (hs.0, tt) hr')
]
parse_loop-Agrees (c ∷ s) path (t ∷ ts) res m hs ht hr = elim (Bool-cases (is_separator c)) [
  | inl e ↦
      rw (e, parse_loop, append-nil)
        (Agrees-and_then _ (path_push_child-Agrees path (t ∷ ts) m ht) λ m₁.
          rw (prepend_nil, append_assoc) at
            (parse_loop-Agrees s (path ++ named (t ∷ ts) ∷ []) [] res m₁ hs.1 tt (omega arith)))
  | inr e ↦
      rw (e, parse_loop, prepend-prepend)
        (parse_char-Agrees (t ∷ ts) res c m (parse_loop s path) hr λ res' m' hr'.
          parse_loop-Agrees s path (t ∷ ts ++ c ∷ []) res' m' hs.1
            (All-append IsChar (t ∷ ts) (c ∷ []) ht (hs.0, tt)) hr')
]

-- For every string, which has no NUL before its end, and whatever the allocator answers, the
-- parser appends the nonempty pieces between the separators to the path, or fails with ENOMEM, and
-- that only where a request was refused. It never stores a character outside of its buffer.
pub path_parse-Agrees :
    (path : FilePath) (s : Bytes) (m : Mem)
    → IsText s
    → Agrees m (value (path ++ map named (names_in s))) (path_parse path s m)
unfolding path_parse
path_parse-Agrees path s m h =
    rw prepend_nil at (parse_loop-Agrees s path [] 0 m h tt (omega arith))
