-- ===== src/Path/Names.antt =====
-- Names and the path strings that are made of them.
use pure.Prelude.{
  ℕ, ◌<◌, ◌≡◌, refl, ap, ◌∙◌, false, List, [], ◌∷◌, ◌++◌, map, length, All, All-append, append-nil,
  arith,
}
use pure.CString.{Bytes, IsText, IsChar}
use pure.Run.{Mem}
use pure.Run.Agrees.{Agrees, value}
use pure.Path.{FilePath, named, is_separator, path_parse}
use pure.Path.Parse.{
  fields, prepend, nonempty, names_in, prepend_nil, prepend-prepend, path_parse-Agrees,
}

-- A name that a path string can hold: not empty, without NUL and without separators.
abbrev pub IsNameChar : ℕ → Type 0
IsNameChar c = IsChar c × (is_separator c ≡ false)

abbrev pub IsName : Bytes → Type 0
IsName w = (0 < length w) × All IsNameChar w

-- `/a/b/c`
abbrev pub join : List Bytes → Bytes
join [] = []
join (w ∷ ws) = b'/' ∷ (w ++ join ws)

fields-append : (w s : Bytes) → All IsNameChar w → fields (w ++ s) ≡ prepend w (fields s)
fields-append [] s h = rw prepend_nil
fields-append (c ∷ w) s h =
    rw (h.0.1, fields-append w s h.1) (prepend-prepend (c ∷ []) w (fields s))

-- Splitting a joined path gives its names back.
pub names_in-join : (ws : List Bytes) → All IsName ws → names_in (join ws) ≡ ws
names_in-join [] h = refl
names_in-join ([] ∷ ws) h = absurd (omega arith)
names_in-join ((c ∷ w) ∷ []) h = ap nonempty (fields-append (c ∷ w) [] h.0.1) ∙ rw append-nil refl
names_in-join ((c ∷ w) ∷ v ∷ ws) h =
    ap nonempty (fields-append (c ∷ w) (join (v ∷ ws)) h.0.1)
    ∙ rw append-nil (ap (λ t. (c ∷ w) ∷ t) (names_in-join (v ∷ ws) h.1))

join-IsText : (ws : List Bytes) → All IsName ws → IsText (join ws)
join-IsText [] h = tt
join-IsText (w ∷ ws) h =
    (omega arith, All-append IsChar w (join ws) (name_text w h.0.1) (join-IsText ws h.1))
  where
    name_text : (w : Bytes) → All IsNameChar w → IsText w
    name_text [] h = tt
    name_text (c ∷ w) h = (h.0.0, name_text w h.1)

-- For names that are not empty and have neither NUL nor separators, parsing the string `/a/b/…`
-- appends the names a, b, … to the path, or fails with ENOMEM, and that only where a request was
-- refused.
pub path_parse-join :
    (path : FilePath) (ws : List Bytes) (m : Mem)
    → All IsName ws
    → Agrees m (value (path ++ map named ws)) (path_parse path (join ws) m)
path_parse-join path ws m h =
    rw (names_in-join ws h) at (path_parse-Agrees path (join ws) m (join-IsText ws h))
