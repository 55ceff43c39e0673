-- ===== src/Path/Resolve.antt =====
-- The names that a path string leads through, after normalization.
use pure.Prelude.{
  ◌≡◌, Option, none, some, List, [], ◌∷◌, ◌++◌, All, All-append, drop_last, Bool-cases, inl, inr,
}
use pure.CString.{Bytes, IsText, IsChar, same}
use pure.Path.{dot, dot_dot, is_separator}
use pure.Path.Parse.{names_in, fields, prepend, nonempty}
use pure.Path.Normalize.{walk}

-- `none` for the paths on which `pure64_path_normalize` reads a freed name.
abbrev pub resolve : Bytes → Option (List Bytes)
resolve s = walk [] (names_in s)

module _ (P : Bytes → Type 0) where
  abbrev AllResult : Option (List Bytes) → Type 0
  AllResult none = Unit
  AllResult (some ns) = All P ns

  All-drop_last : (k : Bytes) (ks : List Bytes) → All P (k ∷ ks) → All P (drop_last (k ∷ ks))
  All-drop_last k [] h = tt
  All-drop_last k (l ∷ ks) h = (h.0, All-drop_last l ks h.1)

  -- What the walk keeps comes from the names that it was given.
  walk-All : (rest kept : List Bytes) → All P kept → All P rest → AllResult (walk kept rest)
  walk-All [] kept h r = h
  walk-All (n ∷ []) [] h r = elim (Bool-cases (same n dot)) [
    | inl e ↦ rw (e, walk) tt
    | inr e ↦ elim (Bool-cases (same n dot_dot)) [
      | inl e' ↦ rw (e, e', walk) tt
      | inr e' ↦ rw (e, e', walk) r
    ]
  ]
  walk-All (n ∷ p ∷ rest) [] h r = elim (Bool-cases (same n dot)) [
    | inl e ↦ rw (e, walk) (walk-All (p ∷ rest) [] h r.1)
    | inr e ↦ elim (Bool-cases (same n dot_dot)) [
      | inl e' ↦ rw (e, e', walk) tt
      | inr e' ↦ rw (e, e', walk) (walk-All (p ∷ rest) (n ∷ []) (r.0, tt) r.1)
    ]
  ]
  walk-All (n ∷ rest) (k ∷ ks) h r = elim (Bool-cases (same n dot)) [
    | inl e ↦ rw (e, walk) (walk-All rest (k ∷ ks) h r.1)
    | inr e ↦ elim (Bool-cases (same n dot_dot)) [
      | inl e' ↦ rw (e, e', walk) (walk-All rest (drop_last (k ∷ ks)) (All-drop_last k ks h) r.1)
      | inr e' ↦
          rw (e, e', walk)
            (walk-All rest ((k ∷ ks) ++ n ∷ []) (All-append P (k ∷ ks) (n ∷ []) h (r.0, tt)) r.1)
    ]
  ]

All-prepend : (w : Bytes) (ws : List Bytes) → IsText w → All IsText ws → All IsText (prepend w ws)
All-prepend w [] h k = (h, tt)
All-prepend w (v ∷ ws) h k = (All-append IsChar w v h k.0, k.1)

fields-IsText : (s : Bytes) → IsText s → All IsText (fields s)
fields-IsText [] h = (tt, tt)
fields-IsText (c ∷ s) h = elim (Bool-cases (is_separator c)) [
  | inl e ↦ rw e (tt, fields-IsText s h.1)
  | inr e ↦ rw e (All-prepend (c ∷ []) (fields s) (h.0, tt) (fields-IsText s h.1))
]

nonempty-IsText : (ws : List Bytes) → All IsText ws → All IsText (nonempty ws)
nonempty-IsText [] h = tt
nonempty-IsText ([] ∷ ws) h = nonempty-IsText ws h.1
nonempty-IsText ((c ∷ w) ∷ ws) h = (h.0, nonempty-IsText ws h.1)

-- The resolved names of a string without NUL have no NUL.
pub resolve-IsText : (s : Bytes) {ns : List Bytes} → IsText s → resolve s ≡ some ns → All IsText ns
resolve-IsText s h e =
    rw e at (walk-All IsText (names_in s) [] tt (nonempty-IsText (fields s) (fields-IsText s h)))
