-- ===== src/Path/Idempotent.antt =====
-- `pure64_path_normalize` on its own results.
use pure.Prelude.{
  ◌≡◌, ◌∙◌, sym, Option, none, some, List, [], ◌∷◌, ◌++◌, map, All, All-append, drop_last,
  Bool-cases, inl, inr,
}
use pure.Run.{Mem, done, Outcome}
use pure.CString.{Bytes, same}
use pure.Path.{FilePath, named, dot, dot_dot, path_normalize}
use pure.Path.Normalize.{
  walk, walk_plain, path_normalize-walk, IsPlain, drop_last-IsPlain, outcome_of,
}

abbrev PlainResult : Option (List Bytes) → Type 0
PlainResult none = Unit
PlainResult (some ns) = All IsPlain ns

walk-IsPlain : (rest kept : List Bytes) → All IsPlain kept → PlainResult (walk kept rest)
walk-IsPlain [] kept h = h
walk-IsPlain (n ∷ []) [] h = elim (Bool-cases (same n dot)) [
  | inl e ↦ rw (e, walk) tt
  | inr e ↦ elim (Bool-cases (same n dot_dot)) [
    | inl e' ↦ rw (e, e', walk) tt
    | inr e' ↦ rw (e, e', walk) ((e, e'), tt)
  ]
]
walk-IsPlain (n ∷ p ∷ rest) [] h = elim (Bool-cases (same n dot)) [
  | inl e ↦ rw (e, walk) (walk-IsPlain (p ∷ rest) [] h)
  | inr e ↦ elim (Bool-cases (same n dot_dot)) [
    | inl e' ↦ rw (e, e', walk) tt
    | inr e' ↦ rw (e, e', walk) (walk-IsPlain (p ∷ rest) (n ∷ []) ((e, e'), tt))
  ]
]
walk-IsPlain (n ∷ rest) (k ∷ ks) h = elim (Bool-cases (same n dot)) [
  | inl e ↦ rw (e, walk) (walk-IsPlain rest (k ∷ ks) h)
  | inr e ↦ elim (Bool-cases (same n dot_dot)) [
    | inl e' ↦ rw (e, e', walk) (walk-IsPlain rest (drop_last (k ∷ ks)) (drop_last-IsPlain k ks h))
    | inr e' ↦
        rw (e, e', walk)
          (walk-IsPlain rest ((k ∷ ks) ++ n ∷ [])
            (All-append IsPlain (k ∷ ks) (n ∷ []) h ((e, e'), tt)))
  ]
]

-- Names that the reference keeps are normal.
normal_again :
    (qs : List Bytes) (m : Mem)
    → All IsPlain qs
    → path_normalize (map named qs) m ≡ done (map named qs) m
normal_again qs m h = rw (path_normalize-walk qs m, walk_plain [] qs h)

-- If normalizing a path ends, then the result holds neither `.` nor `..`, and normalizing the
-- result once more gives it back.
pub path_normalize-IsPlain :
    (ns : List Bytes) (m m' : Mem) {path : FilePath}
    → path_normalize (map named ns) m ≡ done path m'
    → (qs : List Bytes) × (path ≡ map named qs)
      × All IsPlain qs
      × (path_normalize path m' ≡ done path m')
path_normalize-IsPlain ns m m' {path} e =
    go (walk [] ns) (sym e ∙ path_normalize-walk ns m) (walk-IsPlain ns [] tt)
  where
    go :
        (o : Option (List Bytes))
        → done path m' ≡ outcome_of o m
        → PlainResult o
        → (qs : List Bytes) × (path ≡ map named qs)
          × All IsPlain qs
          × (path_normalize path m' ≡ done path m')
    go none w h = absurd (done-ne-fault w)
      where
        done-ne-fault : done path m' ≡ Outcome.fault → ⊥
        done-ne-fault f = cc
    go (some qs) w h = let q : path ≡ map named qs = cc in (qs, q, h, rw q (normal_again qs m' h))
