-- ===== src/Path/Normalize.antt =====
-- What `pure64_path_normalize` leaves of a path, and when it reads a name that it has freed.
use pure.Prelude.{
  ℕ, zero, suc, ◌<◌, ◌≡◌, refl, ap, ◌∙◌, ◌↔◌, Bool, true, false, Option, none, some, List, [], ◌∷◌,
  ◌++◌, map, append_assoc, append-nil, length, length-append, get_elem?, drop_last, arith, All,
}
use pure.Run.{Outcome, Mem, done, fault}
use pure.CString.{Bytes, same}
use pure.Path.{FilePath, named, dot, dot_dot, remove_at, free_first, normalize_loop, path_normalize}

-- The reference: a stack of the names that are kept. `none` where the code goes on to read the
-- name that it freed: a `..` that finds the stack empty and is not the last name.
abbrev pub walk : List Bytes → List Bytes → Option (List Bytes)
walk kept [] = some kept
walk kept (n ∷ rest) = elim (same n dot) [
  | true ↦ walk kept rest
  | false ↦ elim (same n dot_dot) [
    | false ↦ walk (kept ++ n ∷ []) rest
    | true ↦ elim kept [
      | [] ↦ elim rest [ [] ↦ some [] | _ ∷ _ ↦ none ]
      | k ∷ ks ↦ walk (drop_last (k ∷ ks)) rest
    ]
  ]
]

abbrev pub outcome_of : Option (List Bytes) → Mem → Outcome Mem FilePath
outcome_of none m = fault
outcome_of (some ns) m = done (map named ns) m

map-append_named : (xs ys : List Bytes) → map named (xs ++ ys) ≡ map named xs ++ map named ys
map-append_named [] ys = refl
map-append_named (x ∷ xs) ys = ap (λ t. named x ∷ t) (map-append_named xs ys)

get_elem?-middle :
    (kept : List Bytes) (n : Bytes) (rest : List Bytes)
    → get_elem? (map named (kept ++ n ∷ rest)) (length kept) ≡ some (named n)
get_elem?-middle [] n rest = refl
get_elem?-middle (k ∷ kept) n rest = get_elem?-middle kept n rest

get_elem?-end : (kept : List Bytes) → get_elem? (map named (kept ++ [])) (length kept) ≡ none
get_elem?-end [] = refl
get_elem?-end (k ∷ kept) = get_elem?-end kept

remove_at-middle :
    (kept : List Bytes) (n : Bytes) (rest : List Bytes)
    → remove_at (map named (kept ++ n ∷ rest)) (length kept) ≡ map named (kept ++ rest)
remove_at-middle [] n rest = refl
remove_at-middle (k ∷ kept) n rest = ap (λ t. named k ∷ t) (remove_at-middle kept n rest)

length-drop_last : (k : Bytes) (kept : List Bytes) → length (drop_last (k ∷ kept)) ≡ length kept
length-drop_last k [] = refl
length-drop_last k (l ∷ kept) = ap suc (length-drop_last l kept)

remove_twice :
    (k : Bytes) (kept : List Bytes) (n : Bytes) (rest : List Bytes)
    → remove_at (remove_at (map named ((k ∷ kept) ++ n ∷ rest)) (length kept)) (length kept)
      ≡ map named (drop_last (k ∷ kept) ++ rest)
remove_twice k [] n rest = refl
remove_twice k (l ∷ kept) n rest = ap (λ t. named k ∷ t) (remove_twice l kept n rest)

-- After a `..` at index 0 the loop sees the freed name if one name is left.
after_underflow :
    (f : ℕ) (n p : Bytes) (rest : List Bytes) (m : Mem)
    → normalize_loop (suc f) 0 (free_first (map named (n ∷ p ∷ rest))) m ≡ fault
unfolding normalize_loop
after_underflow f n p [] m = refl
after_underflow f n p (q ∷ rest) m = refl

normalize_loop-walk :
    (rest kept : List Bytes) (f : ℕ) (m : Mem)
    → length rest < f
    → normalize_loop f (length kept) (map named (kept ++ rest)) m ≡ outcome_of (walk kept rest) m
unfolding normalize_loop
normalize_loop-walk rest kept zero m h = absurd (omega arith)
normalize_loop-walk [] kept (suc f) m h = rw (get_elem?-end kept, normalize_loop, append-nil)
normalize_loop-walk (n ∷ rest) [] (suc zero) m h = absurd (omega arith)
normalize_loop-walk (n ∷ []) [] (suc (suc f)) m h = ground (
  arith,
  normalize_loop-walk [] [] (suc f) m (omega arith),
  normalize_loop-walk [] (n ∷ []) (suc f) m (omega arith),
)
normalize_loop-walk (n ∷ p ∷ rest) [] (suc (suc f)) m h = ground (
  arith,
  normalize_loop-walk (p ∷ rest) [] (suc f) m (omega arith),
  normalize_loop-walk (p ∷ rest) (n ∷ []) (suc f) m (omega arith),
  after_underflow f n p rest m,
)
normalize_loop-walk (n ∷ rest) (k ∷ ks) (suc f) m h = ground (
  arith,
  get_elem?-middle (k ∷ ks) n rest,
  remove_at-middle (k ∷ ks) n rest,
  remove_twice k ks n rest,
  length-drop_last k ks,
  append_assoc (k ∷ ks) (n ∷ []) rest,
  length-append (k ∷ ks) (n ∷ []),
  normalize_loop-walk rest (k ∷ ks) f m (omega arith),
  normalize_loop-walk rest (drop_last (k ∷ ks)) f m (omega arith),
  normalize_loop-walk rest ((k ∷ ks) ++ n ∷ []) f m (omega arith),
)

length-named : (ns : List Bytes) → length (map named ns) ≡ length ns
length-named [] = refl
length-named (n ∷ ns) = ap suc (length-named ns)

-- On any names the loop does what the stack does: it leaves the names that the stack keeps, or
-- reads a freed name exactly where the reference has no result. The fuel never runs out.
pub path_normalize-walk :
    (ns : List Bytes) (m : Mem) → path_normalize (map named ns) m ≡ outcome_of (walk [] ns) m
unfolding path_normalize
path_normalize-walk ns m =
    normalize_loop-walk ns [] (suc (length (map named ns))) m (omega (arith, length-named ns))

-- A `..` meets depth 0 with a name behind it.
abbrev pub climbs : ℕ → List Bytes → Bool
climbs depth [] = false
climbs depth (n ∷ rest) = elim (same n dot) [
  | true ↦ climbs depth rest
  | false ↦ elim (same n dot_dot) [
    | false ↦ climbs (suc depth) rest
    | true ↦ elim depth [ zero ↦ elim rest [ [] ↦ false | _ ∷ _ ↦ true ] | suc d ↦ climbs d rest ]
  ]
]

walk-climbs :
    (rest kept : List Bytes) → (walk kept rest ≡ none) ↔ (climbs (length kept) rest ≡ true)
walk-climbs [] kept = ground arith
walk-climbs (n ∷ []) [] = ground (arith, walk-climbs [] [], walk-climbs [] (n ∷ []))
walk-climbs (n ∷ p ∷ rest) [] =
    ground (arith, walk-climbs (p ∷ rest) [], walk-climbs (p ∷ rest) (n ∷ []))
walk-climbs (n ∷ rest) (k ∷ ks) = ground (
  arith,
  walk-climbs rest (k ∷ ks),
  walk-climbs rest (drop_last (k ∷ ks)),
  walk-climbs rest ((k ∷ ks) ++ n ∷ []),
  length-drop_last k ks,
  length-append (k ∷ ks) (n ∷ []),
)

outcome_of-fault : (o : Option (List Bytes)) (m : Mem) → (outcome_of o m ≡ fault) ↔ (o ≡ none)
outcome_of-fault none m = (λ e. refl, λ e. refl)
outcome_of-fault (some ns) m = (λ e. cc, λ e. cc)

-- `pure64_path_normalize` reads a freed name exactly for the paths in which a `..` leads above
-- the root while names follow it.
pub path_normalize-climbs :
    (ns : List Bytes) (m : Mem) → (path_normalize (map named ns) m ≡ fault) ↔ (climbs 0 ns ≡ true)
path_normalize-climbs ns m = rw (path_normalize-walk ns m) (
  λ e. (walk-climbs ns []).0 ((outcome_of-fault (walk [] ns) m).0 e),
  λ e. (outcome_of-fault (walk [] ns) m).1 ((walk-climbs ns []).1 e),
)

-- A name that is neither `.` nor `..`.
abbrev pub IsPlain : Bytes → Type 0
IsPlain n = (same n dot ≡ false) × (same n dot_dot ≡ false)

pub drop_last-IsPlain :
    (k : Bytes) (ks : List Bytes) → All IsPlain (k ∷ ks) → All IsPlain (drop_last (k ∷ ks))
drop_last-IsPlain k [] h = tt
drop_last-IsPlain k (l ∷ ks) h = (h.0, drop_last-IsPlain l ks h.1)

-- Plain names are kept as they are.
pub walk_plain : (kept rest : List Bytes) → All IsPlain rest → walk kept rest ≡ some (kept ++ rest)
walk_plain kept [] h = rw append-nil
walk_plain kept (n ∷ rest) h =
    rw (h.0.0, h.0.1, walk) (walk_plain (kept ++ n ∷ []) rest h.1 ∙ rw append_assoc)
