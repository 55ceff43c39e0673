-- ===== src/Fs/View/Find.antt =====
-- Lookups in the lists of entries, before and after a change.
use pure.Prelude.{
  ◌+◌, ◌^◌, ◌<◌, ◌≡◌, refl, ◌↔◌, false, none, some, List, [], ◌∷◌, ◌++◌, if◌then◌else◌, arith,
}
use pure.CString.{Bytes, IsText, same}
use pure.CString.Compare.{same_iff}
use pure.Dir.{
  File, Dir, dir, Dirs, nil, cons, dir_name, count, snoc, file_named, subdir_named, dir_name_exists,
}
use pure.Fs.{u32, find_first}
use pure.Fs.View.{leaf, find, find_leaf, view}

-- Every name in the list is free of NUL.
abbrev pub TextNames : Dirs → Type 0
TextNames nil = Unit
TextNames (cons d ds) = IsText (dir_name d) × TextNames ds

-- The first entry of that name is exchanged for another.
abbrev pub replace : Bytes → Dir → Dirs → Dirs
replace name d' nil = nil
replace name d' (cons d ds) =
    let rest = replace name d' ds in if same (dir_name d) name then cons d' ds else cons d rest

find_first-count : (n : Bytes) (ds : Dirs) → find_first (count ds) n ds ≡ find n ds
unfolding find_first
find_first-count n nil = refl
find_first-count n (cons d ds) = ground (arith, find_first-count n ds)

-- The bounded search of the code sees the whole list.
pub find_first-find :
    (n : Bytes) (ds : Dirs) → count ds + 1 < 2 ^ 32 → find_first (u32 (count ds)) n ds ≡ find n ds
find_first-find n ds h =
    let e : u32 (count ds) ≡ count ds = omega arith in rw e (find_first-count n ds)

pub find-snoc :
    (q : Bytes) (ds : Dirs) (e : Dir)
    → find q (snoc ds e)
      ≡ elim (find q ds) [ some d ↦ some d | none ↦ if same (dir_name e) q then some e else none ]
find-snoc q nil e = refl
find-snoc q (cons d ds) e = ground (arith, find-snoc q ds e)

pub find_leaf-snoc :
    (q : Bytes) (files : List File) (f : File)
    → find_leaf q (files ++ f ∷ []) ≡ elim (find_leaf q files) [
      | some x ↦ some x
      | none ↦ if same f.name q then some (leaf f.contents) else none
    ]
find_leaf-snoc q [] f = refl
find_leaf-snoc q (g ∷ files) f = ground (arith, find_leaf-snoc q files f)

-- Looking up a name after the exchange of the entry of a name.
pub find-replace :
    (n q : Bytes) (ds : Dirs) (d' d : Dir)
    → IsText n
    → IsText q
    → TextNames ds
    → find n ds ≡ some d
    → dir_name d' ≡ dir_name d
    → find q (replace n d' ds) ≡ (if same n q then some d' else find q ds)
find-replace n q nil d' d hn hq ht e k = cc
find-replace n q (cons c ds) d' d hn hq ht e k = ground (
  arith,
  same_iff (dir_name c) n ht.0 hn,
  same_iff (dir_name c) q ht.0 hq,
  same_iff n q hn hq,
  find-replace n q ds d' d hn hq ht.1,
)

subdir_named-find : (n : Bytes) (ds : Dirs) → (subdir_named ds n ≡ false) ↔ (find n ds ≡ none)
unfolding subdir_named
subdir_named-find n nil = (λ e. refl, λ e. refl)
subdir_named-find n (cons d ds) = ground (arith, subdir_named-find n ds)

file_named-find :
    (n : Bytes) (files : List File) → (file_named files n ≡ false) ↔ (find_leaf n files ≡ none)
unfolding file_named
file_named-find n [] = (λ e. refl, λ e. refl)
file_named-find n (f ∷ files) = ground (arith, file_named-find n files)

-- The test for an existing name asks whether the path of that one name leads anywhere.
pub dir_name_exists-view :
    (d : Dir) (n : Bytes) → (dir_name_exists d n ≡ false) ↔ (view (n ∷ []) d ≡ none)
unfolding dir_name_exists
dir_name_exists-view (dir name subdirs files) n =
    ground (arith, subdir_named-find n subdirs, file_named-find n files)
