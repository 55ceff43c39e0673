-- ===== src/Fs/Valid.antt =====
-- Additions keep the tree well formed.
use pure.Prelude.{
  ◌≡◌, refl, true, false, List, [], ◌∷◌, ◌++◌, if◌then◌else◌, All, All-append, arith, Bool-cases,
  inl, inr,
}
use pure.Run.Agrees.{Answer, value, error, answer_map}
use pure.CString.{Bytes, IsText, same}
use pure.CString.Compare.{same_comm}
use pure.Dir.{
  File, Dir, dir, Dirs, nil, cons, dir_name, snoc, file_named, subdir_named, dir_name_exists,
}
use pure.Fs.View.{IsValid, AllValid, Absent, AbsentFile, DistinctFiles}
use pure.Fs.Insert.{put_dir, put_file, updated, insert}

-- A tree that the code gives in place of `d` is well formed and has the name of `d`.
abbrev pub Keeps : Dir → Answer Dir → Type 0
Keeps d (value d') = IsValid d' × (dir_name d' ≡ dir_name d)
Keeps d (error e) = Unit

-- So too for subdirectories beside the files of their directory.
abbrev KeepsAll : List File → Dirs → Answer Dirs → Type 0
KeepsAll files ds (value ds') = AllValid files ds' × ((x : Bytes) → Absent x ds → Absent x ds')
KeepsAll files ds (error e) = Unit

subdir_named-Absent : (n : Bytes) (ds : Dirs) → subdir_named ds n ≡ false → Absent n ds
unfolding subdir_named
subdir_named-Absent n nil h = tt
subdir_named-Absent n (cons d ds) h = ground (arith, subdir_named-Absent n ds)

file_named-AbsentFile :
    (n : Bytes) (files : List File) → file_named files n ≡ false → AbsentFile n files
unfolding file_named
file_named-AbsentFile n [] h = tt
file_named-AbsentFile n (f ∷ files) h = ground (arith, file_named-AbsentFile n files)

Absent-snoc :
    (x : Bytes) (ds : Dirs) (e : Dir)
    → Absent x ds
    → same (dir_name e) x ≡ false
    → Absent x (snoc ds e)
Absent-snoc x nil e h k = (k, tt)
Absent-snoc x (cons d ds) e h k = (h.0, Absent-snoc x ds e h.1 k)

AllValid-snoc :
    (n : Bytes) (files : List File) (ds : Dirs)
    → IsText n
    → AllValid files ds
    → Absent n ds
    → AbsentFile n files
    → AllValid files (snoc ds (dir n nil []))
unfolding IsValid
AllValid-snoc n files nil hn h a b = (hn, (tt, tt, tt), tt, b, tt)
AllValid-snoc n files (cons d ds) hn h a b = (
  h.0,
  h.1,
  Absent-snoc (dir_name d) ds (dir n nil []) h.2 (rw same_comm at a.0),
  h.3,
  AllValid-snoc n files ds hn h.4 a.1 b,
)

AllValid-more_files :
    (n : Bytes) (files : List File) (ds : Dirs)
    → AllValid files ds
    → Absent n ds
    → AllValid (files ++ record { name = n; contents = [] } ∷ []) ds
unfolding IsValid
AllValid-more_files n files nil h a = tt
AllValid-more_files n files (cons d ds) h a = (
  h.0,
  h.1,
  h.2,
  All-append _ files _ h.3 (rw same_comm at a.0, tt),
  AllValid-more_files n files ds h.4 a.1,
)

DistinctFiles-snoc :
    (n : Bytes) (files : List File)
    → DistinctFiles files
    → AbsentFile n files
    → DistinctFiles (files ++ record { name = n; contents = [] } ∷ [])
DistinctFiles-snoc n [] h a = (tt, tt)
DistinctFiles-snoc n (f ∷ files) h a =
    (All-append _ files _ h.0 (rw same_comm at a.0, tt), DistinctFiles-snoc n files h.1 a.1)

-- What is asked of the function that adds an entry under a name that is free.
abbrev pub KeepsValid : (Dir → Bytes → Dir) → Type 0
KeepsValid put =
    (d : Dir) (n : Bytes)
    → IsText n
    → dir_name_exists d n ≡ false
    → IsValid d
    → IsValid (put d n) × (dir_name (put d n) ≡ dir_name d)

free_name :
    (n : Bytes) (subdirs : Dirs) (files : List File)
    → (if file_named files n then true else subdir_named subdirs n) ≡ false
    → Absent n subdirs × AbsentFile n files
free_name n subdirs files h =
    (subdir_named-Absent n subdirs (ground arith), file_named-AbsentFile n files (ground arith))

pub put_dir-KeepsValid : KeepsValid put_dir
unfolding IsValid dir_name_exists
put_dir-KeepsValid (dir name subdirs files) n hn e v =
    let a = free_name n subdirs files e in
    ((AllValid-snoc n files subdirs hn v.0 a.0 a.1, v.1, v.2), refl)

pub put_file-KeepsValid : KeepsValid put_file
unfolding IsValid dir_name_exists
put_file-KeepsValid (dir name subdirs files) n hn e v =
    let a = free_name n subdirs files e in
    (
      (
        AllValid-more_files n files subdirs v.0 a.0,
        All-append _ files _ v.1 (hn, tt),
        DistinctFiles-snoc n files v.2 a.1,
      ),
      refl,
    )

head_changed :
    (files : List File) (d : Dir) (ds : Dirs) (x : Answer Dir)
    → AllValid files (cons d ds)
    → Keeps d x
    → KeepsAll files (cons d ds) (answer_map (λ d'. cons d' ds) x)
unfolding IsValid
head_changed files d ds (value d') v k = rw k.1 ((v.0, k.0, v.2, v.3, v.4), λ x a. a)
head_changed files d ds (error e) v k = tt

tail_changed :
    (files : List File) (d : Dir) (ds : Dirs) (x : Answer Dirs)
    → AllValid files (cons d ds)
    → KeepsAll files ds x
    → KeepsAll files (cons d ds) (answer_map (cons d) x)
unfolding IsValid
tail_changed files d ds (value ds') v k =
    ((v.0, v.1, k.1 (dir_name d) v.2, v.3, k.0), λ x a. (a.0, k.1 x a.1))
tail_changed files d ds (error e) v k = tt

updated-KeepsAll :
    (n : Bytes) (g : Dir → Answer Dir) (files : List File) (ds : Dirs)
    → ((d : Dir) → IsValid d → Keeps d (g d))
    → AllValid files ds
    → KeepsAll files ds (updated n g ds)
unfolding IsValid
updated-KeepsAll n g files nil h v = tt
updated-KeepsAll n g files (cons d ds) h v = elim (Bool-cases (same (dir_name d) n)) [
  | inl e ↦ rw e (head_changed files d ds (g d) v (h d v.1))
  | inr e ↦ rw e (tail_changed files d ds _ v (updated-KeepsAll n g files ds h v.4))
]

in_dir :
    (name : Bytes) (subdirs : Dirs) (files : List File) (x : Answer Dirs)
    → IsValid (dir name subdirs files)
    → KeepsAll files subdirs x
    → Keeps (dir name subdirs files) (answer_map (λ ds. dir name ds files) x)
unfolding IsValid
in_dir name subdirs files (value ds) v k = ((k.0, v.1, v.2), refl)
in_dir name subdirs files (error e) v k = tt

-- An insertion into a well-formed tree gives a well-formed tree.
pub insert-Keeps :
    (put : Dir → Bytes → Dir) (n : Bytes) (rest : List Bytes) (d : Dir)
    → KeepsValid put
    → All IsText (n ∷ rest)
    → IsValid d
    → Keeps d (insert put n rest d)
unfolding IsValid
insert-Keeps put n [] d hp ht v = elim (Bool-cases (dir_name_exists d n)) [
  | inl e ↦ rw e tt
  | inr e ↦ rw e (hp d n ht.0 e v)
]
insert-Keeps put n (p ∷ rest) (dir name subdirs files) hp ht v = in_dir name subdirs files _ v (
    updated-KeepsAll n (insert put p rest) files subdirs
      (λ d vd. insert-Keeps put p rest d hp ht.1 vd) v.0)
