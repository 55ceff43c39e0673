-- ===== src/Fs/Open.antt =====
-- `pure64_fs_open_dir` and `pure64_fs_open_file` against the map from paths to nodes.
use pure.Prelude.{
  if◌then◌else◌, ℕ, zero, suc, sym, ◌+◌, ◌^◌, ◌<◌, ◌≡◌, refl, ◌≢◌, ◌∙◌, ap, Option, none, some,
  false, List, [], ◌∷◌, ◌++◌, length, All, arith, Option-cases, Bool-cases, inl, inr,
}
use mathlib.Core.Path.{subst}
use pure.Run.{Mem, Outcome, done, failed, fault, out_of_fuel, and_then}
use pure.Run.Agrees.{
  Granted, Agrees, value, error, gives, fails, starves, Agrees-map, Agrees-and_then, ret-Agrees,
}
use pure.CString.{Bytes, IsText, same}
use pure.CString.Compare.{same_iff}
use pure.Path.Resolve.{resolve, resolve-IsText}
use pure.Dir.{File, Dir, dir, Dirs, nil, cons, dir_name, count}
use pure.Fs.{
  Fs, u32_rounds, ended, find_dir, find_file, find_file_named, or_null, find_file_by_names,
  fs_open_dir, fs_open_file,
}
use pure.Fs.Names.{names_of-Agrees}
use pure.Fs.View.{
  Node, folder, leaf, find, find_leaf, view, IsValid, AllValid, IsRoomy, AllRoomy, AbsentFile,
  FewFiles, AllFewFiles,
}
use pure.Fs.View.Find.{find_first-find}
use pure.Fs.Create.{view-ne-folder, find-IsValid}

pub find-IsRoomy : (n : Bytes) (ds : Dirs) (c : Dir) → AllRoomy ds → find n ds ≡ some c → IsRoomy c
unfolding IsRoomy
find-IsRoomy n nil c h k = absurd (none-ne-some k)
  where
    none-ne-some : none ≡ some c → ⊥
    none-ne-some q = cc
find-IsRoomy n (cons d ds) c h k = elim (Bool-cases (same (dir_name d) n)) [
  | inl e ↦ subst IsRoomy (cc (rw e at k)) h.0
  | inr e ↦ find-IsRoomy n ds c h.1 (rw e at k)
]

-- The search of all files, without a count.
unfoldable pub scan_files : Bytes → List File → Option File
scan_files name [] = none
scan_files name (f ∷ files) = if same f.name name then some f else scan_files name files

-- A file is found where the loops find it without a count.
find_file_named-scan :
    (rounds : ℕ) (n : Bytes) (files : List File)
    → length files < rounds
    → find_file_named rounds n files ≡ some (scan_files n files)
unfolding find_file_named scan_files
find_file_named-scan zero n files h = absurd (omega arith)
find_file_named-scan (suc rounds) n [] h = refl
find_file_named-scan (suc rounds) n (f ∷ files) h = elim (Bool-cases (same f.name n)) [
  | inl e ↦ rw e refl
  | inr e ↦ rw e (find_file_named-scan rounds n files (omega arith))
]

pub find-FewFiles :
    (k : ℕ) (n : Bytes) (ds : Dirs) (c : Dir) → AllFewFiles k ds → find n ds ≡ some c → FewFiles k c
unfolding FewFiles
find-FewFiles k n nil c h e = absurd (none-ne-some e)
  where
    none-ne-some : none ≡ some c → ⊥
    none-ne-some q = cc
find-FewFiles k n (cons d ds) c h q = elim (Bool-cases (same (dir_name d) n)) [
  | inl e ↦ subst (FewFiles k) (cc (rw e at q)) h.0
  | inr e ↦ find-FewFiles k n ds c h.1 (rw e at q)
]

-- A directory that is found has the part of the map below its path; where none is found, the
-- path leads to no directory.
abbrev pub FoundDir : List Bytes → Dir → Option Dir → Type 0
FoundDir ns root none = view ns root ≢ some folder
FoundDir ns root (some d) = (qs : List Bytes) → view qs d ≡ view (ns ++ qs) root

found_below :
    (n : Bytes) (ns : List Bytes) (name : Bytes) (subdirs : Dirs) (files : List File) (c : Dir)
    (o : Option Dir)
    → find n subdirs ≡ some c
    → FoundDir ns c o
    → FoundDir (n ∷ ns) (dir name subdirs files) o
found_below n ns name subdirs files c none k h = rw (k, view) h
found_below n ns name subdirs files c (some d) k h = λ qs. rw (k, view) (h qs)

-- One round of the loops, by the search of the whole list.
find_dir-step :
    (n : Bytes) (ns : List Bytes) (name : Bytes) (subdirs : Dirs) (files : List File)
    {o : Option Dir}
    → count subdirs + 1 < 2 ^ 32
    → find n subdirs ≡ o
    → find_dir (n ∷ ns) (dir name subdirs files) ≡ elim o [ none ↦ none | some d ↦ find_dir ns d ]
unfolding find_dir
find_dir-step n ns name subdirs files h k =
    ap (λ (o : Option Dir). elim o as (λ x. Option Dir) [ none ↦ none | some d ↦ find_dir ns d ])
      (find_first-find n subdirs h ∙ k)

find_file-step :
    (n p : Bytes) (rest : List Bytes) (name : Bytes) (subdirs : Dirs) (files : List File)
    {o : Option Dir}
    → count subdirs + 1 < 2 ^ 32
    → find n subdirs ≡ o
    → find_file n (p ∷ rest) (dir name subdirs files)
      ≡ elim o [ none ↦ some none | some d ↦ find_file p rest d ]
unfolding find_file
find_file-step n p rest name subdirs files h k =
    ap
      (λ (o : Option Dir). elim o as (λ x. Option (Option File)) [
        | none ↦ some none
        | some d ↦ find_file p rest d
      ])
      (find_first-find n subdirs h ∙ k)

pub find_dir-FoundDir :
    (ns : List Bytes) (root : Dir) → IsRoomy root → FoundDir ns root (find_dir ns root)
unfolding IsRoomy
find_dir-FoundDir [] root r = unfold find_dir in λ qs. refl
find_dir-FoundDir (n ∷ ns) (dir name subdirs files) r = elim (Option-cases (find n subdirs)) [
  | inl k ↦
      rw (find_dir-step n ns name subdirs files r.0 k) (view-ne-folder n ns name subdirs files k)
  | inr (c, k) ↦ rw (find_dir-step n ns name subdirs files r.0 k) (
      found_below n ns name subdirs files c _ k
        (find_dir-FoundDir ns c (find-IsRoomy n subdirs c r.1 k)))
]

-- The contents of a file that a path leads to.
abbrev pub leaf_at : Option Node → Option Bytes
leaf_at none = none
leaf_at (some folder) = none
leaf_at (some (leaf contents)) = some contents

abbrev pub contents_of : Option File → Option Bytes
contents_of none = none
contents_of (some f) = some f.contents

scan_files-leaf :
    (n : Bytes) (files : List File) → contents_of (scan_files n files) ≡ leaf_at (find_leaf n files)
unfolding scan_files
scan_files-leaf n [] = refl
scan_files-leaf n (f ∷ files) = ground (arith, scan_files-leaf n files)

AbsentFile-none : (n : Bytes) (files : List File) → AbsentFile n files → scan_files n files ≡ none
unfolding scan_files
AbsentFile-none n [] h = refl
AbsentFile-none n (f ∷ files) h = rw h.0 (AbsentFile-none n files h.1)

-- No file has the name of a directory beside it.
no_file_beside :
    (n : Bytes) (files : List File) (ds : Dirs) (c : Dir)
    → IsText n
    → AllValid files ds
    → find n ds ≡ some c
    → scan_files n files ≡ none
unfolding IsValid
no_file_beside n files nil c hn v k = absurd (none-ne-some k)
  where
    none-ne-some : none ≡ some c → ⊥
    none-ne-some q = cc
no_file_beside n files (cons d ds) c hn v k = elim (Bool-cases (same (dir_name d) n)) [
  | inl e ↦
      AbsentFile-none n files
        (subst (λ x. AbsentFile x files) ((same_iff (dir_name d) n v.0 hn).0 e) v.3)
  | inr e ↦ no_file_beside n files ds c hn v.4 (rw e at k)
]

-- The search for a file ends, with what its path leads to.
abbrev pub FindsFile : Option (Option File) → Option Node → Type 0
FindsFile r v = (o : Option File) × (r ≡ some o) × (contents_of o ≡ leaf_at v)

find_here :
    (n : Bytes) (name : Bytes) (subdirs : Dirs) (files : List File) (v : Option Node)
    → length files < u32_rounds
    → contents_of (scan_files n files) ≡ leaf_at v
    → FindsFile (find_file n [] (dir name subdirs files)) v
unfolding find_file
find_here n name subdirs files v h e =
    (scan_files n files, find_file_named-scan u32_rounds n files h, e)

pub find_file-view :
    (n : Bytes) (rest : List Bytes) (root : Dir)
    → All IsText (n ∷ rest)
    → IsValid root
    → IsRoomy root
    → FewFiles u32_rounds root
    → FindsFile (find_file n rest root) (view (n ∷ rest) root)
unfolding IsValid IsRoomy FewFiles
find_file-view n [] (dir name subdirs files) t v r w =
    find_here n name subdirs files (view (n ∷ []) (dir name subdirs files)) w.0
      (elim (Option-cases (find n subdirs)) [
        | inl k ↦ rw (k, view) (scan_files-leaf n files)
        | inr (c, k) ↦ rw (k, view, no_file_beside n files subdirs c t.0 v.0 k) refl
      ])
find_file-view n (p ∷ rest) (dir name subdirs files) t v r w =
    elim (Option-cases (find n subdirs)) [
      | inl k ↦ (none, find_file-step n p rest name subdirs files r.0 k, rw (k, view) refl)
      | inr (c, k) ↦
          let (o, e, l) =
            find_file-view p rest c t.1 (find-IsValid n files subdirs v.0 k)
              (find-IsRoomy n subdirs c r.1 k) (find-FewFiles u32_rounds n subdirs c w.1 k) in
          (o, find_file-step n p rest name subdirs files r.0 k ∙ e, rw (k, view) l)
    ]

pub find_file_by_names-view :
    (ns : List Bytes) (root : Dir)
    → All IsText ns
    → IsValid root
    → IsRoomy root
    → FewFiles u32_rounds root
    → FindsFile (find_file_by_names root ns) (view ns root)
find_file_by_names-view [] root t v r w = (none, refl, refl)
find_file_by_names-view (n ∷ rest) root t v r w = find_file-view n rest root t v r w

pub Agrees-ended :
    {A B : Type 0} (f : A → Option B) {m : Mem} {a : A} {b : B} {r : Outcome Mem A}
    → f a ≡ some b
    → Agrees m (value a) r
    → Agrees m (value b) (and_then r (λ a. ended (f a)))
Agrees-ended f {b} e h =
    Agrees-and_then (λ a. ended (f a)) h
      (λ m'. subst (λ r. Agrees m' (value b) (ended r m')) (sym e) (ret-Agrees b m'))

-- A lookup gives `o`, or NULL at the first request that was refused.
pub data LooksUp {A : Type 0} (m : Mem) (o : Option A) : Outcome Mem (Option A) → Type 0 where
  looked_up : {o' : Option A} {m' : Mem} → o' ≡ o → Granted m m' → LooksUp m o (done o' m')
  no_memory :
      {o' : Option A} {m' : Mem} → o' ≡ none → Granted m (false ∷ m') → LooksUp m o (done o' m')

or_null-LooksUp :
    {A : Type 0} (m : Mem) (o : Option A) (r : Outcome Mem (Option A))
    → Agrees m (value o) r
    → LooksUp m o (or_null r)
or_null-LooksUp m o (done o' m') (gives p h) = looked_up (cc) h
or_null-LooksUp m o (failed e m') (fails p h) = absurd (value-ne-error p)
  where
    value-ne-error : value o ≡ error e → ⊥
    value-ne-error q = cc
or_null-LooksUp m o (failed e m') (starves p n) = no_memory refl n
or_null-LooksUp m o fault h = elim h [ ]
or_null-LooksUp m o out_of_fuel h = elim h [ ]

module _ (fs : Fs) (s : Bytes) (m : Mem) {ns : List Bytes} (text : IsText s)
    (leads : resolve s ≡ some ns) (small : length ns < 2 ^ 32) (roomy : IsRoomy fs.root) where
  -- No directory has 2 ^ 32 - 1 subdirectories or more, and the path, without NUL, resolves to the
  -- names `ns`, fewer than 2 ^ 32. Then `pure64_fs_open_dir` gives a directory from which every
  -- path leads to what it leads to from `ns`, or NULL if `ns` leads to no directory. Where a
  -- request was refused it may give NULL in the first case too.
  pub fs_open_dir-LooksUp :
      (o : Option Dir) × LooksUp m o (fs_open_dir fs s m) × FoundDir ns fs.root o
  unfolding fs_open_dir
  fs_open_dir-LooksUp = (
    find_dir ns fs.root,
    or_null-LooksUp m _ _ (
        Agrees-map (λ names. find_dir names fs.root) (value ns)
          (names_of-Agrees s m text leads small)),
    find_dir-FoundDir ns fs.root roomy,
  )

  -- The file system is well formed, no directory of it has 2 ^ 32 - 1 subdirectories or more or
  -- 2 ^ 32 files or more, and the path, without NUL, resolves to the names `ns`, fewer than 2 ^ 32. Then, whatever the
  -- allocator answers: `pure64_fs_open_file` gives a file with the contents that `ns` leads to, or
  -- NULL if `ns` leads to no file. Where a request was refused it may give NULL in the first case
  -- too.
  pub fs_open_file-LooksUp :
      IsValid fs.root
      → FewFiles u32_rounds fs.root
      → (o : Option File) × LooksUp m o (fs_open_file fs s m)
        × (contents_of o ≡ leaf_at (view ns fs.root))
  unfolding fs_open_file
  fs_open_file-LooksUp valid few =
      let (o, e, k) =
        find_file_by_names-view ns fs.root (resolve-IsText s text leads) valid roomy few in
      (
        o,
        or_null-LooksUp m o _
            (Agrees-ended (find_file_by_names fs.root) e (names_of-Agrees s m text leads small)),
        k,
      )
