-- ===== src/Fs/Create.antt =====
-- The map from paths to nodes after a directory or a file was created.
use pure.Prelude.{
  ◌≡◌, refl, ◌≢◌, ◌∙◌, sym, true, false, none, some, List, [], ◌∷◌, if◌then◌else◌, All, arith,
  Bool-cases, inl, inr, Option-cases, drop_last,
}
use mathlib.Core.Path.{subst}
use pure.Error.{enoent, eexist}
use pure.Run.Agrees.{Answer, value, error, answer_map}
use pure.CString.{Bytes, IsText, same}
use pure.CString.Compare.{same_iff}
use pure.Dir.{File, Dir, dir, Dirs, nil, cons, dir_name, dir_name_exists}
use pure.Fs.View.{Node, folder, leaf, find, find_leaf, view, same_path, IsValid, AllValid}
use pure.Fs.View.Find.{
  replace, find-snoc, find_leaf-snoc, find-replace, dir_name_exists-view, TextNames,
}
use pure.Fs.Insert.{put_dir, put_file, insert, updated-find}

-- `new` stands at the path `ns` of `d'`, and every other path leads where it led in `d`.
abbrev pub OneMore : Node → List Bytes → Dir → Dir → Type 0
OneMore new ns d d' =
    (qs : List Bytes)
    → All IsText qs
    → view qs d' ≡ (if same_path ns qs then some new else view qs d)

-- What an addition at the path `ns` comes to.
pub data Creates (new : Node) (ns : List Bytes) (d : Dir) : Answer Dir → Type 0 where
  created :
      {d' : Dir}
      → view (drop_last ns) d ≡ some folder
      → view ns d ≡ none
      → OneMore new ns d d'
      → dir_name d' ≡ dir_name d
      → Creates new ns d (value d')
  exists_already : view ns d ≢ none → Creates new ns d (error eexist)
  no_parent : view (drop_last ns) d ≢ some folder → Creates new ns d (error enoent)

pub AllValid-TextNames : (files : List File) (ds : Dirs) → AllValid files ds → TextNames ds
unfolding IsValid
AllValid-TextNames files nil h = tt
AllValid-TextNames files (cons d ds) h = (h.0, AllValid-TextNames files ds h.4)

pub find-IsValid :
    (n : Bytes) (files : List File) (ds : Dirs) {c : Dir}
    → AllValid files ds
    → find n ds ≡ some c
    → IsValid c
unfolding IsValid
find-IsValid n files nil h k = absurd (none-ne-some k)
  where
    none-ne-some : {c : Dir} → none ≡ some c → ⊥
    none-ne-some q = cc
find-IsValid n files (cons d ds) h k = elim (Bool-cases (same (dir_name d) n)) [
  | inl e ↦ subst IsValid (cc (rw e at k)) h.1
  | inr e ↦ find-IsValid n files ds h.4 (rw e at k)
]

put_dir-OneMore :
    (n : Bytes) (d : Dir)
    → IsText n
    → view (n ∷ []) d ≡ none
    → OneMore folder (n ∷ []) d (put_dir d n)
put_dir-OneMore n (dir name subdirs files) hn h [] hq = refl
put_dir-OneMore n (dir name subdirs files) hn h (q ∷ []) hq =
    ground (arith, find-snoc q subdirs (dir n nil []), same_iff n q hn hq.0)
put_dir-OneMore n (dir name subdirs files) hn h (q ∷ p ∷ qs) hq =
    ground (arith, find-snoc q subdirs (dir n nil []), same_iff n q hn hq.0)

put_file-OneMore :
    (n : Bytes) (d : Dir)
    → IsText n
    → view (n ∷ []) d ≡ none
    → OneMore (leaf []) (n ∷ []) d (put_file d n)
put_file-OneMore n (dir name subdirs files) hn h [] hq = refl
put_file-OneMore n (dir name subdirs files) hn h (q ∷ []) hq =
    ground
      (arith, find_leaf-snoc q files (record { name = n; contents = [] }), same_iff n q hn hq.0)
put_file-OneMore n (dir name subdirs files) hn h (q ∷ p ∷ qs) hq =
    ground
      (arith, find_leaf-snoc q files (record { name = n; contents = [] }), same_iff n q hn hq.0)

find_leaf-ne-folder : (n : Bytes) (files : List File) → find_leaf n files ≢ some folder
find_leaf-ne-folder n [] e = cc
find_leaf-ne-folder n (f ∷ files) e = ground (arith, find_leaf-ne-folder n files)

-- Only a subdirectory leads to a directory.
pub view-ne-folder :
    (n : Bytes) (ps : List Bytes) (name : Bytes) (subdirs : Dirs) (files : List File)
    → find n subdirs ≡ none
    → view (n ∷ ps) (dir name subdirs files) ≢ some folder
view-ne-folder n [] name subdirs files h = rw (h, view) (find_leaf-ne-folder n files)
view-ne-folder n (p ∷ ps) name subdirs files h = rw (h, view) (λ e. cc)

-- An addition below a subdirectory is one in the directory.
below :
    (new : Node) (n p : Bytes) (rest : List Bytes) (name : Bytes) (subdirs : Dirs)
    (files : List File) (c : Dir) {x : Answer Dir}
    → IsText n
    → TextNames subdirs
    → find n subdirs ≡ some c
    → Creates new (p ∷ rest) c x
    → Creates new
        (n ∷ p ∷ rest)
        (dir name subdirs files)
        (answer_map (λ ds. dir name ds files) (answer_map (λ d'. replace n d' subdirs) x))
below new n p rest name subdirs files c hn ht k (created {d'} up e om dn) =
    created (rw (k, view) up) (rw (k, view) e) more refl
  where
    more :
        OneMore new (n ∷ p ∷ rest) (dir name subdirs files) (dir name (replace n d' subdirs) files)
    more [] hq = refl
    more (q ∷ qs) hq =
        ground (arith, find-replace n q subdirs d' c hn hq.0 ht, om qs hq.1, same_iff n q hn hq.0)
below new n p rest name subdirs files c hn ht k (exists_already h) = exists_already (rw (k, view) h)
below new n p rest name subdirs files c hn ht k (no_parent h) = no_parent (rw (k, view) h)

-- What is asked of the function that adds an entry: it makes one path lead to the new node.
abbrev pub Puts : Node → (Dir → Bytes → Dir) → Type 0
Puts new put =
    (n : Bytes) (d : Dir)
    → IsText n
    → view (n ∷ []) d ≡ none
    → OneMore new (n ∷ []) d (put d n) × (dir_name (put d n) ≡ dir_name d)

pub put_dir-Puts : Puts folder put_dir
put_dir-Puts n d hn h = (put_dir-OneMore n d hn h, refl)

pub put_file-Puts : Puts (leaf []) put_file
put_file-Puts n d hn h = (put_file-OneMore n d hn h, refl)

-- The insertion at any path.
pub insert-Creates :
    (new : Node) (put : Dir → Bytes → Dir) (n : Bytes) (rest : List Bytes) (d : Dir)
    → Puts new put
    → All IsText (n ∷ rest)
    → IsValid d
    → Creates new (n ∷ rest) d (insert put n rest d)
unfolding IsValid
insert-Creates new put n [] d hp ht hv = elim (Bool-cases (dir_name_exists d n)) [
  | inl e ↦ rw e (exists_already λ k. true-ne-false (sym e ∙ (dir_name_exists-view d n).1 k))
  | inr e ↦
      let k = (dir_name_exists-view d n).0 e in
      rw e (created refl k (hp n d ht.0 k).0 (hp n d ht.0 k).1)
]
  where
    true-ne-false : true ≡ false → ⊥
    true-ne-false q = cc
insert-Creates new put n (p ∷ rest) (dir name subdirs files) hp ht hv =
    rw updated-find (elim (Option-cases (find n subdirs)) [
      | inl k ↦ rw k (no_parent (view-ne-folder n _ name subdirs files k))
      | inr (c, k) ↦ rw k (
          below new n p rest name subdirs files c ht.0 (AllValid-TextNames files subdirs hv.0) k
            (insert-Creates new put p rest c hp ht.1 (find-IsValid n files subdirs hv.0 k)))
    ])
