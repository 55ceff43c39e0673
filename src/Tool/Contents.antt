-- ===== src/Tool/Contents.antt =====
-- The map from paths to nodes after a file was given other contents.
use pure.Prelude.{
  ℕ, zero, suc, ◌<◌, length, ◌≡◌, refl, sym, ap, ◌∙◌, ◌≢◌, none, some, List, [], ◌∷◌, if◌then◌else◌,
  All, arith, Bool-cases, Option-cases, inl, inr,
}
use pure.CString.{Bytes, IsText, same}
use pure.CString.Compare.{same_iff}
use pure.Dir.{File, Dir, dir, Dirs, nil, cons, dir_name, count}
use pure.Fs.{u32, u32_rounds}
use pure.Fs.View.{Node, folder, leaf, find, find_leaf, view, IsValid, IsRoomy, FewFiles}
use pure.Fs.View.Find.{replace, find-replace, TextNames}
use pure.Fs.Create.{OneMore, AllValid-TextNames, find-IsValid}
use pure.Fs.Open.{find-IsRoomy, find-FewFiles}
use pure.Tool.{set_file_named, set_in_first, set_contents}

some-injective : {A : Type 0} {a b : A} → some a ≡ some b → a ≡ b
some-injective e = cc

set_in_first-replace :
    (n : Bytes) (f : Dir → Dir) (ds : Dirs) {c : Dir}
    → find n ds ≡ some c
    → set_in_first (count ds) n f ds ≡ replace n (f c) ds
unfolding set_in_first
set_in_first-replace n f nil {c} h = absurd (none-ne-some h)
  where
    none-ne-some : none ≡ some c → ⊥
    none-ne-some q = cc
set_in_first-replace n f (cons d ds) {c} h = elim (Bool-cases (same (dir_name d) n)) [
  | inl e ↦ rw (e, set_in_first, replace) (ap (λ x. cons (f x) ds) (some-injective (rw e at h)))
  | inr e ↦ rw (e, set_in_first, replace) (ap (cons d) (set_in_first-replace n f ds (rw e at h)))
]

find_leaf-set :
    (rounds : ℕ) (contents n q : Bytes) (files : List File)
    → length files < rounds
    → IsText n
    → IsText q
    → All (λ (f : File). IsText f.name) files
    → find_leaf n files ≢ none
    → find_leaf q (set_file_named rounds contents n files)
      ≡ (if same n q then some (leaf contents) else find_leaf q files)
unfolding set_file_named
find_leaf-set zero contents n q files few hn hq ht k = absurd (omega arith)
find_leaf-set (suc rounds) contents n q [] few hn hq ht k = absurd (k refl)
find_leaf-set (suc rounds) contents n q (f ∷ files) few hn hq ht k = ground (
  arith,
  same_iff f.name n ht.0 hn,
  same_iff f.name q ht.0 hq,
  same_iff n q hn hq,
  find_leaf-set rounds contents n q files (omega arith) hn hq ht.1,
)

pub dir_name-set_contents :
    (contents n : Bytes) (rest : List Bytes) (d : Dir)
    → dir_name (set_contents contents n rest d) ≡ dir_name d
unfolding set_contents
dir_name-set_contents contents n [] (dir name subdirs files) = refl
dir_name-set_contents contents n (p ∷ rest) (dir name subdirs files) = refl

-- The change of a file in the directory itself, and that of one below.
set_here :
    (contents n : Bytes) (name : Bytes) (subdirs : Dirs) (files : List File)
    → length files < u32_rounds
    → IsText n
    → All (λ (f : File). IsText f.name) files
    → find n subdirs ≡ none
    → find_leaf n files ≢ none
    → OneMore
        (leaf contents)
        (n ∷ [])
        (dir name subdirs files)
        (dir name subdirs (set_file_named u32_rounds contents n files))
set_here contents n name subdirs files few hn ht k there [] hq = refl
set_here contents n name subdirs files few hn ht k there (q ∷ []) hq =
    ground (
      arith,
      find_leaf-set u32_rounds contents n q files few hn hq.0 ht there,
      same_iff n q hn hq.0,
    )
set_here contents n name subdirs files few hn ht k there (q ∷ p ∷ qs) hq =
    ground (arith, same_iff n q hn hq.0)

set_below :
    (new : Node) (n p : Bytes) (rest : List Bytes) (name : Bytes) (subdirs : Dirs)
    (files : List File) (c d' : Dir)
    → IsText n
    → TextNames subdirs
    → find n subdirs ≡ some c
    → dir_name d' ≡ dir_name c
    → OneMore new (p ∷ rest) c d'
    → OneMore new (n ∷ p ∷ rest) (dir name subdirs files) (dir name (replace n d' subdirs) files)
set_below new n p rest name subdirs files c d' hn ht k dn om [] hq = refl
set_below new n p rest name subdirs files c d' hn ht k dn om (q ∷ qs) hq =
    ground (arith, find-replace n q subdirs d' c hn hq.0 ht, om qs hq.1, same_iff n q hn hq.0)

-- A path that leads to a file leads to the new contents, and every other where it led.
pub set_contents-OneMore :
    (contents n : Bytes) (rest : List Bytes) (d : Dir) (old : Bytes)
    → All IsText (n ∷ rest)
    → IsValid d
    → IsRoomy d
    → FewFiles u32_rounds d
    → view (n ∷ rest) d ≡ some (leaf old)
    → OneMore (leaf contents) (n ∷ rest) d (set_contents contents n rest d)
unfolding IsValid IsRoomy FewFiles set_contents
set_contents-OneMore contents n [] (dir name subdirs files) old t v r w h =
    elim (Option-cases (find n subdirs)) [
      | inr (c, k) ↦ absurd (folder-ne-leaf (rw (k, view) at h))
      | inl k ↦
          set_here contents n name subdirs files w.0 t.0 v.1 k
            (λ e. none-ne-some (sym e ∙ rw (k, view) at h))
    ]
  where
    folder-ne-leaf : some folder ≡ some (leaf old) → ⊥
    folder-ne-leaf e = cc

    none-ne-some : none ≡ some (leaf old) → ⊥
    none-ne-some e = cc
set_contents-OneMore contents n (p ∷ rest) (dir name subdirs files) old t v r w h =
    elim (Option-cases (find n subdirs)) [
      | inl k ↦ absurd (none-ne-some (rw (k, view) at h))
      | inr (c, k) ↦ λ qs hq.
          let d' = set_contents contents p rest c in
          let e : u32 (count subdirs) ≡ count subdirs = omega (arith, r.0) in
          let found : set_in_first (u32 (count subdirs)) n (set_contents contents p rest) subdirs
              ≡ replace n d' subdirs =
            ap (λ k. set_in_first k n (set_contents contents p rest) subdirs) e
            ∙ set_in_first-replace n (set_contents contents p rest) subdirs k in
          ap (λ x. view qs (dir name x files)) found
          ∙ set_below (leaf contents) n p rest name subdirs files c d' t.0
              (AllValid-TextNames files subdirs v.0) k (dir_name-set_contents contents p rest c)
              (set_contents-OneMore contents p rest c old t.1 (find-IsValid n files subdirs v.0 k)
                (find-IsRoomy n subdirs c r.1 k) (find-FewFiles u32_rounds n subdirs c w.1 k)
                (rw (k, view) at h))
              qs hq
    ]
  where
    none-ne-some : none ≡ some (leaf old) → ⊥
    none-ne-some e = cc
