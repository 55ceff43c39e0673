-- ===== src/Tool/Cat.antt =====
-- What `cat` prints.
use pure.Prelude.{
  ◌^◌, ◌<◌, ◌≡◌, sym, ap, ◌∙◌, Bool, true, false, Option, none, some, List, [], ◌∷◌, ◌++◌, length,
  append_assoc, append-nil,
}
use pure.Run.{done, and_then}
use pure.Run.Agrees.{Agrees-value}
use pure.CString.{Bytes, IsText}
use pure.Path.Resolve.{resolve, resolve-IsText}
use pure.Dir.{File}
use pure.Fs.{Fs, fs_open_file, find_file_by_names, or_null, u32_rounds}
use pure.Fs.Names.{names_of-Agrees}
use pure.Fs.View.{view, IsValid, IsRoomy, FewFiles}
use pure.Fs.Open.{leaf_at, contents_of, Agrees-ended, find_file_by_names-view}
use pure.Tool.{cat, or_missing}

-- The path, without NUL, resolves to fewer than 2 ^ 32 names, which lead to a file with the given
-- contents, or to no file.
abbrev pub Leads : Fs → Bytes → Option Bytes → Type 0
Leads fs path o =
    IsText path
    × ((ns : List Bytes) × (resolve path ≡ some ns)
        × (length ns < 2 ^ 32)
        × (leaf_at (view ns fs.root) ≡ o))

abbrev pub LeadAll : Fs → List Bytes → List (Option Bytes) → Type 0
LeadAll fs [] [] = Unit
LeadAll fs [] (o ∷ os) = ⊥
LeadAll fs (path ∷ paths) [] = ⊥
LeadAll fs (path ∷ paths) (o ∷ os) = Leads fs path o × LeadAll fs paths os

-- The contents in front of the first path that leads to no file, and whether there is none.
abbrev pub printed : List (Option Bytes) → Bytes
printed [] = []
printed (none ∷ os) = []
printed (some contents ∷ os) = contents ++ printed os

abbrev pub all_found : List (Option Bytes) → Bool
all_found [] = true
all_found (none ∷ os) = false
all_found (some contents ∷ os) = all_found os

-- With every request granted the file is opened that the path leads to.
pub fs_open_file-granted :
    (fs : Fs) (path : Bytes) (o : Option Bytes)
    → IsValid fs.root
    → IsRoomy fs.root
    → FewFiles u32_rounds fs.root
    → Leads fs path o
    → (file : Option File) × (fs_open_file fs path [] ≡ done file []) × (contents_of file ≡ o)
unfolding fs_open_file
fs_open_file-granted fs path o v r w (t, (ns, leads, small, e)) =
    let (file, p, k) = find_file_by_names-view ns fs.root (resolve-IsText path t leads) v r w in
    (
      file,
      ap or_null (
          Agrees-value
            (Agrees-ended (find_file_by_names fs.root) p (names_of-Agrees path [] t leads small))),
      k ∙ e,
    )

some-injective : {a b : Bytes} → some a ≡ some b → a ≡ b
some-injective e = cc

-- The file system is well formed and no directory of it has 2 ^ 32 - 1 subdirectories or more
-- or 2 ^ 32 files or more.
-- With every request granted, `cat` prints the contents of the files that the paths lead to, one
-- after the other, up to the first path that leads to no file. It succeeds if there is none, and
-- leaves the file system as it is.
pub cat-printed :
    (fs : Fs) (paths : List Bytes) (os : List (Option Bytes)) (out : Bytes)
    → IsValid fs.root
    → IsRoomy fs.root
    → FewFiles u32_rounds fs.root
    → LeadAll fs paths os
    → cat fs paths out []
      ≡ done (record { success = all_found os; fs = fs; out = out ++ printed os }) []
unfolding cat
cat-printed fs [] [] out v r w h =
    ap (λ t. done (record { success = true; fs = fs; out = t }) []) (sym (append-nil out))
cat-printed fs [] (o ∷ os) out v r w h = elim h [ ]
cat-printed fs (path ∷ paths) [] out v r w h = elim h [ ]
cat-printed fs (path ∷ paths) (o ∷ os) out v r w (h, hs) =
    let (file, e, k) = fs_open_file-granted fs path o v r w h in
    ap (λ t. and_then t (or_missing fs out (λ (f : File). cat fs paths (out ++ f.contents)))) e
    ∙ opened file o k (λ next. cat-printed fs paths os next v r w hs)
  where
    opened :
        (file : Option File) (o : Option Bytes)
        → contents_of file ≡ o
        → ((next : Bytes)
            → cat fs paths next []
              ≡ done (record { success = all_found os; fs = fs; out = next ++ printed os }) [])
        → or_missing fs out (λ (f : File). cat fs paths (out ++ f.contents)) file []
          ≡ done
              (record { success = all_found (o ∷ os); fs = fs; out = out ++ printed (o ∷ os) })
              []
    opened none none k go =
        ap (λ t. done (record { success = false; fs = fs; out = t }) []) (sym (append-nil out))
    opened none (some c) k go = absurd (none-ne-some k)
      where
        none-ne-some : {c : Bytes} → none ≡ some c → ⊥
        none-ne-some q = cc
    opened (some f) none k go = absurd (some-ne-none k)
      where
        some-ne-none : {c : Bytes} → some c ≡ none → ⊥
        some-ne-none q = cc
    opened (some f) (some c) k go =
        go (out ++ f.contents)
        ∙ ap (λ t. done (record { success = all_found os; fs = fs; out = t }) [])
            (append_assoc out f.contents (printed os)
              ∙ ap (λ t. out ++ (t ++ printed os)) (some-injective k))
