-- ===== src/Tool/Cp.antt =====
-- What `cp` makes of the file system.
use pure.Prelude.{
  ℕ, suc, ◌-◌, ◌++◌, length-append, ◌^◌, ◌<◌, ◌≡◌, refl, sym, ap, ◌∙◌, ◌≢◌, ◌⊎◌, inl, inr, true,
  false, Option, none, some, List, [], ◌∷◌, length, All, arith, Bool-cases, Option-cases, drop_last,
}
use pure.Run.{Outcome, Mem, done, and_then, ret}
use mathlib.Core.Path.{subst}
use pure.Run.Agrees.{
  Answer, value, error, Agrees, answer_map, Agrees-value, Agrees-error, Agrees-and_then, ret-Agrees,
}
use pure.CString.{Bytes, IsText, same}
use pure.CString.Compare.{same_iff}
use pure.Path.Resolve.{resolve, resolve-IsText}
use pure.Dir.{File, Dir, dir, Dirs, nil, cons, dir_name, count, dir_name_exists}
use pure.Fs.{Fs, fs_make_file, find_file_by_names, or_null, u32_rounds, ended}
use pure.Fs.Names.{names_of-Agrees}
use pure.Fs.View.{
  Node, folder, leaf, find, view, same_path, IsValid, IsRoomy, AllRoomy, FewFiles, AllFewFiles,
}
use pure.Fs.View.Find.{replace}
use pure.Fs.Insert.{put_file, insert, updated-find}
use pure.Fs.Create.{
  OneMore, Creates, created, exists_already, no_parent, put_file-Puts, insert-Creates,
}
use pure.Fs.Valid.{Keeps, put_file-KeepsValid, insert-Keeps}
use pure.Fs.Make.{with_root, fs_make_file-Agrees}
use pure.Fs.Open.{leaf_at, contents_of, find-IsRoomy, find-FewFiles, find_file_by_names-view}
use pure.Tool.{
  HostRead, Exit, cp, write_to, or_exit, fs_open_place, place_of, set_contents, set_by_names,
}
use pure.Tool.Contents.{set_contents-OneMore}

-- The new file leaves room in the tree.
abbrev KeepsRoomy : Answer Dir → Type 0
KeepsRoomy (value d) = IsRoomy d
KeepsRoomy (error e) = Unit

count-replace : (n : Bytes) (d' : Dir) (ds : Dirs) → count (replace n d' ds) ≡ count ds
count-replace n d' nil = refl
count-replace n d' (cons d ds) = ground (arith, count-replace n d' ds)

replace-AllRoomy :
    (n : Bytes) (d' : Dir) (ds : Dirs) → IsRoomy d' → AllRoomy ds → AllRoomy (replace n d' ds)
unfolding IsRoomy
replace-AllRoomy n d' nil h k = tt
replace-AllRoomy n d' (cons d ds) h k = elim (Bool-cases (same (dir_name d) n)) [
  | inl e ↦ rw (e, replace) (h, k.1)
  | inr e ↦ rw (e, replace) (k.0, replace-AllRoomy n d' ds h k.1)
]

insert-KeepsRoomy :
    (n : Bytes) (rest : List Bytes) (d : Dir) → IsRoomy d → KeepsRoomy (insert put_file n rest d)
unfolding IsRoomy
insert-KeepsRoomy n [] (dir name subdirs files) r =
    elim (Bool-cases (dir_name_exists (dir name subdirs files) n)) [
      | inl e ↦ rw e tt
      | inr e ↦ rw e r
    ]
insert-KeepsRoomy n (p ∷ rest) (dir name subdirs files) r =
    rw updated-find (elim (Option-cases (find n subdirs)) [
      | inl k ↦ rw k tt
      | inr (c, k) ↦ rw k (
          below (insert put_file p rest c)
            (insert-KeepsRoomy p rest c (find-IsRoomy n subdirs c r.1 k)))
    ])
  where
    below :
        (x : Answer Dir)
        → KeepsRoomy x
        → KeepsRoomy
            (answer_map (λ ds. dir name ds files) (answer_map (λ d'. replace n d' subdirs) x))
    below (value d') h = (rw (count-replace n d' subdirs) r.0, replace-AllRoomy n d' subdirs h r.1)
    below (error e) h = tt

-- With the new file there is one more in its directory.
abbrev KeepsFew : ℕ → Answer Dir → Type 0
KeepsFew k (value d) = FewFiles (suc k) d
KeepsFew k (error e) = Unit

mutual
  unfolding FewFiles

  FewFiles-suc : (k : ℕ) (d : Dir) → FewFiles k d → FewFiles (suc k) d
  FewFiles-suc k (dir name subdirs files) h = (omega (arith, h.0), AllFewFiles-suc k subdirs h.1)

  AllFewFiles-suc : (k : ℕ) (ds : Dirs) → AllFewFiles k ds → AllFewFiles (suc k) ds
  AllFewFiles-suc k nil h = tt
  AllFewFiles-suc k (cons d ds) h = (FewFiles-suc k d h.0, AllFewFiles-suc k ds h.1)

replace-AllFewFiles :
    (k : ℕ) (n : Bytes) (d' : Dir) (ds : Dirs)
    → FewFiles (suc k) d'
    → AllFewFiles k ds
    → AllFewFiles (suc k) (replace n d' ds)
unfolding FewFiles
replace-AllFewFiles k n d' nil h a = tt
replace-AllFewFiles k n d' (cons d ds) h a = elim (Bool-cases (same (dir_name d) n)) [
  | inl e ↦ rw (e, replace) (h, AllFewFiles-suc k ds a.1)
  | inr e ↦ rw (e, replace) (FewFiles-suc k d a.0, replace-AllFewFiles k n d' ds h a.1)
]

insert-KeepsFew :
    (k : ℕ) (n : Bytes) (rest : List Bytes) (d : Dir)
    → FewFiles k d
    → KeepsFew k (insert put_file n rest d)
unfolding FewFiles
insert-KeepsFew k n [] (dir name subdirs files) w =
    elim (Bool-cases (dir_name_exists (dir name subdirs files) n)) [
      | inl e ↦ rw e tt
      | inr e ↦
          rw e
            (one_more (record { name = n; contents = [] }) files w.0, AllFewFiles-suc k subdirs w.1)
    ]
  where
    one_more : (f : File) (files : List File) → length files < k → length (files ++ f ∷ []) < suc k
    one_more f files h = omega (arith, length-append files (f ∷ []))
insert-KeepsFew k n (p ∷ rest) (dir name subdirs files) w =
    rw updated-find (elim (Option-cases (find n subdirs)) [
      | inl e ↦ rw e tt
      | inr (c, e) ↦ rw e (
          below (insert put_file p rest c)
            (insert-KeepsFew k p rest c (find-FewFiles k n subdirs c w.1 e)))
    ])
  where
    below :
        (x : Answer Dir)
        → KeepsFew k x
        → KeepsFew k
            (answer_map (λ ds. dir name ds files) (answer_map (λ d'. replace n d' subdirs) x))
    below (value d') h = (omega (arith, w.0), replace-AllFewFiles k n d' subdirs h w.1)
    below (error e) h = tt

same_path_refl : (ns : List Bytes) → All IsText ns → same_path ns ns ≡ true
same_path_refl [] h = refl
same_path_refl (n ∷ ns) h = ground (arith, same_iff n n h.0 h.0, same_path_refl ns h.1)

Agrees-place :
    {A B C : Type 0} (f : A → Option B) (g : A → B → C) {m : Mem} {a : A} {b : B}
    {r : Outcome Mem A}
    → f a ≡ some b
    → Agrees m (value a) r
    → Agrees m (value (g a b)) (and_then r (λ a m'. and_then (ended (f a) m') (λ o. ret (g a o))))
Agrees-place f g {a} {b} e h =
    Agrees-and_then (λ a m'. and_then (ended (f a) m') (λ o. ret (g a o))) h
      (λ m'.
        subst (λ r. Agrees m' (value (g a b)) (and_then (ended r m') (λ o. ret (g a o)))) (sym e)
          (ret-Agrees (g a b) m'))

-- What `cp` with the contents of its source comes to, for a destination of the names `ns`.
pub data Copies (contents : Bytes) (ns : List Bytes) (fs : Fs) (r : Outcome Mem Exit) : Type 0 where
  copied :
      (fs' : Fs)
      → r ≡ done (record { success = true; fs = fs'; out = [] }) []
      → view ns fs.root ≡ none
      → OneMore (leaf contents) ns fs.root fs'.root
      → Copies contents ns fs r
  refused :
      r ≡ done (record { success = false; fs = fs; out = [] }) []
      → (ns ≡ []) ⊎ ((view ns fs.root ≢ none) ⊎ (view (drop_last ns) fs.root ≢ some folder))
      → Copies contents ns fs r

-- A file that was added to the tree with no contents and then given some.
OneMore-twice :
    (a b : Node) (ns : List Bytes) (d d' d'' : Dir)
    → OneMore a ns d d'
    → OneMore b ns d' d''
    → OneMore b ns d d''
OneMore-twice a b ns d d' d'' h k qs t = ground (arith, h qs t, k qs t)

module _ (fs : Fs) (dst : Bytes) (n : Bytes) (rest : List Bytes) (text : IsText dst)
    (leads : resolve dst ≡ some (n ∷ rest)) (small : length (n ∷ rest) < 2 ^ 32)
    (there : view (n ∷ rest) fs.root ≡ some (leaf [])) (valid : IsValid fs.root)
    (roomy : IsRoomy fs.root) (few : FewFiles u32_rounds fs.root) where
  fs_open_place-granted : fs_open_place fs dst [] ≡ done (some (n ∷ rest)) []
  unfolding fs_open_place
  fs_open_place-granted =
      let (o, e, k) =
        find_file_by_names-view (n ∷ rest) fs.root (resolve-IsText dst text leads) valid roomy
          few in
      ap or_null (
        Agrees-value (
          Agrees-place (λ names. find_file_by_names fs.root names) place_of e
            (names_of-Agrees dst [] text leads small)))
      ∙ ap (λ o. done o []) (found o (k ∙ ap leaf_at there))
    where
      found : (o : Option File) → contents_of o ≡ some [] → place_of (n ∷ rest) o ≡ some (n ∷ rest)
      found none e = absurd (none-ne-some e)
        where
          none-ne-some : {c : Bytes} → none ≡ some c → ⊥
          none-ne-some q = cc
      found (some f) e = refl

  write_to-copies :
      (contents : Bytes)
      → write_to fs dst (some contents) []
        ≡ done (record { success = true; fs = set_by_names contents fs (n ∷ rest); out = [] }) []
  unfolding write_to
  write_to-copies contents = rw (fs_open_place-granted, write_to) refl

made_and_written :
    (fs : Fs) (dst contents n : Bytes) (rest : List Bytes) (y : Answer Dir)
    → IsText dst
    → resolve dst ≡ some (n ∷ rest)
    → length (n ∷ rest) < 2 ^ 32
    → Creates (leaf []) (n ∷ rest) fs.root y
    → Keeps fs.root y
    → KeepsRoomy y
    → KeepsFew (u32_rounds - 1) y
    → Agrees [] (answer_map (with_root fs) y) (fs_make_file fs dst [])
    → Copies contents
        (n ∷ rest)
        fs
        (or_exit fs [] (fs_make_file fs dst []) (λ fs'. write_to fs' dst (some contents)))
made_and_written fs dst contents n rest (value d') text leads small (created up free om dn) keeps
      room few agrees =
    let texts = resolve-IsText dst text leads in
    let there : view (n ∷ rest) d' ≡ some (leaf []) =
      om (n ∷ rest) texts ∙ rw (same_path_refl (n ∷ rest) texts) refl in
    copied (set_by_names contents (with_root fs d') (n ∷ rest))
      (ap (λ r. or_exit fs [] r (λ fs'. write_to fs' dst (some contents))) (Agrees-value agrees)
        ∙ write_to-copies (with_root fs d') dst n rest text leads small there keeps.0 room few
            contents)
      free
      (OneMore-twice (leaf []) (leaf contents) (n ∷ rest) fs.root d'
        (set_contents contents n rest d') om
        (set_contents-OneMore contents n rest d' [] texts keeps.0 room few there))
made_and_written fs dst contents n rest (error e) text leads small (exists_already h) keeps room few
      agrees =
    refused
      (ap (λ r. or_exit fs [] r (λ fs'. write_to fs' dst (some contents))) (Agrees-error agrees))
      (inr (inl h))
made_and_written fs dst contents n rest (error e) text leads small (no_parent h) keeps room few
      agrees =
    refused
      (ap (λ r. or_exit fs [] r (λ fs'. write_to fs' dst (some contents))) (Agrees-error agrees))
      (inr (inr h))

-- The source has the given contents, and the destination, without NUL, resolves to the names `ns`,
-- fewer than 2 ^ 32. The file system is well formed and no directory of it has 2 ^ 32 - 1
-- subdirectories or more or 2 ^ 32 - 1 files or more. Then, with every request granted, `cp` either succeeds: `ns` led nowhere,
-- it leads to a file with the contents of the source afterwards, and every other path leads to
-- what it led to before. Or it fails and leaves the file system as it is: there is no name, or `ns`
-- leads to something, or its parent is no directory.
pub cp-Copies :
    (read : HostRead) (fs : Fs) (src dst contents : Bytes) (args ns : List Bytes)
    → read src ≡ some (some contents)
    → IsText dst
    → resolve dst ≡ some ns
    → length ns < 2 ^ 32
    → IsValid fs.root
    → IsRoomy fs.root
    → FewFiles (u32_rounds - 1) fs.root
    → Copies contents ns fs (cp read fs (src ∷ dst ∷ args) [])
unfolding cp
cp-Copies read fs src dst contents args [] given text leads small valid roomy few =
    rw (given, cp)
      (refused
        (ap (λ r. or_exit fs [] r (λ fs'. write_to fs' dst (some contents)))
          (Agrees-error (fs_make_file-Agrees fs dst [] text leads small valid roomy)))
        (inl refl))
cp-Copies read fs src dst contents args (n ∷ rest) given text leads small valid roomy few =
    let texts = resolve-IsText dst text leads in
    rw (given, cp)
      (made_and_written fs dst contents n rest (insert put_file n rest fs.root) text leads small
        (insert-Creates (leaf []) put_file n rest fs.root put_file-Puts texts valid)
        (insert-Keeps put_file n rest fs.root put_file-KeepsValid texts valid)
        (insert-KeepsRoomy n rest fs.root roomy)
        (insert-KeepsFew (u32_rounds - 1) n rest fs.root few)
        (fs_make_file-Agrees fs dst [] text leads small valid roomy))
