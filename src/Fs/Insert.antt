-- ===== src/Fs/Insert.antt =====
-- The additions of fs.c as functions on trees, with the allocator left out.
use pure.Prelude.{
  ◌≡◌, refl, ap, ◌∙◌, none, some, List, [], ◌∷◌, ◌++◌, if◌then◌else◌, All, arith, Bool-cases, inl,
  inr, Option-cases,
}
use pure.Error.{enoent, eexist}
use pure.Run.{M, Mem}
use pure.Run.Agrees.{
  unused, Answer, value, error, Agrees, answer_map, Agrees-map, Agrees-and_then, alloc-Agrees,
  fails,
}
use pure.CString.{Bytes, IsText, same}
use pure.Path.Parse.{copy_name_of_IsText}
use pure.Dir.{
  Dir, dir, Dirs, nil, cons, dir_name, subdirs_of, files_of, count, snoc, dir_name_exists,
  dir_add_file, dir_add_subdir,
}
use pure.Fs.{u32, update_first, add_at}
use pure.Fs.View.{IsRoomy, AllRoomy, find}
use pure.Fs.View.Find.{replace}

-- A directory with one entry more: an empty directory, or an empty file.
abbrev pub put_dir : Dir → Bytes → Dir
put_dir d n = dir (dir_name d) (snoc (subdirs_of d) (dir n nil [])) (files_of d)

abbrev pub put_file : Dir → Bytes → Dir
put_file d n =
    dir (dir_name d) (subdirs_of d) (files_of d ++ record { name = n; contents = [] } ∷ [])

-- The code that adds an entry, whatever its kind.
abbrev pub added : (Dir → Bytes → Dir) → Dir → Bytes → Answer Dir
added put d n = if dir_name_exists d n then error eexist else value (put d n)

abbrev pub Adds : (Dir → Bytes → M Mem Dir) → (Dir → Bytes → Dir) → Type 0
Adds add put = (d : Dir) (n : Bytes) (m : Mem) → IsText n → Agrees m (added put d n) (add d n m)

pub dir_add_subdir-Adds : Adds dir_add_subdir put_dir
unfolding dir_add_subdir
dir_add_subdir-Adds d n m h = elim (Bool-cases (dir_name_exists d n)) [
  | inl e ↦ rw e (fails refl (unused refl))
  | inr e ↦
      rw (e, copy_name_of_IsText n h)
        (Agrees-and_then _ (alloc-Agrees m)
          λ m₁. Agrees-map _ (value _) (Agrees-map _ (value tt) (alloc-Agrees m₁)))
]

pub dir_add_file-Adds : Adds dir_add_file put_file
unfolding dir_add_file
dir_add_file-Adds d n m h = elim (Bool-cases (dir_name_exists d n)) [
  | inl e ↦ rw e (fails refl (unused refl))
  | inr e ↦
      rw (e, copy_name_of_IsText n h)
        (Agrees-and_then _ (alloc-Agrees m)
          λ m₁. Agrees-map _ (value _) (Agrees-map _ (value tt) (alloc-Agrees m₁)))
]

-- The first subdirectory of a name, changed by `g`.
abbrev pub updated : Bytes → (Dir → Answer Dir) → Dirs → Answer Dirs
updated n g nil = error enoent
updated n g (cons d ds) =
    let rest = answer_map (cons d) (updated n g ds) in
    if same (dir_name d) n then answer_map (λ d'. cons d' ds) (g d) else rest

-- The entry added at a path.
abbrev pub insert : (Dir → Bytes → Dir) → Bytes → List Bytes → Dir → Answer Dir
insert put n [] d = added put d n
insert put n (n' ∷ rest) (dir name subdirs files) =
    answer_map (λ subdirs'. dir name subdirs' files) (updated n (insert put n' rest) subdirs)

update_first-Agrees :
    (n : Bytes) (f : Dir → M Mem Dir) (g : Dir → Answer Dir) (ds : Dirs) (m : Mem)
    → ((d : Dir) (m' : Mem) → IsRoomy d → Agrees m' (g d) (f d m'))
    → AllRoomy ds
    → Agrees m (updated n g ds) (update_first (count ds) n f ds m)
unfolding update_first IsRoomy
update_first-Agrees n f g nil m h r = fails refl (unused refl)
update_first-Agrees n f g (cons d ds) m h r = elim (Bool-cases (same (dir_name d) n)) [
  | inl e ↦ rw e (Agrees-map (λ d'. cons d' ds) (g d) (h d m r.0))
  | inr e ↦ rw e (Agrees-map (cons d) _ (update_first-Agrees n f g ds m h r.1))
]

-- The code agrees with the insertion, whatever the allocator answers.
pub add_at-Agrees :
    (add : Dir → Bytes → M Mem Dir) (put : Dir → Bytes → Dir) (n : Bytes) (rest : List Bytes)
    (d : Dir) (m : Mem)
    → Adds add put
    → All IsText (n ∷ rest)
    → IsRoomy d
    → Agrees m (insert put n rest d) (add_at add n rest d m)
unfolding add_at IsRoomy
add_at-Agrees add put n [] d m h t r = h d n m t.0
add_at-Agrees add put n (n' ∷ rest) (dir name subdirs files) m h t r =
    let e : u32 (count subdirs) ≡ count subdirs = omega (arith, r.0) in
    rw e (
      Agrees-map _ _ (
        update_first-Agrees n (add_at add n' rest) (insert put n' rest) subdirs m
          (λ d' m' r'. add_at-Agrees add put n' rest d' m' h t.1 r') r.1))

answer_map-answer_map :
    {A B C : Type 0} (f : B → C) (g : A → B) (x : Answer A)
    → answer_map f (answer_map g x) ≡ answer_map (λ a. f (g a)) x
answer_map-answer_map f g (value a) = refl
answer_map-answer_map f g (error e) = refl

answer_map_ext :
    {A B : Type 0} {f g : A → B} (x : Answer A)
    → ((a : A) → f a ≡ g a)
    → answer_map f x ≡ answer_map g x
answer_map_ext (value a) h = ap value (h a)
answer_map_ext (error e) h = refl

-- The change of the first subdirectory, by the lookup of that name.
pub updated-find :
    (n : Bytes) (g : Dir → Answer Dir) (ds : Dirs)
    → updated n g ds
      ≡ elim (find n ds) [ none ↦ error enoent | some d ↦ answer_map (λ d'. replace n d' ds) (g d) ]
updated-find n g nil = refl
updated-find n g (cons d ds) = elim (Bool-cases (same (dir_name d) n)) [
  | inl e ↦ rw e (answer_map_ext (g d) (λ d'. rw e))
  | inr e ↦
      rw (e, updated-find n g ds)
        (elim (Option-cases (find n ds)) [
          | inl k ↦ rw k
          | inr (c, k) ↦ rw k (
              answer_map-answer_map (cons d) (λ d'. replace n d' ds) (g c)
              ∙ answer_map_ext (g c) (λ d'. rw e))
        ])
]
