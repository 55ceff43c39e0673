-- ===== src/Fs/Make.antt =====
-- `pure64_fs_make_dir` and `pure64_fs_make_file` against the map from paths to nodes.
use pure.Prelude.{◌^◌, ◌<◌, ◌≡◌, refl, ◌≢◌, some, List, [], ◌∷◌, length, All}
use pure.Error.{einval}
use pure.Run.{M, Mem}
use pure.Run.Agrees.{unused, Answer, error, answer_map, Agrees, Agrees-and_then, Agrees-map, fails}
use pure.CString.{Bytes, IsText}
use pure.Path.Resolve.{resolve, resolve-IsText}
use pure.Dir.{Dir, dir_add_file, dir_add_subdir}
use pure.Fs.{Fs, add_by_names, fs_make_dir, fs_make_file}
use pure.Fs.Names.{names_of-Agrees}
use pure.Fs.View.{Node, folder, leaf, IsValid, IsRoomy}
use pure.Fs.Insert.{
  put_dir, put_file, insert, Adds, add_at-Agrees, dir_add_subdir-Adds, dir_add_file-Adds,
}
use pure.Fs.Create.{Creates, Puts, insert-Creates, put_dir-Puts, put_file-Puts}
use pure.Fs.Valid.{Keeps, KeepsValid, insert-Keeps, put_dir-KeepsValid, put_file-KeepsValid}

abbrev pub with_root : Fs → Dir → Fs
with_root fs root' = record fs { root = root' }

-- What a call that is to create the node `new` at the path `ns` answers. The path without names
-- is refused. Else the root becomes, or fails to become, as `Creates` says, and stays well formed.
pub data Makes (new : Node) (ns : List Bytes) (fs : Fs) (x : Answer Fs) : Type 0 where
  no_name : ns ≡ [] → x ≡ error einval → Makes new ns fs x
  at_name :
      (y : Answer Dir)
      → ns ≢ []
      → x ≡ answer_map (with_root fs) y
      → Creates new ns fs.root y
      → Keeps fs.root y
      → Makes new ns fs x

abbrev pub made : (Dir → Bytes → Dir) → Fs → List Bytes → Answer Fs
made put fs [] = error einval
made put fs (n ∷ rest) = answer_map (with_root fs) (insert put n rest fs.root)

module _ (add : Dir → Bytes → M Mem Dir) (put : Dir → Bytes → Dir) (adds : Adds add put) where
  add_by_names-Agrees :
      (fs : Fs) (ns : List Bytes) (m : Mem)
      → All IsText ns
      → IsRoomy fs.root
      → Agrees m (made put fs ns) (add_by_names add fs ns m)
  add_by_names-Agrees fs [] m h r = fails refl (unused refl)
  add_by_names-Agrees fs (n ∷ rest) m h r =
      Agrees-map (with_root fs) _ (add_at-Agrees add put n rest fs.root m adds h r)

  made-Makes :
      (new : Node) (fs : Fs) (ns : List Bytes)
      → Puts new put
      → KeepsValid put
      → All IsText ns
      → IsValid fs.root
      → Makes new ns fs (made put fs ns)
  made-Makes new fs [] p k h v = no_name refl refl
  made-Makes new fs (n ∷ rest) p k h v =
      at_name _ (λ e. cons-ne-nil e) refl (insert-Creates new put n rest fs.root p h v)
        (insert-Keeps put n rest fs.root k h v)
    where
      cons-ne-nil : n ∷ rest ≡ [] → ⊥
      cons-ne-nil e = cc

module _ (fs : Fs) (s : Bytes) (m : Mem) {ns : List Bytes} (text : IsText s)
    (leads : resolve s ≡ some ns) (small : length ns < 2 ^ 32) (valid : IsValid fs.root)
    (roomy : IsRoomy fs.root) where
  -- The file system is well formed, no directory of it has 2 ^ 32 - 1 subdirectories or more, and
  -- the path, without NUL, resolves to the names `ns`, fewer than 2 ^ 32. Then, whatever the
  -- allocator answers: `pure64_fs_make_dir` fails with EINVAL if there is no name, with ENOENT if
  -- the parent is no directory and with EEXIST if `ns` leads to something; else `ns` leads to a
  -- directory afterwards, every other path leads to what it led to before, and the tree is well
  -- formed. Where a request was refused it may fail with ENOMEM instead.
  pub fs_make_dir-Makes : (x : Answer Fs) × Agrees m x (fs_make_dir fs s m) × Makes folder ns fs x
  unfolding fs_make_dir
  fs_make_dir-Makes =
      let texts = resolve-IsText s text leads in
      (
        made put_dir fs ns,
        Agrees-and_then _ (names_of-Agrees s m text leads small) (λ m'.
            add_by_names-Agrees dir_add_subdir put_dir dir_add_subdir-Adds fs ns m' texts roomy),
        made-Makes dir_add_subdir put_dir dir_add_subdir-Adds folder fs ns put_dir-Puts
            put_dir-KeepsValid texts valid,
      )

  pub fs_make_file-Agrees : Agrees m (made put_file fs ns) (fs_make_file fs s m)
  unfolding fs_make_file
  fs_make_file-Agrees = Agrees-and_then _ (names_of-Agrees s m text leads small) (λ m'.
      add_by_names-Agrees dir_add_file put_file dir_add_file-Adds fs ns m'
        (resolve-IsText s text leads) roomy)

  -- The file system is well formed, no directory of it has 2 ^ 32 - 1 subdirectories or more, and
  -- the path, without NUL, resolves to the names `ns`, fewer than 2 ^ 32. Then, whatever the
  -- allocator answers: `pure64_fs_make_file` fails with EINVAL if there is no name, with ENOENT if
  -- the parent is no directory and with EEXIST if `ns` leads to something; else `ns` leads to an
  -- empty file afterwards, every other path leads to what it led to before, and the tree is well
  -- formed. Where a request was refused it may fail with ENOMEM instead.
  pub fs_make_file-Makes :
      (x : Answer Fs) × Agrees m x (fs_make_file fs s m) × Makes (leaf []) ns fs x
  fs_make_file-Makes =
      let texts = resolve-IsText s text leads in
      (
        made put_file fs ns,
        fs_make_file-Agrees,
        made-Makes dir_add_file put_file dir_add_file-Adds (leaf []) fs ns put_file-Puts
            put_file-KeepsValid texts valid,
      )
