-- ===== src/Fs/View.antt =====
-- The file system as a map from paths to nodes, and the well-formed trees.
pub mod Find
use pure.Prelude.{
  length, ℕ, suc, ◌+◌, ◌^◌, ◌<◌, ◌≡◌, Bool, true, false, ◌&&◌, Option, none, some, List, [], ◌∷◌,
  if◌then◌else◌, All,
}
use pure.Error.{Error, enoent, eexist, einval}
use pure.Run.Agrees.{Answer, value, error}
use pure.CString.{Bytes, IsText, same}
use pure.Dir.{File, Dir, dir, Dirs, nil, cons, dir_name, count, snoc}

-- What a path can lead to.
pub data Node : Type 0 where
  folder : Node
  leaf : Bytes → Node

-- The first entry of a name, in a list of any length.
abbrev pub find : Bytes → Dirs → Option Dir
find name nil = none
find name (cons d ds) = let rest = find name ds in if same (dir_name d) name then some d else rest

abbrev pub find_leaf : Bytes → List File → Option Node
find_leaf name [] = none
find_leaf name (f ∷ files) =
    let rest = find_leaf name files in if same f.name name then some (leaf f.contents) else rest

-- The node at a path of the tree.
abbrev pub view : List Bytes → Dir → Option Node
view [] d = some folder
view (n ∷ ns) (dir name subdirs files) = elim (find n subdirs) [
  | some d ↦ view ns d
  | none ↦ elim ns [ [] ↦ find_leaf n files | _ ∷ _ ↦ none ]
]

-- Equality of paths.
abbrev pub same_path : List Bytes → List Bytes → Bool
same_path [] [] = true
same_path [] (q ∷ qs) = false
same_path (p ∷ ps) [] = false
same_path (p ∷ ps) (q ∷ qs) = let rest = same_path ps qs in if same p q then rest else false

-- The name stands for none of the entries.
abbrev pub Absent : Bytes → Dirs → Type 0
Absent name nil = Unit
Absent name (cons d ds) = (same (dir_name d) name ≡ false) × Absent name ds

abbrev pub AbsentFile : Bytes → List File → Type 0
AbsentFile name files = All (λ (f : File). same f.name name ≡ false) files

abbrev pub DistinctFiles : List File → Type 0
DistinctFiles [] = Unit
DistinctFiles (f ∷ files) = AbsentFile f.name files × DistinctFiles files

-- In every directory the names have no NUL and stand for one entry each.
unfoldable mutual
  pub IsValid : Dir → Type 0
  IsValid (dir name subdirs files) =
      AllValid files subdirs × All (λ (f : File). IsText f.name) files × DistinctFiles files

  pub AllValid : List File → Dirs → Type 0
  AllValid files nil = Unit
  AllValid files (cons d ds) =
      IsText (dir_name d)
      × IsValid d
      × Absent (dir_name d) ds
      × AbsentFile (dir_name d) files
      × AllValid files ds

-- Every directory has fewer than `k` files.
unfoldable mutual
  pub FewFiles : ℕ → Dir → Type 0
  FewFiles k (dir name subdirs files) = (length files < k) × AllFewFiles k subdirs

  pub AllFewFiles : ℕ → Dirs → Type 0
  AllFewFiles k nil = Unit
  AllFewFiles k (cons d ds) = FewFiles k d × AllFewFiles k ds

-- In every directory one more subdirectory can be counted by an `unsigned int`.
unfoldable mutual
  pub IsRoomy : Dir → Type 0
  IsRoomy (dir name subdirs files) = (count subdirs + 1 < 2 ^ 32) × AllRoomy subdirs

  pub AllRoomy : Dirs → Type 0
  AllRoomy nil = Unit
  AllRoomy (cons d ds) = IsRoomy d × AllRoomy ds
