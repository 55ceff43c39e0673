-- ===== src/Image/Bytes.antt =====
-- The bytes of an image, as a function of the tree, and the trees that fit the image's format.
use pure.Prelude.{ℕ, ◌+◌, ◌*◌, ◌^◌, ◌<◌, List, [], ◌∷◌, ◌++◌, length, All}
use Prim.Native.Nat.{max}
use pure.CString
use pure.Stream.{bytes64}
use pure.Dir.{File, Dir, dir, Dirs, nil, cons, count}

unfoldable pub file_image : File → CString.Bytes
file_image f = bytes64 (length f.name) ++ (bytes64 (length f.contents) ++ (f.name ++ f.contents))

unfoldable pub files_image : List File → CString.Bytes
unfolding file_image
files_image [] = []
files_image (f ∷ files) = file_image f ++ files_image files

unfoldable mutual
  pub dir_image : Dir → CString.Bytes
  dir_image (dir name subdirs files) =
      bytes64 (length name)
      ++ (bytes64 (count subdirs)
          ++ (bytes64 (length files) ++ (name ++ (dirs_image subdirs ++ files_image files))))

  pub dirs_image : Dirs → CString.Bytes
  dirs_image nil = []
  dirs_image (cons d ds) = dir_image d ++ dirs_image ds

-- The sizes and counts, and what is computed of them, are below 2 ^ 64.
pub record FileFits (f : File) : Type 0 where
  pub name_fits : length f.name + 1 < 2 ^ 64
  pub contents_fit : length f.contents < 2 ^ 64

unfoldable mutual
  pub DirFits : Dir → Type 0
  DirFits (dir name subdirs files) =
      (length name + 1 < 2 ^ 64)
      × (count subdirs * 48 < 2 ^ 64)
      × (length files * 32 < 2 ^ 64)
      × DirsFit subdirs
      × All FileFits files

  pub DirsFit : Dirs → Type 0
  DirsFit nil = Unit
  DirsFit (cons d ds) = DirFits d × DirsFit ds

-- The directories on the longest way down.
unfoldable mutual
  pub height : Dir → ℕ
  height (dir name subdirs files) = 1 + heights subdirs

  pub heights : Dirs → ℕ
  heights nil = 0
  heights (cons d ds) = max (height d) (heights ds)
