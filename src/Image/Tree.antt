-- ===== src/Image/Tree.antt =====
-- The export functions write the image of the tree at the position of the stream.
use pure.Prelude.{List, [], ◌∷◌, length}
use pure.Stream.{Stream}
use pure.Stream.Tape.{IsTape, Puts, Puts-and_then, Puts-nothing, encode_uint64-Puts}
use pure.Dir.{File, Dir, dir, Dirs, nil, cons, count}
use pure.Image.{file_export, files_export, dir_export, dirs_export}
use pure.Image.Bytes.{file_image, files_image, dir_image, dirs_image}

module _ {S : Type 0} (st : Stream S) (tape : IsTape st) where
  open tape use {writes}

  file_export-Puts : (f : File) (s : S) → Puts st tape (file_image f) (file_export st f s) s
  unfolding file_export file_image
  file_export-Puts f s =
      Puts-and_then st tape _ _ s _ _ (encode_uint64-Puts st tape (length f.name) s) λ s₁.
        Puts-and_then st tape _ _ s₁ _ _ (encode_uint64-Puts st tape (length f.contents) s₁)
          λ s₂. Puts-and_then st tape _ _ s₂ _ _ (writes s₂ f.name) λ s₃. writes s₃ f.contents

  files_export-Puts :
      (files : List File) (s : S) → Puts st tape (files_image files) (files_export st files s) s
  unfolding files_export files_image
  files_export-Puts [] s = Puts-nothing st tape s
  files_export-Puts (f ∷ files) s =
      Puts-and_then st tape _ _ s _ _ (file_export-Puts f s) λ s₁. files_export-Puts files s₁

  mutual
    unfolding dir_export dir_image

    dir_export-writes : (d : Dir) (s : S) → Puts st tape (dir_image d) (dir_export st d s) s
    dir_export-writes (dir name subdirs files) s =
        Puts-and_then st tape _ _ s _ _ (encode_uint64-Puts st tape (length name) s) λ s₁.
          Puts-and_then st tape _ _ s₁ _ _ (encode_uint64-Puts st tape (count subdirs) s₁) λ s₂.
            Puts-and_then st tape _ _ s₂ _ _ (encode_uint64-Puts st tape (length files) s₂) λ s₃.
              Puts-and_then st tape _ _ s₃ _ _ (writes s₃ name) λ s₄.
                Puts-and_then st tape _ _ s₄ _ _ (dirs_export-writes subdirs s₄)
                  λ s₅. files_export-Puts files s₅

    dirs_export-writes : (ds : Dirs) (s : S) → Puts st tape (dirs_image ds) (dirs_export st ds s) s
    dirs_export-writes nil s = Puts-nothing st tape s
    dirs_export-writes (cons d ds) s =
        Puts-and_then st tape _ _ s _ _ (dir_export-writes d s) λ s₁. dirs_export-writes ds s₁

  pub dir_export-Puts : (d : Dir) (s : S) → Puts st tape (dir_image d) (dir_export st d s) s
  dir_export-Puts d s = dir_export-writes d s
