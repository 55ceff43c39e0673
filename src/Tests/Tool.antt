-- ===== src/Tests/Tool.antt =====
-- Concrete inputs for the image tool.
use pure.Prelude.{◌≤◌, ◌<◌, ◌+◌, ◌≡◌, refl, true, false, none, some, [], ◌∷◌, arith}
use pure.Run.{done}
use pure.CString.{same, copy_name}
use pure.Path.{path_parse, parse_loop, path_push_child, path_normalize, normalize_loop}
use pure.Fs.{fs_open_dir, names_of, find_dir}
use pure.Tests.{
  sample, path_a_b, path_b, name_b, sample-IsValid, sample-IsRoomy, sample-FewFiles,
  sample-AllFound,
}
use pure.Tool.{call, parse_args, word_ls, cat, cp, ls}
use pure.Tool.Args.{with_files, parse_args-with_files}
use pure.Tool.Cat.{cat-printed}
use pure.Tool.Gpt.{padded, primary_header, IsLaidOut, primary_header-IsLaidOut}
use pure.Tool.Cp.{Copies, cp-Copies}

parse_args-with_files_example :
    parse_args [] (with_files ((false, 1 ∷ []) ∷ (true, 2 ∷ []) ∷ []) (word_ls ∷ path_b ∷ []))
    ≡ call (2 ∷ []) word_ls (path_b ∷ [])
parse_args-with_files_example =
    parse_args-with_files [] ((false, 1 ∷ []) ∷ (true, 2 ∷ []) ∷ []) word_ls (path_b ∷ [])
      (ground arith) refl

-- The path in the middle leads to no file.
cat-printed_example :
    cat sample (path_a_b ∷ path_b ∷ path_a_b ∷ []) [] []
    ≡ done (record { success = false; fs = sample; out = 1 ∷ 2 ∷ [] }) []
unfolding same
cat-printed_example =
    cat-printed sample (path_a_b ∷ path_b ∷ path_a_b ∷ [])
      (some (1 ∷ 2 ∷ []) ∷ none ∷ some (1 ∷ 2 ∷ []) ∷ []) [] sample-IsValid sample-IsRoomy
      sample-AllFound
      (
        (ground arith, (_, refl, ground arith, refl)),
        (
          (ground arith, (_, refl, ground arith, refl)),
          ((ground arith, (_, refl, ground arith, refl)), tt),
        ),
      )

cp-Copies_example :
    Copies
      (7 ∷ [])
      (name_b ∷ [])
      sample
      (cp (λ path. some (some (7 ∷ []))) sample ([] ∷ path_b ∷ []) [])
unfolding same
cp-Copies_example =
    cp-Copies (λ path. some (some (7 ∷ []))) sample [] path_b (7 ∷ []) [] (name_b ∷ []) refl
      (ground arith) refl (ground arith) sample-IsValid sample-IsRoomy sample-FewFiles

-- `ls a`
ls-runs :
    ls sample ((b'a' ∷ []) ∷ []) []
    ≡ done
        (record {
          success = true;
          fs = sample;
          out = b'a' ∷ b':' ∷ 10 ∷ b'f' ∷ b'i' ∷ b'l' ∷ b'e' ∷ b' ' ∷ b':' ∷ b' ' ∷ b'b' ∷ 10 ∷ [];
        })
        []
unfolding ls fs_open_dir names_of path_parse parse_loop path_push_child path_normalize
    normalize_loop same copy_name find_dir
ls-runs = refl

primary_header-IsLaidOut_example :
    (100000 ≤ padded 100000)
    × (padded 100000 < 100000 + 512)
    × IsLaidOut (padded 100000) (primary_header [] (padded 100000))
primary_header-IsLaidOut_example = primary_header-IsLaidOut [] 100000 (omega arith) (omega arith)
