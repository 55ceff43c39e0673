-- ===== src/Tests.antt =====
-- Concrete inputs, and the theorems at them.
mod Loader
mod Kernel
mod Tool
mod Pci
mod Ahci
mod Disk
mod Rc
use pure.Prelude.{
  ◌-◌, ℕ, ◌+◌, ◌*◌, ◌^◌, ◌%◌, ◌≤◌, ◌≡◌, refl, ◌↔◌, Option, some, List, [], ◌∷◌, ◌++◌, map, length,
  take, drop, take-append, drop-append, arith, true, All,
}
use pure.Run.{done, fault}
use pure.Run.Agrees.{Agrees, value}
use pure.Error.{enoent, strerror, unknown_text}
use pure.Error.Text.{strerror_unknown}
use pure.CString
use pure.CString.{strcmp, memset, same, text, equal, memcpy}
use pure.CString.Compare.{strcmp-opposite, opposite}
use pure.CString.Copy.{memcpy_lem}
use pure.Path.{named, path_parse, path_normalize, normalize_loop, dot, dot_dot}
use pure.Path.Parse.{path_parse-Agrees}
use pure.Path.Names.{join, path_parse-join}
use pure.Path.Normalize.{IsPlain, path_normalize-walk, path_normalize-climbs}
use pure.Path.Idempotent.{path_normalize-IsPlain}
use pure.Dir.{File, Dir, dir, nil, cons}
use pure.Fs.{u32_rounds, Fs, signature_value, fs_make_dir, fs_make_file, fs_open_dir, fs_open_file}
use pure.Fs.View.{folder, leaf, IsValid, IsRoomy, FewFiles}
use pure.Fs.Make.{Makes, fs_make_dir-Makes, fs_make_file-Makes}
use pure.Fs.Open.{FoundDir, LooksUp, contents_of, fs_open_dir-LooksUp, fs_open_file-LooksUp}
use pure.Run.Agrees.{Answer}
use pure.Stream.{
  Stream, stream_read, stream_write, stream_set_pos, bytes16, bytes64, number16, number64,
}
use pure.Stream.Codec.{number16-bytes16, number64-bytes64}
use pure.Stream.Tape.{IsTape}
use pure.Image.{fs_size, fs_export, fs_import}
use pure.Image.Bytes.{DirFits, height}
use pure.Image.RoundTrip.{with_size, fs_image, Takes, fs_import-fs_export}
use pure.Image.Size.{dir_names_size, fs_size-image}
use pure.Mbr.{Mbr, mbr_zero, mbr_read, mbr_write}
use pure.Mbr.Laws.{DapFits, MbrFits, mbr_image, mbr_read-mbr_write}
use pure.Allocator.{E820, Alloc, find_suitable_addr, free_start, alloc_bytes, map_init, table_addr}
use pure.Allocator.Search.{LiesIn, Chain, find_suitable_addr-LiesIn}
use pure.Allocator.Table.{entry, HoldsTable, map_init-Chain}

-- A stream in memory: the bytes before the position, and those behind it.
abbrev Memory : Type 0
Memory = CString.Bytes × CString.Bytes

abbrev memory : Stream Memory
memory = record {
  get_size = some (λ s. done (length s.0 + length s.1) s);
  get_pos = some (λ s. done (length s.0) s);
  read = some (λ n s. done (take n s.1) (s.0 ++ take n s.1, drop n s.1));
  set_pos = some (λ n s. done tt (take n (s.0 ++ s.1), drop n (s.0 ++ s.1)));
  write = some (λ xs s. done tt (s.0 ++ xs, drop (length xs) s.1));
}

take-append_bytes : (xs ys : CString.Bytes) → take (length xs) (xs ++ ys) ≡ xs
take-append_bytes = take-append

drop-append_bytes : (xs ys : CString.Bytes) → drop (length xs) (xs ++ ys) ≡ ys
drop-append_bytes = drop-append

unfoldable memory_tape : IsTape memory
unfolding stream_read stream_write stream_set_pos
memory_tape = record {
  before = λ s. s.0;
  behind = λ s. s.1;
  reads = λ s xs ys h.
      ((s.0 ++ xs, ys), rw (h, take-append_bytes xs ys, drop-append_bytes xs ys) refl, refl, refl);
  writes = λ s xs. ((s.0 ++ xs, drop (length xs) s.1), refl, refl, refl);
  rewinds = λ s. (([], s.0 ++ s.1), refl, refl, refl);
}

-- The texts a, b, c, and `a/../b`.
abbrev name_a : CString.Bytes
name_a = b'a' ∷ []

abbrev name_b : CString.Bytes
name_b = b'b' ∷ []

-- The tree with the directory a, in it the file b of two bytes.
abbrev sample_file : File
sample_file = record { name = name_b; contents = 1 ∷ 2 ∷ [] }

abbrev sample : Fs
sample = record {
  signature = signature_value;
  size = 0;
  root = dir [] (cons (dir name_a nil (sample_file ∷ [])) nil) [];
}

-- `/a/b`, `/a/../b` and `a/./b`
abbrev path_a_b : CString.Bytes
path_a_b = join (name_a ∷ name_b ∷ [])

abbrev path_b : CString.Bytes
path_b = join (name_a ∷ dot_dot ∷ name_b ∷ [])

abbrev path_a : CString.Bytes
path_a = join (name_a ∷ dot ∷ [])

sample-IsValid : IsValid sample.root
unfolding IsValid
sample-IsValid = ground arith

sample-IsRoomy : IsRoomy sample.root
unfolding IsRoomy
sample-IsRoomy = ground arith

pub sample-FewFiles : FewFiles (u32_rounds - 1) sample.root
unfolding FewFiles
sample-FewFiles = ground arith

pub sample-AllFound : FewFiles u32_rounds sample.root
unfolding FewFiles
sample-AllFound = ground arith

sample-DirFits : DirFits sample.root
unfolding DirFits
sample-DirFits = ground arith

fs_make_dir-Makes_example :
    (x : Answer Fs) × Agrees (true ∷ []) x (fs_make_dir sample path_b (true ∷ []))
    × Makes folder (name_b ∷ []) sample x
unfolding same
fs_make_dir-Makes_example =
    fs_make_dir-Makes sample path_b (true ∷ []) (ground arith) refl (ground arith) sample-IsValid
      sample-IsRoomy

fs_make_file-Makes_example :
    (x : Answer Fs) × Agrees [] x (fs_make_file sample path_b [])
    × Makes (leaf []) (name_b ∷ []) sample x
unfolding same
fs_make_file-Makes_example =
    fs_make_file-Makes sample path_b [] (ground arith) refl (ground arith) sample-IsValid
      sample-IsRoomy

fs_open_dir-LooksUp_example :
    (o : Option Dir) × LooksUp [] o (fs_open_dir sample path_a [])
    × FoundDir (name_a ∷ []) sample.root o
unfolding same
fs_open_dir-LooksUp_example =
    fs_open_dir-LooksUp sample path_a [] (ground arith) refl (ground arith) sample-IsRoomy

fs_open_file-LooksUp_example :
    (o : Option File) × LooksUp [] o (fs_open_file sample path_a_b [])
    × (contents_of o ≡ some (1 ∷ 2 ∷ []))
unfolding same
fs_open_file-LooksUp_example =
    fs_open_file-LooksUp sample path_a_b [] (ground arith) refl (ground arith) sample-IsRoomy
      sample-IsValid sample-AllFound

path_normalize-walk_example :
    path_normalize (map named (name_a ∷ dot_dot ∷ name_b ∷ [])) []
    ≡ done (map named (name_b ∷ [])) []
unfolding same
path_normalize-walk_example = path_normalize-walk (name_a ∷ dot_dot ∷ name_b ∷ []) []

path_normalize-climbs_example :
    (path_normalize (map named (dot_dot ∷ name_b ∷ [])) [] ≡ fault) ↔ (true ≡ true)
unfolding same
path_normalize-climbs_example = path_normalize-climbs (dot_dot ∷ name_b ∷ []) []

path_parse-Agrees_example :
    Agrees
      (true ∷ [])
      (value (map named (name_a ∷ name_b ∷ [])))
      (path_parse [] path_a_b (true ∷ []))
path_parse-Agrees_example = path_parse-Agrees [] path_a_b (true ∷ []) (ground arith)

path_parse-join_example :
    Agrees []
      (value (map named (name_b ∷ name_a ∷ name_b ∷ [])))
      (path_parse (named name_b ∷ []) path_a_b [])
path_parse-join_example =
    path_parse-join (named name_b ∷ []) (name_a ∷ name_b ∷ []) [] (ground arith)

path_normalize-IsPlain_example :
    (qs : List CString.Bytes) × (map named (name_b ∷ []) ≡ map named qs)
    × All IsPlain qs
    × (path_normalize (map named (name_b ∷ [])) [] ≡ done (map named (name_b ∷ [])) [])
path_normalize-IsPlain_example =
    path_normalize-IsPlain (name_a ∷ dot_dot ∷ name_b ∷ []) [] []
      (unfold path_normalize normalize_loop same strcmp in refl)

fs_import-fs_export_example :
    (t : Memory) × (fs_export memory sample ([], []) ≡ done (with_size sample) t)
    × (t.0 ≡ [] ++ fs_image sample)
    × ((fuel : ℕ) (rest : CString.Bytes) (u : Memory)
        → height sample.root ≤ fuel
        → u.1 ≡ fs_image sample ++ rest
        → Takes memory memory_tape (with_size sample) rest (fs_import memory fuel (u, [])))
unfolding memory_tape
fs_import-fs_export_example =
    fs_import-fs_export memory memory_tape sample ([], []) refl sample-DirFits

fs_size-image_example :
    (fs_size sample + dir_names_size sample.root) % 2 ^ 64 ≡ length (fs_image sample) % 2 ^ 64
fs_size-image_example = fs_size-image sample

number64-bytes64_example : number64 (bytes64 0x123456789abcdef0) ≡ 0x123456789abcdef0
number64-bytes64_example = number64-bytes64 0x123456789abcdef0 (omega arith)

-- A boot record with a signature, to be written over eight bytes from their middle on.
abbrev sample_mbr : Mbr
sample_mbr = record mbr_zero { boot_signature = 0xaa55 }

sample_mbr-MbrFits : MbrFits sample_mbr
unfolding memset
sample_mbr-MbrFits = record {
  code_fits = refl;
  st2dap_fits = zero_fits;
  st3dap_fits = zero_fits;
  boot_signature_fits = omega arith;
}
  where
    zero_fits : DapFits mbr_zero.st2dap
    zero_fits = record {
      reserved_fits = refl;
      sector_count_fits = omega arith;
      address_fits = omega arith;
      segment_fits = omega arith;
      sector_fits = omega arith;
    }

mbr_read-mbr_write_example :
    (t : Memory) × (mbr_write memory sample_mbr (1 ∷ 2 ∷ [], 3 ∷ 4 ∷ []) ≡ done tt t)
    × (t.0 ≡ mbr_image sample_mbr)
    × (t.1 ≡ drop 510 (1 ∷ 2 ∷ 3 ∷ 4 ∷ []))
    × (u : Memory) × (mbr_read memory t ≡ done sample_mbr u)
unfolding memory_tape
mbr_read-mbr_write_example =
    mbr_read-mbr_write memory memory_tape sample_mbr (1 ∷ 2 ∷ [], 3 ∷ 4 ∷ []) sample_mbr-MbrFits

-- The text `-4F`, and what the structure holds before.
abbrev old_uuid : CString.Bytes
old_uuid = 1 ∷ 2 ∷ 3 ∷ 4 ∷ 5 ∷ 6 ∷ 7 ∷ 8 ∷ 9 ∷ 10 ∷ 11 ∷ 12 ∷ 13 ∷ 14 ∷ 15 ∷ 16 ∷ []

abbrev short_uuid : CString.Bytes
short_uuid = b'-' ∷ b'4' ∷ b'F' ∷ []

-- A usable section of 1 MiB at 0, one that is not usable, and the end.
abbrev sample_e820 : List E820
sample_e820 =
    (record { addr = 0; size = 0x100000; type_ = 1 })
    ∷ (record { addr = 0x100000; size = 0x1000; type_ = 2 })
    ∷ (record { addr = 0; size = 0; type_ = 0 })
    ∷ []

abbrev sample_allocs : List Alloc
sample_allocs = entry 0 free_start ∷ entry free_start 48 ∷ []

sample_found : find_suitable_addr sample_e820 sample_allocs 0x1000 ≡ 0x70030
unfolding find_suitable_addr
sample_found = refl

find_suitable_addr-LiesIn_example :
    LiesIn 0x1000 (find_suitable_addr sample_e820 sample_allocs 0x1000) sample_allocs sample_e820
find_suitable_addr-LiesIn_example =
    find_suitable_addr-LiesIn sample_e820 sample_allocs 0x1000 (ground arith) (ground arith)
      (ground arith) (λ z. ground (arith, sample_found))

map_init-Chain_example :
    (a : ℕ) × (sample_allocs ≡ entry 0 free_start ∷ entry a (alloc_bytes * 2) ∷ [])
    × HoldsTable a sample_e820
    × Chain sample_allocs
map_init-Chain_example =
    map_init-Chain sample_e820 (ground arith) (unfold map_init table_addr in refl)
