-- ===== src/Path.antt =====
-- src/lib/path.c: a path as an array of names.
pub mod Parse
pub mod Normalize
pub mod Names
pub mod Idempotent
pub mod Resolve
use pure.Prelude.{
  ℕ, zero, suc, ◌+◌, ◌<◌, Bool, true, false, Option, none, some, List, [], ◌∷◌, ◌++◌, ltb, leb,
  ◌==◌, if◌then◌else◌, ◌||◌, length, get_elem?, drop_last, not,
}
use pure.Error.{Error}
use pure.Run.{Outcome, M, Mem, done, failed, fault, out_of_fuel, and_then, ◌>>=◌, ◌>>◌, ret, alloc}
use pure.CString.{Bytes, copy_name, strlen, same}

-- `struct pure64_path_name`. `live` is false from the moment that the block `data` is freed.
pub record PathName : Type 0 where
  pub data_ : Bytes
  pub size : ℕ
  pub live : Bool

-- `struct pure64_path`: the list is `name_array`, its length `name_count`.
abbrev pub FilePath : Type 0
FilePath = List PathName

abbrev pub named : Bytes → PathName
named name = record { data_ = name; size = length name; live = true }

-- `pure64_path_init`
abbrev pub path_init : FilePath
path_init = []

-- `pure64_path_get_name`, where `none` is NULL.
unfoldable pub path_get_name : FilePath → ℕ → Option Bytes
path_get_name path index = elim (get_elem? path index) [ none ↦ none | some n ↦ some n.data_ ]

-- `is_separator`
abbrev pub is_separator : ℕ → Bool
is_separator c = (c == b'/') || (c == b'\\')

-- `pure64_path_push_child`: one request for the array, one for the copy of the name.
unfoldable pub path_push_child : FilePath → Bytes → M Mem FilePath
path_push_child path name = do
  alloc
  alloc
  ret (path ++ (record { data_ = copy_name name; size = strlen name; live = true }) ∷ [])

-- The growth of `tmp` before a character is stored: the size reserved after it.
abbrev pub reserve : ℕ → ℕ → M Mem ℕ
reserve tmp_size tmp_res =
    if leb tmp_res (tmp_size + 1) then (do alloc; ret (tmp_res + 64)) else ret tmp_res

-- `tmp[tmp_size++] = c; tmp[tmp_size] = 0;` in a block of `tmp_res` bytes.
abbrev pub store : Bytes → ℕ → ℕ → M Mem Bytes
store tmp tmp_res c m = if ltb (length tmp + 1) tmp_res then done (tmp ++ c ∷ []) m else fault

-- The loop of `pure64_path_parse` and what follows it. `tmp` holds the `tmp_size` characters
-- stored, in a block of `tmp_res` bytes.
unfoldable pub parse_loop : Bytes → FilePath → Bytes → ℕ → M Mem FilePath
parse_loop [] path tmp tmp_res = elim tmp [ [] ↦ ret path | c ∷ cs ↦ path_push_child path (c ∷ cs) ]
parse_loop (c ∷ rest) path tmp tmp_res = elim (is_separator c) [
  | true ↦ elim tmp [
    | [] ↦ parse_loop rest path [] tmp_res
    | t ∷ ts ↦ path_push_child path (t ∷ ts) >>= λ path'. parse_loop rest path' [] tmp_res
  ]
  | false ↦ reserve (length tmp) tmp_res >>= λ res.
      store tmp res c >>= λ tmp'. parse_loop rest path tmp' res
]

-- `pure64_path_parse`. The argument is the text of the string, without its terminator.
unfoldable pub path_parse : FilePath → Bytes → M Mem FilePath
path_parse path path_str = parse_loop path_str path [] 0

abbrev pub dot : Bytes
dot = b'.' ∷ []

abbrev pub dot_dot : Bytes
dot_dot = b'.' ∷ b'.' ∷ []

-- The inner loops of `pure64_path_normalize`, which move the names behind an index down by one.
abbrev pub remove_at : FilePath → ℕ → FilePath
remove_at [] i = []
remove_at (n ∷ path) zero = path
remove_at (n ∷ path) (suc i) = n ∷ remove_at path i

-- `pure64_free(path->name_array[0].data); path->name_count--;`
abbrev pub free_first : FilePath → FilePath
free_first [] = []
free_first (n ∷ path) = drop_last ((record n { live = false }) ∷ path)

-- The outer loop of `pure64_path_normalize`. A comparison with a freed name is a fault.
unfoldable pub normalize_loop : ℕ → ℕ → FilePath → M Mem FilePath
normalize_loop zero i path m = out_of_fuel
normalize_loop (suc f) i path m = elim (get_elem? path i) [
  | none ↦ done path m
  | some n ↦ elim n.live [
    | false ↦ fault
    | true ↦ elim (same n.data_ dot) [
      | true ↦ normalize_loop f i (remove_at path i) m
      | false ↦ elim (same n.data_ dot_dot) [
        | false ↦ normalize_loop f (suc i) path m
        | true ↦ elim i [
          | zero ↦ normalize_loop f 0 (free_first path) m
          | suc k ↦ normalize_loop f k (remove_at (remove_at path k) k) m
        ]
      ]
    ]
  ]
]

-- `pure64_path_normalize`. Every round leaves one name less at or behind the index, so this
-- much fuel is enough.
unfoldable pub path_normalize : FilePath → M Mem FilePath
path_normalize path = normalize_loop (suc (length path)) 0 path
