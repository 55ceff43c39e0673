-- ===== src/Fs/Names.antt =====
-- What the path functions of the file system read of their argument.
use pure.Prelude.{suc, ◌^◌, ◌<◌, ◌≡◌, refl, ap, List, [], ◌∷◌, map, length, take, some, arith}
use pure.Run.{Mem}
use pure.Run.Agrees.{Agrees, value, Agrees-and_then, ret-Agrees}
use pure.CString.{Bytes, IsText}
use pure.Path.{named, PathName, path_init, path_normalize}
use pure.Path.Parse.{names_in, path_parse-Agrees}
use pure.Path.Normalize.{walk, path_normalize-walk}
use pure.Path.Resolve.{resolve}
use pure.Fs.{counted_names, u32, names_of}

take_all :
    (ns : List Bytes)
    → map (λ n. PathName.data_ n) (take (length (map named ns)) (map named ns)) ≡ ns
take_all [] = refl
take_all (n ∷ ns) = ap (λ t. n ∷ t) (take_all ns)

length-named : (ns : List Bytes) → length (map named ns) ≡ length ns
length-named [] = refl
length-named (n ∷ ns) = ap suc (length-named ns)

counted_names-named : (ns : List Bytes) → length ns < 2 ^ 32 → counted_names (map named ns) ≡ ns
counted_names-named ns h =
    let e : u32 (length (map named ns)) ≡ length (map named ns) = omega (arith, length-named ns) in
    rw e (take_all ns)

path_normalize-Agrees :
    (names : List Bytes) (m : Mem) {ns : List Bytes}
    → walk [] names ≡ some ns
    → Agrees m (value (map named ns)) (path_normalize (map named names) m)
path_normalize-Agrees names m {ns} e =
    rw (path_normalize-walk names m, e) (ret-Agrees (map named ns) m)

-- A path that resolves to fewer than 2 ^ 32 names gives these names to the caller, whatever the
-- allocator answers, unless it refuses a request.
pub names_of-Agrees :
    (s : Bytes) (m : Mem) {ns : List Bytes}
    → IsText s
    → resolve s ≡ some ns
    → length ns < 2 ^ 32
    → Agrees m (value ns) (names_of s m)
unfolding names_of
names_of-Agrees s m {ns} h e small = Agrees-and_then _ (path_parse-Agrees path_init s m h) λ m₁.
    Agrees-and_then _ (path_normalize-Agrees (names_in s) m₁ e)
      λ m₂. rw (counted_names-named ns small) (ret-Agrees ns m₂)
