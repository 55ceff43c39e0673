-- ===== src/Tests/Rc.antt =====
-- A short file, compiled to C.
use pure.Prelude.{[], ◌∷◌, ◌++◌, ◌≡◌, refl, arith, some}
use pure.CString.{Bytes, same}
use pure.Rc.{
  codes, Plan, no_options, parse_options, write_lines, write_source, source_head, source_tail,
}
use pure.Rc.RoundTrip.{values, write_source-values}

abbrev plan : Plan
plan = record {
  input = 1 ∷ 0xab ∷ [];
  header_path = codes "a.h";
  source_path = codes "a.c";
  name = codes "a";
}

write_source-values_example :
    (lines : Bytes) × (write_source 3 plan ≡ some (source_head plan ++ (lines ++ source_tail plan)))
    × (values lines ≡ some (1 ∷ 0xab ∷ []))
write_source-values_example = write_source-values 3 plan (omega arith) (omega arith)

-- A file of no bytes and one of 16 end with a line that holds a tab alone.
lines-empty : write_lines 1 [] ≡ some (9 ∷ [])
unfolding write_lines
lines-empty = refl

lines-short : write_lines 1 (1 ∷ 0xab ∷ []) ≡ some (9 ∷ codes "0x01, 0xab,\n")
unfolding write_lines
lines-short = refl

options-parsed :
    parse_options (codes "--name" ∷ codes "a" ∷ codes "--input" ∷ []) no_options
    ≡ some (record no_options { name = some (codes "a") })
unfolding parse_options same
options-parsed = refl
