-- ===== src/CString/Index.antt =====
-- Texts that are read by an index kept in an `unsigned int`.
use pure.Prelude.{◌-◌, ◌%◌, ◌^◌, ◌<◌, ◌≡◌, refl, true, ltb, if◌then◌else◌, drop, length, arith}
use pure.CString.{Bytes}

-- What stands in `whole` at the index of `rest`, its end. From 2 ^ 32 on the index begins at 0 again.
unfoldable pub at_index : Bytes → Bytes → Bytes
at_index whole rest =
    let i = length whole - length rest in if ltb i (2 ^ 32) then rest else drop (i % 2 ^ 32) whole

pub at_index-short : (whole rest : Bytes) → length whole < 2 ^ 32 → at_index whole rest ≡ rest
unfolding at_index
at_index-short whole rest h =
    let e : ltb (length whole - length rest) (2 ^ 32) ≡ true = ground arith in rw e refl
