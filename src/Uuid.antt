-- ===== src/Uuid.antt =====
-- src/lib/uuid.c: parsing of UUIDs.
pub mod Laws
use pure.Prelude.{
  ℕ, zero, suc, ◌+◌, ◌-◌, ◌*◌, ◌%◌, Bool, true, false, Option, none, some, List, [], ◌∷◌, ◌++◌,
  drop, leb, ◌==◌, ◌&&◌, if◌then◌else◌, get_or,
}
use Prim.Native.Nat.{bit_or}
use pure.CString.{Bytes, memset, first_char}
use pure.CString.Index.{at_index}

-- `pure64_tolower`
unfoldable pub tolower : ℕ → ℕ
tolower c = if leb b'A' c && leb c b'Z' then b'a' + (c - b'A') else c

-- The value of a character as a hexadecimal digit: the two conditions at the digits.
unfoldable pub hex_value : ℕ → Option ℕ
unfolding tolower
hex_value c =
    let l = tolower c in
    if leb b'0' l && leb l b'9'
    then some (l - b'0' + 0)
    else if leb b'a' l && leb l b'f'
    then some (l - b'a' + 10)
    else none

-- The loop of `pure64_uuid_parse` over what is left of the text. `bytes` are the bytes that are
-- complete, `old` those that `uuid->bytes` holds behind them. `some none` is the return of -1, and
-- `none` a loop that has not ended on the fuel given. The character behind the end of the list is
-- the NUL.
unfoldable pub parse_loop : ℕ → Bytes → Bytes → Bytes → Bytes → Option (Option Bytes)
unfolding at_index
parse_loop zero text bytes old str = none
parse_loop (suc fuel) text bytes [] str = some (some bytes)
parse_loop (suc fuel) text bytes (o ∷ old) [] = some (some (bytes ++ o ∷ old))
parse_loop (suc fuel) text bytes (o ∷ old) (c ∷ str) = elim (c == 0) [
  | true ↦ some (some (bytes ++ o ∷ old))
  | false ↦ elim (hex_value c) [
    | some high ↦ elim (hex_value (first_char (at_index text str))) [
      | none ↦ some none
      | some low ↦
          parse_loop fuel text (bytes ++ bit_or (bit_or 0 (high * 16)) low ∷ []) old
            (at_index text (drop 1 str))
    ]
    | none ↦ elim (tolower c == b'-') [
      | true ↦ parse_loop fuel text bytes (0 ∷ old) (at_index text str)
      | false ↦ some none
    ]
  ]
]

-- The copies through `buf` for the little-endian fields.
unfoldable pub reorder : Bytes → Bytes
reorder bytes =
    get_or bytes 3 0
    ∷ get_or bytes 2 0
    ∷ get_or bytes 1 0
    ∷ get_or bytes 0 0
    ∷ get_or bytes 5 0
    ∷ get_or bytes 4 0
    ∷ get_or bytes 7 0
    ∷ get_or bytes 6 0
    ∷ get_or bytes 8 0
    ∷ get_or bytes 9 0
    ∷ get_or bytes 10 0
    ∷ get_or bytes 11 0
    ∷ get_or bytes 12 0
    ∷ get_or bytes 13 0
    ∷ get_or bytes 14 0
    ∷ get_or bytes 15 0
    ∷ []

-- `pure64_uuid_zero`
unfoldable pub uuid_zero : Bytes → Bytes
uuid_zero bytes = memset bytes 0 16

-- `pure64_uuid_parse`, from the 16 bytes that the structure holds before the call.
unfoldable pub uuid_parse : ℕ → Bytes → Bytes → Option (Option Bytes)
unfolding parse_loop reorder
uuid_parse fuel old str = elim (parse_loop fuel str [] old str) [
  | none ↦ none
  | some none ↦ some none
  | some (some bytes) ↦ some (some (reorder bytes))
]
