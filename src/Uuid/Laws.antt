-- ===== src/Uuid/Laws.antt =====
-- Which texts `pure64_uuid_parse` accepts, and what it stores for them.
use pure.Prelude.{ℕ, ◌+◌, ◌*◌, ◌≡◌, some, [], ◌∷◌}
use pure.CString.{Bytes}
use pure.Uuid.{hex_value}

-- The text is the bytes as pairs of hexadecimal digits, in order, with any number of dashes in
-- front of a pair, and `rest` behind them.
pub data Spells (rest : Bytes) : Bytes → Bytes → Type 0 where
  ends : {s : Bytes} → s ≡ rest → Spells rest [] s
  dash : {b : ℕ} {bs s : Bytes} → Spells rest (b ∷ bs) s → Spells rest (b ∷ bs) (b'-' ∷ s)
  pair :
      {b c c' high low : ℕ} {bs s : Bytes}
      → hex_value c ≡ some high
      → hex_value c' ≡ some low
      → b ≡ high * 16 + low
      → Spells rest bs s
      → Spells rest (b ∷ bs) (c ∷ c' ∷ s)
