-- ===== src/Tool/Host.antt =====
-- The files of the host as src/util/pure64.c uses them, `FILE` of the C library: an interface, and
-- what the library promises where nothing goes wrong.
use pure.Prelude.{
  ℕ, [], ◌∷◌, ◌+◌, ◌-◌, ◌/◌, ◌^◌, ◌≤◌, ◌≡◌, Bool, true, false, ◌&&◌, leb, ltb, ◌==◌, if◌then◌else◌,
  Option, length, get_or,
}
use Prim.Native.Nat.{bit_and, max}
use pure.CString.{Bytes}
use pure.Ahci.Disk.{bytes_at}

-- `fseek` from the beginning, with whether it gave 0; `ftell`, where `none` is -1; `fwrite` with the
-- number of bytes written; `fread` with the bytes read; `fputc`.
pub record HostFile (S : Type 0) : Type 0 where
  pub fseek : ℕ → S → Bool × S
  pub ftell : S → Option ℕ × S
  pub fwrite : Bytes → S → ℕ × S
  pub fread : ℕ → S → Bytes × S
  pub fputc : ℕ → S → S

-- A step of a function that returns EXIT_FAILURE when the step fails. `true` is EXIT_SUCCESS.
abbrev pub or_fail : {S : Type 0} → Bool × S → (S → Bool × S) → Bool × S
or_fail (true, s) k = k s
or_fail (false, s) k = (false, s)

module _ {S : Type 0} (file : HostFile S) where
  -- `fwrite(…) != size`
  abbrev pub write_all : Bytes → S → Bool × S
  write_all xs s = let (n, t) = file.fwrite xs s in (n == length xs, t)

  -- `fread(…) != size`, and what follows with the bytes.
  abbrev pub read_all : ℕ → S → (Bytes → S → Bool × S) → Bool × S
  read_all n s k = let (xs, t) = file.fread n s in if length xs == n then k xs t else (false, t)

-- The bytes of a number of 32 and of 64 bits on the host, which is little-endian.
unfoldable pub bytes32 : ℕ → Bytes
bytes32 n =
    bit_and (n / 2 ^ 0) 0xff
    ∷ bit_and (n / 2 ^ 8) 0xff
    ∷ bit_and (n / 2 ^ 16) 0xff
    ∷ bit_and (n / 2 ^ 24) 0xff
    ∷ []

-- A file of bytes by their addresses, that are 0 from its end on.
abbrev pub stored : ℕ → Bytes → (ℕ → ℕ) → ℕ → ℕ
stored at_pos xs byte a =
    if leb at_pos a && ltb a (at_pos + length xs) then get_or xs (a - at_pos) 0 else byte a

pub record IsFile {S : Type 0} (file : HostFile S) : Type 0 where
  pub byte : S → ℕ → ℕ
  pub size : S → ℕ
  pub position : S → ℕ
  pub seeks :
      (p : ℕ) (s : S)
      → (t : S) × (file.fseek p s ≡ (true, t))
        × (byte t ≡ byte s)
        × (size t ≡ size s)
        × (position t ≡ p)
  pub reads :
      (n : ℕ) (s : S)
      → position s + n ≤ size s
      → (t : S) × (file.fread n s ≡ (bytes_at (byte s) (position s) n, t))
        × (byte t ≡ byte s)
        × (size t ≡ size s)
        × (position t ≡ position s + n)
  pub writes :
      (xs : Bytes) (s : S)
      → (t : S) × (file.fwrite xs s ≡ (length xs, t))
        × (byte t ≡ stored (position s) xs (byte s))
        × (size t ≡ max (size s) (position s + length xs))
        × (position t ≡ position s + length xs)
  pub puts :
      (c : ℕ) (s : S)
      → (byte (file.fputc c s) ≡ stored (position s) (c ∷ []) (byte s))
        × (size (file.fputc c s) ≡ max (size s) (position s + 1))
        × (position (file.fputc c s) ≡ position s + 1)
