-- ===== src/Stream.antt =====
-- src/lib/stream.c and src/lib/misc.c: byte streams behind callbacks, and the little-endian codecs.
pub mod Codec
pub mod Tape
use pure.Prelude.{ℕ, zero, suc, ◌+◌, ◌*◌, ◌/◌, ◌%◌, ◌^◌, Option, none, some, List, [], ◌∷◌, get_or}
use Prim.Native.Nat.{bit_and, bit_or}
use pure.Error.{enosys}
use pure.Run.{Outcome, M, done, failed, fault, out_of_fuel, and_then, ◌>>=◌, ret, fail}
use pure.CString.{Bytes}

-- `struct pure64_stream`. `S` is what the pointer `data` leads to; `none` is a NULL callback. A
-- callback that succeeds leaves what it puts behind its pointer argument as its result.
pub record Stream (S : Type 0) : Type 0 where
  pub get_size : Option (M S ℕ)
  pub get_pos : Option (M S ℕ)
  pub read : Option (ℕ → M S Bytes)
  pub set_pos : Option (ℕ → M S (Unit {0}))
  pub write : Option (Bytes → M S (Unit {0}))

module _ {S : Type 0} where
  -- `pure64_stream_init`
  abbrev pub stream_init : Stream S
  stream_init = record {
    get_size = none;
    get_pos = none;
    read = none;
    set_pos = none;
    write = none;
  }

  unfoldable pub stream_get_size : Stream S → M S ℕ
  stream_get_size st = elim (st.get_size) [ none ↦ fail enosys | some f ↦ f ]

  unfoldable pub stream_get_pos : Stream S → M S ℕ
  stream_get_pos st = elim (st.get_pos) [ none ↦ fail enosys | some f ↦ f ]

  unfoldable pub stream_read : Stream S → ℕ → M S Bytes
  stream_read st size = elim (st.read) [ none ↦ fail enosys | some f ↦ f size ]

  unfoldable pub stream_set_pos : Stream S → ℕ → M S (Unit {0})
  stream_set_pos st pos = elim (st.set_pos) [ none ↦ fail enosys | some f ↦ f pos ]

  unfoldable pub stream_write : Stream S → Bytes → M S (Unit {0})
  stream_write st buf = elim (st.write) [ none ↦ fail enosys | some f ↦ f buf ]

-- `(n >> 8 * i) & 0xff`
abbrev pub byte_of : ℕ → ℕ → ℕ
byte_of n shift = bit_and (n / 2 ^ shift) 0xff

-- The buffers of `encode_uint16` and `encode_uint64`.
unfoldable pub bytes16 : ℕ → Bytes
bytes16 n = byte_of n 0 ∷ byte_of n 8 ∷ []

unfoldable pub bytes64 : ℕ → Bytes
bytes64 n =
    byte_of n 0
    ∷ byte_of n 8
    ∷ byte_of n 16
    ∷ byte_of n 24
    ∷ byte_of n 32
    ∷ byte_of n 40
    ∷ byte_of n 48
    ∷ byte_of n 56
    ∷ []

-- `n |= buf[i] << 8 * i`, for one byte after the other.
abbrev pub or_byte : Bytes → ℕ → ℕ → ℕ → ℕ
or_byte buf i shift n = bit_or n (get_or buf i 0 * 2 ^ shift)

unfoldable pub number16 : Bytes → ℕ
number16 buf = or_byte buf 1 8 (or_byte buf 0 0 0)

unfoldable pub number64 : Bytes → ℕ
number64 buf = or_byte buf 7 56 (
    or_byte buf 6 48 (
      or_byte buf 5 40 (
        or_byte buf 4 32
          (or_byte buf 3 24 (or_byte buf 2 16 (or_byte buf 1 8 (or_byte buf 0 0 0)))))))

module _ {S : Type 0} (st : Stream S) where
  unfoldable pub encode_uint16 : ℕ → M S (Unit {0})
  encode_uint16 n = stream_write st (bytes16 n)

  unfoldable pub encode_uint64 : ℕ → M S (Unit {0})
  encode_uint64 n = stream_write st (bytes64 n)

  unfoldable pub decode_uint16 : M S ℕ
  decode_uint16 = stream_read st 2 >>= λ buf. ret (number16 buf)

  unfoldable pub decode_uint64 : M S ℕ
  decode_uint64 = stream_read st 8 >>= λ buf. ret (number64 buf)
