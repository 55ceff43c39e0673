-- ===== src/Ahci/Stream.antt =====
-- src/stage-three/ahci.c and ahci.h: an AHCI port as a stream of bytes.
use pure.Prelude.{
  ℕ, zero, suc, [], ◌∷◌, ◌+◌, ◌-◌, ◌*◌, ◌/◌, ◌%◌, ◌^◌, Bool, true, false, ◌&&◌, ◌==◌, ltb, leb,
  if◌then◌else◌, length, take, drop,
}
use pure.Bits.{u64}
use pure.Run.{M, done, fault, ◌>>=◌, ◌>>◌, ret, on_second}
use pure.CString.{Bytes}

-- `struct ahci_stream` without its port. `buf` has 512 bytes.
pub record AhciStream : Type 0 where
  pub position : ℕ
  pub buf : Bytes
  pub buf_offset : ℕ
  pub buf_length : ℕ

-- `ahci_stream_init`, which leaves `buf` as it finds it.
unfoldable pub ahci_stream_init : Bytes → AhciStream
ahci_stream_init buf = record { position = 0; buf = buf; buf_offset = 0; buf_length = 0 }

unfoldable pub stream_set_pos : ℕ → AhciStream → AhciStream
stream_set_pos pos st = record st { position = pos }

-- The test whether a read can be done from the cache. Arithmetic in `uint64_t`.
unfoldable pub is_cached : AhciStream → ℕ → Bool
is_cached st size =
    let start = u64 (st.position / 512 * 512) in
    leb st.buf_offset start
    && ltb start (u64 (st.buf_offset + 512))
    && ltb (u64 (start + size)) (u64 (st.buf_offset + 512))

-- Bytes stored in a region of memory from an index on, where the region must be large enough.
abbrev pub overwrite : ℕ → Bytes → Bytes → Bytes
overwrite to xs [] = []
overwrite zero [] (y ∷ out) = y ∷ out
overwrite zero (x ∷ xs) (y ∷ out) = x ∷ overwrite zero xs out
overwrite (suc to) xs (y ∷ out) = y ∷ overwrite to xs out

-- `pure64_memcpy(&out[to], &buf[from], size)`
unfoldable pub copy_out : {S : Type 0} → Bytes → ℕ → ℕ → ℕ → Bytes → M S Bytes
copy_out buf from size to out s =
    if leb (from + size) (length buf) && leb (to + size) (length out)
    then done (overwrite to (take size (drop from buf)) out) s
    else fault

-- The number of bytes that are copied of the first sector.
abbrev pub first_bytes : ℕ → ℕ → ℕ
first_bytes byte size = if ltb size (512 - byte) then size else 512 - byte

-- `ahci_port_read` with the bytes that the device has stored in the buffer when it returns: the
-- first result is whether it returned 0.
module _ {P : Type 0} (port_read : ℕ → ℕ → M P (Bool × Bytes)) where
  -- The state is the stream and that of the port. The sector count is a `uint32_t`.
  abbrev pub call_port : ℕ → ℕ → M (AhciStream × P) (Bool × Bytes)
  call_port sector count = on_second (port_read sector (count % 2 ^ 32))

  -- A read of one sector into `stream->buf`.
  abbrev pub store_buf : Bool × Bytes → M (AhciStream × P) Bool
  store_buf (ok, xs) (st, p) =
      if leb (length xs) (length st.buf)
      then done ok (record st { buf = overwrite 0 xs st.buf }, p)
      else fault

  unfoldable pub fill_buf : ℕ → M (AhciStream × P) Bool
  fill_buf sector = call_port sector 1 >>= store_buf

  -- A read of sectors to an index of the caller's buffer.
  abbrev pub store_out : ℕ → Bytes → Bool × Bytes → M (AhciStream × P) (Bool × Bytes)
  store_out to out (ok, xs) s =
      if leb (to + length xs) (length out) then done (ok, overwrite to xs out) s else fault

  unfoldable pub copy_buf : ℕ → ℕ → ℕ → Bytes → M (AhciStream × P) Bytes
  unfolding copy_out
  copy_buf from size to out (st, p) = copy_out st.buf from size to out (st, p)

  abbrev pub set_cache : ℕ → ℕ → M (AhciStream × P) (Unit {0})
  set_cache offset len (st, p) = done tt (record st { buf_offset = offset; buf_length = len }, p)

  -- The end of a read that returns 0.
  abbrev pub advance : ℕ → Bytes → M (AhciStream × P) (Bool × Bytes)
  advance size out (st, p) = done (true, out) (record st { position = u64 (st.position + size) }, p)

  unfoldable pub read_cached : ℕ → ℕ → Bytes → M (AhciStream × P) (Bool × Bytes)
  read_cached byte size out = copy_buf byte size 0 out >>= advance size

  unfoldable pub read_short : ℕ → ℕ → Bytes → M (AhciStream × P) (Bool × Bytes)
  read_short sector size out = fill_buf sector >>= λ ok.
      if ok
      then (set_cache (u64 (sector * 512)) 512 >> copy_buf 0 size 0 out >>= advance size)
      else ret (false, out)

  -- The code from `tailing_bytes` on; `to` is where `buf8` stands in the caller's buffer.
  unfoldable pub read_tail : ℕ → ℕ → ℕ → ℕ → Bytes → M (AhciStream × P) (Bool × Bytes)
  read_tail sector count size to out =
      if ltb 0 (size % 512)
      then (fill_buf (sector + count) >>= λ ok.
          if ok then (copy_buf 0 (size % 512) to out >>= advance size) else ret (false, out))
      else advance size out

  -- The code from `sector_count` on.
  unfoldable pub read_middle : ℕ → ℕ → ℕ → Bytes → M (AhciStream × P) (Bool × Bytes)
  read_middle sector size to out =
      let count = size / 512 in
      if ltb 0 count
      then (call_port (sector + 1) (count - 1) >>= store_out to out >>= λ r.
          if r.0
          then read_tail sector count size (to + (count - 1) * 512) r.1
          else ret (false, r.1))
      else read_tail sector count size to out

  -- The code behind the two early returns.
  unfoldable pub read_long : ℕ → ℕ → ℕ → Bytes → M (AhciStream × P) (Bool × Bytes)
  read_long sector byte size out = set_cache 0 0 >> fill_buf sector >>= λ ok.
      if ok
      then (copy_buf byte (first_bytes byte size) 0 out
          >>= read_middle sector size (first_bytes byte size))
      else ret (false, out)

  -- The result is whether 0 is returned, and the caller's buffer afterwards.
  unfoldable pub stream_read : ℕ → Bytes → M (AhciStream × P) (Bool × Bytes)
  stream_read size out (st, p) =
      let sector = st.position / 512 in
      let byte = st.position % 512 in
      if is_cached st size
      then read_cached byte size out (st, p)
      else if (byte == 0) && ltb size 512
      then read_short sector size out (st, p)
      else read_long sector byte size out (st, p)
