-- ===== src/Ahci/Overflow.antt =====
-- src/stage-three/ahci.c: reads of less than a sector that `stream_read` does outside of its buffers.
use pure.Prelude.{
  ℕ, ◌+◌, ◌*◌, ◌/◌, ◌%◌, ◌^◌, ◌≤◌, ◌<◌, ◌≡◌, ◌≢◌, refl, sym, arith, ◌⊎◌, inl, inr, Bool, false,
  length, take, drop, Bool-cases, ◌==◌, lt→ltb,
}
use pure.Run.{M, fault}
use pure.CString.{Bytes}
use pure.Ahci.Stream.{
  AhciStream, is_cached, stream_read, read_cached, read_long, read_middle, read_tail, first_bytes,
}
use pure.Ahci.Disk.{bytes_at, Serves, IsCoherent, length-bytes_at, length-overwrite}
use pure.Ahci.Buffer.{fill_buf_lem, copy_buf_lem, copy_buf-fault, cached_true}

first_part :
    (byte size : ℕ)
    → byte < 512
    → 0 < size
    → (byte + first_bytes byte size ≤ 512)
      × (first_bytes byte size ≤ size)
      × (0 < first_bytes byte size)
first_part byte size b pos = ground arith

module _ {P : Type 0} (port_read : ℕ → ℕ → M P (Bool × Bytes)) (disk : ℕ → ℕ)
    (serves : Serves port_read disk) where
  -- The tail of a short read is copied behind what was copied before.
  read_middle-fault :
      (st : AhciStream) (p : P) (sector size to : ℕ) (out : Bytes)
      → length st.buf ≡ 512
      → 0 < size
      → size < 512
      → length out < to + size
      → read_middle port_read sector size to out (st, p) ≡ fault
  unfolding read_middle read_tail
  read_middle-fault st p sector size to out whole pos h over =
      let no_sectors : size / 512 ≡ 0 = omega arith in
      let all_tail : size % 512 ≡ size = omega arith in
      let (q, e) = fill_buf_lem port_read disk serves st p (sector + 0) whole in
      let st1 = record st { buf = bytes_at disk ((sector + 0) * 512) 512 } in
      rw (no_sectors, all_tail, lt→ltb 0 size pos)
        (rw (e, read_tail)
          (rw
            (
              copy_buf-fault port_read st1 q 0 size to out
                  (length-bytes_at disk ((sector + 0) * 512) 512) (inr over),
              read_tail,
            )
            refl))

  read_long-fault :
      (st : AhciStream) (p : P) (sector byte size : ℕ) (out : Bytes)
      → length st.buf ≡ 512
      → byte < 512
      → 0 < size
      → size < 512
      → length out ≡ size
      → read_long port_read sector byte size out (st, p) ≡ fault
  unfolding read_long
  read_long-fault st p sector byte size out whole b pos h k =
      let st0 = record st { buf_offset = 0; buf_length = 0 } in
      let (q, e) = fill_buf_lem port_read disk serves st0 p sector whole in
      let st1 = record st0 { buf = bytes_at disk (sector * 512) 512 } in
      let n = first_bytes byte size in
      let part : (byte + n ≤ 512) × (n ≤ size) × (0 < n) = first_part byte size b pos in
      let len = length-bytes_at disk (sector * 512) 512 in
      let copied = copy_buf_lem port_read st1 q byte n 0 out len (omega arith) (omega arith) in
      rw (e, read_long)
        (rw (copied, read_long)
          (read_middle-fault st1 q sector size n _ len pos h (
            omega (
              arith,
              length-overwrite 0 (take n (drop byte (bytes_at disk (sector * 512) 512))) out,
            ))))

  -- The port serves reads of 1 to 1024 sectors, and the stream's cache is coherent. Then `stream_read`
  -- of 1 to 511 bytes into a buffer of that size reads behind the stream's buffer or writes behind the
  -- caller's, if it goes on beyond the sector of the position, or if it neither begins with that
  -- sector nor finds it in the cache.
  pub stream_read-short_fault :
      (size : ℕ) (st : AhciStream) (p : P) (out : Bytes)
      → IsCoherent disk st
      → 0 < size
      → size < 512
      → (512 < st.position % 512 + size)
        ⊎ ((st.position % 512 ≢ 0) × (st.buf_offset ≢ st.position / 512 * 512))
      → st.position + size + 512 < 2 ^ 64
      → length out ≡ size
      → stream_read port_read size out (st, p) ≡ fault
  unfolding stream_read is_cached read_cached
  stream_read-short_fault size st p out co pos h bad small k =
      elim (Bool-cases (is_cached st size)) [
        | inl e ↦
            let (same, less) =
              cached_true (st.position / 512 * 512) size st.buf_offset (omega arith) co.at_sector
                (omega arith) co.below e in
            rw (e) (
              rw
                (
                  copy_buf-fault port_read st p (st.position % 512) size 0 out co.whole
                      (inl (straddles bad same)),
                  read_cached,
                )
                refl)
        | inr e ↦
            rw (e, inside bad)
              (read_long-fault st p (st.position / 512) (st.position % 512) size out co.whole
                (omega arith) pos h k)
      ]
    where
      straddles :
          (512 < st.position % 512 + size)
            ⊎ ((st.position % 512 ≢ 0) × (st.buf_offset ≢ st.position / 512 * 512))
          → st.position / 512 * 512 ≡ st.buf_offset
          → 512 < st.position % 512 + size
      straddles (inl l) same = l
      straddles (inr (a, b)) same = absurd (b (sym same))

      inside :
          (512 < st.position % 512 + size)
            ⊎ ((st.position % 512 ≢ 0) × (st.buf_offset ≢ st.position / 512 * 512))
          → (st.position % 512 == 0) ≡ false
      inside (inl l) = ground arith
      inside (inr (a, b)) = ground arith
