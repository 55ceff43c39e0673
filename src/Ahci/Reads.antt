-- ===== src/Ahci/Reads.antt =====
-- src/stage-three/ahci.c: what `stream_read` gives of the disk.
use pure.Prelude.{
  ℕ, ◌+◌, ◌*◌, ◌/◌, ◌%◌, ◌^◌, ◌≤◌, ◌<◌, ◌≡◌, refl, sym, ap, ◌∙◌, arith, ◌⊎◌, inl, inr, Bool, length,
  Bool-cases, ==_iff, lt→ltb,
}
use pure.Bits.{u64}
use pure.Run.{M}
use pure.CString.{Bytes}
use pure.Ahci.Stream.{AhciStream, is_cached, stream_read, read_cached, read_short}
use pure.Ahci.Disk.{bytes_at, Serves, IsCoherent, Gives, length-bytes_at}
use pure.Ahci.Buffer.{cached_true, cached_false, fill_buf_lem, copy_buf-bytes_at, and_then-advance}

module _ {P : Type 0} (port_read : ℕ → ℕ → M P (Bool × Bytes)) (disk : ℕ → ℕ)
    (serves : Serves port_read disk) where
  read_cached-Gives :
      (size : ℕ) (st : AhciStream) (p : P) (out : Bytes)
      → IsCoherent disk st
      → st.buf ≡ bytes_at disk (st.position / 512 * 512) 512
      → st.position % 512 + size ≤ 512
      → st.position + size < 2 ^ 64
      → length out ≡ size
      → Gives disk size st st.buf_offset
          (read_cached port_read (st.position % 512) size out (st, p))
  unfolding read_cached
  read_cached-Gives size st p out co e h small k = (
    record st { position = st.position + size },
    p,
    and_then-advance port_read disk serves size st p _ _ _
        (copy_buf-bytes_at port_read disk serves st p (st.position / 512 * 512) (st.position % 512)
          size out e h k)
        (ap (λ (a : ℕ). bytes_at disk a size) (omega arith)) small,
    refl,
    refl,
    record { whole = co.whole; at_sector = co.at_sector; below = co.below; holds = co.holds },
  )

  read_short-Gives :
      (size : ℕ) (st : AhciStream) (p : P) (out : Bytes)
      → IsCoherent disk st
      → st.position % 512 ≡ 0
      → size < 512
      → st.position + size + 512 < 2 ^ 64
      → length out ≡ size
      → Gives disk size st
          (st.position / 512 * 512)
          (read_short port_read (st.position / 512) size out (st, p))
  unfolding read_short
  read_short-Gives size st p out co aligned h small k =
      let start = st.position / 512 * 512 in
      let (q, e) = fill_buf_lem port_read disk serves st p (st.position / 512) co.whole in
      let whole_number : u64 start ≡ start = omega arith in
      let st1 : AhciStream = record {
        position = st.position;
        buf = bytes_at disk start 512;
        buf_offset = start;
        buf_length = 512;
      } in
      (
        record st1 { position = st.position + size },
        q,
        rw (e, read_short)
            (rw whole_number (
              and_then-advance port_read disk serves size st1 q _ _ _
                (copy_buf-bytes_at port_read disk serves st1 q start 0 size out refl (omega arith)
                  k)
                (ap (λ (a : ℕ). bytes_at disk a size) (omega arith)) (omega arith))),
        refl,
        refl,
        record {
          whole = length-bytes_at disk start 512;
          at_sector = omega arith;
          below = omega arith;
          holds = inr refl;
        },
      )

  -- The port serves reads of 1 to 1024 sectors with the bytes of the disk, the stream's cache is
  -- coherent, and the position is not in the first sector. Then `stream_read` of fewer than 512 bytes
  -- into a buffer of that size, which stays within the sector of the position and either begins with
  -- it or is in the cache, returns 0 with the bytes of the disk at the position. The position moves
  -- behind them, and the cache is coherent and holds that sector, so that the reads that follow in it
  -- are of this kind again.
  pub stream_read-short :
      (size : ℕ) (st : AhciStream) (p : P) (out : Bytes)
      → IsCoherent disk st
      → 512 ≤ st.position
      → size < 512
      → st.position % 512 + size ≤ 512
      → (st.position % 512 ≡ 0) ⊎ (st.buf_offset ≡ st.position / 512 * 512)
      → st.position + size + 512 < 2 ^ 64
      → length out ≡ size
      → Gives disk size st (st.position / 512 * 512) (stream_read port_read size out (st, p))
  unfolding stream_read is_cached
  stream_read-short size st p out co far h fits near small k =
      elim (Bool-cases (is_cached st size)) [
        | inl e ↦
            let (same, few) =
              cached_true (st.position / 512 * 512) size st.buf_offset (omega arith) co.at_sector
                (omega arith) co.below e in
            rw (e, same)
              (read_cached-Gives size st p out co (held co.holds same) fits (omega arith) k)
        | inr e ↦
            let aligned : st.position % 512 ≡ 0 = at_start near (
              cached_false (st.position / 512 * 512) size st.buf_offset (omega arith) co.below e) in
            rw (e, (==_iff _ _).1 aligned, lt→ltb _ _ h)
              (read_short-Gives size st p out co aligned h small k)
      ]
    where
      held :
          (st.buf_offset ≡ 0) ⊎ (st.buf ≡ bytes_at disk st.buf_offset 512)
          → st.position / 512 * 512 ≡ st.buf_offset
          → st.buf ≡ bytes_at disk (st.position / 512 * 512) 512
      held (inl z) same = absurd (omega arith)
      held (inr b) same = b ∙ ap (λ (a : ℕ). bytes_at disk a 512) (sym same)

      at_start :
          (st.position % 512 ≡ 0) ⊎ (st.buf_offset ≡ st.position / 512 * 512)
          → (st.position / 512 * 512 ≡ st.buf_offset → 512 ≤ size)
          → st.position % 512 ≡ 0
      at_start (inl a) f = a
      at_start (inr a) f = let l = f (sym a) in absurd (omega (arith, l))
