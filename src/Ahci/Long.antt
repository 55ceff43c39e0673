-- ===== src/Ahci/Long.antt =====
-- src/stage-three/ahci.c: reads that `stream_read` takes from the port in several parts.
use pure.Prelude.{
  ℕ, ◌+◌, ◌-◌, ◌*◌, ◌/◌, ◌%◌, ◌^◌, ◌≤◌, ◌<◌, ◌≡◌, refl, sym, ap, ◌∙◌, arith, inl, inr, Bool, true,
  false, length, take, Bool-cases, leb, ltb, lt→ltb,
}
use mathlib.Core.Path.{subst}
use pure.Run.{M, done, and_then}
use pure.CString.{Bytes}
use pure.Ahci.Stream.{
  AhciStream, overwrite, is_cached, copy_buf, stream_read, read_long, read_middle, read_tail,
  advance,
}
use pure.Ahci.Disk.{
  bytes_at, Serves, IsCoherent, Gives, length-bytes_at, bytes_at-append, slice-bytes_at, Filled,
  length-overwrite, overwrite-Filled, Filled-whole, Filled-nothing,
}
use pure.Ahci.Buffer.{fill_buf_lem, copy_buf_lem, and_then-advance, cached_true, le→leb}

-- One more part behind those that are stored already.
overwrite-bytes_at :
    (disk : ℕ → ℕ) (a m n : ℕ) (out : Bytes)
    → Filled (bytes_at disk a m) out
    → m + n ≤ length out
    → Filled (bytes_at disk a (m + n)) (overwrite m (bytes_at disk (a + m) n) out)
overwrite-bytes_at disk a m n out filled h =
    let lm = length-bytes_at disk a m in
    let ln = length-bytes_at disk (a + m) n in
    let next =
      overwrite-Filled (bytes_at disk a m) (bytes_at disk (a + m) n) out filled
        (omega (arith, lm, ln)) in
    rw (bytes_at-append disk a m n) (rw lm at next)

module _ {P : Type 0} (port_read : ℕ → ℕ → M P (Bool × Bytes)) (disk : ℕ → ℕ)
    (serves : Serves port_read disk) where
  read_tail-Gives :
      (st : AhciStream) (p : P) (sector count size to : ℕ) (out : Bytes)
      → length st.buf ≡ 512
      → st.buf_offset ≡ 0
      → st.position ≡ sector * 512
      → to ≡ count * 512
      → to + size % 512 ≡ size
      → st.position + size < 2 ^ 64
      → length out ≡ size
      → Filled (bytes_at disk st.position to) out
      → Gives disk size st 0 (read_tail port_read sector count size to out (st, p))
  unfolding read_tail
  read_tail-Gives st p sector count size to out whole none_cached at to_eq sum small k filled =
      elim (Bool-cases (ltb 0 (size % 512))) [
        | inl e ↦
            let (q, f) = fill_buf_lem port_read disk serves st p (sector + count) whole in
            (
              record st {
                buf = bytes_at disk ((sector + count) * 512) 512;
                position = st.position + size;
              },
              q,
              rw (e, f, read_tail)
                  (tail_end (record st { buf = bytes_at disk ((sector + count) * 512) 512 }) q refl
                    refl),
              refl,
              none_cached,
              record {
                whole = length-bytes_at disk ((sector + count) * 512) 512;
                at_sector = omega arith;
                below = omega arith;
                holds = inl none_cached;
              },
            )
        | inr e ↦ (
          record st { position = st.position + size },
          p,
          rw (e, read_tail)
              (and_then-advance port_read disk serves size st p out (bytes_at disk st.position size)
                (done out (st, p)) refl (all_there (ground arith)) small),
          refl,
          none_cached,
          record {
            whole = whole;
            at_sector = omega arith;
            below = omega arith;
            holds = inl none_cached;
          },
        )
      ]
    where
      all_there : to ≡ size → out ≡ bytes_at disk st.position size
      all_there e =
          Filled-whole (bytes_at disk st.position to) out filled
            (length-bytes_at disk st.position to ∙ e ∙ sym k)
          ∙ ap (bytes_at disk st.position) e

      stored :
          overwrite to (bytes_at disk (st.position + to) (size % 512)) out
          ≡ bytes_at disk st.position size
      stored =
          let next = overwrite-bytes_at disk st.position to (size % 512) out filled (omega arith) in
          let len = length-overwrite to (bytes_at disk (st.position + to) (size % 512)) out in
          Filled-whole (bytes_at disk st.position (to + size % 512)) _ next
            (length-bytes_at disk st.position (to + size % 512) ∙ sum ∙ sym k ∙ sym len)
          ∙ ap (bytes_at disk st.position) sum

      tail_end :
          (st1 : AhciStream) (q : P)
          → st1.buf ≡ bytes_at disk ((sector + count) * 512) 512
          → st1.position ≡ st.position
          → and_then (copy_buf port_read 0 (size % 512) to out (st1, q)) (advance port_read size)
            ≡ done
                (true, bytes_at disk st.position size)
                (record st1 { position = st1.position + size }, q)
      tail_end st1 q b same =
          let there : (sector + count) * 512 + 0 ≡ st.position + to = omega arith in
          and_then-advance port_read disk serves size st1 q _ _ _
            (copy_buf_lem port_read st1 q 0 (size % 512) to out
              (ap length b ∙ length-bytes_at disk ((sector + count) * 512) 512) (omega arith)
              (omega arith))
            (ap (λ xs. overwrite to xs out)
                (ap (λ xs. take (size % 512) xs) b
                  ∙ slice-bytes_at disk ((sector + count) * 512) 512 0 (size % 512) (omega arith)
                  ∙ ap (λ (a : ℕ). bytes_at disk a (size % 512)) there)
              ∙ stored)
            (omega arith)

  -- The sectors behind the first one, read to where the first one ends.
  read_middle-Gives :
      (st : AhciStream) (p : P) (size : ℕ) (out : Bytes)
      → length st.buf ≡ 512
      → st.buf_offset ≡ 0
      → st.position % 512 ≡ 0
      → 1024 ≤ size
      → size / 512 ≤ 1025
      → st.position + size < 2 ^ 64
      → length out ≡ size
      → Filled (bytes_at disk st.position 512) out
      → Gives disk size st 0 (read_middle port_read (st.position / 512) size 512 out (st, p))
  unfolding read_middle
  read_middle-Gives st p size out whole none_cached aligned large few small k filled =
      let count = size / 512 in
      let sector = st.position / 512 in
      let (q, e) = serves (sector + 1) (count - 1) p (omega arith) (omega arith) in
      let fits : (count - 1) % 2 ^ 32 ≡ count - 1 = omega arith in
      let some_sectors : ltb 0 count ≡ true = lt→ltb 0 count (omega arith) in
      let xs = bytes_at disk ((sector + 1) * 512) ((count - 1) * 512) in
      let len : length xs ≡ (count - 1) * 512 =
        length-bytes_at disk ((sector + 1) * 512) ((count - 1) * 512) in
      let room : leb (512 + length xs) (length out) ≡ true = le→leb _ _ (omega (arith, len)) in
      let there : (sector + 1) * 512 ≡ st.position + 512 = omega arith in
      let next =
        overwrite-bytes_at disk st.position 512 ((count - 1) * 512) out filled (omega arith) in
      rw (some_sectors, read_middle)
        (rw (fits, read_middle)
          (rw (e, read_middle)
            (rw (room, read_middle)
              (read_tail-Gives st q sector count size (512 + (count - 1) * 512)
                (overwrite 512 xs out) whole none_cached (omega arith) (omega arith) (omega arith)
                small (length-overwrite 512 xs out ∙ k)
                (subst
                  (λ a.
                    Filled (bytes_at disk st.position (512 + (count - 1) * 512))
                      (overwrite 512 (bytes_at disk a ((count - 1) * 512)) out))
                  (sym there) next)))))

  read_long-Gives :
      (st : AhciStream) (p : P) (size : ℕ) (out : Bytes)
      → length st.buf ≡ 512
      → st.position % 512 ≡ 0
      → 1024 ≤ size
      → size / 512 ≤ 1025
      → st.position + size < 2 ^ 64
      → length out ≡ size
      → Gives disk size st 0 (read_long port_read (st.position / 512) 0 size out (st, p))
  unfolding read_long
  read_long-Gives st p size out whole aligned large few small k =
      let st0 = record st { buf_offset = 0; buf_length = 0 } in
      let start = st.position / 512 * 512 in
      let (q, e) = fill_buf_lem port_read disk serves st0 p (st.position / 512) whole in
      let st1 = record st0 { buf = bytes_at disk start 512 } in
      let first : ltb size 512 ≡ false = ground arith in
      let len = length-bytes_at disk start 512 in
      let at : start ≡ st.position = omega arith in
      let xs : take 512 (bytes_at disk start 512) ≡ bytes_at disk (st.position + 0) 512 =
        slice-bytes_at disk start 512 0 512 (omega arith)
        ∙ ap (λ (a : ℕ). bytes_at disk a 512) (omega arith) in
      let copied =
        copy_buf_lem port_read st1 q 0 512 0 out len (omega arith) (omega arith)
        ∙ ap (λ xs. done (overwrite 0 xs out) (st1, q)) xs in
      rw (e, read_long)
        (rw (first, read_long)
          (rw (copied, read_long)
            (read_middle-Gives st1 q size (overwrite 0 (bytes_at disk (st.position + 0) 512) out)
              len refl aligned large few small (length-overwrite 0 _ out ∙ k)
              (overwrite-bytes_at disk st.position 0 512 out (Filled-nothing disk st.position out)
                (omega arith)))))

  -- The port serves reads of 1 to 1024 sectors with the bytes of the disk, and the stream's cache is
  -- coherent. Then `stream_read` at the beginning of a sector, of at least 1024 bytes and at most 1025
  -- whole sectors and a part of one, into a buffer of that size, returns 0 with the bytes of the disk
  -- at the position. The position moves behind them, and the cache is coherent and empty.
  pub stream_read-long :
      (size : ℕ) (st : AhciStream) (p : P) (out : Bytes)
      → IsCoherent disk st
      → st.position % 512 ≡ 0
      → 1024 ≤ size
      → size / 512 ≤ 1025
      → st.position + size + 512 < 2 ^ 64
      → length out ≡ size
      → Gives disk size st 0 (stream_read port_read size out (st, p))
  unfolding stream_read is_cached
  stream_read-long size st p out co aligned large few small k =
      elim (Bool-cases (is_cached st size)) [
        | inl e ↦
            let (same, less) =
              cached_true (st.position / 512 * 512) size st.buf_offset (omega arith) co.at_sector
                (omega arith) co.below e in
            absurd (omega arith)
        | inr e ↦
            let big : ltb size 512 ≡ false = ground arith in
            rw (e, aligned, big)
              (read_long-Gives st p size out co.whole aligned large few (omega arith) k)
      ]
