-- ===== src/Ahci/Buffer.antt =====
-- src/stage-three/ahci.c: copies out of the stream's buffer, and sectors read into it.
use pure.Prelude.{
  ℕ, ◌+◌, ◌*◌, ◌%◌, ◌^◌, ◌≤◌, ◌<◌, ◌≡◌, refl, sym, ap, ◌∙◌, arith, ◌⊎◌, inl, inr, Bool, true, false,
  [], length, take, drop, Bool-cases, leb, ltb, ◌&&◌,
}
use pure.Bits.{u64}
use pure.Run.{M, Outcome, done, fault, and_then}
use pure.CString.{Bytes}
use pure.Ahci.Stream.{AhciStream, overwrite, copy_buf, fill_buf, advance}
use pure.Ahci.Disk.{
  bytes_at, Serves, length-bytes_at, slice-bytes_at, length-overwrite, overwrite-Filled,
  Filled-whole,
}

pub le→leb : (a b : ℕ) → a ≤ b → leb a b ≡ true
le→leb a b h = ground arith

lt→leb : (a b : ℕ) → b < a → leb a b ≡ false
lt→leb a b h = ground arith

-- A region that is written over whole.
pub overwrite-whole : (xs out : Bytes) → length xs ≡ length out → overwrite 0 xs out ≡ xs
overwrite-whole xs out e =
    Filled-whole xs (overwrite 0 xs out)
      (overwrite-Filled [] xs out (omega arith, refl) (omega arith))
      (e ∙ sym (length-overwrite 0 xs out))

-- Where the cache begins and the sector of the position begins.
pub cached_true :
    (start size offset : ℕ)
    → start % 512 ≡ 0
    → offset % 512 ≡ 0
    → start + size + 512 < 2 ^ 64
    → offset + 512 < 2 ^ 64
    → (leb offset (u64 start)
        && ltb (u64 start) (u64 (offset + 512))
        && ltb (u64 (u64 start + size)) (u64 (offset + 512)))
      ≡ true
    → (start ≡ offset) × (size < 512)
cached_true start size offset a b c d e =
    let s : u64 start ≡ start = omega arith in
    let o : u64 (offset + 512) ≡ offset + 512 = omega arith in
    let t : u64 (start + size) ≡ start + size = omega arith in ground (arith, (rw (s, o, t) at e))

pub cached_false :
    (start size offset : ℕ)
    → start + size + 512 < 2 ^ 64
    → offset + 512 < 2 ^ 64
    → (leb offset (u64 start)
        && ltb (u64 start) (u64 (offset + 512))
        && ltb (u64 (u64 start + size)) (u64 (offset + 512)))
      ≡ false
    → start ≡ offset
    → 512 ≤ size
cached_false start size offset c d e k =
    let s : u64 start ≡ start = omega arith in
    let o : u64 (offset + 512) ≡ offset + 512 = omega arith in
    let t : u64 (start + size) ≡ start + size = omega arith in ground (arith, (rw (s, o, t) at e))

module _ {P : Type 0} (port_read : ℕ → ℕ → M P (Bool × Bytes)) where
  pub copy_buf_lem :
      (st : AhciStream) (p : P) (from size to : ℕ) (out : Bytes)
      → length st.buf ≡ 512
      → from + size ≤ 512
      → to + size ≤ length out
      → copy_buf port_read from size to out (st, p)
        ≡ done (overwrite to (take size (drop from st.buf)) out) (st, p)
  unfolding copy_buf
  copy_buf_lem st p from size to out e h k = rw (e, le→leb _ _ h, le→leb _ _ k) refl

  pub copy_buf-fault :
      (st : AhciStream) (p : P) (from size to : ℕ) (out : Bytes)
      → length st.buf ≡ 512
      → (512 < from + size) ⊎ (length out < to + size)
      → copy_buf port_read from size to out (st, p) ≡ fault
  unfolding copy_buf
  copy_buf-fault st p from size to out e (inl h) = rw (e, lt→leb _ _ h) refl
  copy_buf-fault st p from size to out e (inr h) =
      elim (Bool-cases (leb (from + size) (length st.buf))) [
        | inl k ↦ rw (k, lt→leb _ _ h) refl
        | inr k ↦ rw k refl
      ]

  fill_buf-filled :
      (st : AhciStream) (p : P) (sector : ℕ) (xs : Bytes) (q : P)
      → length st.buf ≡ length xs
      → port_read sector 1 p ≡ done (true, xs) q
      → fill_buf port_read sector (st, p) ≡ done true (record st { buf = xs }, q)
  unfolding fill_buf
  fill_buf-filled st p sector xs q k r =
      rw (r, fill_buf)
        (rw (le→leb (length xs) (length st.buf) (omega arith), overwrite-whole xs st.buf (sym k))
          refl)

  module _ (disk : ℕ → ℕ) (serves : Serves port_read disk) where
    pub fill_buf_lem :
        (st : AhciStream) (p : P) (sector : ℕ)
        → length st.buf ≡ 512
        → (q : P) × (fill_buf port_read sector (st, p)
            ≡ done true (record st { buf = bytes_at disk (sector * 512) 512 }, q))
    fill_buf_lem st p sector e =
        let (q, r) = serves sector 1 p (omega arith) (omega arith) in
        (
          q,
          fill_buf-filled st p sector (bytes_at disk (sector * 512) 512) q
              (e ∙ sym (length-bytes_at disk (sector * 512) 512)) r,
        )

    -- A copy of bytes of the buffer to the whole of the caller's.
    pub copy_buf-bytes_at :
        (st : AhciStream) (p : P) (a from size : ℕ) (out : Bytes)
        → st.buf ≡ bytes_at disk a 512
        → from + size ≤ 512
        → length out ≡ size
        → copy_buf port_read from size 0 out (st, p) ≡ done (bytes_at disk (a + from) size) (st, p)
    copy_buf-bytes_at st p a from size out e h k =
        copy_buf_lem st p from size 0 out (ap length e ∙ length-bytes_at disk a 512) h (omega arith)
        ∙ ap (λ xs. done (overwrite 0 xs out) (st, p))
            (ap (λ b. take size (drop from b)) e ∙ slice-bytes_at disk a 512 from size h)
        ∙ ap (λ xs. done xs (st, p))
            (overwrite-whole (bytes_at disk (a + from) size) out
              (length-bytes_at disk (a + from) size ∙ sym k))

    -- The last copy into the caller's buffer, and the new position.
    pub and_then-advance :
        (size : ℕ) (st : AhciStream) (p : P) (xs ys : Bytes) (r : Outcome (AhciStream × P) Bytes)
        → r ≡ done xs (st, p)
        → xs ≡ ys
        → st.position + size < 2 ^ 64
        → and_then r (advance port_read size)
          ≡ done (true, ys) (record st { position = st.position + size }, p)
    and_then-advance size st p xs ys r e k small =
        ap (λ r. and_then r (advance port_read size)) e
        ∙ ap (λ (n : ℕ). done (true, xs) (record st { position = n }, p)) (omega arith)
        ∙ ap (λ xs. done (true, xs) (record st { position = st.position + size }, p)) k
