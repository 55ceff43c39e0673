-- ===== src/Stream/Tape.antt =====
-- Streams that hold bytes before and behind a position, and what the codecs do on them.
use pure.Prelude.{
  ℕ, ◌^◌, ◌<◌, ◌≡◌, refl, ◌∙◌, [], ◌∷◌, ◌++◌, length, drop, ap, sym, append_assoc, append-nil,
}
use pure.Run.{Outcome, M, done, and_then, ret}
use pure.CString.{Bytes}
use pure.Stream.{
  Stream, stream_read, stream_write, stream_set_pos, encode_uint16, encode_uint64, decode_uint16,
  decode_uint64, bytes16, bytes64, number16, number64,
}
use pure.Stream.Codec.{number16-bytes16, number64-bytes64}

-- What include/pure64/stream.h asks of the callbacks of a stream over bytes: a read of bytes that
-- are there gives them and moves behind them, and a write overwrites what follows the position,
-- or lengthens the stream, and moves behind what it wrote. The position 0 is the beginning.
pub record IsTape {S : Type 0} (st : Stream S) : Type 0 where
  pub before : S → Bytes
  pub behind : S → Bytes
  pub reads :
      (s : S) (xs ys : Bytes)
      → behind s ≡ xs ++ ys
      → (t : S) × (stream_read st (length xs) s ≡ done xs t)
        × (before t ≡ before s ++ xs)
        × (behind t ≡ ys)
  pub writes :
      (s : S) (xs : Bytes)
      → (t : S) × (stream_write st xs s ≡ done tt t)
        × (before t ≡ before s ++ xs)
        × (behind t ≡ drop (length xs) (behind s))
  pub rewinds :
      (s : S)
      → (t : S) × (stream_set_pos st 0 s ≡ done tt t)
        × (before t ≡ [])
        × (behind t ≡ before s ++ behind s)

-- From the state `s` the run writes the bytes at the position.
abbrev pub Puts :
    {S : Type 0} (st : Stream S) (tape : IsTape st) → Bytes → Outcome S (Unit {0}) → S → Type 0
Puts {S} st tape xs r s =
    (t : S) × (r ≡ done tt t)
    × (tape.before t ≡ tape.before s ++ xs)
    × (tape.behind t ≡ drop (length xs) (tape.behind s))

-- The run reads the value, and the bytes behind the position are `ys` then.
abbrev pub Gets :
    {S A : Type 0} (st : Stream S) (tape : IsTape st) → A → Bytes → Outcome S A → Type 0
Gets {S} st tape a ys r = (t : S) × (r ≡ done a t) × (tape.behind t ≡ ys)

drop-drop :
    (xs ys zs : Bytes) → drop (length ys) (drop (length xs) zs) ≡ drop (length (xs ++ ys)) zs
drop-drop [] ys zs = refl
drop-drop (x ∷ xs) [] [] = refl
drop-drop (x ∷ xs) (y ∷ ys) [] = refl
drop-drop (x ∷ xs) ys (z ∷ zs) = drop-drop xs ys zs

module _ {S : Type 0} (st : Stream S) (tape : IsTape st) where
  open tape use {before, behind, reads, writes}

  -- One write after another.
  pub Puts-and_then :
      (xs ys : Bytes) (s : S) (r : Outcome S (Unit {0})) (k : M S (Unit {0}))
      → Puts st tape xs r s
      → ((t : S) → Puts st tape ys (k t) t)
      → Puts st tape (xs ++ ys) (and_then r (λ _. k)) s
  Puts-and_then xs ys s r k (t, e, b, h) next =
      let (u, e', b', h') = next t in
      (
        u,
        rw e e',
        b' ∙ ap (λ z. z ++ ys) b ∙ append_assoc (before s) xs ys,
        h' ∙ ap (drop (length ys)) h ∙ drop-drop xs ys (behind s),
      )

  pub Puts-nothing : (s : S) → Puts st tape [] (done tt s) s
  Puts-nothing s = (s, refl, sym (append-nil (before s)), refl)

  -- One read after another.
  pub Gets-and_then :
      {A B : Type 0} (a : A) (b : B) (ys zs : Bytes) (r : Outcome S A) (k : A → M S B)
      → Gets st tape a ys r
      → ((t : S) → behind t ≡ ys → Gets st tape b zs (k a t))
      → Gets st tape b zs (and_then r k)
  Gets-and_then a b ys zs r k (t, e, h) next = let (u, e', h') = next t h in (u, rw e e', h')

  pub encode_uint16-Puts : (n : ℕ) (s : S) → Puts st tape (bytes16 n) (encode_uint16 st n s) s
  unfolding encode_uint16
  encode_uint16-Puts n s = writes s (bytes16 n)

  pub encode_uint64-Puts : (n : ℕ) (s : S) → Puts st tape (bytes64 n) (encode_uint64 st n s) s
  unfolding encode_uint64
  encode_uint64-Puts n s = writes s (bytes64 n)

  pub read-Gets :
      (xs ys : Bytes) (s : S)
      → behind s ≡ xs ++ ys
      → Gets st tape xs ys (stream_read st (length xs) s)
  read-Gets xs ys s h = let (t, e, b, h') = reads s xs ys h in (t, e, h')

  -- What `encode_uint16` writes is what `decode_uint16` reads as that number.
  pub decode_uint16-Gets :
      (n : ℕ) (ys : Bytes) (s : S)
      → n < 2 ^ 16
      → behind s ≡ bytes16 n ++ ys
      → Gets st tape n ys (decode_uint16 st s)
  unfolding decode_uint16 bytes16
  decode_uint16-Gets n ys s small h =
      let (t, e, b, h') = reads s (bytes16 n) ys h in
      (
        t,
        ap (λ r. and_then r (λ buf. ret (number16 buf))) e
            ∙ ap (λ v. done v t) (number16-bytes16 n small),
        h',
      )

  -- So too with `encode_uint64` and `decode_uint64`.
  pub decode_uint64-Gets :
      (n : ℕ) (ys : Bytes) (s : S)
      → n < 2 ^ 64
      → behind s ≡ bytes64 n ++ ys
      → Gets st tape n ys (decode_uint64 st s)
  unfolding decode_uint64 bytes64
  decode_uint64-Gets n ys s small h =
      let (t, e, b, h') = reads s (bytes64 n) ys h in
      (
        t,
        ap (λ r. and_then r (λ buf. ret (number64 buf))) e
            ∙ ap (λ v. done v t) (number64-bytes64 n small),
        h',
      )
