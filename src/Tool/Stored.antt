-- ===== src/Tool/Stored.antt =====
-- What is read back of a file of the host that src/util/pure64.c has written to.
use pure.Prelude.{
  ℕ, zero, suc, [], ◌∷◌, ◌+◌, ◌-◌, ◌≤◌, ◌<◌, ◌≡◌, refl, ap, ◌∙◌, arith, Bool, true, false, leb, ltb,
  ◌&&◌, length, get_or, ◌⊎◌, inl, inr, lt→ltb, ==_iff,
}
use pure.CString.{Bytes}
use pure.Ahci.Disk.{bytes_at, length-bytes_at}
use pure.Tool.Host.{HostFile, IsFile, stored, bytes32, or_fail, write_all, read_all}

pub length-bytes32 : (n : ℕ) → length (bytes32 n) ≡ 4
unfolding bytes32
length-bytes32 n = refl

pub stored_in :
    (p : ℕ) (xs : Bytes) (f : ℕ → ℕ) (a : ℕ)
    → p ≤ a
    → a < p + length xs
    → stored p xs f a ≡ get_or xs (a - p) 0
stored_in p xs f a h k =
    let e : leb p a ≡ true = ground arith in rw (e, lt→ltb a (p + length xs) k) refl

pub stored_out :
    (p : ℕ) (xs : Bytes) (f : ℕ → ℕ) (a : ℕ) → (a < p) ⊎ (p + length xs ≤ a) → stored p xs f a ≡ f a
stored_out p xs f a (inl h) = let e : leb p a ≡ false = ground arith in rw e refl
stored_out p xs f a (inr h) =
    let e : (leb p a && ltb a (p + length xs)) ≡ false = ground arith in rw e refl

pub bytes_at_ext :
    (f g : ℕ → ℕ) (a n : ℕ)
    → ((x : ℕ) → a ≤ x → x < a + n → f x ≡ g x)
    → bytes_at f a n ≡ bytes_at g a n
unfolding bytes_at
bytes_at_ext f g a zero h = refl
bytes_at_ext f g a (suc n) h =
    let first = h a (omega arith) (omega arith) in
    let rest = bytes_at_ext f g (suc a) n (λ x p q. h x (omega arith) (omega arith)) in cc

bytes_at-get_or : (p : ℕ) (xs : Bytes) → bytes_at (λ x. get_or xs (x - p) 0) p (length xs) ≡ xs
unfolding bytes_at
bytes_at-get_or p [] = refl
bytes_at-get_or p (x ∷ xs) =
    let here : p - p ≡ 0 = omega arith in
    let first : get_or (x ∷ xs) (p - p) 0 ≡ x = ap (λ (i : ℕ). get_or (x ∷ xs) i 0) here in
    let rest =
      bytes_at_ext (λ y. get_or (x ∷ xs) (y - p) 0) (λ y. get_or xs (y - suc p) 0) (suc p)
        (length xs) (λ y h k. ap (λ (i : ℕ). get_or (x ∷ xs) i 0) (next y h))
      ∙ bytes_at-get_or (suc p) xs in
    ap (λ t. get_or (x ∷ xs) (p - p) 0 ∷ t) rest ∙ ap (λ (y : ℕ). y ∷ xs) first
  where
    next : (y : ℕ) → suc p ≤ y → y - p ≡ suc (y - suc p)
    next y h = omega arith

-- What was written last is read, and other parts are not changed.
pub bytes_at-stored : (p : ℕ) (xs : Bytes) (f : ℕ → ℕ) → bytes_at (stored p xs f) p (length xs) ≡ xs
bytes_at-stored p xs f =
    bytes_at_ext (stored p xs f) (λ x. get_or xs (x - p) 0) p (length xs) (stored_in p xs f)
    ∙ bytes_at-get_or p xs

pub bytes_at-stored_out :
    (p : ℕ) (xs : Bytes) (f : ℕ → ℕ) (a n : ℕ)
    → (a + n ≤ p) ⊎ (p + length xs ≤ a)
    → bytes_at (stored p xs f) a n ≡ bytes_at f a n
bytes_at-stored_out p xs f a n h =
    bytes_at_ext (stored p xs f) f a n (λ x l k. stored_out p xs f x (apart x l k h))
  where
    apart :
        (x : ℕ)
        → a ≤ x
        → x < a + n
        → (a + n ≤ p) ⊎ (p + length xs ≤ a)
        → (x < p) ⊎ (p + length xs ≤ x)
    apart x l k (inl h) = inl (omega arith)
    apart x l k (inr h) = inr (omega arith)

module _ {S : Type 0} (file : HostFile S) (is : IsFile file) where
  open is use {byte, size, position}

  -- A part is read from one place, and bytes made of it are written to another.
  pub record Copies (a n b : ℕ) (g : Bytes → Bytes) (s : S) : Type 0 where
    pub s1 : S
    pub s2 : S
    pub s3 : S
    pub t : S
    pub seek_from : file.fseek a s ≡ (true, s1)
    pub read_part : file.fread n s1 ≡ (bytes_at (byte s) a n, s2)
    pub seek_to : file.fseek b s2 ≡ (true, s3)
    pub write_part :
        file.fwrite (g (bytes_at (byte s) a n)) s3 ≡ (length (g (bytes_at (byte s) a n)), t)
    pub bytes : byte t ≡ stored b (g (bytes_at (byte s) a n)) (byte s)
    pub grown : size s ≤ size t

  pub copies : (a n b : ℕ) (g : Bytes → Bytes) (s : S) → a + n ≤ size s → Copies a n b g s
  copies a n b g s h =
      let (s1, e1, b1, z1, p1) = is.seeks a s in
      let (s2, e2, b2, z2, p2) = is.reads n s1 (omega arith) in
      let (s3, e3, b3, z3, p3) = is.seeks b s2 in
      let xs = g (bytes_at (byte s) a n) in
      let (t, e4, b4, z4, p4) = is.writes xs s3 in
      let same : byte s3 ≡ byte s = b3 ∙ b2 ∙ b1 in
      record {
        s1 = s1;
        s2 = s2;
        s3 = s3;
        t = t;
        seek_from = e1;
        read_part =
            e2
            ∙ ap (λ ys. (ys, s2))
                (ap (λ f. bytes_at f (position s1) n) b1
                  ∙ ap (λ (q : ℕ). bytes_at (byte s) q n) p1);
        seek_to = e3;
        write_part = e4;
        bytes =
            b4 ∙ ap (λ f. stored (position s3) xs f) same ∙ ap (λ (q : ℕ). stored q xs (byte s)) p3;
        grown = omega arith;
      }

  -- The code that does so, with the code behind it and without.
  pub Copies-and_then :
      (a n b : ℕ) (g : Bytes → Bytes) (s : S) (c : Copies a n b g s) (k : S → Bool × S)
      → or_fail (file.fseek a s) (λ s.
        read_all file n s
          (λ buf s. or_fail (file.fseek b s) (λ s. or_fail (write_all file (g buf) s) k)))
        ≡ k c.t
  Copies-and_then a n b g s c k =
      let full = (==_iff _ _).1 (length-bytes_at (byte s) a n) in
      let same = (==_iff (length (g (bytes_at (byte s) a n))) _).1 refl in
      rw (c.seek_from, c.read_part, full, c.seek_to, c.write_part, same) refl

  pub Copies-end :
      (a n b : ℕ) (g : Bytes → Bytes) (s : S) (c : Copies a n b g s)
      → or_fail (file.fseek a s) (λ s.
        read_all file n s (λ buf s. or_fail (file.fseek b s) (λ s. write_all file (g buf) s)))
        ≡ (true, c.t)
  Copies-end a n b g s c =
      let full = (==_iff _ _).1 (length-bytes_at (byte s) a n) in
      let same = (==_iff (length (g (bytes_at (byte s) a n))) _).1 refl in
      rw (c.seek_from, c.read_part, full, c.seek_to, c.write_part, same) refl
