-- ===== src/Tool/Sealed.antt =====
-- src/util/pure64.c: what the checksums are when `calculate_checksums` has run.
use pure.Prelude.{
  ℕ, ◌+◌, ◌-◌, ◌*◌, ◌^◌, ◌≤◌, ◌<◌, ◌≡◌, sym, ap, ◌∙◌, arith, Bool, true, false, ◌==◌, if◌then◌else◌,
  length, inl, inr,
}
use mathlib.Core.Path.{subst}
use pure.Bits.{u64}
use pure.CString.{Bytes}
use pure.Stream.{number64, bytes64}
use pure.Stream.Codec.{number64-bytes64}
use pure.Ahci.Disk.{bytes_at}
use pure.Tool.Gpt.{headers_size}
use pure.Tool.Host.{HostFile, IsFile, stored, or_fail, write_all, read_all}
use pure.Tool.Checksum.{
  calculate_header_checksum, calculate_partition_headers_checksum, calculate_checksums,
  backup_array,
}
use pure.Tool.Stored.{copies, Copies-and_then, Copies-end}
use pure.Tool.Sums.{
  sum, array_of, IsSealed, beside, sum1, sum2, sum3, sum4, Free, sum4_out, front-IsSealed,
  back-IsSealed,
}

module _ {S : Type 0} (file : HostFile S) (is : IsFile file) where
  open is use {byte, size, position}

  -- A header is summed up.
  header_checksum_lem :
      (h : ℕ) (s : S)
      → h + 92 ≤ size s
      → (t : S) × (calculate_header_checksum file h s ≡ (true, t))
        × (byte t ≡ stored (h + 16) (sum (bytes_at (byte s) h 92)) (byte s))
        × (size s ≤ size t)
  unfolding calculate_header_checksum
  header_checksum_lem h s inside =
      let c = copies file is h 92 (h + 16) sum s inside in
      (c.t, Copies-end file is h 92 (h + 16) sum s c, c.bytes, c.grown)

  -- The backup header's sector is read.
  read_lba_lem :
      (b : ℕ) (s : S)
      → bytes_at (byte s) 544 8 ≡ bytes64 b
      → 552 ≤ size s
      → (t : S) × ((k : Bytes → S → Bool × S)
          → or_fail (file.fseek 544 s) (λ s. read_all file 8 s k) ≡ k (bytes64 b) t)
        × (byte t ≡ byte s)
        × (size t ≡ size s)
  unfolding bytes64
  read_lba_lem b s holds inside =
      let (s1, e1, b1, z1, p1) = is.seeks 544 s in
      let (s2, e2, b2, z2, p2) = is.reads 8 s1 (omega arith) in
      let there : bytes_at (byte s1) (position s1) 8 ≡ bytes64 b =
        ap (λ f. bytes_at f (position s1) 8) b1
        ∙ ap (λ (q : ℕ). bytes_at (byte s) q 8) p1
        ∙ holds in
      (
        s2,
        λ k. rw (e1, e2) (ap (λ xs. if length xs == 8 then k xs s2 else (false, s2)) there),
        b2 ∙ b1,
        z2 ∙ z1,
      )

  -- The disk has its backup header in sector `b`, as the header in front says, with room for the
  -- partition headers between the two.
  pub record HasBackup (b : ℕ) (s : S) : Type 0 where
    pub named : bytes_at (byte s) 544 8 ≡ bytes64 b
    pub room : 66 ≤ b
    pub inside : b * 512 + 512 ≤ size s
    pub small : b * 512 + 512 < 2 ^ 64

  -- The last part of the code.
  abbrev second_part : ℕ → ℕ → S → Bool × S
  second_part array field s = or_fail (file.fseek array s) λ s.
      read_all file headers_size s
        λ buf s. or_fail (file.fseek field s) λ s. write_all file (sum buf) s

  partition_checksum_lem :
      (b : ℕ) (s : S)
      → HasBackup b s
      → (t : S) × (calculate_partition_headers_checksum file s ≡ (true, t))
        × (byte t ≡ sum2 (byte s) b)
        × (size s ≤ size t)
  unfolding calculate_partition_headers_checksum
  partition_checksum_lem b s has =
      let c = copies file is 1024 headers_size 600 sum s (omega arith) in
      let named : bytes_at (byte c.t) 544 8 ≡ bytes64 b =
        ap (λ f. bytes_at f 544 8) c.bytes
        ∙ beside 600 (bytes_at (byte s) 1024 headers_size) (byte s) 544 8 (inl (omega arith))
        ∙ has.named in
      let (s2, e2, b2, z2) = read_lba_lem b c.t named (omega (arith, c.grown)) in
      let lba : number64 (bytes64 b) ≡ b = number64-bytes64 b (omega arith) in
      let from : backup_array file b ≡ array_of b = omega arith in
      let to : u64 (u64 (b * 512) + 88) ≡ b * 512 + 88 = omega arith in
      let d =
        copies file is (array_of b) headers_size (b * 512 + 88) sum s2 (omega (arith, c.grown)) in
      (
        d.t,
        Copies-and_then file is 1024 headers_size 600 sum s c _
            ∙ e2 (λ lba s.
              second_part (backup_array file (number64 lba)) (u64 (u64 (number64 lba * 512) + 88))
                s)
            ∙ ap (λ (n : ℕ). second_part (backup_array file n) (u64 (u64 (n * 512) + 88)) s2) lba
            ∙ ap (λ (n : ℕ). second_part n (u64 (u64 (b * 512) + 88)) s2) from
            ∙ ap (λ (n : ℕ). second_part (array_of b) n s2) to
            ∙ Copies-end file is (array_of b) headers_size (b * 512 + 88) sum s2 d,
        d.bytes
            ∙ ap (λ f. stored (b * 512 + 88) (sum (bytes_at f (array_of b) headers_size)) f)
                (b2 ∙ c.bytes),
        omega (arith, c.grown, d.grown),
      )

  -- The sector of the backup header stays where it is read.
  named_still : (b : ℕ) (s : S) → HasBackup b s → bytes_at (sum3 (byte s) b) 544 8 ≡ bytes64 b
  named_still b s has =
      beside 528 _ (sum2 (byte s) b) 544 8 (inr (omega arith))
      ∙ beside (b * 512 + 88) _ (sum1 (byte s) b) 544 8 (inl (omega (arith, has.room)))
      ∙ beside 600 _ (byte s) 544 8 (inl (omega arith))
      ∙ has.named

  -- The file can be read, written and positioned. It holds a disk whose header in front names the
  -- sector `b` of the backup header, where there is room for the partition headers in front of it,
  -- and the checksum fields of both headers are zero. Then `calculate_checksums` succeeds, and behind
  -- it the checksums of both headers, and in them those of their partition headers, are what CRC-32
  -- gives, a header's own checksum taken as zero. No byte outside of the four checksums changes.
  pub calculate_checksums-IsSealed :
      (b : ℕ) (s : S)
      → HasBackup b s
      → ((x : ℕ) → 528 ≤ x → x < 532 → byte s x ≡ 0)
      → ((x : ℕ) → b * 512 + 16 ≤ x → x < b * 512 + 20 → byte s x ≡ 0)
      → (t : S) × (calculate_checksums file s ≡ (true, t))
        × IsSealed (byte t) 512 1024
        × IsSealed (byte t) (b * 512) (b * 512 - headers_size)
        × ((x : ℕ) → Free (byte s) b x → byte t x ≡ byte s x)
  unfolding calculate_checksums
  calculate_checksums-IsSealed b s has front back =
      let (s1, e1, b1, z1) = partition_checksum_lem b s has in
      let (s2, e2, b2, z2) = header_checksum_lem 512 s1 (omega (arith, has.room, has.inside, z1)) in
      let b3 : byte s2 ≡ sum3 (byte s) b =
        b2 ∙ ap (λ f. stored 528 (sum (bytes_at f 512 92)) f) b1 in
      let (s3, e3, b4, z3) =
        read_lba_lem b s2 (ap (λ f. bytes_at f 544 8) b3 ∙ named_still b s has)
          (omega (arith, has.room, has.inside, z1, z2)) in
      let (t, e4, b5, z4) =
        header_checksum_lem (b * 512) s3 (omega (arith, has.inside, z1, z2, z3)) in
      let all : byte t ≡ sum4 (byte s) b =
        b5 ∙ ap (λ f. stored (b * 512 + 16) (sum (bytes_at f (b * 512) 92)) f) (b4 ∙ b3) in
      let lba : u64 (number64 (bytes64 b) * 512) ≡ b * 512 =
        ap (λ (n : ℕ). u64 (n * 512)) (number64-bytes64 b (omega (arith, has.small)))
        ∙ omega (arith, has.small) in
      (
        t,
        rw (e1, e2)
            (e3 (λ lba s. calculate_header_checksum file (u64 (number64 lba * 512)) s)
              ∙ ap (λ (n : ℕ). calculate_header_checksum file n s3) lba
              ∙ e4),
        subst (λ f. IsSealed f 512 1024) (sym all) (front-IsSealed (byte s) b has.room front),
        subst (λ f. IsSealed f (b * 512) (b * 512 - headers_size)) (sym all)
            (back-IsSealed (byte s) b has.room back),
        λ x free. ap (λ f. f x) all ∙ sum4_out (byte s) b has.room x free,
      )
