-- ===== src/Mbr.antt =====
-- src/lib/mbr.c and src/lib/dap.c: the boot record and the disk address packets in it.
pub mod Laws
use pure.Prelude.{ℕ, Bool, true, false, ◌==◌, if◌then◌else◌, replicate}
use pure.Error.{einval}
use pure.Run.{Outcome, M, done, failed, fault, out_of_fuel, and_then, ◌>>=◌, ◌>>◌, ret, fail}
use pure.CString.{Bytes, memset}
use pure.Stream.{
  Stream, stream_read, stream_write, stream_set_pos, encode_uint16, encode_uint64, decode_uint16,
  decode_uint64,
}

-- `struct pure64_dap`
pub record Dap : Type 0 where
  pub reserved : Bytes
  pub sector_count : ℕ
  pub address : ℕ
  pub segment : ℕ
  pub sector : ℕ

-- `struct pure64_mbr`
pub record Mbr : Type 0 where
  pub code : Bytes
  pub st2dap : Dap
  pub st3dap : Dap
  pub boot_signature : ℕ

abbrev zero_dap : Dap
zero_dap = record {
  reserved = memset (replicate 2 0) 0 2;
  sector_count = 0;
  address = 0;
  segment = 0;
  sector = 0;
}

-- `pure64_mbr_zero`
abbrev pub mbr_zero : Mbr
mbr_zero = record {
  code = memset (replicate 476 0) 0 476;
  st2dap = zero_dap;
  st3dap = zero_dap;
  boot_signature = 0;
}

-- `pure64_mbr_check`
unfoldable pub mbr_check {ℓ} : {S : Type ℓ} → Mbr → M S (Unit {0})
mbr_check mbr = if mbr.boot_signature == 0xaa55 then ret tt else fail einval

module _ {S : Type 0} (st : Stream S) where
  -- `pure64_dap_read`
  unfoldable pub dap_read : M S Dap
  dap_read = do
    reserved ← stream_read st 2
    sector_count ← decode_uint16 st
    address ← decode_uint16 st
    segment ← decode_uint16 st
    sector ← decode_uint64 st
    ret (record {
      reserved = reserved;
      sector_count = sector_count;
      address = address;
      segment = segment;
      sector = sector;
    })

  -- `pure64_dap_write`
  unfoldable pub dap_write : Dap → M S (Unit {0})
  dap_write dap = do
    stream_write st dap.reserved
    encode_uint16 st dap.sector_count
    encode_uint16 st dap.address
    encode_uint16 st dap.segment
    encode_uint64 st dap.sector

  -- `pure64_mbr_read`
  unfoldable pub mbr_read : M S Mbr
  unfolding dap_read
  mbr_read = do
    stream_set_pos st 0
    code ← stream_read st 476
    st2dap ← dap_read
    st3dap ← dap_read
    boot_signature ← decode_uint16 st
    ret (record { code = code; st2dap = st2dap; st3dap = st3dap; boot_signature = boot_signature })

  -- `pure64_mbr_write`
  unfoldable pub mbr_write : Mbr → M S (Unit {0})
  unfolding dap_write
  mbr_write mbr = do
    stream_set_pos st 0
    stream_write st mbr.code
    dap_write mbr.st2dap
    dap_write mbr.st3dap
    encode_uint16 st mbr.boot_signature
