-- ===== src/Tool/Ramfs.antt =====
-- src/util/pure64.c: the image of a file system in a file of the host, and `main`.
use pure.Prelude.{
  ℕ, [], ◌∷◌, List, ◌+◌, ◌-◌, ◌*◌, ◌/◌, ◌%◌, ◌^◌, Bool, true, false, ◌==◌, ltb, if◌then◌else◌,
  length, Option, none, some,
}
use pure.Error.{einval, eio}
use pure.Run.{Outcome, M, Mem, done, failed, fault, out_of_fuel, with_first, with_second}
use pure.CString.{Bytes, same}
use pure.Stream.{Stream}
use pure.Fs.{Fs, fs_init}
use pure.Image.{fs_export, fs_import}
use pure.Mbr.{Mbr, mbr_read, mbr_write}
use pure.Tool.{
  HostRead, Exit, Call, help, unknown_option, no_filename, no_command, call, parse_args,
  run_command,
}
use pure.Tool.Host.{HostFile}
use pure.Tool.Init.{pure64_init}

-- The streams over a file. `LONG_MAX` is 2 ^ 63 - 1.
module _ {S : Type 0} (file : HostFile S) where
  abbrev pub fstream_set_pos : ℕ → M S (Unit {0})
  fstream_set_pos pos s =
      if ltb (2 ^ 63 - 1) pos
      then failed einval s
      else (let (ok, t) = file.fseek pos s in if ok then done tt t else failed eio t)

  abbrev pub fstream_get_pos : M S ℕ
  fstream_get_pos s =
      let (pos, t) = file.ftell s in elim pos [ none ↦ failed eio t | some p ↦ done p t ]

  abbrev pub fstream_write : Bytes → M S (Unit {0})
  fstream_write buf s =
      let (n, t) = file.fwrite buf s in if n == length buf then done tt t else failed eio t

  abbrev pub fstream_read : ℕ → M S Bytes
  fstream_read size s =
      let (xs, t) = file.fread size s in if length xs == size then done xs t else failed eio t

  abbrev pub fstream : Stream S
  fstream = record {
    get_size = none;
    get_pos = some fstream_get_pos;
    read = some fstream_read;
    set_pos = some fstream_set_pos;
    write = some fstream_write;
  }

-- A step whose failure ends the function with a result.
abbrev pub or_return : {S A : Type 0} → A → Bool × S → M S A → Outcome S A
or_return a (true, s) k = k s
or_return a (false, s) k = done a s

-- The same with a call of the library.
abbrev pub or_error : {S A B : Type 0} → A → Outcome S B → (B → M S A) → Outcome S A
or_error a (done b s) k = k b s
or_error a (failed e s) k = done a s
or_error a fault k = fault
or_error a out_of_fuel k = out_of_fuel

-- `(size + 511) / 512`
abbrev pub sectors : ℕ → ℕ
sectors size = (size + 511) / 512

abbrev pub st2_offset : ℕ
st2_offset = sectors 0x2000 * 512

abbrev pub st3_offset : Bytes → ℕ
st3_offset pure64_data = sectors (0x2000 + length pure64_data) * 512

abbrev pub fs_offset : Bytes → Bytes → ℕ
fs_offset pure64_data stage_three_data =
    sectors (0x2000 + length pure64_data + length stage_three_data) * 512

-- `PURE64_MINIMUM_DISK_SIZE` and `PURE64_DISK_LOCATION`
abbrev pub minimum_disk_size : ℕ
minimum_disk_size = 1 * 1024 * 1024

abbrev pub disk_location : ℕ
disk_location = 59 * 512

-- The generated data, and `fopen` of a file by its name with "wb+" and "rb".
module _ {S : Type 0} (file : HostFile S) (mbr_data pure64_data stage_three_data : Bytes)
    (open_new open_old : Bytes → S → Bool × S) where
  abbrev pub put : ℕ → Bytes → S → (S → Outcome S (Bool × Fs)) → Fs → Outcome S (Bool × Fs)
  put offset xs s k fs =
      or_return (false, fs) (file.fseek offset s)
        λ s. or_return (false, fs) (let (n, t) = file.fwrite xs s in (n == length xs, t)) k

  -- The file is lengthened to the least size, or to whole sectors. Results are not looked at.
  unfoldable pub pad_image : ℕ → S → S
  pad_image pos s =
      if ltb pos minimum_disk_size
      then file.fputc 0 (file.fseek (minimum_disk_size - 1) s).1
      else if pos % 512 == 0
      then s
      else file.fputc 0 (file.fseek (pos + (512 - pos % 512) - 1) s).1

  abbrev pub with_stages : Mbr → Mbr
  with_stages mbr = record mbr {
    st2dap = record mbr.st2dap {
      sector = st2_offset / 512;
      sector_count = sectors (length pure64_data);
    };
    st3dap = record mbr.st3dap {
      sector = st3_offset pure64_data / 512;
      sector_count = sectors (length stage_three_data);
    };
  }

  -- The code from `ftell` on, with the file system as the export has left it.
  unfoldable pub finish_image : Fs → M S (Bool × Fs)
  unfolding pad_image
  finish_image fs s =
      let (pos, t) = file.ftell s in
      elim pos [
        | none ↦ done (false, fs) t
        | some p ↦
            or_error (false, fs) (mbr_read (fstream file) (pad_image p t))
              λ mbr s.
                or_error (false, fs) (mbr_write (fstream file) (with_stages mbr) s)
                  λ _ s. done (true, fs) s
      ]

  -- The result is whether EXIT_SUCCESS is returned, and the file system with its size field.
  unfoldable pub ramfs_export : Fs → Bytes → M S (Bool × Fs)
  unfolding finish_image
  ramfs_export fs filename s =
      if ltb 0x7f (sectors (length pure64_data))
      then done (false, fs) s
      else if ltb 0x7f (sectors (length stage_three_data))
      then done (false, fs) s
      else or_return (false, fs) (open_new filename s)
          λ s.
            or_return (false, fs) (let (n, t) = file.fwrite mbr_data s in (n == length mbr_data, t))
              λ s.
                put st2_offset pure64_data s
                  (λ s.
                    put (st3_offset pure64_data) stage_three_data s
                      (λ s.
                        or_return (false, fs)
                          (file.fseek (fs_offset pure64_data stage_three_data) s)
                          λ s. or_error (false, fs) (fs_export (fstream file) fs s) finish_image)
                      fs)
                  fs

  -- `none` is EXIT_FAILURE. The fuel is that of the import.
  unfoldable pub ramfs_import : ℕ → Bytes → M (S × Mem) (Option Fs)
  ramfs_import fuel filename (s, m) =
      or_return none (let (ok, t) = open_old filename s in (ok, (t, m))) λ w.
        or_return none (let (ok, t) = file.fseek disk_location w.0 in (ok, (t, w.1)))
          λ w. or_error none (fs_import (fstream file) fuel w) λ fs w. done (some fs) w

  unfoldable pub pure64_mkfs : Bytes → M S Bool
  unfolding ramfs_export
  pure64_mkfs filename s = or_error false (ramfs_export fs_init filename s) λ r s. done r.0 s

  -- The end of `main`: the file system is exported if the command was successful.
  abbrev pub after_command : Bytes → Exit → M (S × Mem) (Bool × Bytes)
  after_command filename e (s, m) =
      if e.success
      then (or_error (false, e.out) (with_second m (ramfs_export e.fs filename s))
          λ r w. done (r.0, e.out) w)
      else done (false, e.out) (s, m)

  abbrev pub word_init : Bytes
  word_init = b'i' ∷ b'n' ∷ b'i' ∷ b't' ∷ []

  abbrev pub word_mkfs : Bytes
  word_mkfs = b'm' ∷ b'k' ∷ b'f' ∷ b's' ∷ []

  -- `main` behind the loop over the arguments: whether it returns EXIT_SUCCESS, and what the
  -- command prints. `read` gives the files of the host for `cp`; the texts of messages are left out.
  unfoldable pub run_call :
      ℕ → (Bytes → Bool) → Bytes → HostRead → Call → M (S × Mem) (Bool × Bytes)
  unfolding ramfs_import ramfs_export pure64_mkfs
  run_call fuel scanned old read help w = done (false, []) w
  run_call fuel scanned old read (unknown_option arg) w = done (false, []) w
  run_call fuel scanned old read no_filename w = done (false, []) w
  run_call fuel scanned old read no_command w = done (false, []) w
  run_call fuel scanned old read (call filename name args) (s, m) =
      if same name word_init
      then elim (pure64_init file (open_new filename) mbr_data fuel scanned old args s) [
        | none ↦ out_of_fuel
        | some (ok, t) ↦ done (ok, []) (t, m)
      ]
      else if same name word_mkfs
      then (or_error (false, []) (with_second m (pure64_mkfs filename s)) λ ok w. done (ok, []) w)
      else or_error (false, []) (ramfs_import fuel filename (s, m))
          λ imported w. elim imported [
            | none ↦ done (false, []) w
            | some fs ↦
                or_error (false, []) (with_first w.0 (run_command read fs name args w.1))
                  (after_command filename)
          ]

  -- `"pure64.img"`
  abbrev pub default_filename : Bytes
  default_filename = b'p' ∷ b'u' ∷ b'r' ∷ b'e' ∷ b'6' ∷ b'4' ∷ b'.' ∷ b'i' ∷ b'm' ∷ b'g' ∷ []

  unfoldable pub main :
      ℕ → (Bytes → Bool) → Bytes → HostRead → List Bytes → M (S × Mem) (Bool × Bytes)
  unfolding run_call
  main fuel scanned old read args =
      run_call fuel scanned old read (parse_args default_filename args)
