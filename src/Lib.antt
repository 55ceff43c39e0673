-- ===== src/Lib.antt =====
-- Pure64: a model of the file system library, and of the loader and the image tool that share it.
--
-- The program boots a 64-bit kernel from a disk image. The library in src/lib, with its interface
-- in include/pure64, keeps the image's file system: a tree of directories and files that is built
-- in memory by paths, exported to a stream and imported from one. Boot record and partitions are
-- read and written through the same streams. In the loader a map of the machine's memory gives the
-- library its blocks, the buses are searched for a disk, and the kernel that is found in the file
-- system is put in its place in memory. The image tool runs its commands on a file system.
--
-- Which file models what:
--   Prelude             names, Boolean tests and list lemmas that all modules use
--   Error               include/pure64/error.h, src/lib/error.c
--   Run                 what a call comes to: a value, an error code, a fault or no fuel; and the
--                       answers of pure64_malloc and pure64_realloc (include/pure64/memory.h)
--   CString             src/lib/string.c (CString/Index: texts read by an `unsigned int` index)
--   Path                src/lib/path.c: parsing (Path/Parse, Path/Names), normalization
--                       (Path/Normalize, Path/Idempotent), both together (Path/Resolve)
--   Dir                 src/lib/dir.c and src/lib/file.c, but for export and import
--   Fs                  src/lib/fs.c, but for export and import. Fs/View is the abstract view: a
--                       map from paths to nodes. Fs/Make and Fs/Open relate the code to it, by
--                       way of Fs/Insert, Fs/Create, Fs/Valid and Fs/Names.
--   Stream, Bits        src/lib/stream.c and src/lib/misc.c; Stream/Tape says what a stream over
--                       bytes does
--   Image               export and import of fs.c, dir.c and file.c. Image/Bytes is the format as
--                       a function of the tree.
--   Mbr                 src/lib/mbr.c and src/lib/dap.c
--   Uuid                src/lib/uuid.c
--   Allocator           src/stage-three/map.c and e820.c: the search for a free block
--                       (Allocator/Search), the first table (Allocator/Table), the sort
--                       (Allocator/Sort), and malloc, realloc and free (Allocator/Heap)
--   Debug               src/stage-three/debug.c: fields (Debug/Parse) and output (Debug/Print)
--   Kernel              load_kernel of src/stage-three/_start.c: the memory (Kernel/Memory), the
--                       segments (Kernel/Segments), files in ELF format (Kernel/Elf and
--                       Kernel/Refuse) and others (Kernel/Bin)
--   Pci                 src/stage-three/pci.c, over any port instructions
--   Ahci                src/stage-three/ahci.c: the command slot (Ahci/Slot), the command for a
--                       read (Ahci/Command, Ahci/Prdt), the wait for the device (Ahci/Wait), the
--                       stream over a port (Ahci/Stream; Ahci/Disk and Ahci/Buffer for Ahci/Reads,
--                       Ahci/Long and Ahci/Overflow), the visit of ports (Ahci/Visit, Ahci/Ports)
--   Tool                src/util/pure64.c: the command line (Tool/Args) and the commands on a file
--                       system (Tool/Cat, Tool/Cp; Tool/Contents for the change of a file), the
--                       layout of a disk with a GPT (Tool/Gpt), its headers (Tool/Init) and their
--                       checksums (Tool/Checksum; Tool/Stored and Tool/Sums for Tool/Sealed; both
--                       together in Tool/Written, Tool/Header, Tool/Image, Tool/Fresh, Tool/Made),
--                       the image of a file system and `main` (Tool/Ramfs). Tool/Host is the
--                       interface to the files of the host.
--   Rc                  src/util/rc.c: the source that is written, and what is read from it
--                       (Rc/RoundTrip)
--   Tests               concrete inputs
--
-- How the state is modelled. A pointer with a count is a list, a structure is a record. A function
-- that changes a structure takes it and gives the changed one. The allocator is a list of answers
-- to the coming requests, so that a theorem about all lists is one about every pattern of refused
-- requests; where it frees is left out, but for the names that normalization frees and goes on to
-- read. The callbacks of a stream are arguments on a state of any type. IsTape states for them
-- what include/pure64/stream.h asks: reads give the bytes behind the position, writes overwrite
-- them, and position 0 is the beginning. For the start of the kernel the memory of the machine is
-- a function from addresses, which wrap around at 2 ^ 64, to bytes.
--
-- A disk's port is an interface too: its registers are read one by one, and each read may find the
-- device further on. The stream over a port takes the read of sectors as an argument; Serves states
-- that it gives the bytes of a disk. The memory that the driver shares with the device is written
-- through the interface, and a copy beyond a buffer's end is a fault.
--
-- Bounds and fuel. Numbers are natural numbers, with `% 2 ^ 32` and `% 2 ^ 64` where the code
-- keeps a count of names or subdirectories in an `unsigned int` or a size in a `uint64_t`. An
-- `unsigned int` that is the index of a text begins at 0 again from 2 ^ 32 on in the loops of
-- `debug` and of the UUIDs (CString/Index), and where one is compared with a `uint64_t` count of
-- files, a search that comes to 2 ^ 32 does not end. Two indices have no such end in the model,
-- that of `fmt_parse` in one field and that of `write_macro` in a path: these definitions are
-- right for texts of fewer than 2 ^ 32 characters. The theorems on trees ask that each directory
-- has fewer than 2 ^ 32 - 1 subdirectories (IsRoomy) and, where files are looked up, a bounded
-- number of files (FewFiles), those on images that sizes stay below 2 ^ 64 (DirFits).
-- Normalization runs on as much fuel as the path has names and one more, which never runs out;
-- the import of a directory on fuel for its nesting, for which the height of the tree is enough.
-- The bubble sort runs on n * n + 1 passes for n entries, and the loop of `debug` on one round
-- more than the format has characters, which never run out for a format of fewer than 2 ^ 32
-- characters; so does the loop over the text of a UUID. The wait for a disk's command runs on
-- fuel that bounds the looks that the device takes (Completes), and the source of the resource
-- compiler on one round more than the input has bytes.
--
-- Not modelled: the functions that only free; of the loader (src/stage-three) the contents of the
-- allocated blocks, the wait for the serial port and the search for the kernel's file on a disk;
-- of the image tool (src/util) the texts of messages; the assembly.
pub mod Prelude
pub mod Error
pub mod Run
pub mod CString
pub mod Path
pub mod Dir
pub mod Fs
pub mod Bits
pub mod Stream
pub mod Image
pub mod Mbr
pub mod Uuid
pub mod Allocator
pub mod Debug
pub mod Kernel
pub mod Tool
pub mod Pci
pub mod Ahci
pub mod Rc
mod Tests
