-- ===== src/Lib.antt =====
-- A model of butos, a small operating system for 32-bit x86, and the theorems about it.
--
-- The program. The kernel (src/main.c) sets up its heap, queues the keys that are pressed, finds the
-- FAT32 partition of the disk, mounts it and starts a shell. Its parts are modelled one file each, and
-- they interact as they do in the code:
--   * Libs/Memory: memory as a map from addresses to bytes, and memcpy and memset of
--     src/libs/string.c, which write it.
--   * Libs/Allocator: src/libs/allocator.c, an allocator with a sorted registry of the blocks in use.
--     The state is struct allocator; allocator_init, _full, _register, _unregister, _alloc,
--     _find_in_registry, _free and _realloc are one function each. A free of a pointer that is not in
--     use stops the machine, which is `none`.
--   * Libs/Alloc: src/libs/alloc.c, the one allocator of the kernel with the memory that its blocks lie
--     in: kalloc_start, kalloc, kfree, kcalloc, krealloc.
--   * Libs/Queue: src/libs/queue.c, a ring of bytes in a block of the kernel heap: the queue of the
--     keyboard.
--   * Libs/Ctype: src/libs/ctype.c, the classes of characters.
--   * Libs/Search and Libs/Text: the rest of src/libs/string.c, the functions that only read and those
--     that write; strtok, which keeps static state, is left out.
--   * Libs/Print: src/libs/print.c, the conversion of numbers, and in Libs/Print/Screen the characters,
--     strings and formats that are put on the screen. Libs/Atoi: src/libs/atoi.c, which reads what it
--     writes.
--   * Libs/Scan: src/libs/scan.c, `gets` over the keys that are pressed, and strtol.
--   * Libs/Shell: src/libs/shell.c, the line that is typed (Libs/Shell/Editor) and its split into a
--     command and arguments, over the keys of Libs/Scan, the strings of Libs/Text and the screen of
--     Libs/Print/Screen.
--   * Fs/Disk: src/fs/disk.c, the sectors of a partition behind an ATA drive.
--   * Fs/Cache: src/fs/fat32/cache.c, a direct-mapped cache of blocks. The functions behind its two
--     pointers are arguments, as they are in the code.
--   * Fs/Volume: the geometry of the volume, and the reads and writes of sectors and clusters in
--     src/fs/fat32/fs.c.
--   * Fs/Table: src/fs/fat32/table.c, the file allocation table, which goes through a cache whose
--     blocks are the sectors that Fs/Volume reads.
--   * Fs/Mount: fat_fs_getinfo and fat_fsinfo_flush of src/fs/fat32/fs.c, over Fs/Volume and Fs/Table.
--     Fs/Tree/Start: the mount of a volume with its root directory, and its close, of the same file.
--   * Fs/Entry and Fs/File: src/fs/fat32/file.c, the short names of entries, and reads and writes of a
--     file through a cache whose blocks are the clusters.
--   * Fs/Dir and Fs/DirScan: src/fs/fat32/dir.c, the search for a name, and the entries in the file of
--     a directory.
--   * Fs/Tree: the rest of src/fs/fat32/dir.c and src/fs/fat32/file.c, directories and files that are
--     opened, created and deleted by their paths. The state is the file system with its root directory.
--     Fs/File/Paths: the directory of a path.
--   * Drivers/Keyboard: src/drivers/keyboard.c. The state is the keyboard in use with its tables, the
--     trigger `extended` and the queue `input_buffer`; keyboard_handler takes the byte that it reads from
--     the port. Characters go to the queue of Libs/Queue, from where Libs/Scan takes them.
--   * Drivers/Vga: src/drivers/vga.c, the text screen with its cursor, which src/libs/print.c writes to
--     (Libs/Print/Screen). Video memory is a memory of its own.
--   * Drivers/Ata and Drivers/Pci: src/drivers/ata.c, the transfers of a drive (Drivers/Ata/Transfer) and
--     its start (Drivers/Ata/Start), and the configuration space of src/drivers/pci.c, through which the
--     drive is found.
--   * Drivers/Ports: the input and output instructions of src/include/asm.h.
-- The children of a file hold its theorems; the `Tests` among them hold runs at small inputs.
--
-- Correspondence. A function of the model has the name of the function of the code. A loop is a
-- function of its own, named for it, that recurs on the number of rounds that are left. A pointer is an
-- address, a number, and NULL is 0; a fixed-width integer is a number below 2^32 whose sums,
-- differences and products are written with their wrap-around (Prelude/Words). A function that
-- changes a structure returns the changed one.
--
-- Bounds and fuel. A loop whose bound the code itself computes needs no fuel. What runs to the NUL of
-- a string runs on fuel, and its theorems say that more than the length of the string is enough;
-- `base_convert_r` has fuel for the 32 digits that a number can have. `cluster_chain_get_len` runs on
-- fuel too: for chains of more than one cluster no fuel is enough. `dir_search_path` has a round for
-- each character of its path and one more, since each call of itself takes one character at least;
-- `pci_scan_devices` one for each device number and one more.
--
-- Parameters. The machine behind the ports is a parameter (`Ports`), and what is taken of the
-- screen is a record of its documented behaviour (`Crtc` in Drivers/Vga/Crtc), of the bus
-- `ConfigSpace` in Drivers/Pci/Scan, and of a drive the words that it gives and takes (`Serves`
-- and `Takes` in Drivers/Ata/Sectors). For the file system the ATA driver is a parameter (`Drive`
-- in Fs/Disk): what its reads and writes do, and whether the heap has room for a buffer. What a
-- theorem takes of it is a record of named laws (`IsFaithful`, `Backing`), which the tests show to
-- hold of a small drive.
--
-- Not modelled: the boot code and the assembly in init and src/cpu, the interrupt tables, paging;
-- the names of PCI devices and the list of them in the heap; the variables and the commands of the
-- shell and the system calls; the messages that are printed; the place in the kernel heap of the
-- structures of the file system, and their release.
--

pub mod Prelude
pub mod Libs
pub mod Fs
pub mod Drivers
