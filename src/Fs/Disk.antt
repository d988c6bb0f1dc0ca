-- ===== src/Fs/Disk.antt =====
-- disk.c: a disk behind an ATA drive, and the offset of the partition on it.
-- The drive is an argument: its state, and what `ata_drive_read_pio` and `ata_drive_write_pio` do
-- with it. `room` says whether the kernel heap has a block of the size to give.
pub mod Partition
mod Tests
use butos.Prelude.{
  ℕ, zero, suc, ◌+◌, ◌*◌, ◌%◌, ◌^◌, ◌<◌, ◌≡◌, ◌≢◌, Bool, true, false, Option, none, some, List, [],
  ◌∷◌, ◌==◌, if◌then◌else◌, get_or, add32, word, length,
}

-- Sector numbers and counts are 32-bit words, and `n` fits a byte.
pub record Drive : Type 1 where
  pub State : Type 0
  -- the bytes of `n` sectors from `lba` on, `none` for an error
  pub read_pio : State → (n lba : ℕ) → Option (List ℕ)
  -- 0 on success
  pub write_pio : State → (n lba : ℕ) → List ℕ → State × ℕ
  pub room : State → ℕ → Bool

-- `struct disk`; its type has one value, `ATA_DRIVE`.
pub record Disk (State : Type 0) : Type 0 where
  pub part_offset : ℕ
  pub drive : State

-- `MBR_START` and the layout of a partition entry
abbrev pub mbr_start : ℕ
mbr_start = 0x1be

abbrev pub part_type_offset : ℕ
part_type_offset = 4

abbrev pub part_start_offset : ℕ
part_start_offset = 8

abbrev pub part_num : ℕ
part_num = 4

abbrev pub mbr_entry_size : ℕ
mbr_entry_size = 16

-- `BYTES_TO_WORD` and `BYTES_TO_LONG`
abbrev pub bytes_to_word : List ℕ → ℕ → ℕ
bytes_to_word bytes off = get_or bytes off 0 + get_or bytes (off + 1) 0 * 2 ^ 8

abbrev pub bytes_to_long : List ℕ → ℕ → ℕ
bytes_to_long bytes off =
    (get_or bytes off 0
      + get_or bytes (off + 1) 0 * 2 ^ 8
      + get_or bytes (off + 2) 0 * 2 ^ 16
      + get_or bytes (off + 3) 0 * 2 ^ 24)
    % word

-- The loop of `disk_set_offset` over the `k` entries from `i` on: the start of the first partition
-- of the type.
unfoldable pub find_partition : ℕ → ℕ → List ℕ → ℕ → Option ℕ
find_partition zero i first_sector part_type = none
find_partition (suc k) i first_sector part_type =
    if get_or first_sector (mbr_start + i * mbr_entry_size + part_type_offset) 0 == part_type
    then some (bytes_to_long first_sector (mbr_start + i * mbr_entry_size + part_start_offset))
    else find_partition k (suc i) first_sector part_type

module _ (d : Drive) where
  -- `n` is converted to a byte by the call.
  unfoldable pub disk_read : Disk d.State → ℕ → ℕ → Option (List ℕ)
  disk_read disk n lba = d.read_pio disk.drive (n % 256) (add32 lba disk.part_offset)

  unfoldable pub disk_write : Disk d.State → ℕ → ℕ → List ℕ → Disk d.State × ℕ
  disk_write disk n lba buff =
      let (s, err) = d.write_pio disk.drive (n % 256) (add32 lba disk.part_offset) buff in
      (record disk { drive = s }, err)

  -- The end of `disk_set_offset`, with what the loop found
  unfoldable pub set_start : Disk d.State → Option ℕ → Disk d.State × ℕ
  set_start disk none = (disk, 0)
  set_start disk (some start) = (record disk { part_offset = start }, 0)

  -- `disk_set_offset` with what the read returned
  unfoldable pub scan_entries : Disk d.State → ℕ → Option (List ℕ) → Disk d.State × ℕ
  unfolding find_partition set_start
  scan_entries disk part_type none = (disk, 1)
  scan_entries disk part_type (some first_sector) =
      set_start disk (find_partition part_num 0 first_sector part_type)

  -- The disk and the status, 0 for `DISK_SUCCESS`: also where there is no partition of the type.
  unfoldable pub disk_set_offset : Disk d.State → ℕ → Disk d.State × ℕ
  unfolding disk_read scan_entries
  disk_set_offset disk part_type = scan_entries disk part_type (disk_read disk 1 0)
