-- ===== src/Fs/Disk/Tests.antt =====
-- A boot sector with a partition of type 12 that starts at sector 10, and the theorems at it.
use butos.Prelude.{ℕ, zero, suc, ◌<◌, ◌≡◌, ◌≢◌, refl, List, replicate, set, arith}
use butos.Fs.Samples.{Sectors, drive}
use butos.Fs.Disk.{Disk, part_num, disk_read, disk_set_offset}
use butos.Fs.Disk.Partition.{entry_type, set_offset_found, set_offset_absent}

abbrev mbr : List ℕ
mbr = set (set (replicate 512 0) 466 12) 470 10

abbrev disk : Disk Sectors
disk = record { part_offset = 0; drive = λ u. mbr }

no_type : (j : ℕ) → j < part_num → entry_type mbr j ≢ 7
no_type zero lt e = omega arith
no_type (suc zero) lt e = omega arith
no_type (suc (suc zero)) lt e = omega arith
no_type (suc (suc (suc zero))) lt e = omega arith
no_type (suc (suc (suc (suc j)))) lt e = omega arith

before : (j : ℕ) → j < 1 → entry_type mbr j ≢ 12
before zero lt e = omega arith
before (suc j) lt e = omega arith

set_offset_found_test : disk_set_offset drive disk 12 ≡ (record disk { part_offset = 10 }, 0)
unfolding disk_read
set_offset_found_test = set_offset_found drive disk 12 mbr 1 refl (omega arith) refl before

set_offset_absent_test : disk_set_offset drive disk 7 ≡ (disk, 0)
unfolding disk_read
set_offset_absent_test = set_offset_absent drive disk 7 mbr refl no_type
