-- ===== src/Drivers/Ata.antt =====
-- ata.c: an ATA drive behind its ports, read and written by programmed input and output. The waits for
-- the drive run on fuel, and `none` is a wait that does not end. The messages about the status are left
-- out.
pub mod Transfer
pub mod Start
pub mod Sectors
pub mod Broken
mod Tests
use butos.Prelude.{
  ℕ, zero, suc, ◌+◌, ◌-◌, ◌*◌, ◌/◌, ◌%◌, ◌^◌, Bool, true, false, ◌&&◌, not, Option, none, some, ltb,
  leb, ◌==◌, if◌then◌else◌, bit_and, bit_or, bit_xor,
}
use butos.Drivers.Ports.{Ports}

-- `struct ata_channel`, but for the bus master, which is never used
pub record AtaChannel : Type 0 where
  pub base : ℕ
  pub ctrl : ℕ

-- `struct ata_drive_info`; the texts are lists of characters in memory and their addresses.
pub record AtaDriveInfo : Type 0 where
  pub type : ℕ
  pub max_lba : ℕ
  pub serial : ℕ
  pub model : ℕ

-- `struct ata_drive`, with what its pointers lead to
pub record AtaDrive : Type 0 where
  pub channel : AtaChannel
  pub ident : AtaDriveInfo
  pub drive_n : ℕ
  pub n_ien : ℕ

abbrev pub ata_sr_bsy : ℕ
ata_sr_bsy = 0x80

abbrev pub ata_sr_drq : ℕ
ata_sr_drq = 0x08

-- `ATA_SR_ERR`, which is also `ATA_NOT_FOUND`
abbrev pub ata_sr_err : ℕ
ata_sr_err = 1

abbrev pub ata_success : ℕ
ata_success = 0

abbrev pub ata_reg_data : ℕ
ata_reg_data = 0

abbrev pub ata_reg_seccount0 : ℕ
ata_reg_seccount0 = 2

abbrev pub ata_reg_lba0 : ℕ
ata_reg_lba0 = 3

abbrev pub ata_reg_lba1 : ℕ
ata_reg_lba1 = 4

abbrev pub ata_reg_lba2 : ℕ
ata_reg_lba2 = 5

abbrev pub ata_reg_hddevsel : ℕ
ata_reg_hddevsel = 6

-- `ATA_REG_COMMAND` and `ATA_REG_STATUS`
abbrev pub ata_reg_command : ℕ
ata_reg_command = 7

abbrev pub ata_cmd_read_pio : ℕ
ata_cmd_read_pio = 0x20

abbrev pub ata_cmd_write_pio : ℕ
ata_cmd_write_pio = 0x30

abbrev pub ata_cmd_cache_flush : ℕ
ata_cmd_cache_flush = 0xe7

abbrev pub ata_cmd_identify : ℕ
ata_cmd_identify = 0xec

abbrev pub ata_sector_size : ℕ
ata_sector_size = 512

module _ {S : Type 0} ⦃io : Ports S⦄ where
  unfoldable pub ata_read : S → AtaDrive → (reg : ℕ) → S × ℕ
  ata_read s drive reg = io.inb s (drive.channel.base + reg)

  unfoldable pub ata_read_word : S → AtaDrive → (reg : ℕ) → S × ℕ
  ata_read_word s drive reg = io.inw s (drive.channel.base + reg)

  unfoldable pub ata_read_ctrl : S → AtaDrive → (reg : ℕ) → S × ℕ
  ata_read_ctrl s drive reg = io.inb s (drive.channel.ctrl + reg)

  unfoldable pub ata_write : S → AtaDrive → (reg byte : ℕ) → S
  ata_write s drive reg byte = io.outb s (drive.channel.base + reg) byte

  unfoldable pub ata_write_word : S → AtaDrive → (reg w : ℕ) → S
  ata_write_word s drive reg w = io.outw s (drive.channel.base + reg) w

  unfoldable pub ata_write_ctrl : S → AtaDrive → (reg byte : ℕ) → S
  ata_write_ctrl s drive reg byte = io.outb s (drive.channel.ctrl + reg) byte

  -- The loop of `ata_drive_delay`
  unfoldable pub delay_loop : (n : ℕ) → S → AtaDrive → S
  delay_loop zero s drive = s
  delay_loop (suc n) s drive = delay_loop n (ata_read_ctrl s drive 0).0 drive

  unfoldable pub ata_drive_delay : S → AtaDrive → S
  ata_drive_delay s drive = delay_loop 4 s drive

  unfoldable pub ata_select_drive : S → AtaDrive → S
  ata_select_drive s drive =
      ata_drive_delay (ata_write s drive ata_reg_hddevsel (drive.drive_n * 16 % 256)) drive

  unfoldable pub ata_disable_int : S → AtaDrive → S × AtaDrive
  ata_disable_int s drive = (ata_write_ctrl s drive 0 2, record drive { n_ien = 2 })

  -- `while (ata_read(drive_ptr, ATA_REG_STATUS) & ATA_SR_BSY);`
  unfoldable pub wait_idle : (fuel : ℕ) → S → AtaDrive → Option S
  wait_idle zero s drive = none
  wait_idle (suc fuel) s drive =
      let (s', status) = ata_read s drive ata_reg_command in
      let rest = wait_idle fuel s' drive in if bit_and status ata_sr_bsy == 0 then some s' else rest

  -- `while (!(ata_read(drive_ptr, ATA_REG_STATUS) & ATA_SR_DRQ));`
  unfoldable pub wait_request : (fuel : ℕ) → S → AtaDrive → Option S
  wait_request zero s drive = none
  wait_request (suc fuel) s drive =
      let (s', status) = ata_read s drive ata_reg_command in
      let rest = wait_request fuel s' drive in
      if bit_and status ata_sr_drq == 0 then rest else some s'

  -- The machine, and whether the drive reports an error
  unfoldable pub ata_drive_wait : (fuel : ℕ) → S → AtaDrive → Option (S × ℕ)
  ata_drive_wait fuel s drive = elim (wait_idle fuel s drive) [
    | none ↦ none
    | some s1 ↦ elim (wait_request fuel s1 drive) [
      | none ↦ none
      | some s2 ↦
          let (s3, status) = ata_read s2 drive ata_reg_command in
          some (s3, bit_and status ata_sr_err)
    ]
  ]
