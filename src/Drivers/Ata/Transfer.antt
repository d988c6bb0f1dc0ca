-- ===== src/Drivers/Ata/Transfer.antt =====
-- The transfers of ata.c: the words that go through the data register, and the accesses to sectors.
use butos.Prelude.{
  ℕ, zero, suc, ◌+◌, ◌-◌, ◌*◌, ◌/◌, ◌%◌, ◌^◌, Bool, true, false, Option, none, some, leb, ◌==◌,
  if◌then◌else◌, bit_or,
}
use butos.Libs.Memory.{Memory, store, memcpy}
use butos.Drivers.Ports.{Ports}
use butos.Drivers.Ata.{
  AtaDrive, ata_sr_err, ata_success, ata_reg_data, ata_reg_seccount0, ata_reg_lba0, ata_reg_lba1,
  ata_reg_lba2, ata_reg_hddevsel, ata_reg_command, ata_cmd_read_pio, ata_cmd_write_pio,
  ata_cmd_cache_flush, ata_cmd_identify, ata_sector_size, ata_read, ata_read_word, ata_write,
  ata_write_word, ata_drive_delay, wait_idle, ata_drive_wait,
}

-- `enum access_direction_t`
pub data Direction : Type 0 where
  ata_read_direction ata_write_direction : Direction

-- `SETUP_HDDSEL_PIO`
abbrev pub setup_hddsel_pio : (has_lba lba drive_n : ℕ) → ℕ
setup_hddsel_pio has_lba lba drive_n =
    bit_or (bit_or (lba / 2 ^ 24 % 256) (has_lba * 64)) (drive_n * 16)

-- `ATA_IDENT_MAX_LBA` of the bytes at `buffer`
abbrev pub ata_ident_max_lba : Memory → ℕ → ℕ
ata_ident_max_lba mem buffer =
    mem (buffer + 122) * 2 ^ 24
    + mem (buffer + 123) * 2 ^ 16
    + mem (buffer + 120) * 2 ^ 8
    + mem (buffer + 121)

-- `while (i < buff_len)` with `i` at 2, 4 and so on: the number of rounds behind the first
abbrev pub rounds : ℕ → ℕ
rounds buff_len = (buff_len - 1) / 2

-- The end of `ata_drive_identify`, with the 512 bytes in its buffer: the fields of the drive, and
-- its serial number and model, which end with a NUL.
unfoldable pub identified : Memory → AtaDrive → (buffer : ℕ) → Memory × AtaDrive
identified mem drive buffer =
    let id = drive.ident in
    let mem1 = store (memcpy mem id.serial (buffer + 20) 20) (id.serial + 19) 0 in
    let mem2 = store (memcpy mem1 id.model (buffer + 54) 40) (id.model + 39) 0 in
    (
      mem2,
      record drive {
        ident = record id { type = mem buffer / 2 ^ 8; max_lba = ata_ident_max_lba mem buffer };
      },
    )

-- What the loop that reads returns is not looked at.
unfoldable pub ignore_status : {S : Type 0} → Option (S × Memory × ℕ) → Option (S × Memory × ℕ)
ignore_status none = none
ignore_status (some (s, mem, status)) = some (s, mem, ata_success)

module _ {S : Type 0} ⦃io : Ports S⦄ where
  -- One round of the loop of `ata_drive_read_buffer`, or of `ata_drive_read_buffer_reverse`: a word
  -- goes to `p`, and the status is that of the wait before it.
  unfoldable pub read_word_at :
      (fuel : ℕ) → (reverse : Bool) → S → Memory → AtaDrive → (p : ℕ) → Option (S × Memory × ℕ)
  read_word_at fuel reverse s mem drive p = elim (ata_drive_wait fuel s drive) [
    | none ↦ none
    | some (s1, error) ↦
        let (s2, w) = ata_read_word s1 drive ata_reg_data in
        let first = if reverse then w / 256 else w % 256 in
        let second = if reverse then w % 256 else w / 256 in
        some (
          if error == 0
          then (s2, store (store mem p first) (p + 1) second, ata_success)
          else (s1, mem, ata_sr_err))
  ]

  -- The loop, for `n` rounds behind the next one, which is always done
  unfoldable pub read_loop :
      (n fuel : ℕ) → (reverse : Bool) → S → Memory → AtaDrive → (p : ℕ) → Option (S × Memory × ℕ)
  read_loop zero fuel reverse s mem drive p = read_word_at fuel reverse s mem drive p
  read_loop (suc n) fuel reverse s mem drive p = elim (read_word_at fuel reverse s mem drive p) [
    | none ↦ none
    | some (s', mem', status) ↦ elim (status == 0) [
      | true ↦ read_loop n fuel reverse s' mem' drive (p + 2)
      | false ↦ some (s', mem', status)
    ]
  ]

  unfoldable pub ata_drive_read_buffer :
      (fuel : ℕ) → S → Memory → AtaDrive → (buffer buff_len : ℕ) → Option (S × Memory × ℕ)
  ata_drive_read_buffer fuel s mem drive buffer buff_len =
      read_loop (rounds buff_len) fuel false s mem drive buffer

  unfoldable pub ata_drive_read_buffer_reverse :
      (fuel : ℕ) → S → Memory → AtaDrive → (buffer buff_len : ℕ) → Option (S × Memory × ℕ)
  ata_drive_read_buffer_reverse fuel s mem drive buffer buff_len =
      read_loop (rounds buff_len) fuel true s mem drive buffer

  -- The status is `ATA_FOUND`, which is 0, or `ATA_NOT_FOUND`; `buffer` is the local buffer.
  unfoldable pub ata_drive_identify :
      (fuel : ℕ) → S → Memory → AtaDrive → (buffer : ℕ) → Option (S × Memory × AtaDrive × ℕ)
  ata_drive_identify fuel s mem drive buffer =
      let s1 = ata_drive_delay (ata_write s drive ata_reg_command ata_cmd_identify) drive in
      let (s2, status) = ata_read s1 drive ata_reg_command in
      elim (status == 0) [
        | true ↦ some (s2, mem, drive, ata_sr_err)
        | false ↦ elim (ata_drive_read_buffer_reverse fuel s2 mem drive buffer 512) [
          | none ↦ none
          | some (s3, mem', error) ↦
              let (mem'', drive') = identified mem' drive buffer in
              some (if error == 0 then (s3, mem'', drive', 0) else (s3, mem', drive, ata_sr_err))
        ]
      ]

  -- The registers of an access, before the command: the drive and the head, the sector and the count
  unfoldable pub ata_setup : S → AtaDrive → (sector_n lba : ℕ) → S
  ata_setup s drive sector_n lba =
      let has_lba = if leb 1 drive.ident.max_lba then 1 else 0 in
      let s1 =
        ata_write s drive ata_reg_hddevsel (setup_hddsel_pio has_lba lba drive.drive_n % 256) in
      let s2 = ata_write s1 drive ata_reg_lba0 (lba % 256) in
      let s3 = ata_write s2 drive ata_reg_lba1 (lba / 2 ^ 8 % 256) in
      let s4 = ata_write s3 drive ata_reg_lba2 (lba / 2 ^ 16 % 256) in
      ata_write s4 drive ata_reg_seccount0 sector_n

  -- One round of the loop that writes
  unfoldable pub write_word_at : (fuel : ℕ) → S → Memory → AtaDrive → (p : ℕ) → Option (S × ℕ)
  write_word_at fuel s mem drive p = elim (ata_drive_wait fuel s drive) [
    | none ↦ none
    | some (s1, error) ↦ some (
        if error == 0
        then (ata_write_word s1 drive ata_reg_data (mem p + mem (p + 1) * 2 ^ 8), ata_success)
        else (s1, ata_sr_err))
  ]

  unfoldable pub write_loop : (n fuel : ℕ) → S → Memory → AtaDrive → (p : ℕ) → Option (S × ℕ)
  write_loop zero fuel s mem drive p = write_word_at fuel s mem drive p
  write_loop (suc n) fuel s mem drive p = elim (write_word_at fuel s mem drive p) [
    | none ↦ none
    | some (s', status) ↦ elim (status == 0) [
      | true ↦ write_loop n fuel s' mem drive (p + 2)
      | false ↦ some (s', status)
    ]
  ]

  -- The branch of `ata_drive_access_pio` that reads
  unfoldable pub access_read :
      (fuel : ℕ) → S → Memory → AtaDrive → (buff buff_len : ℕ) → Option (S × Memory × ℕ)
  unfolding ignore_status
  access_read fuel s mem drive buff buff_len = ignore_status (
      ata_drive_read_buffer fuel (ata_write s drive ata_reg_command ata_cmd_read_pio) mem drive buff
        buff_len)

  -- The branch that writes, with the flush behind the loop
  unfoldable pub access_write :
      (fuel : ℕ) → S → Memory → AtaDrive → (buff buff_len : ℕ) → Option (S × Memory × ℕ)
  access_write fuel s mem drive buff buff_len =
      elim (write_loop (rounds buff_len) fuel (ata_write s drive ata_reg_command ata_cmd_write_pio)
        mem drive buff) [
          | none ↦ none
          | some (s', status) ↦ elim (status == 0) [
            | false ↦ some (s', mem, status)
            | true ↦
                elim (wait_idle fuel (ata_write s' drive ata_reg_command ata_cmd_cache_flush)
                  drive) [ none ↦ none | some s'' ↦ some (s'', mem, ata_success) ]
          ]
        ]

  unfoldable pub ata_drive_access_pio :
      (fuel : ℕ)
      → S
      → Memory
      → AtaDrive
      → Direction
      → (sector_n lba buff : ℕ) → Option (S × Memory × ℕ)
  ata_drive_access_pio fuel s mem drive direction sector_n lba buff =
      let s' = ata_setup s drive sector_n lba in
      let buff_len = sector_n * ata_sector_size in
      if drive.ident.type == 1
      then some (s, mem, ata_sr_err)
      else if leb drive.ident.max_lba lba
      then some (s, mem, ata_sr_err)
      else elim direction [
        | ata_read_direction ↦ access_read fuel s' mem drive buff buff_len
        | ata_write_direction ↦ access_write fuel s' mem drive buff buff_len
      ]

  unfoldable pub ata_drive_read_pio :
      (fuel : ℕ) → S → Memory → AtaDrive → (sector_n lba buff : ℕ) → Option (S × Memory × ℕ)
  ata_drive_read_pio fuel s mem drive sector_n lba buff =
      ata_drive_access_pio fuel s mem drive ata_read_direction sector_n lba buff

  unfoldable pub ata_drive_write_pio :
      (fuel : ℕ) → S → Memory → AtaDrive → (sector_n lba buff : ℕ) → Option (S × Memory × ℕ)
  ata_drive_write_pio fuel s mem drive sector_n lba buff =
      ata_drive_access_pio fuel s mem drive ata_write_direction sector_n lba buff

  unfoldable pub ata_drive_get_status : S → AtaDrive → S × ℕ
  ata_drive_get_status s drive = ata_read s drive 0
