-- ===== src/Drivers/Ata/Start.antt =====
-- The start of a drive in ata.c: its channel, and the drive in the kernel heap.
use butos.Prelude.{
  ℕ, ◌*◌, ◌%◌, ◌^◌, ◌&&◌, not, Option, none, some, ◌==◌, if◌then◌else◌, bit_and, bit_or, bit_xor,
}
use butos.Libs.Allocator.{null}
use butos.Libs.Memory.{Memory}
use butos.Libs.Alloc.{Kernel, kalloc, kfree}
use butos.Drivers.Ports.{Ports}
use butos.Drivers.Pci.{PciDeviceInfo, pci_config_read_long, pci_config_write_long}
use butos.Drivers.Ata.{AtaChannel, AtaDriveInfo, AtaDrive, ata_select_drive, ata_disable_int}
use butos.Drivers.Ata.Transfer.{ata_drive_identify}

-- `sizeof(struct ata_drive)` on the 32-bit target
abbrev pub sizeof_ata_drive : ℕ
sizeof_ata_drive = 12

unfoldable pub ata_drive_fini : Kernel → (drive_ptr : ℕ) → Option Kernel
ata_drive_fini k drive_ptr = kfree k drive_ptr

module _ {S : Type 0} ⦃io : Ports S⦄ where
  -- The device leaves native mode: the programming interface has two bits turned over and is written
  -- to its place in the register.
  unfoldable pub switch_compatibily_mode : S → PciDeviceInfo → S × PciDeviceInfo
  switch_compatibily_mode s dev =
      let (s', reg_two) = pci_config_read_long s dev.bus dev.device_number 0 8 in
      let prog_if = bit_xor dev.prog_if 5 in
      (
        pci_config_write_long s' dev.bus dev.device_number 0 8
            (bit_or (bit_and reg_two 0xffff00ff) (prog_if * 2 ^ 8)),
        record dev { prog_if = prog_if },
      )

  -- The channel, the device and the machine; other channels are left as they are.
  unfoldable pub ata_channels_init :
      S → AtaChannel → (channel_n : ℕ) → PciDeviceInfo → S × AtaChannel × PciDeviceInfo
  unfolding switch_compatibily_mode
  ata_channels_init s channel channel_n dev =
      let (s', dev') = switch_compatibily_mode s dev in
      let switchable = not (bit_and dev.prog_if 2 == 0) in
      if channel_n == 0
      then (let native = not (bit_and dev.prog_if 1 == 0) && switchable in
          (
            if native then s' else s,
            record { base = 0x1f0; ctrl = 0x3f6 },
            if native then dev' else dev,
          ))
      else if channel_n == 1
      then (let native = not (bit_and dev.prog_if 4 == 0) && switchable in
          (
            if native then s' else s,
            record { base = 0x170; ctrl = 0x376 },
            if native then dev' else dev,
          ))
      else (s, channel, dev)

  -- The end of `ata_drive_init`, with what `ata_drive_identify` returned
  unfoldable pub drive_end :
      Kernel → (drive_ptr : ℕ) → S × Memory × AtaDrive × ℕ → Option (S × Kernel × AtaDrive × ℕ)
  drive_end k drive_ptr (s, mem, drive, error) =
      let k' = record k { memory = mem } in
      if error == 0 then some (s, k', drive, drive_ptr) else elim (ata_drive_fini k' drive_ptr) [
        | none ↦ none
        | some k'' ↦ some (s, k'', drive, null)
      ]

  -- The machine, the kernel, the drive and its address, `null` on failure. The channel and the
  -- information are static objects that all drives share; `channel` and `ident` are what they hold.
  unfoldable pub ata_drive_init :
      (fuel : ℕ)
      → S
      → Kernel
      → AtaChannel
      → AtaDriveInfo
      → (channel_n drive_n : ℕ) → PciDeviceInfo
      → (buffer : ℕ) → Option (S × Kernel × AtaDrive × ℕ)
  unfolding drive_end ata_channels_init
  ata_drive_init fuel s k channel ident channel_n drive_n dev buffer =
      let (k', drive_ptr) = kalloc k sizeof_ata_drive in
      let (s1, channel', dev') = ata_channels_init s channel channel_n dev in
      let fresh : AtaDrive = record {
        channel = channel';
        ident = ident;
        drive_n = drive_n % 2;
        n_ien = 0;
      } in
      let (s2, drive) = ata_disable_int s1 fresh in
      let found = ata_drive_identify fuel (ata_select_drive s2 drive) k'.memory drive buffer in
      if drive_ptr == null
      then some (s, k', fresh, null)
      else elim found [ none ↦ none | some out ↦ drive_end k' drive_ptr out ]
