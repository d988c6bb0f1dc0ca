-- ===== src/Drivers/Pci.antt =====
-- pci.c: the configuration space of the PCI bus, behind two ports, and the devices that answer there.
-- The names of classes are read only when they are printed, and are left out.
pub mod Scan
mod Tests
use butos.Prelude.{
  ℕ, zero, suc, ◌+◌, ◌-◌, ◌*◌, ◌/◌, ◌%◌, ◌^◌, Bool, true, false, ltb, ◌==◌, if◌then◌else◌, List, [],
  ◌∷◌, set, length, Option, none, some,
}
use butos.Drivers.Ports.{Ports}

abbrev pub config_address : ℕ
config_address = 0xcf8

abbrev pub config_data : ℕ
config_data = 0xcfc

-- `ENABLE_BIT`, as a 32-bit word
abbrev pub enable_bit : ℕ
enable_bit = 2 ^ 31

-- `REG_WORD` and `REG_BYTE`
abbrev pub reg_word : (reg offset : ℕ) → ℕ
reg_word reg offset = reg / 2 ^ (offset * 8) % 2 ^ 16

abbrev pub reg_byte : (reg offset : ℕ) → ℕ
reg_byte reg offset = reg / 2 ^ (offset * 8) % 2 ^ 8

-- `struct pci_device_info`, but for the two fields that are never set
pub record PciDeviceInfo : Type 0 where
  pub bus : ℕ
  pub device_number : ℕ
  pub vendor_id : ℕ
  pub device_id : ℕ
  pub class_code : ℕ
  pub subclass : ℕ
  pub prog_if : ℕ
  pub revision_id : ℕ
  pub header_type : ℕ

-- The fields of a device, from its registers
abbrev pub info_of : (bus device reg_zero reg_two reg_three : ℕ) → PciDeviceInfo
info_of bus device reg_zero reg_two reg_three = record {
  bus = bus;
  device_number = device;
  vendor_id = reg_word reg_zero 0;
  device_id = reg_word reg_zero 2;
  class_code = reg_byte reg_two 3;
  subclass = reg_byte reg_two 2;
  prog_if = reg_byte reg_two 1;
  revision_id = reg_byte reg_two 0;
  header_type = reg_byte reg_three 2;
}

-- The word that chooses a register: the bits of its parts do not overlap, for a device below 32 and a
-- function below 8.
abbrev pub pci_address : (bus device function offset : ℕ) → ℕ
pci_address bus device function offset =
    (offset - offset % 4) + function * 2 ^ 8 + device * 2 ^ 11 + bus * 2 ^ 16 + enable_bit

module _ {S : Type 0} ⦃io : Ports S⦄ where
  unfoldable pub pci_config_read_long : S → (bus device function offset : ℕ) → S × ℕ
  pci_config_read_long s bus device function offset =
      io.inl (io.outl s config_address (pci_address bus device function offset)) config_data

  unfoldable pub pci_config_write_long : S → (bus device function offset value : ℕ) → S
  unfolding pci_config_read_long
  pci_config_write_long s bus device function offset value =
      let (s', old) = pci_config_read_long s bus device function offset in
      io.outl s' config_data value

  unfoldable pub pci_read_device_info : S → (bus device : ℕ) → S × PciDeviceInfo
  unfolding pci_config_read_long
  pci_read_device_info s bus device =
      let (s1, reg_zero) = pci_config_read_long s bus device 0 0 in
      let (s2, reg_two) = pci_config_read_long s1 bus device 0 8 in
      let (s3, reg_three) = pci_config_read_long s2 bus device 0 12 in
      (s3, info_of bus device reg_zero reg_two reg_three)

  unfoldable pub pci_read_device_status : S → (bus device : ℕ) → S × ℕ
  pci_read_device_status s bus device =
      let (s', reg_one) = pci_config_read_long s bus device 0 4 in (s', reg_byte reg_one 2)

  -- The devices `dev` to `dev + n` of a bus that answer, counted on from `num`
  unfoldable pub count_devices : (n : ℕ) → S → (bus dev num : ℕ) → S × ℕ
  unfolding pci_read_device_info
  count_devices zero s bus dev num = (s, num)
  count_devices (suc n) s bus dev num =
      let (s', info) = pci_read_device_info s bus dev in
      count_devices n s' bus (dev + 1) (if info.device_id == 0xffff then num else num + 1)

  unfoldable pub count_buses : (n : ℕ) → S → (bus num : ℕ) → S × ℕ
  count_buses zero s bus num = (s, num)
  count_buses (suc n) s bus num =
      let (s', num') = count_devices 32 s bus 0 num in count_buses n s' (bus + 1) num'

  unfoldable pub pci_get_device_num : S → S × ℕ
  pci_get_device_num s = count_buses 256 s 0 0

  -- The loop of `pci_scan_devices` from the device `dev` on, with `i` entries of the list filled; the
  -- counter is a `uint8_t`. The entries are those of `struct devs_list`, and `none` is a write behind the
  -- last one, or a loop that goes on after `fuel` rounds, as it does for 256 devices and more.
  unfoldable pub scan_devices :
      (fuel : ℕ)
      → S
      → (devs : List PciDeviceInfo) (devs_n dev i : ℕ) → Option (S × List PciDeviceInfo)
  scan_devices zero s devs devs_n dev i = none
  scan_devices (suc fuel) s devs devs_n dev i =
      let (s', info) = pci_read_device_info s 0 dev in
      let rest =
        scan_devices fuel s' (set devs i info) devs_n ((dev + 1) % 2 ^ 8)
          (if info.device_id == 0xffff then i else i + 1) in
      if ltb dev devs_n then (if ltb i (length devs) then rest else none) else some (s, devs)

  unfoldable pub pci_scan_devices :
      (fuel : ℕ) → S → List PciDeviceInfo → (devs_n : ℕ) → Option (S × List PciDeviceInfo)
  pci_scan_devices fuel s devs devs_n = scan_devices fuel s devs devs_n 0 0
