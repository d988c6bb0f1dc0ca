-- ===== src/Drivers/Pci/Tests.antt =====
-- A bus on which the devices 0 and 2 answer.
use butos.Prelude.{
  ℕ, ◌≡◌, refl, List, [], ◌∷◌, ◌==◌, ◌&&◌, ◌/◌, ◌%◌, ◌*◌, if◌then◌else◌, arith, replicate, map,
}
use butos.Drivers.Ports.{Ports}
use butos.Drivers.Pci.{PciDeviceInfo, config_address, info_of, pci_scan_devices}
use butos.Drivers.Pci.Scan.{ConfigSpace, Registers, answering, Scanned, pci_scan_devices_lem}

-- The first register of the two devices; the class of the second is that of an IDE controller.
abbrev registers : Registers
registers bus device function offset =
    if bus == 0 && (device == 0 && offset == 0)
    then 0x12378086
    else if bus == 0 && (device == 2 && offset == 0)
    then 0x70108086
    else if bus == 0 && (device == 2 && offset == 8)
    then 0x01018000
    else 0xffffffff

instance abbrev bus_ports : Ports ℕ
bus_ports = record {
  inb = λ s p. (s, 0);
  outb = λ s p b. s;
  inw = λ s p. (s, 0);
  outw = λ s p w. s;
  inl = λ s p. (s, registers (s / 65536 % 256) (s / 2048 % 32) (s / 256 % 8) (s % 256 / 4 * 4));
  outl = λ s p l. if p == config_address then l else s;
}

space : ConfigSpace bus_ports
space = record { register = λ s. registers; read = λ s a on. refl; kept = λ s a. refl }

abbrev blank : PciDeviceInfo
blank = info_of 0 0 0 0 0

abbrev devs : List PciDeviceInfo
devs = replicate 3 blank

answering_test : map (λ d. d.device_number) (answering registers 3 0) ≡ 0 ∷ 2 ∷ []
answering_test = refl

pci_scan_devices_lem_example : Scanned {S = ℕ} registers 3 devs 0 0 (pci_scan_devices 4 0 devs 3)
unfolding space
pci_scan_devices_lem_example =
    pci_scan_devices_lem space 4 0 devs 3 (omega arith) (omega arith) (omega arith)
