-- ===== src/Drivers.antt =====
-- src/drivers: the keyboard and the screen, and the ports through which a driver reaches its device.
pub mod Ata
pub mod Keyboard
pub mod Pci
pub mod Ports
pub mod Vga
