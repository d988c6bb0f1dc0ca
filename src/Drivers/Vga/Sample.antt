-- ===== src/Drivers/Vga/Sample.antt =====
-- A device with the registers of the screen, and a blank screen.
use butos.Prelude.{ℕ, refl, ◌==◌, if◌then◌else◌, ne→==_false, arith, ==_refl}
use butos.Drivers.Ports.{Ports}
use butos.Drivers.Vga.{Vga}
use butos.Drivers.Vga.Crtc.{Crtc}
use butos.Drivers.Vga.Cursor.{OnScreen}

-- The number of the register that is chosen, and the registers
pub record Device : Type 0 where
  pub index : ℕ
  pub registers : ℕ → ℕ

abbrev device_out : Device → ℕ → ℕ → Device
device_out d port b =
    if port == 0x3d4
    then record { index = b; registers = d.registers }
    else if port == 0x3d5
    then record { index = d.index; registers = λ i. if i == d.index then b else d.registers i }
    else d

abbrev device_in : Device → ℕ → Device × ℕ
device_in d port = (d, if port == 0x3d5 then d.registers d.index else 1)

-- The wide instructions reach no device.
instance abbrev pub screen_ports : Ports Device
screen_ports = record {
  inb = device_in;
  outb = device_out;
  inw = λ d p. (d, 0);
  outw = λ d p w. d;
  inl = λ d p. (d, 0);
  outl = λ d p l. d;
}

abbrev pub screen_crtc : Crtc screen_ports 1
screen_crtc = record {
  chosen = λ d. d.index;
  register = λ d. d.registers;
  select_chosen = λ s r. refl;
  select_register = λ s r i. refl;
  write_register = λ s b. rw (==_refl s.index) refl;
  write_other = λ s b i ne. rw (ne→==_false i s.index ne) refl;
  read_byte = λ s. refl;
  read_register = λ s i. refl;
  read_chosen = λ s. refl;
}

abbrev pub screen : Vga Device
screen = record {
  ioas = 1;
  pointer = 0;
  text = λ a. 0;
  machine = record { index = 0; registers = λ i. 0 };
}

pub screen-OnScreen : OnScreen screen_crtc screen
screen-OnScreen = record { ports = refl; on = omega arith; shown = (refl, refl) }
