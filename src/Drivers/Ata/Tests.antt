-- ===== src/Drivers/Ata/Tests.antt =====
-- A drive that is always ready and gives the same word.
use butos.Prelude.{
  ℕ, zero, suc, ◌+◌, ◌%◌, ◌≡◌, refl, some, [], ◌∷◌, ◌==◌, if◌then◌else◌, arith, replicate,
  length-replicate,
}
use butos.Libs.Memory.{Memory}
use butos.Drivers.Ports.{Ports}
use butos.Drivers.Ata.{
  AtaDrive, ata_write, ata_read, ata_read_word, ata_write_word, ata_drive_wait, wait_idle,
  wait_request,
}
use butos.Drivers.Ata.Transfer.{
  ata_setup, ata_drive_read_pio, ata_drive_write_pio, ata_drive_access_pio, access_read,
  ata_drive_read_buffer, ignore_status, read_loop, read_word_at,
}
use butos.Drivers.Ata.Sectors.{Words, Serves, Takes, WordsRead, read_pio_lem, write_pio_lem}
use butos.Drivers.Ata.Broken.{Breaks, read_broken_lem}

-- The word of the bytes A and B
abbrev ab : ℕ
ab = 0x4241

-- The status 8 asks for data.
instance abbrev ready_ports : Ports Unit
ready_ports = record {
  inb = λ s p. (s, 8);
  outb = λ s p b. s;
  inw = λ s p. (s, ab);
  outw = λ s p w. s;
  inl = λ s p. (s, 0);
  outl = λ s p l. s;
}

-- A drive in error asks for data as well.
abbrev failing_ports : Ports Unit
failing_ports = record {
  inb = λ s p. (s, 9);
  outb = λ s p b. s;
  inw = λ s p. (s, 0);
  outw = λ s p w. s;
  inl = λ s p. (s, 0);
  outl = λ s p l. s;
}

abbrev drive : AtaDrive
drive = record {
  channel = record { base = 0x1f0; ctrl = 0x3f6 };
  ident = record { type = 0; max_lba = 1000; serial = 5000; model = 5020 };
  drive_n = 0;
  n_ien = 2;
}

-- The bytes A and B in turn
abbrev mem : Memory
mem a = 0x41 + a % 2

replicate-Serves : (n : ℕ) → Serves 2 drive tt (replicate n ab)
unfolding ata_drive_wait wait_idle wait_request ata_read ata_read_word
replicate-Serves zero = tt
replicate-Serves (suc n) = (tt, refl, refl, replicate-Serves n)

replicate-Takes : (n : ℕ) → Takes 2 drive tt (replicate n ab) tt
unfolding ata_drive_wait wait_idle wait_request ata_read ata_write_word
replicate-Takes zero = refl
replicate-Takes (suc n) = (tt, refl, replicate-Takes n)

replicate-Words : (n p : ℕ) → p % 2 ≡ 0 → Words mem p (replicate n ab)
replicate-Words zero p even = tt
replicate-Words (suc n) p even = (omega arith, omega arith, replicate-Words n (p + 2) (omega arith))

read_pio_lem_example :
    WordsRead 2 drive mem 600 (ab ∷ replicate 255 ab) (ata_drive_read_pio 2 tt mem drive 1 9 600)
read_pio_lem_example =
    read_pio_lem 2 drive tt mem 1 9 600 ab (replicate 255 ab) (omega arith, omega arith)
      (omega (arith, length-replicate 255 ab)) (replicate-Serves 256)

write_pio_lem_example : ata_drive_write_pio 2 tt mem drive 1 9 600 ≡ some (tt, mem, 0)
unfolding wait_idle ata_read
write_pio_lem_example =
    write_pio_lem 2 drive tt tt tt mem 1 9 600 ab (replicate 255 ab) (omega arith, omega arith)
      (omega (arith, length-replicate 255 ab)) (replicate-Words 256 600 (omega arith))
      (replicate-Takes 256) refl

read_fails : ata_drive_read_pio ⦃io = failing_ports⦄ 2 tt mem drive 1 9 600 ≡ some (tt, mem, 0)
unfolding ata_drive_read_pio ata_drive_access_pio access_read ata_drive_read_buffer ignore_status
    read_loop read_word_at ata_drive_wait wait_idle wait_request ata_read
read_fails = refl

-- A drive that gives one word and then is in error; the state counts the words.
abbrev breaking_ports : Ports ℕ
breaking_ports = record {
  inb = λ s p. (s, if s == 0 then 8 else 9);
  outb = λ s p b. s;
  inw = λ s p. (s + 1, ab);
  outw = λ s p w. s;
  inl = λ s p. (s, 0);
  outl = λ s p l. s;
}

breaks : Breaks ⦃io = breaking_ports⦄ 2 drive 0 (ab ∷ []) 1
unfolding ata_drive_wait wait_idle wait_request ata_read ata_read_word
breaks = (0, refl, refl, (1, omega arith, refl))

read_broken_lem_example :
    WordsRead ⦃io = breaking_ports⦄ 2 drive mem 600
      (ab ∷ [])
      (ata_drive_read_pio ⦃io = breaking_ports⦄ 2 0 mem drive 1 9 600)
unfolding ata_write ata_setup
read_broken_lem_example =
    read_broken_lem ⦃io = breaking_ports⦄ 2 drive 0 1 mem 1 9 600 (ab ∷ [])
      (omega arith, omega arith) (omega arith) breaks
