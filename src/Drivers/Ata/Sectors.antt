-- ===== src/Drivers/Ata/Sectors.antt =====
-- What the accesses of ata.c read, write and report, against the words that the drive gives and takes.
use butos.Prelude.{
  ℕ, ◌+◌, ◌*◌, ◌/◌, ◌%◌, ◌^◌, ◌<◌, ◌≡◌, ◌≢◌, refl, ap, ◌∙◌, inl, false, Option, some, List, [], ◌∷◌,
  length, arith, ne→==_false, lt→leb_false,
}
use butos.Libs.Memory.{Memory, store}
use butos.Libs.Memory.Copy.{Outside}
use butos.Drivers.Ports.{Ports}
use butos.Drivers.Ata.{
  AtaDrive, ata_reg_data, ata_reg_command, ata_cmd_read_pio, ata_cmd_write_pio, ata_cmd_cache_flush,
  wait_idle, ata_read_word, ata_write_word, ata_write, ata_drive_wait,
}
use butos.Drivers.Ata.Transfer.{
  Direction, ata_read_direction, ata_write_direction, rounds, read_word_at, read_loop,
  write_word_at, write_loop, ata_drive_read_buffer, ata_setup, ignore_status, access_read,
  access_write, ata_drive_access_pio, ata_drive_read_pio, ata_drive_write_pio,
}

-- The words stand in memory from `p` on, the low byte first.
abbrev pub Words : Memory → ℕ → List ℕ → Type 0
Words mem p [] = Unit
Words mem p (w ∷ ws) = (mem p ≡ w % 256) × (mem (p + 1) ≡ w / 256) × Words mem (p + 2) ws

-- Where `ata_drive_access_pio` goes on: the drive is no ATAPI drive and has the sector.
abbrev pub Accepts : AtaDrive → (lba : ℕ) → Type 0
Accepts drive lba = (drive.ident.type ≢ 1) × (lba < drive.ident.max_lba)

module _ {S : Type 0} ⦃io : Ports S⦄ (fuel : ℕ) (drive : AtaDrive) where
  -- The drive gives the words: each wait for it ends with no error, and the next word follows.
  abbrev pub Serves : S → List ℕ → Type 0
  Serves s [] = Unit
  Serves s (w ∷ ws) =
      (s1 : S) × (ata_drive_wait fuel s drive ≡ some (s1, 0))
      × ((ata_read_word s1 drive ata_reg_data).1 ≡ w)
      × Serves (ata_read_word s1 drive ata_reg_data).0 ws

  -- The drive takes the words, and is then in the state `s'`.
  abbrev pub Takes : S → List ℕ → S → Type 0
  Takes s [] s' = s ≡ s'
  Takes s (w ∷ ws) s' =
      (s1 : S) × (ata_drive_wait fuel s drive ≡ some (s1, 0))
      × Takes (ata_write_word s1 drive ata_reg_data w) ws s'

  -- The words were read to `p`, and no other byte changed.
  pub record WordsRead (mem : Memory) (p : ℕ) (ws : List ℕ) (out : Option (S × Memory × ℕ))
      : Type 0 where
    pub machine : S
    pub memory : Memory
    pub result : out ≡ some (machine, memory, 0)
    pub words : Words memory p ws
    pub frame : (a : ℕ) → Outside p (2 * length ws) a → memory a ≡ mem a

  pub read_word_lem :
      (s s1 : S) (mem : Memory) (p w : ℕ)
      → ata_drive_wait fuel s drive ≡ some (s1, 0)
      → (ata_read_word s1 drive ata_reg_data).1 ≡ w
      → read_word_at fuel false s mem drive p
        ≡ some (
          (ata_read_word s1 drive ata_reg_data).0,
          store (store mem p (w % 256)) (p + 1) (w / 256),
          0,
        )
  unfolding read_word_at
  read_word_lem s s1 mem p w ready word = rw (read_word_at, ready, word) refl

  read_loop_lem :
      (ws : List ℕ) (s : S) (mem : Memory) (p w : ℕ)
      → Serves s (w ∷ ws)
      → WordsRead mem p (w ∷ ws) (read_loop (length ws) fuel false s mem drive p)
  unfolding read_loop
  read_loop_lem [] s mem p w (s1, ready, word, t) = record {
    machine = (ata_read_word s1 drive ata_reg_data).0;
    memory = store (store mem p (w % 256)) (p + 1) (w / 256);
    result = read_word_lem s s1 mem p w ready word;
    words = (ground arith, ground arith, tt);
    frame = λ a h. ground (arith, h);
  }
  read_loop_lem (v ∷ ws) s mem p w (s1, ready, word, more) =
      let mem1 = store (store mem p (w % 256)) (p + 1) (w / 256) in
      let r = read_loop_lem ws (ata_read_word s1 drive ata_reg_data).0 mem1 (p + 2) v more in
      rw (read_loop, read_word_lem s s1 mem p w ready word)
        (record {
          machine = r.machine;
          memory = r.memory;
          result = r.result;
          words = (
            r.frame p (inl (omega arith)) ∙ ground arith,
            r.frame (p + 1) (inl (omega arith)) ∙ ground arith,
            r.words,
          );
          frame = λ a h. r.frame a (omega (arith, h)) ∙ ground (arith, h);
        })

  write_word_lem :
      (s s1 : S) (mem : Memory) (p w : ℕ)
      → ata_drive_wait fuel s drive ≡ some (s1, 0)
      → mem p ≡ w % 256
      → mem (p + 1) ≡ w / 256
      → write_word_at fuel s mem drive p ≡ some (ata_write_word s1 drive ata_reg_data w, 0)
  unfolding write_word_at
  write_word_lem s s1 mem p w ready low high =
      let e : w % 256 + w / 256 * 2 ^ 8 ≡ w = omega arith in
      rw (write_word_at, ready, low, high, e) refl

  write_loop_lem :
      (ws : List ℕ) (s s' : S) (mem : Memory) (p w : ℕ)
      → Words mem p (w ∷ ws)
      → Takes s (w ∷ ws) s'
      → write_loop (length ws) fuel s mem drive p ≡ some (s', 0)
  unfolding write_loop
  write_loop_lem [] s s' mem p w (low, high, _) (s1, ready, e) =
      write_word_lem s s1 mem p w ready low high ∙ ap (λ x. some (x, 0)) e
  write_loop_lem (v ∷ ws) s s' mem p w (low, high, words) (s1, ready, more) =
      rw (write_loop, write_word_lem s s1 mem p w ready low high)
        (write_loop_lem ws (ata_write_word s1 drive ata_reg_data w) s' mem (p + 2) v words more)

  -- The machine behind the command of an access
  abbrev pub commanded : S → (command sector_n lba : ℕ) → S
  commanded s command sector_n lba =
      ata_write (ata_setup s drive sector_n lba) drive ata_reg_command command

  pub accepted_lem :
      (s : S) (mem : Memory) (direction : Direction) (sector_n lba buff : ℕ)
      → Accepts drive lba
      → ata_drive_access_pio fuel s mem drive direction sector_n lba buff ≡ elim direction [
        | ata_read_direction ↦
            access_read fuel (ata_setup s drive sector_n lba) mem drive buff (sector_n * 512)
        | ata_write_direction ↦
            access_write fuel (ata_setup s drive sector_n lba) mem drive buff (sector_n * 512)
      ]
  unfolding ata_drive_access_pio
  accepted_lem s mem direction sector_n lba buff (no_atapi, inside) =
      rw
        (
          ata_drive_access_pio,
          ne→==_false drive.ident.type 1 no_atapi,
          lt→leb_false lba drive.ident.max_lba inside,
        )
        refl

  -- A read of one sector or more that the drive has, from a drive that gives two bytes for each word
  -- and reports no error, ends with ATA_SUCCESS: the words stand in the buffer, the low byte first,
  -- and no other byte of memory changes.
  pub read_pio_lem :
      (s : S) (mem : Memory) (sector_n lba buff w : ℕ) (ws : List ℕ)
      → Accepts drive lba
      → length (w ∷ ws) ≡ sector_n * 256
      → Serves (commanded s ata_cmd_read_pio sector_n lba) (w ∷ ws)
      → WordsRead mem buff (w ∷ ws) (ata_drive_read_pio fuel s mem drive sector_n lba buff)
  unfolding ata_drive_read_pio access_read ata_drive_read_buffer ignore_status
  read_pio_lem s mem sector_n lba buff w ws ok size serves =
      let c = commanded s ata_cmd_read_pio sector_n lba in
      let r = read_loop_lem ws c mem buff w serves in
      let n : rounds (sector_n * 512) ≡ length ws = omega (arith, size) in
      record {
        machine = r.machine;
        memory = r.memory;
        result =
            accepted_lem s mem ata_read_direction sector_n lba buff ok
            ∙ ap ignore_status (ap (λ k. read_loop k fuel false c mem drive buff) n ∙ r.result);
        words = r.words;
        frame = r.frame;
      }

  -- A write of one sector or more that the drive has, to a drive that takes the words of the buffer,
  -- reports no error and then becomes idle, ends with ATA_SUCCESS: the drive took the words in their
  -- order, and memory is as it was.
  pub write_pio_lem :
      (s s' s'' : S) (mem : Memory) (sector_n lba buff w : ℕ) (ws : List ℕ)
      → Accepts drive lba
      → length (w ∷ ws) ≡ sector_n * 256
      → Words mem buff (w ∷ ws)
      → Takes (commanded s ata_cmd_write_pio sector_n lba) (w ∷ ws) s'
      → wait_idle fuel (ata_write s' drive ata_reg_command ata_cmd_cache_flush) drive ≡ some s''
      → ata_drive_write_pio fuel s mem drive sector_n lba buff ≡ some (s'', mem, 0)
  unfolding ata_drive_write_pio access_write
  write_pio_lem s s' s'' mem sector_n lba buff w ws ok size words takes idle =
      let n : rounds (sector_n * 512) ≡ length ws = omega (arith, size) in
      accepted_lem s mem ata_write_direction sector_n lba buff ok
      ∙ rw
          (
            access_write,
            n,
            write_loop_lem ws (commanded s ata_cmd_write_pio sector_n lba) s' mem buff w words
                takes,
            idle,
          )
          refl
