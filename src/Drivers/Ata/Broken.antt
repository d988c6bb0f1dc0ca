-- ===== src/Drivers/Ata/Broken.antt =====
-- A read that the drive breaks off with an error.
use butos.Prelude.{
  ℕ, zero, suc, ◌+◌, ◌*◌, ◌/◌, ◌%◌, ◌≤◌, ◌<◌, ◌≡◌, ◌≢◌, refl, ap, ◌∙◌, inl, false, Option, some,
  List, [], ◌∷◌, length, arith, ne→==_false,
}
use butos.Libs.Memory.{Memory, store}
use butos.Libs.Memory.Copy.{Outside}
use butos.Drivers.Ports.{Ports}
use butos.Drivers.Ata.{
  AtaDrive, ata_sr_err, ata_reg_data, ata_cmd_read_pio, ata_read_word, ata_drive_wait,
}
use butos.Drivers.Ata.Transfer.{
  ata_read_direction, rounds, read_word_at, read_loop, ata_drive_read_buffer, ignore_status,
  access_read, ata_drive_read_pio,
}
use butos.Drivers.Ata.Sectors.{Words, Accepts, WordsRead, read_word_lem, commanded, accepted_lem}

module _ {S : Type 0} ⦃io : Ports S⦄ (fuel : ℕ) (drive : AtaDrive) where
  -- The drive gives the words, and the wait for the next one ends with an error in the state `s'`.
  abbrev pub Breaks : S → List ℕ → S → Type 0
  Breaks s [] s' = (error : ℕ) × (error ≢ 0) × (ata_drive_wait fuel s drive ≡ some (s', error))
  Breaks s (w ∷ ws) s' =
      (s1 : S) × (ata_drive_wait fuel s drive ≡ some (s1, 0))
      × ((ata_read_word s1 drive ata_reg_data).1 ≡ w)
      × Breaks (ata_read_word s1 drive ata_reg_data).0 ws s'

  -- What `ata_drive_read_buffer` returns of it: the error, and in memory the words that were given
  record BrokenOff (mem : Memory) (p : ℕ) (ws : List ℕ) (s' : S) (out : Option (S × Memory × ℕ))
      : Type 0 where
    memory : Memory
    result : out ≡ some (s', memory, ata_sr_err)
    words : Words memory p ws
    frame : (a : ℕ) → Outside p (2 * length ws) a → memory a ≡ mem a

  no_word_lem :
      (s s' : S) (mem : Memory) (p error : ℕ)
      → error ≢ 0
      → ata_drive_wait fuel s drive ≡ some (s', error)
      → read_word_at fuel false s mem drive p ≡ some (s', mem, ata_sr_err)
  unfolding read_word_at
  no_word_lem s s' mem p error ne wait = rw (read_word_at, wait, ne→==_false error 0 ne) refl

  read_loop_broken :
      (ws : List ℕ) (n : ℕ) (s s' : S) (mem : Memory) (p : ℕ)
      → length ws ≤ n
      → Breaks s ws s'
      → BrokenOff mem p ws s' (read_loop n fuel false s mem drive p)
  unfolding read_loop
  read_loop_broken [] zero s s' mem p le (error, ne, wait) = record {
    memory = mem;
    result = no_word_lem s s' mem p error ne wait;
    words = tt;
    frame = λ a h. refl;
  }
  read_loop_broken [] (suc n) s s' mem p le (error, ne, wait) = record {
    memory = mem;
    result = rw (read_loop, no_word_lem s s' mem p error ne wait) refl;
    words = tt;
    frame = λ a h. refl;
  }
  read_loop_broken (w ∷ ws) zero s s' mem p le b = absurd (omega arith)
  read_loop_broken (w ∷ ws) (suc n) s s' mem p le (s1, ready, word, more) =
      let mem1 = store (store mem p (w % 256)) (p + 1) (w / 256) in
      let r =
        read_loop_broken ws n (ata_read_word s1 drive ata_reg_data).0 s' mem1 (p + 2) (omega arith)
          more in
      rw (read_loop, read_word_lem fuel drive s s1 mem p w ready word)
        (record {
          memory = r.memory;
          result = r.result;
          words = (
            r.frame p (inl (omega arith)) ∙ ground arith,
            r.frame (p + 1) (inl (omega arith)) ∙ ground arith,
            r.words,
          );
          frame = λ a h. r.frame a (omega (arith, h)) ∙ ground (arith, h);
        })

  -- A read from a drive that has the sector, gives fewer words than the sectors have and then reports
  -- an error: the words that were given stand in the buffer, the rest of it and all other memory are
  -- as before, and yet the status is 0, ATA_SUCCESS.
  pub read_broken_lem :
      (s s' : S) (mem : Memory) (sector_n lba buff : ℕ) (ws : List ℕ)
      → Accepts drive lba
      → length ws < sector_n * 256
      → Breaks (commanded fuel drive s ata_cmd_read_pio sector_n lba) ws s'
      → WordsRead fuel drive mem buff ws (ata_drive_read_pio fuel s mem drive sector_n lba buff)
  unfolding ata_drive_read_pio access_read ata_drive_read_buffer ignore_status
  read_broken_lem s s' mem sector_n lba buff ws ok less breaks =
      let c = commanded fuel drive s ata_cmd_read_pio sector_n lba in
      let r = read_loop_broken ws (rounds (sector_n * 512)) c s' mem buff (omega arith) breaks in
      record {
        machine = s';
        memory = r.memory;
        result =
            accepted_lem fuel drive s mem ata_read_direction sector_n lba buff ok
            ∙ ap ignore_status r.result;
        words = r.words;
        frame = r.frame;
      }
