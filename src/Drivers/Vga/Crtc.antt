-- ===== src/Drivers/Vga/Crtc.antt =====
-- The cursor registers of the screen, which vga.c reaches through a pair of ports.
use butos.Prelude.{
  ℕ, ◌+◌, ◌-◌, ◌*◌, ◌%◌, ◌^◌, ◌<◌, ◌≡◌, ◌≢◌, ap, ap₂, sym, ◌∙◌, subst, bit_or, arith,
}
use butos.Drivers.Ports.{Ports}
use butos.Drivers.Vga.{
  Vga, ℤ, add16, vga_crtc_address, vga_crtc_data, vga_cursor_start_register,
  vga_cursor_location_high_register, vga_cursor_location_low_register, low_offset, high_offset,
  vga_register_select, vga_register_read, vga_register_write, vga_cursor_update_,
  vga_cursor_get_position_, vga_cursor_inc, cursor_line, vga_cursor_enable,
}

-- What the device is documented to do: the first port chooses a register, and the second reads and
-- writes the byte in it.
pub record Crtc {S : Type 0} (io : Ports S) (ioas : ℕ) : Type 0 where
  pub chosen : S → ℕ
  pub register : S → ℕ → ℕ
  pub select_chosen : (s : S) (r : ℕ) → chosen (io.outb s (vga_crtc_address ioas) r) ≡ r
  pub select_register :
      (s : S) (r i : ℕ) → register (io.outb s (vga_crtc_address ioas) r) i ≡ register s i
  pub write_register : (s : S) (b : ℕ) → register (io.outb s (vga_crtc_data ioas) b) (chosen s) ≡ b
  pub write_other :
      (s : S) (b i : ℕ)
      → i ≢ chosen s
      → register (io.outb s (vga_crtc_data ioas) b) i ≡ register s i
  pub read_byte : (s : S) → (io.inb s (vga_crtc_data ioas)).1 ≡ register s (chosen s)
  pub read_register : (s : S) (i : ℕ) → register (io.inb s (vga_crtc_data ioas)).0 i ≡ register s i
  pub read_chosen : (s : S) → chosen (io.inb s (vga_crtc_data ioas)).0 ≡ chosen s

module _ {S : Type 0} ⦃io : Ports S⦄ {ioas : ℕ} (c : Crtc io ioas) where
  -- A register chosen and written
  write_lem :
      (v : Vga S) (r b i : ℕ)
      → v.ioas ≡ ioas
      → let v' = vga_register_write (vga_register_select v r) b in
        (c.register v'.machine r ≡ b) × (i ≢ r → c.register v'.machine i ≡ c.register v.machine i)
  unfolding vga_register_write vga_register_select
  write_lem v r b i ports =
      let s = io.outb v.machine (vga_crtc_address ioas) r in
      rw ports (
        ap (c.register (io.outb s (vga_crtc_data ioas) b)) (sym (c.select_chosen v.machine r))
            ∙ c.write_register s b,
        λ ne.
            c.write_other s b i (λ e. ne (e ∙ c.select_chosen v.machine r))
            ∙ c.select_register v.machine r i,
      )

  -- A register chosen and read
  read_lem :
      (v : Vga S) (r i : ℕ)
      → v.ioas ≡ ioas
      → let (v', b) = vga_register_read (vga_register_select v r) in
        (b ≡ c.register v.machine r) × (c.register v'.machine i ≡ c.register v.machine i)
  unfolding vga_register_read vga_register_select
  read_lem v r i ports =
      let s = io.outb v.machine (vga_crtc_address ioas) r in
      rw ports (
        c.read_byte s
            ∙ ap (c.register s) (c.select_chosen v.machine r)
            ∙ c.select_register v.machine r r,
        c.read_register s i ∙ c.select_register v.machine r i,
      )

  -- The registers have the position.
  abbrev pub Shown : S → ℕ → Type 0
  Shown s p =
      (c.register s vga_cursor_location_low_register ≡ low_offset p)
      × (c.register s vga_cursor_location_high_register ≡ high_offset p)

  pub update-Shown : (v : Vga S) (p : ℕ) → v.ioas ≡ ioas → Shown (vga_cursor_update_ v p).machine p
  unfolding vga_cursor_update_ vga_register_select vga_register_write
  update-Shown v p ports =
      let v1 =
        vga_register_write (vga_register_select v vga_cursor_location_low_register)
          (low_offset p) in
      (
        (write_lem v1 vga_cursor_location_high_register (high_offset p)
                vga_cursor_location_low_register ports).1
              (omega arith)
            ∙ (write_lem v vga_cursor_location_low_register (low_offset p) 0 ports).0,
        (write_lem v1 vga_cursor_location_high_register (high_offset p) 0 ports).0,
      )

  position_lem :
      (v : Vga S) (p : ℕ)
      → v.ioas ≡ ioas
      → p < 2 ^ 16
      → Shown v.machine p
      → (vga_cursor_get_position_ v).1 ≡ p
  unfolding vga_cursor_get_position_ vga_register_select vga_register_read
  position_lem v p ports small (low, high) =
      let v1 = (vga_register_read (vga_register_select v vga_cursor_location_low_register)).0 in
      let (low_byte, kept) =
        read_lem v vga_cursor_location_low_register vga_cursor_location_high_register ports in
      let high_byte = (read_lem v1 vga_cursor_location_high_register 0 ports).0 in
      ap₂ (λ a b. a + b * 2 ^ 8) (low_byte ∙ low) (high_byte ∙ kept ∙ high) ∙ omega arith

  -- The cursor moves with the position.
  pub inc-Shown :
      (v : Vga S) (p : ℕ) (step : ℤ)
      → v.ioas ≡ ioas
      → p < 2 ^ 16
      → Shown v.machine p
      → Shown (vga_cursor_inc v step).machine (add16 p step)
  unfolding vga_cursor_inc vga_cursor_get_position_ vga_register_select vga_register_read
  inc-Shown v p step ports small shown =
      let (v', pos16) = vga_cursor_get_position_ v in
      subst (λ q. Shown (vga_cursor_inc v step).machine (add16 q step))
        (position_lem v p ports small shown) (update-Shown v' (add16 pos16 step) ports)

  -- For a device that behaves as it is documented, the position that is written to the cursor
  -- registers is the one that is read from them again.
  pub get_position-update :
      (v : Vga S) (p : ℕ)
      → v.ioas ≡ ioas
      → p < 2 ^ 16
      → (vga_cursor_get_position_ (vga_cursor_update_ v p)).1 ≡ p
  unfolding vga_cursor_update_ vga_register_select vga_register_write
  get_position-update v p ports small =
      position_lem (vga_cursor_update_ v p) p ports small (update-Shown v p ports)

  -- Only the register of the cursor's first line changes.
  cursor_line_lem :
      (v : Vga S) (bound line i : ℕ)
      → v.ioas ≡ ioas
      → i ≢ vga_cursor_start_register
      → c.register (cursor_line v bound line).machine i ≡ c.register v.machine i
  unfolding cursor_line vga_register_select vga_register_read vga_register_write
  cursor_line_lem v bound line i ports ne =
      let s1 = io.outb v.machine (vga_crtc_address ioas) vga_cursor_start_register in
      let (s2, old) = io.inb s1 (vga_crtc_data ioas) in
      let chosen = c.read_chosen s1 ∙ c.select_chosen v.machine vga_cursor_start_register in
      rw ports (
        c.write_other s2 (bit_or (old - old % bound) line) i (λ e. ne (e ∙ chosen))
        ∙ c.read_register s1 i
        ∙ c.select_register v.machine vga_cursor_start_register i)

  -- For a device that behaves as it is documented, `vga_cursor_enable` leaves the register of the
  -- cursor's last line as it was: both lines go to the register of the first.
  pub cursor_enable_lem :
      (v : Vga S) (cursor_start cursor_end : ℕ)
      → v.ioas ≡ ioas
      → c.register (vga_cursor_enable v cursor_start cursor_end).machine 0x0b
        ≡ c.register v.machine 0x0b
  unfolding vga_cursor_enable cursor_line vga_register_select vga_register_read vga_register_write
  cursor_enable_lem v cursor_start cursor_end ports =
      cursor_line_lem (cursor_line v 32 cursor_start) 64 cursor_end 0x0b ports (omega arith)
      ∙ cursor_line_lem v 32 cursor_start 0x0b ports (omega arith)
