-- ===== src/Drivers/Ports.antt =====
-- The input and output of include/asm.h. The machine behind the ports is no code of the repository: it
-- is a state with the answer to each instruction, and what a driver relies on stands in the driver's
-- own modules.
use butos.Prelude.{ℕ}

-- `inb`, `outb`, `inw`, `outw`, `inl` and `outl`: a port, the value, and the machine behind it
pub record Ports (S : Type 0) : Type 0 where
  pub inb : S → ℕ → S × ℕ
  pub outb : S → ℕ → ℕ → S
  pub inw : S → ℕ → S × ℕ
  pub outw : S → ℕ → ℕ → S
  pub inl : S → ℕ → S × ℕ
  pub outl : S → ℕ → ℕ → S
