-- ===== src/Ports.antt =====
-- The x86 port instructions that the program calls (`inb`, `outb` and their kin of sys/io.h, and
-- `wrmsr`). The machine's devices are not part of the program: a device is any function that
-- answers a read from the whole history of accesses, newest first.
use ymirc.Prelude.{ℕ, List, ◌∷◌, u8, u16, u32}

pub data Width : Type 0 where
  byte word dword : Width

pub data IoEvent : Type 0 where
  input : Width → ℕ → ℕ → IoEvent  -- port, value read
  output : Width → ℕ → ℕ → IoEvent  -- port, value written
  set_msr : ℕ → ℕ → IoEvent
  cli sti : IoEvent

abbrev pub History : Type 0
History = List IoEvent

pub record Device : Type 0 where
  pub answer : History → Width → ℕ → ℕ

-- The value that a read returns has the width of the instruction.
abbrev pub truncate : Width → ℕ → ℕ
truncate byte v = u8 v
truncate word v = u16 v
truncate dword v = u32 v

abbrev pub read_port : Device → Width → ℕ → History → ℕ
read_port dev w port h = truncate w (dev.answer h w port)

abbrev pub in_port : Device → Width → ℕ → History → ℕ × History
in_port dev w port h = (read_port dev w port h, input w port (read_port dev w port h) ∷ h)

abbrev pub out_port : Width → ℕ → ℕ → History → History
out_port w value port h = output w port (truncate w value) ∷ h
