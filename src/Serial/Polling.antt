-- ===== src/Serial/Polling.antt =====
-- The loop that waits for the host's serial port before a byte is written.
use ymirc.Prelude.{ℕ, zero, suc, ◌+◌, ◌<◌, ◌≡◌, arith, Bool, true, false, ◌∷◌, u8, done}
use ymirc.Bits.{isset_8}
use ymirc.Ports.{History, Device, byte, input, output, read_port}
use ymirc.Serial.{write_byte}

-- One read of the line status register.
abbrev pub poll : Device → ℕ → History → History
poll dev addr h = input byte (addr + 5) (read_port dev byte (addr + 5) h) ∷ h

-- A number of them.
unfoldable pub polled : Device → ℕ → ℕ → History → History
polled dev addr zero h = h
polled dev addr (suc n) h = polled dev addr n (poll dev addr h)

-- The register's bit 5, transmitter empty, as the device would answer now.
abbrev pub is_ready : Device → ℕ → History → Bool
is_ready dev addr h = isset_8 (read_port dev byte (addr + 5) h) 5

-- If the device is ready at poll `n` and not before, `write_byte` with more than `n` polls of fuel
-- returns after that poll, and the byte is written once, then and not before.
pub write_byte_lem :
    (n polls : ℕ) (dev : Device) (value addr : ℕ) (h : History)
    → n < polls
    → ((k : ℕ) → k < n → is_ready dev addr (polled dev addr k h) ≡ false)
    → is_ready dev addr (polled dev addr n h) ≡ true
    → write_byte polls dev value addr h
      ≡ done (output byte addr (u8 value) ∷ poll dev addr (polled dev addr n h))
unfolding write_byte polled
write_byte_lem n zero dev value addr h lt early late = absurd (omega arith)
write_byte_lem zero (suc polls) dev value addr h lt early late = rw late
write_byte_lem (suc n) (suc polls) dev value addr h lt early late = rw (early 0 (omega arith)) (
    write_byte_lem n polls dev value addr (poll dev addr h) (omega arith)
      (λ k q. early (suc k) (omega arith)) late)
