-- ===== src/Tests/Console.antt =====
-- The host's serial port with a device that is ready at the second poll.
use ymirc.Prelude.{ℕ, zero, suc, ◌<◌, ◌≡◌, refl, arith, true, false, [], ◌∷◌, u8, done}
use ymirc.Bits.{isset_8}
use ymirc.Ports.{History, Device, byte, output}
use ymirc.Serial.{write_byte}
use ymirc.Serial.Polling.{poll, polled, is_ready, write_byte_lem}

abbrev status : History → ℕ
status [] = 0x40
status (e ∷ h) = 0x60

abbrev slow : Device
slow = record { answer = λ h w port. status h }

not_at_first : (k : ℕ) → k < 1 → is_ready slow 0x3F8 (polled slow 0x3F8 k []) ≡ false
unfolding isset_8 polled
not_at_first zero h = refl
not_at_first (suc k) h = absurd (omega arith)

then_ready : is_ready slow 0x3F8 (polled slow 0x3F8 1 []) ≡ true
unfolding isset_8 polled
then_ready = refl

write_byte_lem_example :
    write_byte 3 slow 0x41 0x3F8 []
    ≡ done (output byte 0x3F8 (u8 0x41) ∷ poll slow 0x3F8 (polled slow 0x3F8 1 []))
write_byte_lem_example = write_byte_lem 1 3 slow 0x41 0x3F8 [] (omega arith) not_at_first then_ready
