-- ===== src/Pic/Lines.antt =====
-- What the mask and end-of-interrupt functions of the host's controllers write.
use ymirc.Prelude.{ℕ, ◌+◌, ◌-◌, ◌≤◌, ◌<◌, ◌^◌, ◌≡◌, refl, sym, ap, ◌∙◌, arith, ◌∷◌, bit_or, bit_and}
use ymirc.Prelude.{not, ◌==◌, ◌&&◌, ◌||◌, u8, not_64, bit-mod_low, bit_or-add, false, ◌%◌}
use ymirc.Bits.{tobit, isset}
use ymirc.Bits.Single.{isset-eq-bit, isset-set, isset-clear}
use ymirc.Ports.{History, Device, byte, input, output, read_port}
use ymirc.Pic.{is_primary, data_port, delta, set_mask, unset_mask, notify_eoi}

-- The low byte of a word has its low bits.
isset-u8 : (x i : ℕ) → i < 8 → isset (u8 x) i ≡ isset x i
isset-u8 x i h =
    isset-eq-bit (u8 x) i (omega arith)
    ∙ ap (λ t. t == 1) (bit-mod_low 8 x i h)
    ∙ sym (isset-eq-bit x i (omega arith))

-- An access history that reads the mask register of a line and writes back a byte.
pub record Rewrote (dev : Device) (irq : ℕ) (h h' : History) (P : ℕ → ℕ → Type 0) : Type 0 where
  pub written : ℕ
  pub accesses :
      h'
      ≡ output byte (data_port irq) written
        ∷ input byte (data_port irq) (read_port dev byte (data_port irq) h)
        ∷ h
  pub changed : P (read_port dev byte (data_port irq) h) written

module _ (dev : Device) (irq : ℕ) (h : History) (line : irq < 16) where
  delta-lt : delta irq < 8
  delta-lt = ground arith

  -- For a line below 16, `set_mask` reads the mask register of the line's controller and writes it
  -- back with the line's bit set and the other bits as they were.
  pub set_mask_lem :
      Rewrote dev irq h
        (set_mask dev irq h)
        (λ old new. (i : ℕ) → i < 8 → isset new i ≡ (delta irq == i || isset old i))
  unfolding set_mask
  set_mask_lem = record {
    written = u8 (bit_or (read_port dev byte (data_port irq) h) (tobit (delta irq)));
    accesses = refl;
    changed =
        λ i lt. isset-u8 _ i lt ∙ isset-set _ (delta irq) i (omega (arith, delta-lt)) (omega arith);
  }

  -- For a line below 16, `unset_mask` reads the mask register of the line's controller and writes
  -- it back with the line's bit cleared and the other bits as they were.
  pub unset_mask_lem :
      Rewrote dev irq h
        (unset_mask dev irq h)
        (λ old new. (i : ℕ) → i < 8 → isset new i ≡ (not (delta irq == i) && isset old i))
  unfolding unset_mask
  unset_mask_lem = record {
    written = u8 (bit_and (read_port dev byte (data_port irq) h) (not_64 (tobit (delta irq))));
    accesses = refl;
    changed = λ i lt.
        isset-u8 _ i lt ∙ isset-clear _ (delta irq) i (omega (arith, delta-lt)) (omega arith);
  }

-- For a line of the secondary controller (8 to 15) both commands of `notify_eoi` go to the
-- secondary's port: the specific end of interrupt of the line, and that of line 2, which belongs to
-- the primary controller.
pub notify_eoi-secondary :
    (irq : ℕ) (h : History)
    → 8 ≤ irq
    → irq < 16
    → notify_eoi irq h ≡ output byte 0xA0 0x62 ∷ output byte 0xA0 (0x60 + (irq - 8)) ∷ h
unfolding notify_eoi
notify_eoi-secondary irq h low high =
    let secondary : is_primary irq ≡ false = ground arith in
    let joined : bit_or 0x60 (irq - 8) ≡ 0x60 + (irq - 8) =
      bit_or-add 3 12 (irq - 8) (omega arith) in
    let fits : (0x60 + (irq - 8)) % 2 ^ 8 ≡ 0x60 + (irq - 8) = omega arith in
    rw (secondary, joined, fits)
