-- ===== src/Npt/Words.antt =====
-- What the functions that write a table do to memory, word by word.
use ymirc.Prelude.{ℕ, zero, suc, ◌+◌, ◌*◌, ◌<◌, ◌≡◌, ◌≢◌, refl, arith, ◌∙◌}
use ymirc.Npt.{write, clear_entries}

-- Every word outside a cleared table is as it was.
pub clear_entries-outside :
    (left address x : ℕ) (words : ℕ → ℕ)
    → ((i : ℕ) → i < left → x ≢ address + i * 8)
    → clear_entries left address words x ≡ words x
unfolding clear_entries
clear_entries-outside zero address x words apart = refl
clear_entries-outside (suc left) address x words apart =
    clear_entries-outside left (address + 8) x (write address 0 words)
      (λ i h e. apart (suc i) (omega arith) (omega arith))
    ∙ ground (arith, apart 0 (omega arith))

-- The words of a cleared table are 0.
pub clear_entries-inside :
    (left address i : ℕ) (words : ℕ → ℕ)
    → i < left
    → clear_entries left address words (address + i * 8) ≡ 0
unfolding clear_entries
clear_entries-inside zero address i words h = absurd (omega arith)
clear_entries-inside (suc left) address zero words h =
    clear_entries-outside left (address + 8) (address + 0 * 8) (write address 0 words)
      (λ i h. omega arith)
    ∙ ground arith
clear_entries-inside (suc left) address (suc i) words h =
    let e : address + suc i * 8 ≡ address + 8 + i * 8 = omega arith in
    rw e (clear_entries-inside left (address + 8) i (write address 0 words) (omega arith))
