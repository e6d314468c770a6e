-- ===== src/Tests/Logging.antt =====
-- The messages of ymirc/log.c.
use ymirc.Prelude.{
  ℕ, ◌-◌, ◌^◌, ◌≤◌, ◌≡◌, refl, arith, true, List, [], ◌∷◌, ◌++◌, length, done, ◌>>=◌,
}
use ymirc.Log.{push_char, digits, write_int, level_str, log_printf}
use ymirc.Log.Numbers.{is_negative, magnitude, read_signed, write_int_lem}
use ymirc.Log.Format.{
  Piece, char, signed, text, percent, format_of, args_of, message, log_printf_lem,
}
use ymirc.Descriptors.{set_gate, set_gate-undefined}
use ymirc.Prelude.{stop, undefined}

-- -42, as 32 bits.
abbrev minus_42 : ℕ
minus_42 = 2 ^ 32 - 42

minus_42_text : write_int minus_42 ≡ done (45 ∷ 52 ∷ 50 ∷ [])
unfolding write_int digits push_char
minus_42_text = refl

write_int_lem_example :
    (chars : List ℕ) × (write_int minus_42 ≡ done chars)
    × (read_signed chars ≡ (is_negative minus_42, magnitude minus_42))
    × (length chars ≤ 12)
write_int_lem_example = write_int_lem minus_42 (omega arith) (omega arith)

abbrev pieces : List Piece
pieces = char 65 ∷ signed 7 ∷ percent ∷ text (66 ∷ 67 ∷ []) ∷ []

log_printf_lem_example :
    log_printf true 2 (format_of pieces) (args_of pieces)
    ≡ (message pieces >>= λ t. done (level_str 2 ++ t))
log_printf_lem_example = log_printf_lem 2 pieces (λ e. absurd (omega arith), (tt, (tt, (tt, tt))))

set_gate-undefined_example : set_gate 3 14 0x8000 (λ _. 0) ≡ stop undefined
set_gate-undefined_example = set_gate-undefined 3 14 0x8000 (λ _. 0)
