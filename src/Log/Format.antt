-- ===== src/Log/Format.antt =====
-- `log_printf` against a message in pieces: a format with its arguments writes their texts in order.
use ymirc.Prelude.{ℕ, ◌≡◌, ◌≢◌, refl, ap, ◌∙◌, arith, true, false, ◌==◌, List, [], ◌∷◌, ◌++◌}
use ymirc.Prelude.{Outcome, done, stop, ◌>>=◌}
use ymirc.Log.{
  write_int, write_hex, write_ptr, Arg, int_arg, uint64_arg, pointer_arg, string_arg, directive,
  format, level_str, log_printf,
}

pub data Piece : Type 0 where
  char signed hex pointer : ℕ → Piece
  text : List ℕ → Piece
  percent : Piece

-- How a piece stands in the format, and the arguments that it takes.
abbrev pub in_format : Piece → List ℕ
in_format (char c) = c ∷ []
in_format (signed v) = 37 ∷ 100 ∷ []
in_format (hex v) = 37 ∷ 120 ∷ []
in_format (pointer v) = 37 ∷ 112 ∷ []
in_format (text s) = 37 ∷ 115 ∷ []
in_format percent = 37 ∷ 37 ∷ []

abbrev pub with_args : Piece → List Arg → List Arg
with_args (char c) args = args
with_args (signed v) args = int_arg v ∷ args
with_args (hex v) args = uint64_arg v ∷ args
with_args (pointer v) args = pointer_arg v ∷ args
with_args (text s) args = string_arg s ∷ args
with_args percent args = args

-- Of an integer the text that `write_int` gives.
abbrev pub text_of : Piece → Outcome (List ℕ)
text_of (char c) = done (c ∷ [])
text_of (signed v) = write_int v
text_of (hex v) = done (write_hex v)
text_of (pointer v) = done (write_ptr v)
text_of (text s) = done s
text_of percent = done (37 ∷ [])

unfoldable pub format_of : List Piece → List ℕ
format_of [] = []
format_of (p ∷ ps) = in_format p ++ format_of ps

unfoldable pub args_of : List Piece → List Arg
args_of [] = []
args_of (p ∷ ps) = with_args p (args_of ps)

unfoldable pub message : List Piece → Outcome (List ℕ)
message [] = done []
message (p ∷ ps) = do t ← text_of p; rest ← message ps; done (t ++ rest)

-- A plain character is not `%`.
abbrev pub IsPlain : Piece → Type 0
IsPlain (char c) = c ≢ 37
IsPlain p = Unit

abbrev pub AllPlain : List Piece → Type 0
AllPlain [] = Unit
AllPlain (p ∷ ps) = IsPlain p × AllPlain ps

bind_text :
    (x : Outcome (List ℕ)) (args : List Arg) (k : List ℕ → List Arg → Outcome (List ℕ))
    → ((x >>= λ t. done (t, args)) >>= λ (t, args'). k t args') ≡ (x >>= λ t. k t args)
bind_text (done t) args k = refl
bind_text (stop s) args k = refl

format_signed :
    (v : ℕ) (fmt : List ℕ) (args : List Arg)
    → format false (37 ∷ 100 ∷ fmt) (int_arg v ∷ args)
      ≡ (write_int v >>= (λ t. format false fmt args >>= (λ rest. done (t ++ rest))))
unfolding format directive
format_signed v fmt args =
    bind_text (write_int v) args (λ t args'. format false fmt args' >>= (λ rest. done (t ++ rest)))

format_lem : (ps : List Piece) → AllPlain ps → format false (format_of ps) (args_of ps) ≡ message ps
unfolding format format_of args_of message directive
format_lem [] plain = refl
format_lem (char c ∷ ps) (ne, plain) =
    let e : (c == 37) ≡ false = ground arith in rw (e, format_lem ps plain) refl
format_lem (signed v ∷ ps) (_, plain) =
    format_signed v (format_of ps) (args_of ps)
    ∙ ap (λ r. write_int v >>= (λ t. r >>= (λ rest. done (t ++ rest)))) (format_lem ps plain)
format_lem (hex v ∷ ps) (_, plain) = rw (format_lem ps plain) refl
format_lem (pointer v ∷ ps) (_, plain) = rw (format_lem ps plain) refl
format_lem (text s ∷ ps) (_, plain) = rw (format_lem ps plain) refl
format_lem (percent ∷ ps) (_, plain) = rw (format_lem ps plain) refl

-- While a function for writing is set, `log_printf` of a message in pieces, of which no plain
-- character is `%`, writes the prefix of its level and then the text of each piece in order: plain
-- characters, integers, hexadecimal numbers, pointers, strings and percent signs. It stops where
-- `write_int` does.
pub log_printf_lem :
    (level : ℕ) (ps : List Piece)
    → AllPlain ps
    → log_printf true level (format_of ps) (args_of ps)
      ≡ (message ps >>= λ t. done (level_str level ++ t))
unfolding log_printf
log_printf_lem level ps plain = rw (format_lem ps plain) refl
