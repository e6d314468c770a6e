-- ===== src/Log.antt =====
-- ymirc/log.c: the formatting of log messages. What is written is the list of the characters; a
-- message goes nowhere while no function for writing is set.
pub mod Numbers
pub mod Format
use ymirc.Prelude.{
  ℕ, zero, suc, ◌+◌, ◌-◌, ◌*◌, ◌/◌, ◌%◌, ◌^◌, ◌==◌, ltb, leb, Bool, true, false, if◌then◌else◌,
  bit_and, shr,
}
use ymirc.Prelude.{List, [], ◌∷◌, ◌++◌, length, Outcome, done, stop, undefined, out_of_fuel, ◌>>=◌}

-- `buf[i++] = c` for the 12 bytes of `buf`, the last character first.
unfoldable pub push_char : ℕ → List ℕ → Outcome (List ℕ)
push_char c buf = if leb 12 (length buf) then stop undefined else done (c ∷ buf)

-- The `do` loop of `write_int`, with fuel.
unfoldable pub digits : ℕ → ℕ → List ℕ → Outcome (List ℕ)
digits zero val buf = stop out_of_fuel
digits (suc fuel) val buf = do
  buf' ← push_char (val % 10 + 48) buf
  let rest = digits fuel (val / 10) buf'
  if ltb 0 (val / 10) then rest else done buf'

-- The `int` is given by its 32 bits. `-val` overflows for the least one.
unfoldable pub write_int : ℕ → Outcome (List ℕ)
write_int val =
    if leb (2 ^ 31) val
    then if val == 2 ^ 31 then stop undefined else (digits 11 (2 ^ 32 - val) [] >>= push_char 45)
    else digits 11 val []

abbrev pub hex_digits : List ℕ
hex_digits = 48 ∷ 49 ∷ 50 ∷ 51 ∷ 52 ∷ 53 ∷ 54 ∷ 55 ∷ 56 ∷ 57 ∷ 65 ∷ 66 ∷ 67 ∷ 68 ∷ 69 ∷ 70 ∷ []

abbrev pub char_at : List ℕ → ℕ → ℕ
char_at [] i = 0
char_at (c ∷ cs) zero = c
char_at (c ∷ cs) (suc i) = char_at cs i

-- The loop of `write_hex` and `write_ptr` with `left` digits to go.
unfoldable pub nibbles : ℕ → ℕ → List ℕ
nibbles zero value = []
nibbles (suc left) value =
    char_at hex_digits (bit_and (shr value (left * 4)) 0xF) ∷ nibbles left value

unfoldable pub write_hex : ℕ → List ℕ
write_hex value = nibbles 16 value

unfoldable pub write_ptr : ℕ → List ℕ
write_ptr ptr = 48 ∷ 120 ∷ nibbles 16 ptr

-- What a caller passes after the format.
pub data Arg : Type 0 where
  int_arg uint64_arg pointer_arg : ℕ → Arg
  string_arg : List ℕ → Arg

-- The text of one directive: the character after `%`, and the arguments that are left.
abbrev pub take_int : List Arg → Outcome (List ℕ × List Arg)
take_int (int_arg v ∷ args) = do text ← write_int v; done (text, args)
take_int args = stop undefined

abbrev pub take_hex : List Arg → Outcome (List ℕ × List Arg)
take_hex (uint64_arg v ∷ args) = done (write_hex v, args)
take_hex args = stop undefined

abbrev pub take_pointer : List Arg → Outcome (List ℕ × List Arg)
take_pointer (pointer_arg v ∷ args) = done (write_ptr v, args)
take_pointer args = stop undefined

abbrev pub take_string : List Arg → Outcome (List ℕ × List Arg)
take_string (string_arg s ∷ args) = done (s, args)
take_string args = stop undefined

unfoldable pub directive : ℕ → List Arg → Outcome (List ℕ × List Arg)
directive d args =
    if d == 100
    then take_int args
    else if d == 120
    then take_hex args
    else if d == 112
    then take_pointer args
    else if d == 115
    then take_string args
    else if d == 37
    then done (37 ∷ [], args)
    else done (37 ∷ d ∷ [], args)

-- The loop over the format; `after_percent` tells whether the last character was an open `%`. A `%`
-- that ends the format has the loop read on behind the string.
unfoldable pub format : Bool → List ℕ → List Arg → Outcome (List ℕ)
format false [] args = done []
format true [] args = stop undefined
format false (c ∷ fmt) args =
    let open_directive = format true fmt args in
    let plain = format false fmt args in
    if c == 37 then open_directive else (plain >>= λ rest. done (c ∷ rest))
format true (d ∷ fmt) args = do
  (text, args') ← directive d args
  rest ← format false fmt args'
  done (text ++ rest)

abbrev pub log_level_debug : ℕ
log_level_debug = 0

abbrev pub log_level_info : ℕ
log_level_info = 1

abbrev pub log_level_warn : ℕ
log_level_warn = 2

abbrev pub log_level_error : ℕ
log_level_error = 3

unfoldable pub level_str : ℕ → List ℕ
level_str level =
    if level == log_level_debug
    then 91 ∷ 68 ∷ 69 ∷ 66 ∷ 85 ∷ 71 ∷ 93 ∷ 32 ∷ []
    else if level == log_level_info
    then 91 ∷ 73 ∷ 78 ∷ 70 ∷ 79 ∷ 32 ∷ 93 ∷ 32 ∷ []
    else if level == log_level_warn
    then 91 ∷ 87 ∷ 65 ∷ 82 ∷ 78 ∷ 32 ∷ 93 ∷ 32 ∷ []
    else if level == log_level_error
    then 91 ∷ 69 ∷ 82 ∷ 82 ∷ 79 ∷ 82 ∷ 93 ∷ 32 ∷ []
    else []

-- `enabled` tells whether a function for writing is set.
unfoldable pub log_printf : Bool → ℕ → List ℕ → List Arg → Outcome (List ℕ)
log_printf false level fmt args = done []
log_printf true level fmt args = do rest ← format false fmt args; done (level_str level ++ rest)
