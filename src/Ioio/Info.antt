-- ===== src/Ioio/Info.antt =====
-- `IOIOInterceptInfo`: the bit fields of EXITINFO1.
use ymirc.Prelude.{ℕ, ◌%◌, ◌^◌, Bool, shr, leb, ◌&&◌}

pub record IoioInfo : Type 0 where
  pub type : ℕ
  pub str : ℕ
  pub rep : ℕ
  pub sz8 : ℕ
  pub sz16 : ℕ
  pub sz32 : ℕ
  pub a16 : ℕ
  pub a32 : ℕ
  pub a64 : ℕ
  pub seg : ℕ
  pub port : ℕ

abbrev pub decode : ℕ → IoioInfo
decode value = record {
  type = shr value 0 % 2;
  str = shr value 2 % 2;
  rep = shr value 3 % 2;
  sz8 = shr value 4 % 2;
  sz16 = shr value 5 % 2;
  sz32 = shr value 6 % 2;
  a16 = shr value 7 % 2;
  a32 = shr value 8 % 2;
  a64 = shr value 9 % 2;
  seg = shr value 10 % 2 ^ 3;
  port = shr value 16 % 2 ^ 16;
}

-- `case lo ... hi`
abbrev pub in_range : ℕ → ℕ → ℕ → Bool
in_range lo hi x = leb lo x && leb x hi
