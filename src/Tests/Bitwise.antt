-- ===== src/Tests/Bitwise.antt =====
-- ymirc/bits.h, and the word operations of the handlers, at fixed words. The first runs are those
-- of ymirc/bits_test.c.
use ymirc.Prelude.{◌≡◌, refl, some}
use ymirc.Bits.{tobit_8, concat, concat_64, trailing_zeros, ctz, masked, set_masked_bits}
use ymirc.Cpuid.{std_feature_info_edx, ext_feature0_ebx, assign_field, assign_fields}

store : set_masked_bits 0xFFFF 0x5 0xF0 ≡ some 0xFF5F
unfolding set_masked_bits ctz trailing_zeros masked
store = refl

joined : concat_64 0x1122334455667788 0xAABBCCDD ≡ 0x55667788AABBCCDD
unfolding concat_64
joined = refl

joined_halves : concat 0x12345678 0x9ABCDEF0 ≡ 0x123456789ABCDEF0
unfolding concat
joined_halves = refl

bit_seven : tobit_8 7 ≡ 0x80
unfolding tobit_8
bit_seven = refl

std_edx : std_feature_info_edx ≡ 0x0702A96F
unfolding assign_fields assign_field
std_edx = refl

ext_ebx : ext_feature0_ebx ≡ 0x100480
unfolding assign_fields assign_field
ext_ebx = refl
