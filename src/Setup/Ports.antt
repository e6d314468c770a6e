-- ===== src/Setup/Ports.antt =====
-- Which ports the permission map leaves open to the guest.
use native.Mathlib.Nat.{pow-le-pow_right, mod-eq_of_lt}
use ymirc.Prelude.{
  ℕ, zero, suc, ◌+◌, ◌-◌, ◌/◌, ◌%◌, ◌^◌, ◌<◌, ◌≡◌, refl, ap, ◌∙◌, arith, Bool, ◌||◌, ◌&&◌, ◌==◌,
  leb, ltb, if◌then◌else◌, Bool-cases, inl, inr,
}
use ymirc.Prelude.{
  bit, bit-lt_two, bit-zero, bit-mod_low, bit-bit_and, bit-complement, bit-pow, bit_and, not_64, u8,
}
use ymirc.Bits.{tobit_8}
use ymirc.Setup.{BitMap, unmask_iopm_bit, unmask_from, iopm_contents}

-- Bit `port` of a map.
abbrev pub intercepted : BitMap → ℕ → ℕ
intercepted iopm port = bit (iopm (port / 8)) (port % 8)

tobit_8-eq-pow : (n : ℕ) → n < 8 → tobit_8 n ≡ 2 ^ n
unfolding tobit_8
tobit_8-eq-pow n h = ground (
  arith,
  mod-eq_of_lt {n = 2 ^ n} {m = 2 ^ 8}
      (omega (arith, pow-le-pow_right {n = 2} (omega arith) {i = n} {j = 7} (omega arith))),
)

-- Clearing bit `k` of a byte.
bit-clear :
    (x k j : ℕ)
    → k < 8
    → j < 8
    → bit (u8 (bit_and x (not_64 (tobit_8 k)))) j ≡ (if k == j then 0 else bit x j)
bit-clear x k j hk hj =
    bit-mod_low 8 (bit_and x (not_64 (tobit_8 k))) j hj
    ∙ rw (tobit_8-eq-pow k hk) (
        ground (
          arith,
          bit-bit_and x (not_64 (2 ^ k)) j,
          bit-complement 64 (2 ^ k) j
              (omega (arith, pow-le-pow_right {n = 2} (omega arith) {i = k} {j = 7} (omega arith)))
              (omega arith),
          bit-pow k j,
          bit-lt_two x j,
        ))

intercepted-unmask :
    (iopm : BitMap) (t port : ℕ)
    → intercepted (unmask_iopm_bit iopm t) port ≡ (if port == t then 0 else intercepted iopm port)
unfolding unmask_iopm_bit
intercepted-unmask iopm t port = elim (Bool-cases (port / 8 == t / 8)) [
  | inl same ↦
      rw same
        (bit-clear (iopm (port / 8)) (t % 8) (port % 8) (omega arith) (omega arith) ∙ ground arith)
  | inr other ↦ rw other (ground arith)
]

intercepted-unmask_from :
    (left start : ℕ) (iopm : BitMap) (port : ℕ)
    → intercepted (unmask_from left start iopm) port
      ≡ (if leb start port && ltb port (start + left) then 0 else intercepted iopm port)
unfolding unmask_from
intercepted-unmask_from zero start iopm port = ground arith
intercepted-unmask_from (suc left) start iopm port =
    intercepted-unmask_from left (start + 1) (unmask_iopm_bit iopm start) port
    ∙ rw (intercepted-unmask iopm start port) (ground arith)

all_ones : (j : ℕ) → j < 8 → bit 0xFF j ≡ 1
all_ones j h =
    ap (λ x. bit x j) {x = 0xFF} {y = 2 ^ 8 - 1 - 0} refl
    ∙ bit-complement 8 0 j (omega arith) h
    ∙ rw bit-zero

-- The ports that the guest may use without an exit.
abbrev pub is_direct : ℕ → Bool
is_direct port =
    (leb 0x40 port && leb port 0x47) || (port == 0x3F8 || (port == 0x3FD || port == 0x3FE))

-- The map that is built for the guest lets exactly the ports of the timer (0x40 to 0x47) and three
-- registers of the first serial port (0x3F8, 0x3FD and 0x3FE) through; every other port causes an
-- exit.
pub iopm_contents_lem :
    (port : ℕ) → intercepted iopm_contents port ≡ (if is_direct port then 0 else 1)
unfolding iopm_contents
iopm_contents_lem port =
    intercepted-unmask _ 0x03FE port
    ∙ rw
        (
          intercepted-unmask (unmask_iopm_bit (unmask_from 8 0x40 (λ i. 0xFF)) 0x03F8) 0x03FD port,
          intercepted-unmask (unmask_from 8 0x40 (λ i. 0xFF)) 0x03F8 port,
          intercepted-unmask_from 8 0x40 (λ i. 0xFF) port,
          all_ones (port % 8) (omega arith),
        )
        (ground arith)
