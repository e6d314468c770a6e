-- ===== src/Irq/Inject.antt =====
-- Which interrupt `inject_ext_intr` injects, and when it injects none.
use native.Mathlib.Nat.{pow-le-pow_right, mod-eq_of_lt}
use ymirc.Prelude.{ℕ, zero, suc, ◌+◌, ◌-◌, ◌*◌, ◌%◌, ◌^◌, ◌≤◌, ◌<◌, ◌≡◌, refl, ap, ◌∙◌, arith}
use ymirc.Prelude.{Bool, true, false, not, ◌&&◌, ◌==◌, leb, ltb, if◌then◌else◌, Option, none, some}
use ymirc.Prelude.{
  Bool-cases, inl, inr, ==_iff, bit, bit-lt_two, bit-zero, bit_eq_div, bit_and-pow, bit_and-ones,
  pow_pos,
}
use ymirc.Prelude.{
  bit-mod_low, bit-bit_and, bit-complement, bit-pow, bit_and, truth, shr, u16, not_64,
}
use ymirc.Bits.{tobit_16, isset_8, isset_16}
use ymirc.Vcpu.{SvmVcpu, IoioGuestState}
use ymirc.Pic.{delta}
use ymirc.Irq.{is_inited, is_masked, vector_base, inject_line, inject_from, inject_ext_intr}

-- Line `i` is unmasked by the guest; a line of the secondary controller needs line 2 unmasked too.
abbrev pub is_unmasked : IoioGuestState → ℕ → Bool
is_unmasked g i =
    if ltb i 8
    then bit g.primary_mask i == 0
    else (bit g.secondary_mask (i - 8) == 0) && (bit g.primary_mask 2 == 0)

unfoldable pub deliverable : SvmVcpu → ℕ → Bool
deliverable v i = (bit v.pending_irq i == 1) && is_unmasked v.guest_ioio_state i

pub deliverable-pending : (v : SvmVcpu) (i : ℕ) → deliverable v i ≡ true → bit v.pending_irq i ≡ 1
unfolding deliverable
deliverable-pending v i h = ground (arith, bit-lt_two v.pending_irq i)

-- The guest has set up its controller and accepts interrupts.
abbrev pub accepts : SvmVcpu → Bool
accepts v = is_inited v.guest_ioio_state.primary_phase && (bit v.vmcb.rflags 9 == 1)

pub isset_8-eq-bit : (x i : ℕ) → i < 8 → isset_8 x i ≡ (bit x i == 1)
unfolding isset_8
isset_8-eq-bit x i h = ground (arith, bit_and-ones 1 (shr x i), bit_eq_div x i, bit-lt_two x i)

isset_16-eq-bit : (x i : ℕ) → i < 16 → isset_16 x i ≡ (bit x i == 1)
unfolding isset_16
isset_16-eq-bit x i h = ground (arith, bit_and-ones 1 (shr x i), bit_eq_div x i, bit-lt_two x i)

pub tobit_16-eq-pow : (i : ℕ) → i < 16 → tobit_16 i ≡ 2 ^ i
unfolding tobit_16
tobit_16-eq-pow i h = ground (arith, small)
  where
    small : 2 ^ i % 2 ^ 16 ≡ 2 ^ i
    small =
        mod-eq_of_lt
          (omega (arith, pow-le-pow_right {n = 2} (omega arith) {i = i} {j = 15} (omega arith)))

is_pending :
    (v : SvmVcpu) (i : ℕ)
    → i < 16
    → (bit_and v.pending_irq (tobit_16 i) == 0) ≡ (bit v.pending_irq i == 0)
is_pending v i h =
    rw (tobit_16-eq-pow i h, bit_and-pow i v.pending_irq) (by_value (bit v.pending_irq i))
  where
    by_value : (b : ℕ) → (b * 2 ^ i == 0) ≡ (b == 0)
    by_value b = grind (arith, pow_pos i)

is_masked_lem :
    (v : SvmVcpu) (i : ℕ)
    → i < 16
    → is_masked v.guest_ioio_state i ≡ (
        if ltb i 8
        then bit v.guest_ioio_state.primary_mask i == 1
        else bit v.guest_ioio_state.secondary_mask (i - 8) == 1)
is_masked_lem v i h = ground (
  arith,
  isset_8-eq-bit v.guest_ioio_state.primary_mask i,
  isset_8-eq-bit v.guest_ioio_state.secondary_mask (i - 8),
)

-- One round of the loop.
inject_from-suc :
    (v : SvmVcpu) (left i : ℕ)
    → i < 16
    → inject_from (suc left) i v ≡ (
        if leb 8 i && (bit v.guest_ioio_state.primary_mask 2 == 1)
        then none
        else if deliverable v i
        then some (inject_line i v)
        else inject_from left (i + 1) v)
unfolding inject_from deliverable
inject_from-suc v left i h = ground (
  arith,
  is_pending v i h,
  is_masked_lem v i h,
  isset_16-eq-bit v.guest_ioio_state.primary_mask 2 (omega arith),
  bit-lt_two v.pending_irq i,
  bit-lt_two v.guest_ioio_state.primary_mask i,
  bit-lt_two v.guest_ioio_state.primary_mask 2,
  bit-lt_two v.guest_ioio_state.secondary_mask (i - 8),
)

-- What the loop from line `i` up to line `stop` returns.
abbrev Chosen : SvmVcpu → ℕ → ℕ → Option SvmVcpu → Type 0
Chosen v i stop none = (j : ℕ) → i ≤ j → j < stop → deliverable v j ≡ false
Chosen v i stop (some v') =
    (k : ℕ) × (i ≤ k)
    × (k < stop)
    × (deliverable v k ≡ true)
    × ((j : ℕ) → i ≤ j → j < k → deliverable v j ≡ false)
    × (v' ≡ inject_line k v)

skip_line :
    (v : SvmVcpu) (i : ℕ)
    → deliverable v i ≡ false
    → (j : ℕ) → i ≤ j
    → (i + 1 ≤ j → deliverable v j ≡ false)
    → deliverable v j ≡ false
skip_line v i off j le next = elim (Bool-cases (i == j)) [
  | inl e ↦ rw (← ((==_iff i j).0 e)) off
  | inr ne ↦ next (ground arith)
]

Chosen-skip :
    (v : SvmVcpu) (i stop : ℕ) (r : Option SvmVcpu)
    → deliverable v i ≡ false
    → Chosen v (i + 1) stop r
    → Chosen v i stop r
Chosen-skip v i stop none off c = λ j le lt. skip_line v i off j le (λ h. c j h lt)
Chosen-skip v i stop (some v') off (k, le, lt, on, before, e) =
    (k, omega arith, lt, on, λ j p q. skip_line v i off j p (λ h. before j h q), e)

-- With line 2 masked no line of the secondary controller is deliverable.
secondary_masked :
    (v : SvmVcpu) (i : ℕ)
    → (leb 8 i && (bit v.guest_ioio_state.primary_mask 2 == 1)) ≡ true
    → (j : ℕ) → i ≤ j
    → deliverable v j ≡ false
unfolding deliverable
secondary_masked v i h j le = ground (arith, bit-lt_two v.guest_ioio_state.primary_mask 2)

inject_from_lem :
    (v : SvmVcpu) (left i : ℕ) → i + left ≤ 16 → Chosen v i (i + left) (inject_from left i v)
unfolding inject_from
inject_from_lem v zero i h = λ j le lt. absurd (omega arith)
inject_from_lem v (suc left) i h =
    rw (inject_from-suc v left i (omega arith))
      (elim (Bool-cases (leb 8 i && (bit v.guest_ioio_state.primary_mask 2 == 1))) [
        | inl shut ↦ rw shut (λ j le lt. secondary_masked v i shut j le)
        | inr wide ↦ elim (Bool-cases (deliverable v i)) [
          | inl on ↦
              rw (wide, on) (i, omega arith, omega arith, on, λ j p q. absurd (omega arith), refl)
          | inr off ↦
              rw (wide, off)
                (Chosen-skip v i (i + suc left) (inject_from left (i + 1) v) off (
                  let e : i + suc left ≡ i + 1 + left = omega arith in
                  rw e (inject_from_lem v left (i + 1) (omega arith))))
        ]
      ])

-- The three answers of `inject_ext_intr`.
pub data Injection (v : SvmVcpu) : Bool × SvmVcpu → Type 0 where
  injected :
      (k : ℕ)
      → k < 16
      → accepts v ≡ true
      → deliverable v k ≡ true
      → ((j : ℕ) → j < k → deliverable v j ≡ false)
      → Injection v (true, inject_line k v)
  refused : accepts v ≡ false → Injection v (false, v)
  nothing : ((j : ℕ) → j < 16 → deliverable v j ≡ false) → Injection v (false, v)

idle : (v : SvmVcpu) (j : ℕ) → (v.pending_irq == 0) ≡ true → deliverable v j ≡ false
unfolding deliverable
idle v j h = ground (arith, ap (λ p. bit p j) ((==_iff v.pending_irq 0).0 h), bit-zero j)

opened :
    (v : SvmVcpu) (r : Option SvmVcpu)
    → accepts v ≡ true
    → Chosen v 0 16 r
    → Injection v (elim r [ some v' ↦ (true, v') | none ↦ (false, v) ])
opened v none h c = nothing (λ j lt. c j (omega arith) lt)
opened v (some v') h (k, le, lt, on, before, e) =
    rw e (injected k lt h on (λ j q. before j (omega arith) q))

guards :
    (v : SvmVcpu) (r : Option SvmVcpu)
    → Chosen v 0 16 r
    → Injection v (
        if v.pending_irq == 0
        then (false, v)
        else if not (is_inited v.guest_ioio_state.primary_phase)
        then (false, v)
        else if not (truth (shr v.vmcb.rflags 9 % 2))
        then (false, v)
        else elim r [ some v' ↦ (true, v') | none ↦ (false, v) ])
guards v r c = elim (Bool-cases (v.pending_irq == 0)) [
  | inl none_pending ↦ rw none_pending (nothing (λ j lt. idle v j none_pending))
  | inr pending ↦ elim (Bool-cases (is_inited v.guest_ioio_state.primary_phase)) [
    | inr early ↦ rw (pending, early) (refused (ground arith))
    | inl ready ↦ elim (Bool-cases (truth (shr v.vmcb.rflags 9 % 2))) [
      | inr off ↦ rw (pending, ready, off) (refused (ground (arith, bit_eq_div v.vmcb.rflags 9)))
      | inl on ↦ rw (pending, ready, on) (opened v r (ground (arith, bit_eq_div v.vmcb.rflags 9)) c)
    ]
  ]
]

-- Over the 16 lines, `inject_ext_intr` injects the lowest line that is deliverable if the guest
-- accepts interrupts and there is one; otherwise it returns false and changes nothing.
pub inject_ext_intr_lem : (v : SvmVcpu) → Injection v (inject_ext_intr v)
unfolding inject_ext_intr
inject_ext_intr_lem v = guards v (inject_from 16 0 v) (inject_from_lem v 16 0 (omega arith))

-- Injecting a line below 16 clears its pending bit and no other, marks it as injected, and hands
-- the guest the vector, modulo 256, that the guest itself gave to the line.
pub inject_line_lem :
    (v : SvmVcpu) (k : ℕ)
    → k < 16
    → ((j : ℕ)
        → j < 16
        → bit (inject_line k v).pending_irq j ≡ (if k == j then 0 else bit v.pending_irq j))
      × ((inject_line k v).vmcb.v_irq ≡ 1)
      × ((inject_line k v).vmcb.v_intr_vector
          ≡ (delta k + vector_base v.guest_ioio_state k) % 2 ^ 8)
      × ((inject_line k v).last_injected_irq ≡ k)
unfolding inject_line
inject_line_lem v k h = (λ j lt. clears j lt, refl, refl, refl)
  where
    clears :
        (j : ℕ)
        → j < 16
        → bit (u16 (bit_and v.pending_irq (not_64 (tobit_16 k)))) j
          ≡ (if k == j then 0 else bit v.pending_irq j)
    clears j lt =
        bit-mod_low 16 (bit_and v.pending_irq (not_64 (tobit_16 k))) j lt
        ∙ rw (tobit_16-eq-pow k h) (
            ground (
              arith,
              bit-bit_and v.pending_irq (not_64 (2 ^ k)) j,
              bit-complement 64 (2 ^ k) j
                  (omega
                    (arith, pow-le-pow_right {n = 2} (omega arith) {i = k} {j = 15} (omega arith)))
                  (omega arith),
              bit-pow k j,
              bit-lt_two v.pending_irq j,
            ))
