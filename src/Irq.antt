-- ===== src/Irq.antt =====
-- ymirc/arch/x86/svm_vcpu.c: `inject_ext_intr`, which gives a pending interrupt to the guest, and
-- `intr_subscriber_callback`, which marks an interrupt of the host as pending.
pub mod Inject
pub mod Answer
use ymirc.Prelude.{
  ℕ, zero, suc, ◌+◌, ◌-◌, ◌*◌, ◌/◌, ◌%◌, ◌^◌, Bool, true, false, not, ◌&&◌, ◌==◌, leb, ltb,
}
use ymirc.Prelude.{if◌then◌else◌, bit_and, bit_or, u8, u16, not_64, shr, truth, Option, none, some}
use ymirc.Prelude.{List, [], ◌∷◌}
use ymirc.Bits.{tobit_16, isset_8, isset_16}
use ymirc.Pic.{is_primary, delta, irq_secondary, primary_vector_offset}
use ymirc.Vcpu.{
  PicInitPhase, uninitialized, phase1, phase2, phase3, inited, IoioGuestState, SvmVcpu,
}

abbrev pub is_inited : PicInitPhase → Bool
is_inited inited = true
is_inited uninitialized = false
is_inited phase1 = false
is_inited phase2 = false
is_inited phase3 = false

abbrev pub is_masked : IoioGuestState → ℕ → Bool
is_masked g i =
    if is_primary i then isset_8 g.primary_mask (delta i) else isset_8 g.secondary_mask (delta i)

abbrev pub vector_base : IoioGuestState → ℕ → ℕ
vector_base g i = if is_primary i then g.primary_base else g.secondary_base

-- The assignments of one round of the loop that injects line `i`.
unfoldable pub inject_line : ℕ → SvmVcpu → SvmVcpu
inject_line i v = record v {
  vmcb = record v.vmcb {
    v_irq = 1;
    v_intr_vector = u8 (delta i + vector_base v.guest_ioio_state i);
  };
  pending_irq = u16 (bit_and v.pending_irq (not_64 (tobit_16 i)));
  last_injected_irq = i;
}

-- The loop over the lines, from `i` on; `none` when it ends without a `return`.
unfoldable pub inject_from : ℕ → ℕ → SvmVcpu → Option SvmVcpu
inject_from zero i v = none
inject_from (suc left) i v =
    let next = inject_from left (i + 1) v in
    if isset_16 v.guest_ioio_state.primary_mask irq_secondary && leb 8 i
    then none
    else if bit_and v.pending_irq (tobit_16 i) == 0
    then next
    else if is_masked v.guest_ioio_state i
    then next
    else some (inject_line i v)

-- The field `ief` of RFLAGS is bit 9.
unfoldable pub inject_ext_intr : SvmVcpu → Bool × SvmVcpu
inject_ext_intr v =
    if v.pending_irq == 0
    then (false, v)
    else if not (is_inited v.guest_ioio_state.primary_phase)
    then (false, v)
    else if not (truth (shr v.vmcb.rflags 9 % 2))
    then (false, v)
    else elim (inject_from 16 0 v) [ some v' ↦ (true, v') | none ↦ (false, v) ]

unfoldable pub intr_subscriber_callback : ℕ → SvmVcpu → SvmVcpu
intr_subscriber_callback vector v =
    if leb primary_vector_offset vector && ltb vector (primary_vector_offset + 16)
    then record v { pending_irq = bit_or v.pending_irq (tobit_16 (vector - primary_vector_offset)) }
    else v

-- What the host dispatches between `stgi` and `clgi`: the vectors that arrive, in order.
unfoldable pub take_interrupts : List ℕ → SvmVcpu → SvmVcpu
take_interrupts [] v = v
take_interrupts (vector ∷ rest) v = take_interrupts rest (intr_subscriber_callback vector v)
