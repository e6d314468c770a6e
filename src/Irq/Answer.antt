-- ===== src/Irq/Answer.antt =====
-- The answer of `inject_ext_intr`, bit by bit and without the assignments of the code.
use ymirc.Prelude.{
  ℕ, ◌-◌, ◌+◌, ◌%◌, ◌^◌, ◌<◌, ◌≡◌, refl, ◌∙◌, arith, Bool, true, false, ◌==◌, ltb, if◌then◌else◌,
  bit,
}
use ymirc.Vcpu.{SvmVcpu, IoioGuestState}
use ymirc.Pic.{delta}
use ymirc.Irq.{vector_base, inject_line, inject_ext_intr}
use ymirc.Irq.Inject.{
  deliverable, accepts, Injection, injected, refused, nothing, inject_ext_intr_lem, inject_line_lem,
}

-- The vector that the guest gave to line `k` when it set up its controllers.
abbrev pub guest_vector : IoioGuestState → ℕ → ℕ
guest_vector g k = if ltb k 8 then g.primary_base + k else g.secondary_base + (k - 8)

-- Line `k` was injected: it is no longer pending and every other line is as before, the control block
-- has a virtual interrupt with the guest's vector, the line is kept, and nothing else changed.
pub record Injects (k : ℕ) (v v' : SvmVcpu) : Type 0 where
  pub pending :
      (j : ℕ) → j < 16 → bit v'.pending_irq j ≡ (if k == j then 0 else bit v.pending_irq j)
  pub requested : v'.vmcb.v_irq ≡ 1
  pub vector : v'.vmcb.v_intr_vector ≡ guest_vector v.guest_ioio_state k % 2 ^ 8
  pub last : v'.last_injected_irq ≡ k
  pub frame : v' ≡ record v {
    vmcb = record v.vmcb { v_irq = v'.vmcb.v_irq; v_intr_vector = v'.vmcb.v_intr_vector };
    pending_irq = v'.pending_irq;
    last_injected_irq = v'.last_injected_irq;
  }

-- The three answers.
pub data Answer (v : SvmVcpu) (r : Bool × SvmVcpu) : Type 0 where
  injects :
      (k : ℕ)
      → k < 16
      → accepts v ≡ true
      → deliverable v k ≡ true
      → ((j : ℕ) → j < k → deliverable v j ≡ false)
      → r.0 ≡ true
      → Injects k v r.1
      → Answer v r
  refuses : accepts v ≡ false → r ≡ (false, v) → Answer v r
  none_deliverable : ((j : ℕ) → j < 16 → deliverable v j ≡ false) → r ≡ (false, v) → Answer v r

inject_line-Injects : (v : SvmVcpu) (k : ℕ) → k < 16 → Injects k v (inject_line k v)
inject_line-Injects v k h =
    let (pending, requested, vector, last) = inject_line_lem v k h in
    record {
      pending = pending;
      requested = requested;
      vector = vector ∙ base;
      last = last;
      frame = unfold inject_line in refl;
    }
  where
    base :
        (delta k + vector_base v.guest_ioio_state k) % 2 ^ 8
        ≡ guest_vector v.guest_ioio_state k % 2 ^ 8
    base = ground arith

Injection-Answer : (v : SvmVcpu) (r : Bool × SvmVcpu) → Injection v r → Answer v r
Injection-Answer v r (injected k lt open_gate on before) =
    injects k lt open_gate on before refl (inject_line-Injects v k lt)
Injection-Answer v r (refused off) = refuses off refl
Injection-Answer v r (nothing none) = none_deliverable none refl

-- Over the 16 lines, `inject_ext_intr` injects the lowest line that is deliverable if the guest
-- accepts interrupts and there is one: it clears the pending bit of this line and no other, requests
-- the virtual interrupt with the vector that the guest gave to the line, modulo 256, keeps the line,
-- and changes nothing else. Otherwise it returns false and changes nothing.
pub inject_ext_intr-Answer : (v : SvmVcpu) → Answer v (inject_ext_intr v)
inject_ext_intr-Answer v = Injection-Answer v (inject_ext_intr v) (inject_ext_intr_lem v)
