-- ===== src/Exit/Interrupt.antt =====
-- No interrupt is lost or invented at an exit that a physical interrupt causes.
use ymirc.Prelude.{not, ◌%◌, ◌^◌, ◌⊎◌, ℕ, ◌+◌, ◌-◌, ◌≤◌, ◌<◌, ◌≡◌, refl, ap, ◌∙◌, arith}
use ymirc.Prelude.{
  Bool, true, false, ◌&&◌, ◌||◌, ◌==◌, leb, ltb, if◌then◌else◌, Bool-cases, inl, inr, List, [], ◌∷◌,
}
use ymirc.Prelude.{bit, bit-lt_two, bit-zero, bit-pow, bit-bit_or}
use ymirc.Bits.{tobit_16}
use ymirc.Vcpu.{SvmVcpu}
use ymirc.Irq.{intr_subscriber_callback, take_interrupts}
use ymirc.Irq.Inject.{tobit_16-eq-pow, is_unmasked, accepts}
use ymirc.Irq.Answer.{guest_vector, Answer}
use ymirc.Exit.{repend}

-- The vector of line `i` is among those that arrive.
unfoldable pub arrives : List ℕ → ℕ → Bool
arrives [] i = false
arrives (vector ∷ rest) i = vector == 32 + i || arrives rest i

tobit_16-past : (n : ℕ) → 16 ≤ n → tobit_16 n ≡ 0
unfolding tobit_16
tobit_16-past n le = ground arith

bit-tobit_16 : (n i : ℕ) → i < 16 → bit (tobit_16 n) i ≡ (if n == i then 1 else 0)
bit-tobit_16 n i h = elim (Bool-cases (ltb n 16)) [
  | inl low ↦ ap (λ t. bit t i) (tobit_16-eq-pow n (ground arith)) ∙ bit-pow n i
  | inr high ↦ ap (λ t. bit t i) (tobit_16-past n (ground arith)) ∙ bit-zero i ∙ ground arith
]

bit-callback :
    (vector : ℕ) (v : SvmVcpu) (i : ℕ)
    → i < 16
    → (bit (intr_subscriber_callback vector v).pending_irq i == 1)
      ≡ (bit v.pending_irq i == 1 || vector == 32 + i)
unfolding intr_subscriber_callback
bit-callback vector v i h = ground (
  arith,
  bit-bit_or v.pending_irq (tobit_16 (vector - 32)) i,
  bit-tobit_16 (vector - 32) i h,
  bit-lt_two v.pending_irq i,
)

pub bit-take_interrupts :
    (arrivals : List ℕ) (v : SvmVcpu) (i : ℕ)
    → i < 16
    → (bit (take_interrupts arrivals v).pending_irq i == 1)
      ≡ (bit v.pending_irq i == 1 || arrives arrivals i)
unfolding take_interrupts arrives
bit-take_interrupts [] v i h = ground arith
bit-take_interrupts (vector ∷ rest) v i h =
    bit-take_interrupts rest (intr_subscriber_callback vector v) i h
    ∙ rw (bit-callback vector v i h) (ground arith)

abbrev with_pending : ℕ → SvmVcpu → SvmVcpu
with_pending p v = record v { pending_irq = p }

-- Taking interrupts changes the pending lines only.
callback_frame :
    (vector : ℕ) (v : SvmVcpu)
    → intr_subscriber_callback vector v
      ≡ record v { pending_irq = (intr_subscriber_callback vector v).pending_irq }
unfolding intr_subscriber_callback
callback_frame vector v = elim (Bool-cases (leb 32 vector && ltb vector 48)) [
  | inl on ↦ rw on
  | inr off ↦ rw off
]

pub take_interrupts_frame :
    (arrivals : List ℕ) (v : SvmVcpu)
    → take_interrupts arrivals v
      ≡ record v { pending_irq = (take_interrupts arrivals v).pending_irq }
unfolding take_interrupts
take_interrupts_frame [] v = refl
take_interrupts_frame (vector ∷ rest) v =
    take_interrupts_frame rest (intr_subscriber_callback vector v)
    ∙ ap (with_pending (take_interrupts rest (intr_subscriber_callback vector v)).pending_irq)
        (callback_frame vector v)

-- Line `i` is pending, or injected and not yet taken by the guest, or its vector arrives.
abbrev pub is_owed : List ℕ → SvmVcpu → ℕ → Bool
is_owed arrivals v i =
    bit v.pending_irq i == 1
    || (v.vmcb.v_irq == 1 && v.last_injected_irq == i)
    || arrives arrivals i

-- What an exit for a physical interrupt makes of the lines: the lowest owed line that the guest
-- accepts is requested and the others are pending, or nothing is requested anew and all are pending.
pub data Delivery (arrivals : List ℕ) (v v' : SvmVcpu) : Type 0 where
  delivered :
      (k : ℕ)
      → k < 16
      → accepts v ≡ true
      → (is_owed arrivals v k && is_unmasked v.guest_ioio_state k) ≡ true
      → ((j : ℕ) → j < k → (is_owed arrivals v j && is_unmasked v.guest_ioio_state j) ≡ false)
      → ((j : ℕ) → j < 16 → (bit v'.pending_irq j == 1) ≡ (is_owed arrivals v j && not (k == j)))
      → v'.vmcb.v_irq ≡ 1
      → v'.last_injected_irq ≡ k
      → v'.vmcb.v_intr_vector ≡ guest_vector v.guest_ioio_state k % 2 ^ 8
      → Delivery arrivals v v'
  kept :
      ((accepts v ≡ false)
        ⊎ ((j : ℕ) → j < 16 → (is_owed arrivals v j && is_unmasked v.guest_ioio_state j) ≡ false))
      → ((j : ℕ) → j < 16 → (bit v'.pending_irq j == 1) ≡ is_owed arrivals v j)
      → v'.vmcb.v_irq ≡ v.vmcb.v_irq
      → v'.last_injected_irq ≡ v.last_injected_irq
      → v'.vmcb.v_intr_vector ≡ v.vmcb.v_intr_vector
      → Delivery arrivals v v'

module _ (arrivals : List ℕ) (v : SvmVcpu) where
  before : SvmVcpu
  before = take_interrupts arrivals (repend v)
