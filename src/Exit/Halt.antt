-- ===== src/Exit/Halt.antt =====
-- A halted guest is woken: the loop of the HLT exit ends once an interrupt arrives that the guest
-- does not block.
use ymirc.Prelude.{ℕ, ◌≡◌, Bool, true, false, ◌||◌}
use ymirc.Prelude.{List, [], ◌∷◌}
use ymirc.Vcpu.{SvmVcpu}
use ymirc.Irq.Inject.{deliverable}
use ymirc.Exit.Interrupt.{arrives}

-- Line `i` arrives in one of the windows.
unfoldable pub arrives_in : List (List ℕ) → ℕ → Bool
arrives_in [] i = false
arrives_in (w ∷ ws) i = arrives w i || arrives_in ws i

-- The attempt succeeded, or it left the state and line `i` is not deliverable.
abbrev Attempt : SvmVcpu → ℕ → Bool × SvmVcpu → Type 0
Attempt v i (true, v') = v'.vmcb.v_irq ≡ 1
Attempt v i (false, v') = (v' ≡ v) × (deliverable v i ≡ false)
