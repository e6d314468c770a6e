-- ===== src/Dispatch/Timer.antt =====
-- ymirc/main.c and the start of `svm_vcpu_loop`: the handlers of the timer and of the serial port,
-- and the virtual CPU as a subscriber.
use ymirc.Prelude.{ℕ, ◌+◌, u16, sub_64}
use ymirc.Prelude.{Outcome, done}
use ymirc.Vcpu.{Machine}
use ymirc.Pic.{notify_eoi, irq_timer, irq_serial1, primary_vector_offset}
use ymirc.Irq.{intr_subscriber_callback}
use ymirc.Dispatch.{Handler, SubscriberCallback, Interrupts, register_handler, subscribe2interrupt}

unfoldable pub blob_irq_handler : Handler Machine
blob_irq_handler ctx m =
    done (record m { io = notify_eoi (u16 (sub_64 ctx.vector primary_vector_offset)) m.io })

-- `intr_subscriber_callback` as a subscriber; `self` is the one virtual CPU.
unfoldable pub vcpu_callback : SubscriberCallback Machine
vcpu_callback self ctx m = done (record m { vcpu = intr_subscriber_callback ctx.vector m.vcpu })

-- The calls in `kernel_main` and `svm_vcpu_loop` that set up interrupts, in their order, after
-- `itr_init`.
unfoldable pub start_interrupts : ℕ → Interrupts Machine → Outcome (Interrupts Machine)
start_interrupts vcpu itr = subscribe2interrupt vcpu vcpu_callback (
    register_handler (irq_serial1 + primary_vector_offset) blob_irq_handler
      (register_handler (irq_timer + primary_vector_offset) blob_irq_handler itr))

-- What the handlers are when the virtual CPU subscribes.
prepared : Interrupts Machine → Interrupts Machine
prepared itr =
    register_handler (irq_serial1 + primary_vector_offset) blob_irq_handler
      (register_handler (irq_timer + primary_vector_offset) blob_irq_handler itr)
