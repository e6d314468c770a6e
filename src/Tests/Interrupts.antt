-- ===== src/Tests/Interrupts.antt =====
-- The dispatch of interrupts, with the virtual CPU as the one subscriber.
use ymirc.Prelude.{◌≡◌, refl, arith, false, ◌==◌, [], ◌∷◌, ◌++◌, done, ◌>>=◌}
use ymirc.Vcpu.{Machine}
use ymirc.Dispatch.Stubs.{isr, entered, context_with, isr_lem}
use ymirc.Dispatch.{
  Registers, Context, Interrupts, unhandled_handler, itr_dispatch, subscribe2interrupt,
}
use ymirc.Dispatch.Subscribers.{Call, Holds, call_all, itr_dispatch_lem, subscribe2interrupt_lem}
use ymirc.Dispatch.Timer.{vcpu_callback, blob_irq_handler}
use ymirc.Tests.Guest.{machine}

abbrev timer : Context
timer = record {
  registers = record {
    r8 = 0;
    r9 = 0;
    r10 = 0;
    r11 = 0;
    r12 = 0;
    r13 = 0;
    r14 = 0;
    r15 = 0;
    rdi = 0;
    rsi = 0;
    rbp = 0;
    rsp = 0;
    rbx = 0;
    rdx = 0;
    rcx = 0;
    rax = 0;
  };
  vector = 32;
  error_code = 0;
  rip = 0x1000;
  cs = 16;
  rflags = 2;
}

abbrev vcpu_call : Call Machine
vcpu_call = record { self = 0x4000; callback = vcpu_callback }

-- Nobody has subscribed, and every vector is served by the timer's handler.
abbrev nobody : Interrupts Machine
nobody = record {
  subscribers = λ i. record { self = 0; callback = vcpu_callback; in_use = false };
  handlers = λ v. blob_irq_handler;
}

-- The virtual CPU has.
abbrev one_subscriber : Interrupts Machine
one_subscriber = record nobody {
  subscribers = λ i. record { self = 0x4000; callback = vcpu_callback; in_use = i == 0 };
}

one_subscriber-Holds : Holds (vcpu_call ∷ []) one_subscriber.subscribers 0
one_subscriber-Holds = (refl, λ j h. ground arith)

itr_dispatch_lem_example :
    itr_dispatch one_subscriber timer (machine 0 0 0)
    ≡ (call_all (vcpu_call ∷ []) timer (machine 0 0 0) >>= blob_irq_handler timer)
itr_dispatch_lem_example =
    itr_dispatch_lem (vcpu_call ∷ []) one_subscriber timer (machine 0 0 0) one_subscriber-Holds
      (omega arith) (omega arith)

subscribe2interrupt_lem_example :
    (itr' : Interrupts Machine) × (subscribe2interrupt 0x4000 vcpu_callback one_subscriber
      ≡ done itr')
    × Holds ((vcpu_call ∷ []) ++ (vcpu_call ∷ [])) itr'.subscribers 0
    × (itr'.handlers ≡ one_subscriber.handlers)
subscribe2interrupt_lem_example =
    subscribe2interrupt_lem (vcpu_call ∷ []) one_subscriber vcpu_call one_subscriber-Holds
      (omega arith)

-- No handler is registered yet.
abbrev no_handler : Interrupts Machine
no_handler = record nobody { handlers = λ v. unhandled_handler }

abbrev interrupted : Registers
interrupted = record timer.registers { rsp = 0x8000; rax = 7 }

-- A page fault with error code 2.
isr_lem_example :
    isr 14 77 nobody (entered 14 2 interrupted (0x1000 ∷ 16 ∷ 2 ∷ [])) (machine 0 0 0) ≡ (
      itr_dispatch nobody (context_with 14 2 interrupted 0x1000 16 2) (machine 0 0 0) >>= λ m.
      done (record { registers = interrupted; stack = 0x1000 ∷ 16 ∷ 2 ∷ [] }, m))
isr_lem_example =
    isr_lem 77 nobody interrupted 14 2 0x1000 16 2 [] (machine 0 0 0) (omega arith) refl
      (omega arith) (omega arith) (omega arith)
