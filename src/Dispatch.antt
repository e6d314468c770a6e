-- ===== src/Dispatch.antt =====
-- ymirc/arch/x86/interrupt.c: the subscribers and the handlers of interrupts. They are functions
-- on a state `W` of the rest of the program; the two static arrays are the record `Interrupts`.
pub mod Subscribers
pub mod Timer
pub mod Stubs
use ymirc.Descriptors.{set_gate, set_gate-undefined}
use ymirc.Prelude.{
  ◌≡◌, refl, ℕ, zero, suc, ◌+◌, ◌==◌, ltb, Bool, true, false, if◌then◌else◌, Outcome, done, stop,
  panicked, undefined, ◌>>=◌,
}

abbrev pub max_subscriber : ℕ
max_subscriber = 10

abbrev pub max_num_gates : ℕ
max_num_gates = 256

-- The general purpose registers as an interrupt service routine saves them.
pub record Registers : Type 0 where
  pub r8 : ℕ
  pub r9 : ℕ
  pub r10 : ℕ
  pub r11 : ℕ
  pub r12 : ℕ
  pub r13 : ℕ
  pub r14 : ℕ
  pub r15 : ℕ
  pub rdi : ℕ
  pub rsi : ℕ
  pub rbp : ℕ
  pub rsp : ℕ
  pub rbx : ℕ
  pub rdx : ℕ
  pub rcx : ℕ
  pub rax : ℕ

pub record Context : Type 0 where
  pub registers : Registers
  pub vector : ℕ
  pub error_code : ℕ
  pub rip : ℕ
  pub cs : ℕ
  pub rflags : ℕ

abbrev pub Handler : Type 0 → Type 0
Handler W = Context → W → Outcome W

-- `self` is an address.
abbrev pub SubscriberCallback : Type 0 → Type 0
SubscriberCallback W = ℕ → Context → W → Outcome W

pub record Subscriber (W : Type 0) : Type 0 where
  pub self : ℕ
  pub callback : SubscriberCallback W
  pub in_use : Bool

pub record Interrupts (W : Type 0) : Type 0 where
  pub subscribers : ℕ → Subscriber W
  pub handlers : ℕ → Handler W

-- It logs the context and halts for ever, as `panic` does.
unfoldable pub unhandled_handler : {W : Type 0} → Handler W
unhandled_handler ctx w = stop panicked

-- `interrupt64`
abbrev pub interrupt64 : ℕ
interrupt64 = 0xE

-- The loop of `itr_init`, at round `i` with `left` rounds to go.
unfoldable pub init_handlers :
    {W : Type 0} → (ℕ → ℕ) → ℕ → ℕ → (ℕ → ℕ) → (ℕ → Handler W) → Outcome ((ℕ → ℕ) × (ℕ → Handler W))
init_handlers isr_table zero i idt handlers = done (idt, handlers)
init_handlers isr_table (suc left) i idt handlers = do
  idt' ← set_gate i interrupt64 (isr_table i) idt
  init_handlers isr_table left (i + 1) idt' (λ v. if v == i then unhandled_handler else handlers v)

-- `isr_table` has the addresses of the routines. `idt_init` and `enable_intr`, which follow, are
-- instructions on registers of the processor.
unfoldable pub itr_init :
    {W : Type 0} → (ℕ → ℕ) → (ℕ → ℕ) → Interrupts W → Outcome ((ℕ → ℕ) × Interrupts W)
itr_init isr_table idt itr = do
  (idt', handlers) ← init_handlers isr_table max_num_gates 0 idt itr.handlers
  done (idt', record itr { handlers = handlers })

-- The loop of `itr_dispatch` over the subscribers.
unfoldable pub notify : {W : Type 0} → (ℕ → Subscriber W) → Context → ℕ → ℕ → W → Outcome W
notify subscribers ctx zero i w = done w
notify subscribers ctx (suc left) i w = do
  w' ←
      if (subscribers i).in_use then (subscribers i).callback (subscribers i).self ctx w else done w
  notify subscribers ctx left (i + 1) w'

unfoldable pub itr_dispatch : {W : Type 0} → Interrupts W → Context → W → Outcome W
itr_dispatch itr ctx w = do
  w' ← notify itr.subscribers ctx max_subscriber 0 w
  if ltb ctx.vector max_num_gates then itr.handlers ctx.vector ctx w' else stop undefined

unfoldable pub register_handler : {W : Type 0} → ℕ → Handler W → Interrupts W → Interrupts W
register_handler vector handler itr = record itr {
  handlers = λ v. if v == vector then handler else itr.handlers v;
}

-- The loop of `subscribe2interrupt`.
unfoldable pub take_slot :
    {W : Type 0} → Subscriber W → ℕ → ℕ → (ℕ → Subscriber W) → Outcome (ℕ → Subscriber W)
take_slot new zero i subscribers = stop panicked
take_slot new (suc left) i subscribers =
    let rest = take_slot new left (i + 1) subscribers in
    if (subscribers i).in_use then rest else done (λ j. if j == i then new else subscribers j)

unfoldable pub subscribe2interrupt :
    {W : Type 0} → ℕ → SubscriberCallback W → Interrupts W → Outcome (Interrupts W)
subscribe2interrupt ctx callback itr = do
  subscribers ←
      take_slot (record { self = ctx; callback = callback; in_use = true }) max_subscriber 0
        itr.subscribers
  done (record itr { subscribers = subscribers })

-- `set_gate` is undefined, and so is `itr_init`, in its first round.
itr_init-undefined :
    {W : Type 0} (isr_table idt : ℕ → ℕ) (itr : Interrupts W)
    → itr_init isr_table idt itr ≡ stop undefined
unfolding itr_init init_handlers
itr_init-undefined isr_table idt itr = rw (set_gate-undefined 0 interrupt64 (isr_table 0) idt) refl
