-- ===== src/Dispatch/Stubs.antt =====
-- ymirc/arch/x86/isr.c: the interrupt service routines. The stack is the list of its words, the top
-- first, at the address RSP. The call of `itr_dispatch` pops what it pushes, and the handlers of the
-- program only read the context.
use ymirc.Prelude.{
  zero, suc, ◌-◌, ◌*◌, ◌/◌, ◌%◌, [], bit_and, not_64, ℕ, ◌+◌, ◌^◌, ◌≡◌, ◌≢◌, ◌<◌, refl, ap, ◌∙◌,
  arith, ◌==◌, leb, ◌&&◌, ◌||◌, not, Bool, true, false, Bool-cases, inl, inr, if◌then◌else◌, List,
  ◌∷◌, u64, sub_64, Outcome, done, stop, undefined, ◌>>=◌,
}
use ymirc.Bits.Mask.{bit_and-not_ones}
use ymirc.Dispatch.{Registers, Context, Interrupts, itr_dispatch}

pub record Processor : Type 0 where
  pub registers : Registers
  pub stack : List ℕ

-- The test of `DEFINE_ISR`.
abbrev pub has_dummy : ℕ → Bool
has_dummy vector = not (vector == 8) && not (leb 10 vector && leb vector 14) && not (vector == 17)

-- The pushes of `DEFINE_ISR`.
unfoldable pub isr_push : ℕ → Processor → Processor
isr_push vector p =
    if has_dummy vector
    then record p {
      registers = record p.registers { rsp = sub_64 p.registers.rsp 16 };
      stack = vector ∷ 0 ∷ p.stack;
    }
    else record p {
      registers = record p.registers { rsp = sub_64 p.registers.rsp 8 };
      stack = vector ∷ p.stack;
    }

-- The sixteen pushes of `isr_common`; RSP is the fifth, and is 32 less by then.
unfoldable pub save_registers : Processor → Processor
save_registers p =
    let r = p.registers in
    record p {
      registers = record r { rsp = sub_64 r.rsp 128 };
      stack =
          r.r8
          ∷ r.r9
          ∷ r.r10
          ∷ r.r11
          ∷ r.r12
          ∷ r.r13
          ∷ r.r14
          ∷ r.r15
          ∷ r.rdi
          ∷ r.rsi
          ∷ r.rbp
          ∷ sub_64 r.rsp 32
          ∷ r.rbx
          ∷ r.rdx
          ∷ r.rcx
          ∷ r.rax
          ∷ p.stack;
    }

-- The `Context` at the top of the stack.
unfoldable pub context_of : List ℕ → Outcome Context
context_of
      (r8' ∷ r9' ∷ r10' ∷ r11' ∷ r12' ∷ r13' ∷ r14' ∷ r15' ∷ rdi' ∷ rsi' ∷ rbp' ∷ rsp' ∷ rbx' ∷ rdx'
        ∷ rcx' ∷ rax' ∷ vector' ∷ error_code' ∷ rip' ∷ cs' ∷ rflags' ∷ rest) =
    done (record {
      registers = record {
        r8 = r8';
        r9 = r9';
        r10 = r10';
        r11 = r11';
        r12 = r12';
        r13 = r13';
        r14 = r14';
        r15 = r15';
        rdi = rdi';
        rsi = rsi';
        rbp = rbp';
        rsp = rsp';
        rbx = rbx';
        rdx = rdx';
        rcx = rcx';
        rax = rax';
      };
      vector = vector';
      error_code = error_code';
      rip = rip';
      cs = cs';
      rflags = rflags';
    })
context_of stack = stop undefined

-- The sixteen pops, and the removal of vector and error code. A value of RSP that is not the address
-- of the words that follow leaves the stack.
unfoldable pub restore_registers : ℕ → List ℕ → Outcome Processor
restore_registers rsp₀
      (r8' ∷ r9' ∷ r10' ∷ r11' ∷ r12' ∷ r13' ∷ r14' ∷ r15' ∷ rdi' ∷ rsi' ∷ rbp' ∷ rsp' ∷ rbx' ∷ rdx'
        ∷ rcx' ∷ rax' ∷ vector' ∷ error_code' ∷ rest) =
    if rsp' == u64 (rsp₀ + 96)
    then done (record {
      registers = record {
        r8 = r8';
        r9 = r9';
        r10 = r10';
        r11 = r11';
        r12 = r12';
        r13 = r13';
        r14 = r14';
        r15 = r15';
        rdi = rdi';
        rsi = rsi';
        rbp = rbp';
        rsp = u64 (rsp' + 48);
        rbx = rbx';
        rdx = rdx';
        rcx = rcx';
        rax = rax';
      };
      stack = rest;
    })
    else stop undefined
restore_registers rsp₀ stack = stop undefined

-- `pushq %rsp`, `pushq (%rsp)` and `andq $-0x10, %rsp`. `gap` is the word below, which the last one
-- may put on top; an RSP that is not at a word leaves the stack.
unfoldable pub align_stack : ℕ → Processor → Outcome Processor
align_stack gap p =
    let r = p.registers.rsp in
    let aligned = bit_and (sub_64 r 16) (not_64 0xF) in
    if sub_64 r 16 - aligned == 0
    then done (record { registers = record p.registers { rsp = aligned }; stack = r ∷ r ∷ p.stack })
    else if sub_64 r 16 - aligned == 8
    then done
        (record { registers = record p.registers { rsp = aligned }; stack = gap ∷ r ∷ r ∷ p.stack })
    else stop undefined

unfoldable pub drop_words : ℕ → List ℕ → List ℕ
drop_words zero stack = stack
drop_words (suc n) [] = []
drop_words (suc n) (x ∷ stack) = drop_words n stack

-- `movq 8(%rsp), %rsp`, to a word of the stack.
unfoldable pub leave_stack : Processor → Outcome Processor
leave_stack p = elim p.stack [
  | [] ↦ stop undefined
  | top ∷ rest ↦ elim rest [
    | [] ↦ stop undefined
    | x ∷ _ ↦
        if sub_64 x p.registers.rsp % 8 == 0
        then done (record {
          registers = record p.registers { rsp = x };
          stack = drop_words (sub_64 x p.registers.rsp / 8) p.stack;
        })
        else stop undefined
  ]
]

-- `isr_common` up to `iretq`.
unfoldable pub isr_common :
    {W : Type 0} → ℕ → Interrupts W → Processor → W → Outcome (Processor × W)
isr_common gap itr p w = do
  let saved = save_registers p
  ctx ← context_of saved.stack
  aligned ← align_stack gap saved
  w' ← itr_dispatch itr ctx w
  back ← leave_stack aligned
  p' ← restore_registers back.registers.rsp back.stack
  done (p', w')

unfoldable pub isr : {W : Type 0} → ℕ → ℕ → Interrupts W → Processor → W → Outcome (Processor × W)
isr vector gap itr p w = isr_common gap itr (isr_push vector p) w

-- The vectors for which the processor pushes an error code, by its manual.
abbrev pub pushes_error_code : ℕ → Bool
pushes_error_code v = v == 8 || (leb 10 v && leb v 14) || v == 17 || v == 21 || v == 29 || v == 30

-- The stack and RSP as the processor leaves them.
abbrev pub entered : ℕ → ℕ → Registers → List ℕ → Processor
entered vector error r stack =
    if pushes_error_code vector
    then record { registers = record r { rsp = sub_64 r.rsp 8 }; stack = error ∷ stack }
    else record { registers = r; stack = stack }

-- The context of an interrupt.
abbrev pub context_with : ℕ → ℕ → Registers → ℕ → ℕ → ℕ → Context
context_with vector error r rip' cs' rflags' = record {
  registers = record r { rsp = sub_64 r.rsp 48 };
  vector = vector;
  error_code = if pushes_error_code vector then error else 0;
  rip = rip';
  cs = cs';
  rflags = rflags';
}

-- RSP comes back to what it was before the alignment, whichever way it was aligned.
align-leave :
    (gap : ℕ) (p : Processor)
    → p.registers.rsp < 2 ^ 64
    → p.registers.rsp % 8 ≡ 0
    → (a : Processor) × (align_stack gap p ≡ done a) × (leave_stack a ≡ done p)
unfolding align_stack leave_stack drop_words
align-leave gap p word at_word =
    let r = p.registers.rsp in
    let cut : bit_and (sub_64 r 16) (not_64 0xF) ≡ sub_64 r 16 / 16 * 16 =
      bit_and-not_ones 4 (sub_64 r 16) (omega arith) (omega arith) ∙ omega arith in
    elim (Bool-cases (r % 16 == 0)) [
      | inl even ↦
          let none_cut : sub_64 r 16 / 16 * 16 ≡ sub_64 r 16 = ground arith in
          let zero_cut : (sub_64 r 16 - sub_64 r 16 == 0) ≡ true = ground arith in
          let two : sub_64 r (sub_64 r 16) ≡ 16 = omega arith in
          (
            record {
              registers = record p.registers { rsp = sub_64 r 16 };
              stack = r ∷ r ∷ p.stack;
            },
            rw (cut, none_cut, zero_cut) refl,
            rw two refl,
          )
      | inr odd ↦
          let some_cut : sub_64 r 16 / 16 * 16 ≡ sub_64 r 24 = ground (arith, at_word) in
          let eight : sub_64 r 16 - sub_64 r 24 ≡ 8 = ground (arith, at_word, odd) in
          let three : sub_64 r (sub_64 r 24) ≡ 24 = omega arith in
          (
            record {
              registers = record p.registers { rsp = sub_64 r 24 };
              stack = gap ∷ r ∷ r ∷ p.stack;
            },
            rw (cut, some_cut, eight) refl,
            rw three refl,
          )
    ]

isr_common_lem :
    {W : Type 0} (gap : ℕ) (itr : Interrupts W) (r : Registers) (vector error rip' cs' rflags' : ℕ)
    (rest : List ℕ) (w : W)
    → r.rsp < 2 ^ 64
    → r.rsp % 8 ≡ 0
    → isr_common gap itr
        (record {
          registers = record r { rsp = sub_64 r.rsp 16 };
          stack = vector ∷ error ∷ rip' ∷ cs' ∷ rflags' ∷ rest;
        })
        w
      ≡ (itr_dispatch itr
            (record {
              registers = record r { rsp = sub_64 r.rsp 48 };
              vector = vector;
              error_code = error;
              rip = rip';
              cs = cs';
              rflags = rflags';
            })
            w
          >>= λ w'. done (record { registers = r; stack = rip' ∷ cs' ∷ rflags' ∷ rest }, w'))
unfolding isr_common save_registers context_of restore_registers
isr_common_lem gap itr r vector error rip' cs' rflags' rest w word at_word =
    let pushed : sub_64 (sub_64 r.rsp 16) 32 ≡ sub_64 r.rsp 48 = omega arith in
    let here : (sub_64 r.rsp 48 == u64 (sub_64 (sub_64 r.rsp 16) 128 + 96)) ≡ true = ground arith in
    let back : u64 (sub_64 r.rsp 48 + 48) ≡ r.rsp = omega arith in
    let (a, goes, comes) =
      align-leave gap
        (save_registers (record {
          registers = record r { rsp = sub_64 r.rsp 16 };
          stack = vector ∷ error ∷ rip' ∷ cs' ∷ rflags' ∷ rest;
        }))
        (omega arith) (omega (arith, at_word)) in
    rw (goes, comes, pushed, here, back) refl

unlisted-agree : (v : ℕ) → v ≢ 21 → v ≢ 29 → v ≢ 30 → has_dummy v ≡ not (pushes_error_code v)
unlisted-agree v a b c = ground (arith, a, b, c)

-- For every vector but 21, 29 and 30, with RSP a 64-bit word and the address of
-- a word, and whatever lies below the stack, the routine calls `itr_dispatch` with a
-- context that has the vector, the registers, the return address, the flags and the processor's
-- error code, or 0 where there is none; if that returns, every register is as it was and the stack
-- is what `iretq` needs.
pub isr_lem :
    {W : Type 0} (gap : ℕ) (itr : Interrupts W) (r : Registers) (vector error rip' cs' rflags' : ℕ)
    (rest : List ℕ) (w : W)
    → r.rsp < 2 ^ 64
    → r.rsp % 8 ≡ 0
    → vector ≢ 21
    → vector ≢ 29
    → vector ≢ 30
    → isr vector gap itr (entered vector error r (rip' ∷ cs' ∷ rflags' ∷ rest)) w ≡ (
        itr_dispatch itr (context_with vector error r rip' cs' rflags') w >>= λ w'.
        done (record { registers = r; stack = rip' ∷ cs' ∷ rflags' ∷ rest }, w'))
unfolding isr isr_push
isr_lem gap itr r vector error rip' cs' rflags' rest w word at_word a b c =
    elim (Bool-cases (pushes_error_code vector)) [
      | inl on ↦
          let none_pushed : has_dummy vector ≡ false = unlisted-agree vector a b c ∙ ap not on in
          let eight : sub_64 (sub_64 r.rsp 8) 8 ≡ sub_64 r.rsp 16 = omega arith in
          rw (on, none_pushed, eight)
            (isr_common_lem gap itr r vector error rip' cs' rflags' rest w word at_word)
      | inr off ↦
          let pushed : has_dummy vector ≡ true = unlisted-agree vector a b c ∙ ap not off in
          rw (off, pushed) (isr_common_lem gap itr r vector 0 rip' cs' rflags' rest w word at_word)
    ]
