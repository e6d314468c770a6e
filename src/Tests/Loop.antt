-- ===== src/Tests/Loop.antt =====
-- The loop of `svm_vcpu_loop`, from the set-up of a virtual CPU by `vm_init` on.
use ymirc.Prelude.{ℕ, ◌+◌, ◌≡◌, refl, List, false, [], ◌∷◌, done}
use ymirc.Bits.{tobit, set_fields, trailing_zeros, ctz, masked, set_masked_bits}
use ymirc.Mem.{virt2phys, phys2virt}
use ymirc.PageAlloc.{
  PageAllocator, alloc, alloc_loop, scan, take_frames, mark_allocated, mark, set_frame_status,
  frame_status_at, alloc_aligned_pages, aligned_loop,
}
use ymirc.Ports.{History, set_msr}
use ymirc.Vcpu.{Vmcb, SvmVcpu, Machine}
use ymirc.Setup.{
  control_fields, state_fields, iopm_contents, msrpm_contents, setup_vmcb_seg, setup_vmcb_msr,
  setup_vmcb_ioio, setup_vmcb, svm_vcpu_setup_guest_state, svm_vcpu_set_npt,
}
use ymirc.Setup.Segments.{flat}
use ymirc.Setup.Create.{zero_vmcb, zero_regs, zero_seg, svm_vcpu_new, svm_vcpu_virtualize, vm_init}
use ymirc.Exit.{Env, handle_exit, exit_switch}
use ymirc.Exit.Loop.{Guest, svm_vcpu_loop, asm_vmrun}
use ymirc.Exit.Kept.{walls, Permitted}
use ymirc.Exit.Confined.{closed, Placed, confined}
use ymirc.Tests.Exits.{env}

abbrev small : PageAllocator
small = record { bitmap = λ _. 0; frame_end = 16; reserved = [] }

abbrev block : Vmcb
block = record (state_fields (control_fields 1 zero_vmcb)) {
  cs = flat 0xC9B zero_seg;
  ds = flat 0xC93 zero_seg;
  es = flat 0xC93 zero_seg;
  fs = flat 0xC93 zero_seg;
  gs = flat 0xC93 zero_seg;
  ss = flat 0xC93 zero_seg;
  msrpm_base_pa = 0x3000;
  intercept_msr_prot = 1;
  iopm_base_pa = 0x5000;
  intercept_ioio_prot = 1;
}

abbrev created : SvmVcpu
unfolding svm_vcpu_new
created = record (svm_vcpu_new 1 0x3F8) {
  vmcb = block;
  vmcb_phys = 0x2000;
  guest_regs = record zero_regs { rsi = 0x10000 };
}

abbrev events : History
events = set_msr 0xC0000080 0x1500 ∷ set_msr 0xC0010117 0x1000 ∷ []

started :
    (pa' : PageAllocator) × (vm_init false 0x500 small (svm_vcpu_new 1 0x3F8) []
      ≡ done (created, msrpm_contents, iopm_contents, events, pa'))
unfolding vm_init svm_vcpu_new svm_vcpu_virtualize alloc alloc_loop scan alloc_aligned_pages
    aligned_loop take_frames mark_allocated mark set_frame_status frame_status_at
    svm_vcpu_setup_guest_state setup_vmcb setup_vmcb_seg setup_vmcb_msr setup_vmcb_ioio set_fields
    set_masked_bits ctz trailing_zeros masked tobit virt2phys phys2virt
started = (_, refl)

-- A guest that runs VMMCALL.
abbrev calls : ℕ → Guest
calls exitcode regs b =
    (record regs { rbx = 7 }, record b { exitcode = exitcode; nrip = b.rip + 3 })

abbrev launched : Machine
unfolding svm_vcpu_set_npt
launched = record { vcpu = svm_vcpu_set_npt false 0x8000 0x200000 created; io = events }

abbrev second : Machine
second = record launched {
  vcpu = record launched.vcpu {
    guest_regs = record launched.vcpu.guest_regs { rbx = 7 };
    vmcb = record launched.vcpu.vmcb { exitcode = 0x81; nrip = 0x100003; rip = 0x100003 };
  };
}

abbrev rounds : List (Guest × Env)
rounds = (calls 0x81, env) ∷ []

one_round : svm_vcpu_loop rounds launched ≡ done second
unfolding svm_vcpu_loop asm_vmrun handle_exit exit_switch svm_vcpu_new svm_vcpu_set_npt
one_round = refl

confined_example :
    (walls second.vcpu.vmcb ≡ closed 1 0x5000 0x3000 0x8000)
    × (msrpm_contents ≡ msrpm_contents)
    × (iopm_contents ≡ iopm_contents)
    × Placed false created.vmcb started.0
    × (second.vcpu.serial ≡ created.serial)
    × (second.vcpu.guest_base ≡ virt2phys false 0x200000)
    × Permitted created.serial events second.io
unfolding launched created
confined_example =
    confined false 0x500 small 1 0x3F8 [] 0x8000 0x200000 rounds {pa' = started.0} started.1
      ((λ regs b. refl), tt) one_round
