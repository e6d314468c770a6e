-- ===== src/Tests/Exits.antt =====
-- The exits of the guest of `Guest` at fixed values.
use ymirc.Prelude.{◌≡◌, refl, arith, [], ◌∷◌, done}
use ymirc.Vcpu.{SvmVcpu, Machine, set_rax}
use ymirc.Ioio.Dispatch.{handle_svm_ioio_exit, handle_ioio_in}
use ymirc.Ioio.Pic.{handle_pic_in, read_mask}
use ymirc.Ioio.Contained.{IsContained}
use ymirc.Ioio.Contained.Handlers.{handle_svm_ioio_exit-IsContained}
use ymirc.Cpuid.{HostCpuid, handle_svm_cpuid_exit}
use ymirc.Cpuid.Answers.{CpuidReply, handle_svm_cpuid_exit-CpuidReply}
use ymirc.Irq.{inject_ext_intr}
use ymirc.Irq.Answer.{Answer, inject_ext_intr-Answer}
use ymirc.Exit.{Env, exit_switch, handle_exit, step_next_inst}
use ymirc.Ports.{output, dword}
use ymirc.Ioio.Dispatch.{handle_ioio_out}
use ymirc.Ioio.Pit.{handle_pit_out}
use ymirc.Exit.Progress.{handle_exit-Advanced}
use ymirc.Tests.Guest.{guest, machine, ones}

-- IN AL, 0x21: the byte of the mask register.
abbrev port_read : Machine
port_read = machine 0x7B 0x210011 0

-- OUT 0x47, EAX: a double word at the last of the timer's ports.
abbrev port_write : Machine
port_write = machine 0x7B 0x470040 0

abbrev port_written : Machine
port_written = record port_write { io = output dword 0x47 0x11 ∷ [] }

write_runs : handle_svm_ioio_exit 1 ones port_write ≡ done port_written
unfolding handle_svm_ioio_exit handle_ioio_out handle_pit_out
write_runs = refl

handle_svm_ioio_exit-IsContained_example : IsContained port_write port_written
handle_svm_ioio_exit-IsContained_example =
    handle_svm_ioio_exit-IsContained 1 ones port_write write_runs

abbrev pub host : HostCpuid
host leaf sub = record { eax = 0x00A20F10; ebx = 0; ecx = 0x3FF; edx = 0x2FD3FBFF }

abbrev pub env : Env
env = record { polls = 1; dev = ones; host = host; windows = (35 ∷ []) ∷ (36 ∷ []) ∷ [] }

handle_svm_cpuid_exit-CpuidReply_example :
    CpuidReply 0x11 1 (machine 0x72 0 1) (handle_svm_cpuid_exit host (machine 0x72 0 1))
handle_svm_cpuid_exit-CpuidReply_example =
    handle_svm_cpuid_exit-CpuidReply host (machine 0x72 0 1) (omega arith)

-- Lines 4 and 12 are pending, and line 0 was injected and is not yet taken.
abbrev waiting : SvmVcpu
waiting = record (guest 0x60 0 0) {
  pending_irq = 0x1010;
  vmcb = record (guest 0x60 0 0).vmcb { v_irq = 1; v_intr_vector = 0x30 };
}

inject_ext_intr-Answer_example : Answer waiting (inject_ext_intr waiting)
inject_ext_intr-Answer_example = inject_ext_intr-Answer waiting

abbrev interrupted : Machine
interrupted = record { vcpu = waiting; io = [] }

port_exit : handle_exit env port_read ≡ done (step_next_inst (set_rax 0 port_read))
unfolding handle_exit exit_switch handle_svm_ioio_exit handle_ioio_in handle_pic_in read_mask
port_exit = refl

handle_exit-Advanced_example : (step_next_inst (set_rax 0 port_read)).vcpu.vmcb.rip ≡ 0x100002
handle_exit-Advanced_example = handle_exit-Advanced env port_read refl port_exit
