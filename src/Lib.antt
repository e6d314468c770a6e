-- ===== src/Lib.antt =====
-- YmirC is a type-1 hypervisor for AMD SVM that boots one Linux guest. Its parts, and the files
-- that model them:
--
-- Words and memory. ymirc/bits.h is Bits; ymirc/mem.h and ymirc/mem.c are Mem, with `memcpy` and
-- its kin in Mem/Bytes on memory as a function from addresses to bytes. A C function that stores
-- through a pointer returns the new value. `virt2phys` and `phys2virt` take the global
-- `mapping_reconstructed` as an argument.
--
-- Memory allocation. ymirc/page_allocator.c is PageAlloc: its static variables are the record
-- `PageAllocator`, and `alloc`, `free` and `alloc_aligned_pages` return the new one. The bitmap is
-- a function from line to word. `alloc` runs with fuel `frame_end + 1`: each round of its loop
-- moves the start by at least one frame and a start past the last managed frame ends it, so the
-- fuel is enough, and so it is for `alloc_aligned_pages` with a positive alignment.
-- ymirc/bin_allocator.c is BinAlloc: the free lists of small chunks over any page allocator, whose
-- calls are a parameter. PageAlloc/Boot is `page_allocator_init`, over the firmware's memory map
-- as a list of descriptors.
--
-- The host's devices. Ports is the boundary: an access to a port is an event of a history, newest
-- first, and a device is any function from the history to the value read. ymirc/arch/x86/pic.h and
-- pic.c are Pic; ymirc/serial.h and ymirc/arch/x86/serial.c are Serial, whose polling loops take
-- the number of polls as fuel.
--
-- The virtual CPU. Vcpu has the state of svm_vcpu.h, svm_vmcb.h, svm_common.h and
-- svm_ioio_guest_state.h (all under ymirc/arch/x86): the fields of the control block that the
-- program uses and the general registers. Ioio is svm_ioio.c: Ioio/Uart, Ioio/Pit and Ioio/Pic
-- have the handlers of each device, Ioio/Dispatch the ranges of ports. Msr is svm_msr.c and Cpuid
-- is svm_cpuid.c, with the processor's CPUID instruction as a parameter. Irq has `inject_ext_intr`
-- and `intr_subscriber_callback` of svm_vcpu.c, Irq/Answer describes the answer of the first, and
-- Exit its `handle_exit`, which calls all of these. The interrupts that the host takes between
-- `stgi` and `clgi` are lists of vectors in `Env`; the loop of the HLT exit takes one such list a
-- round, so that the lists are its fuel. `panic`, `svm_vcpu_abort`, undefined behaviour and the
-- end of fuel are the four values of `Stop`. Setup has the set-up of the control block and of the
-- two permission maps in svm_vcpu.c, and Setup/Create the creation of the virtual CPU. Exit/Loop
-- is the endless loop of `svm_vcpu_loop`, as runs over a list of rounds, each with the guest's
-- behaviour from VMRUN to #VMEXIT as a function on its registers and control block, and as the
-- step relation `Round`. Exit/Kept has what no exit changes.
--
-- Nested paging. ymirc/arch/x86/svm_npt.c is Npt: tables stand in memory, a function from the
-- address of a 64-bit word to its value, and the page allocator is the parameter `TableSource`,
-- whose contract is the record `Supplies`. Npt/Walk describes the processor's translation of an
-- address, apart from the code. Npt/Tree says what tables may look like, Npt/Grow and Npt/Ensure
-- follow a new table, Npt/Mapping a new page, Npt/Range the loop, and Npt/Translation the
-- processor's walk of such tables; Npt/Backed has the page allocator of PageAlloc keep the
-- contract. Pages is ymirc/arch/x86/page.c, over the same memory and allocator; `memcpy` of a
-- table goes word by word, and CR3 and `mapping_reconstructed` are arguments and results of
-- `reconstruct`. Pages/Holds says which tables can be cloned and counts them, Pages/Direct follows
-- the direct mapping and Pages/Kernel the clones; Pages/Walk describes the processor's translation
-- for the kernel.
--
-- Boot. ymirc/linux.h is Linux and ymirc/arch/x86/vm.c is Vm: packed structures are bytes and
-- their fields offsets. Vm/Loading has `load_kernel`, Vm/Whole the regions that it leaves,
-- Vm/Guest `setup_guest_memory`, which calls it, the page allocator, `init_npt` and
-- `svm_vcpu_set_npt`, and Vm/Vendor the tests of the processor in `vm_new`. The guest's bytes and
-- the words of the tables are kept apart, since the page allocator hands out no frame twice; a
-- copy that leaves the guest's memory, as for an image shorter than its setup sectors, is seen on
-- the guest's bytes only. Loader has the computations on program headers of surtrc/boot.c, and
-- Loader/Tables page.c under surtrc/arch/x86 and the loop of boot.c that maps the image of the
-- kernel: the firmware's AllocatePages is the parameter `Firmware`, whose contract is the record
-- `FirmwareLaws`. Loader/Tables/Mapping reads `map_4k_to` level by level, Linked and Mapped follow
-- one page, Region, Filling and Round the tables that the loop builds, and Translation and Offsets
-- the processor's walk. Loader/Tables/Protect is the part of `load_segment` that sets the
-- attributes of pages.
--
-- Interrupts of the host. ymirc/arch/x86/interrupt.c is Dispatch, over any state of the rest of
-- the program; Dispatch/Timer puts the handlers of ymirc/main.c and the virtual CPU's subscriber
-- into it. Dispatch/Stubs is isr.c (under ymirc/arch/x86), where the stack is a list of words at
-- the address RSP; the word that the alignment of the stack may uncover is the argument `gap`.
-- gdt.c and idt.c (under ymirc/arch/x86) are Descriptors. ymirc/log.c is Log, where what is
-- written is a list of characters and the fuel of `write_int` is 11, one more than an `int` has
-- digits.
--
-- Prelude has the native numbers, Boolean tests, words of fixed width, the bits of a number and
-- the results of functions that may stop. Tests has runs at fixed inputs.
--
-- Not modelled: the names of exceptions, the firmware's calls in the loader, the saving and
-- loading of registers around VMRUN in ymirc/arch/x86/svm_asm.c, and other inline assembly.
pub mod Prelude
pub mod Bits
pub mod Mem
pub mod PageAlloc
pub mod BinAlloc
pub mod Ports
pub mod Pages
pub mod Pic
pub mod Serial
pub mod Vcpu
pub mod Ioio
pub mod Cpuid
pub mod Irq
pub mod Msr
pub mod Exit
pub mod Npt
pub mod Dispatch
pub mod Descriptors
pub mod Loader
pub mod Log
pub mod Linux
pub mod Vm
pub mod Setup
pub mod Tests
