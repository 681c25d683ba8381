-- ===== src/Lib.antt =====
-- Cardinal2: a kernel for x86-64.
--
-- GRUB starts the kernel with a multiboot2 header. The kernel takes over the memory map, sets up
-- page tables, segments and interrupts, and starts the timers and the local interrupt controllers.
-- Memory comes from the allocator of early boot (bootstrap_alloc.c) at first, later from the page
-- allocator (pagealloc.c), whose free blocks stand in the queue of containers/queue.c. Every device
-- gets its interrupt vectors and handlers from interrupts/idt.c.
--
-- Which file models which part:
-- Base: names that all files share, C arrays as lists (Base/Array), machine words (Base/Word), code
--   that may stop in PANIC (Base/Monad), lemmas on bit operations (Base/Bits).
-- Queue: kernel/src/containers/queue.c, with `queue_t` of kernel/inc/containers/queue.h. The functions keep
--   their names without the prefix: `try_enqueue` is `queue_tryenqueue`.
-- Pagealloc: kernel/src/pagealloc.c: the packed entries (Pagealloc/Entry), the sort (Pagealloc/Sort),
--   `compact_queue`, `pagealloc_free`, `pagealloc_alloc` and `pagealloc_init` (Pagealloc/Init).
-- Interrupts: kernel/src/interrupts/idt.c: handlers and vectors, the saved registers
--   (Interrupts/Frame), `idt_mainhandler` (Interrupts/Dispatch), the stubs and descriptors
--   (Interrupts/Entries), the assembly of `idt_defaulthandler` on a processor with its stack
--   (Interrupts/Entry, Interrupts/Saved, Interrupts/Return), an interrupt as a whole (Interrupts/Roundtrip, which
--   names the documented error codes of the processor, Interrupts/Resume), and one that goes over to another task (Interrupts/Switch);
--   kernel/src/interrupts/gdt.c in Interrupts/Gdt and Interrupts/TaskState.
-- Endian: the byte orders and model-specific registers of kernel/inc/kerndefs.h.
-- Memory: kernel/src/memory.c, on a memory of bytes.
-- Stdlib: kernel/src/stdlib.c: numbers as text and back (Stdlib/Digits, Stdlib/Number, Stdlib/Hex), and the hooks of allocation.
-- Bootstrap: kernel/src/bootstrap_alloc.c.
-- Debug: kernel/src/debug.c: text on the frame buffer (Debug/Screen) and on the serial port (Debug/Serial,
--   Debug/Transmit), the shell (Debug/Shell) as an editor of lines (Debug/Editing, Debug/Session), the trap behind
--   PANIC (Debug/Trap), numbers and memory in base 16 (Debug/Digits). Functions for output and input are
--   parameters; `Sends`, `Receives` and `Transmits` name what is documented of them.
-- Spinlock: kernel/inc/local_spinlock.h, as steps of any number of processors.
-- Mp: kernel/src/mp.c: thread-local storage and default registers.
-- Vmem: kernel/src/vmem.c: the walks over the tables (Vmem/Walk), the functions of
--   kernel/inc/vmem.h on them (Vmem/Calls, Vmem/Init). The pages of the tables come from an interface,
--   `PageSource`, which Vmem/Supply fills with `pagealloc_alloc`.
-- Bootinfo: kernel/src/bootinfo.c. What it stores is what `pagealloc_init` reads (Pagealloc/Init).
-- Boot: kernel/src/main.c: the calls in their order, each on what the others have left.
-- Acpi: kernel/src/acpi.c.
-- Cpuid: `cpuid_manufacturer` of kernel/src/cpuid.c.
-- Apic: kernel/src/interrupts/apic.c, with the timer in Apic/Timer. The processor's registers, the memory
--   of its devices and its ports are an interface, `Machine`.
-- Ioapic: kernel/src/interrupts/ioapic.c on a `Machine`; Ioapic/Nearest is about its search for a controller, Ioapic/Redirect names the documented behaviour of
--   a controller's two words (`Window`).
--
-- Numbers are natural numbers; a C integer keeps its wrap-around written out. Pointers that may be
-- NULL are options, and a PANIC is an outcome of its own. Where the code takes a lock, the model
-- follows one processor: a lock that is held is waited for in vain (`stuck`).
--
-- Loops whose bound the code does not state are given fuel that is enough:
-- `quicksort_pgs` gets `hi - lo + 2` rounds, as each call sorts a shorter window; `free_loop` gets one
-- round for each chunk of 2 ^ 20 pages and one more; `digits_loop` gets one for each bit; `serial_output` gets one more than the
-- reads of the status that a byte may take; a loop over a string
-- needs one round for each of its bytes and one for the terminator. A walk over page tables has the four levels, and a loop over a
-- table the entries that are left in it; `vmem_unmap` has one round, since its size is 0. A loop over
-- tables of the boot loader or of ACPI gets 2 ^ 32 rounds: its 32-bit offset decides how it goes on.
--
-- Not modelled: inline assembly but that of `idt_defaulthandler`, ports and the font of kernel/inc/font.h, which are parameters where
-- the code depends on them; kernel/inc/multiboot2.h, a file of the multiboot2 specification, beyond the tags that
-- bootinfo.c reads.
pub mod Acpi
pub mod Apic
pub mod Base
pub mod Boot
pub mod Bootinfo
pub mod Bootstrap
pub mod Cpuid
pub mod Debug
pub mod Endian
pub mod Interrupts
pub mod Ioapic
pub mod Memory
pub mod Mp
pub mod Pagealloc
pub mod Queue
pub mod Spinlock
pub mod Stdlib
pub mod Vmem
