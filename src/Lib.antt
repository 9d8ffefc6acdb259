-- ===== src/Lib.antt =====
-- The verification library of Delice OS: its boot loader, bootloader/delice_pxe, and the two tools
-- that stand beside it, the ELF flattener elf_parse and the memory routines memlib.
--
-- The assembly first stage brings a processor into long mode and enters start_kernel. It runs the
-- constructor of the lock, finds the serial ports in the BIOS data area, maps the page of the local
-- APIC and tests which kind of processor it runs on. The bootstrap processor prints the memory map,
-- loads the interrupt table, looks for the processors in the firmware's tables, enables its APIC and
-- runs a counted loop; any other prints its number. Every message goes through printf, which takes a
-- ticket lock and writes to the serial ports; the interrupt handler prints too.
--
-- How the code is modelled. The byte memory is a function from addresses; what changes memory only is
-- a function from memory to memory. What reaches a device runs on a Machine, the memory and the list
-- of the instructions issued, the latest first; a Hardware parameter gives the devices' answers from
-- that list. The lock of printf and the serial devices are a record of their own (Console), which is
-- put into the byte memory while load_idt and Apic::init store to computed addresses, and read from it
-- behind them. A run (Run) returns, stays in an empty loop for ever, or has used up the fuel of a
-- polling loop. Numbers are natural numbers with the wrap to the width of the type written out, and an
-- int of the array searches is an integer without a bound.
--
--   Base, Samples     names, operators and lemmas that all share; machines for the tests
--   FirstStage        bootloader/firststage/bootloader.s: its page tables and what map_addr leaves of
--                     them; FirstStage/Turn is the wait for the boot stack, FirstStage/Stacks the
--                     stacks, FirstStage/MemoryMap the memory map from the BIOS, and
--                     FirstStage/Modes the change of modes with the descriptor tables;
--                     FirstStage/Sequence takes processors through it and start_kernel in turn
--   Memory            memset of bootloader/delice_pxe/src/interrupt.cc, which src/stdlib.cc holds
--                     once more; words in byte memory
--   Memlib            memlib/memcpy.cc: memlib_memset and memmove
--   Paging            bootloader/delice_pxe/src/paging.cc: map_addr; Paging/Walk is the processor's
--                     own walk over the tables
--   Elf               elf_parse/src/parser.cc and include/parser.h: main, which turns the loaded
--                     sections of an executable into a flat image
--   Machine           the instructions; port I/O of includes/misc/io.h in Machine/Io
--   Cpu               includes/misc/cpu.h: APIC registers, model-specific registers, cpuid; the
--                     time stamp counter and the fences are in Cpu/Clock
--   Serial            src/serial.cc: ComDevices::init and ComDevices::write
--   Lock              includes/atomic.h: Lock, lock and Guard as steps of any number of threads;
--                     Lock/Refines relates them to a queue, Lock/Runs and Lock/Fair are about runs,
--                     Lock/Cell about the value that the lock protects
--   Console           src/printf.cc as far as it is the kernel's own: printf_ and _out_char;
--                     Console/Shared is about calls of it on several processors at once
--   Interrupt         src/interrupt.cc: set_interrupt_gate, load_idt and interrupt_handler, over
--                     descriptors, without the memory; Interrupt/Table is load_idt with its stores to
--                     memory, which start_kernel runs;
--                     Interrupt/Entry is src/interrupt.s, the entry points around the handler
--   Apic              src/apic.cc: memcmp, check_rsdt, iterate_check (walk is its inner loop), both
--                     check_apic (check_apic_id is the one with an argument), enable_lapic and others
--   Perf              src/perfctr.cc and includes/perfctr.h: binarySearch is binary_search
--   Init              src/init.cc and includes/misc/init.h: start_kernel; Init/Start is about the
--                     application processors, Init/Boot about the bootstrap processor; Init/Objects is
--                     about the lock and the devices in memory
-- (Paths without a first directory of their own are under bootloader/delice_pxe.)
--
-- Fuel. The loops with a bound known at their start are recursion on the rounds left. The polling
-- loops of the serial port and of the lock and the walk over the MADT, which may go round for ever,
-- binary_search, check_apic_id and the loop over the entries of the BIOS take fuel; a theorem about
-- their result says how much is enough, or that none is.
--
-- Not modelled: the formatter of src/printf.cc, a copy of a printf library, which is a parameter
-- (Formatter); what open and the BIOS answer, which are parameters (Bios); the output stream
-- and the mapping of the ELF tool, which are taken to work; the addresses that the linker chooses,
-- which are parameters (Places); the pointer to the formatter that the lock protects; the vector
-- registers, which no entry point saves; the boot stack of the first stage, which holds return
-- addresses alone; the functions nothing and get_current_ip, which are assembly; screen.cc, which has
-- no code.
pub mod Apic
pub mod Base
pub mod Console
pub mod Cpu
pub mod Elf
pub mod FirstStage
pub mod Init
pub mod Interrupt
pub mod Lock
pub mod Machine
pub mod Memlib
pub mod Memory
pub mod Paging
pub mod Perf
pub mod Samples
pub mod Serial
