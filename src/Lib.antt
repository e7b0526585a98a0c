-- ===== src/Lib.antt =====
-- Aether OS: a verification of the kernel's C code.
--
-- Aether OS is a small 32-bit x86 kernel. At boot it sets up the descriptor tables, the interrupt
-- controllers, the heap, the timer and the keyboard, then a process table with a round-robin scheduler
-- that the timer interrupt drives; user programs call it through interrupt 0x80, and everything it says
-- goes to the text console. A shell reads commands from the keyboard; an exception ends in a panic
-- screen.
--
-- Which file models which part:
-- - Memory models src/kernel/memory.c and include/memory.h. A block header is a record in a store
--   indexed by address; NULL is address 0; uint32_t arithmetic is modulo 2^32. Memory.Layout says when
--   the headers form a list that fills the heap without gaps, Memory.Alloc and Memory.Release are the
--   specification on the list of blocks: first fit with splitting, and joining of free neighbours.
--   Memory.Resize has krealloc and kcalloc, Memory.Stats the statistics, Memory.Bytes memset, memcpy
--   and memcmp.
-- - Process models src/kernel/process.c and include/process.h. A process_t* is the index of a slot of
--   process_table. The record Kernel holds the statics of process.c and scheduler.c. Process.Pids is
--   the search for a slot, Process.Create and Process.Spawn are process_create, Process.Destroy is
--   process_destroy, Process.Orphans and Process.Reparent its two loops, Process.Rounds the fuel of
--   the second, Process.Destroyed the whole.
-- - Scheduler models src/kernel/scheduler.c. Scheduler.Queue says when the links in the table form the
--   queue of given processes; Scheduler.Ops and Scheduler.Leave are the two operations on it,
--   Scheduler.Robin one turn, Scheduler.Fair scheduler_yield and scheduler_tick.
-- - Timer models src/kernel/timer.c, whose handler calls the scheduler's tick and then acknowledges the
--   interrupt, unless the tick has switched away; Timer.Sleep is timer_sleep_ticks over the
--   interrupts that end each hlt.
-- - Keyboard models src/kernel/keyboard.c: Keyboard.Ring its ring of characters, Keyboard.Typed the
--   scancode handler and console_readline.
-- - Descriptors models src/kernel/gdt.c, src/kernel/tss.c and src/kernel/idt.c; Pic models
--   src/kernel/pic.c; Syscall models src/kernel/syscall.c, what a call prints included.
-- - Console models src/kernel/printk.c: Console.Screen and Console.Scroll the cells of the screen,
--   Console.Digits the conversion of numbers, Console.Printk the format loop and the log levels. A
--   variable argument is a word or a string. Console.Printk.Render is the specification, the text of a
--   format with its arguments.
-- - Paging models src/kernel/paging.c and include/paging.h on words by address. Paging.Tables says when a
--   directory and its tables do not overlap, and what a write to an entry does to every translation;
--   Paging.NewTable is the branch that makes a table, Paging.Map the two operations, Paging.Identity
--   the identity map, Paging.Boot tables off a page boundary. The heap is that of Memory; the header
--   words that kmalloc writes are among the words, and Paging.Headers says which words they leave.
-- - Panic models src/kernel/panic.c: Panic.Irq the dispatch of hardware interrupts to Timer, Keyboard and
--   Pic, Panic.Echo what they show on the console, Panic.Screen and Panic.Blind the calls on the
--   console that isr_handler makes.
-- - Shell models src/kernel/shell.c: Shell.Words the command line, Shell.Pids the number in `ps info`,
--   Shell.Commands the commands that change the kernel or the heap.
-- - Usermode models src/kernel/usermode.c on bytes by address: Usermode.Copy the copy of a program,
--   Usermode.Frame the stack frame for iret, Usermode.Ready the whole.
-- - Base holds the numbers, lists, tests and 32-bit words that these share.
-- Each part has a module Tests with runs of it and uses of its theorems at concrete states.
--
-- Bounds and fuel: the walks of memory.c over the block list take as fuel one step more than headers
-- fit into the heap, and a well-formed heap's list is never longer. The digit loop of utoa has the 32
-- steps of printk's buffer. The loop of process_destroy over the children has 16 steps, the places that a
-- process has for children. The other loops are structural.
--
-- What comes from outside the C code is an argument: the values that I/O ports read as, CR2, the registers
-- that context_switch (assembly) saves, the addresses of the interrupt stubs and of the user
-- programs, the memory that a user pointer points into.
--
-- Not modelled: cmd_paging, the endless loop of the shell, log lines and listings that only print
-- (except those of the system calls, with that of process_exit at the exit call), and all assembly
-- (loading CR3, enabling paging, switching contexts, entering ring 3); kernel.c only calls the
-- initialisers.
pub mod Base
pub mod Console
pub mod Descriptors
pub mod Keyboard
pub mod Memory
pub mod Paging
pub mod Panic
pub mod Pic
pub mod Process
pub mod Scheduler
pub mod Shell
pub mod Syscall
pub mod Timer
pub mod Usermode
