-- ===== src/Lib.antt =====
-- The kernel and the user library of the 64-bit shell OS: an operating system in C for one processor,
-- with preemptive processes, semaphores, pipes, a text console and a shell.
--
-- The parts, and the file that models each (paths from the repository's root):
--   Heap        Kernel/utils/MemoryManagerADT.c and mm.c, the allocator of the default build
--   Buddy       Kernel/utils/MemManBuddy.c, the other allocator
--   Process, Candidates, Scheduler
--               Kernel/utils/scheduler.c: the list of processes and the loops over it; the loops
--               that look for the next process; switchProcess, createProcess, killPid,
--               exitCurrentProcess, changeProcessPriority, changeProcessState
--   Semaphores  Kernel/utils/semaphore.c: sem_open, sem_close, sem_wait, sem_post and
--               deleteProcessFromSemaphores
--   Pipes       Kernel/utils/pipes.c: pipeWrite and pipeRead; Pipes/Channel is the bounded queue of
--               bytes that a pipe stands for
--   PipeTable   Kernel/utils/pipes.c: createPipe, openPipeId, closeFdPipe and the table of pipes
--   Kernel      the interrupts of Kernel/interruptions/irqDispatcher.c and the system calls exit,
--               killProcess, sleep and write, and those on semaphores, pipes and processes, over
--               the state of all these parts together (Kernel/Calls, Kernel/Events)
--   Console     Kernel/naiveConsole.c: the screen, ncPrintChar, ncNewline, ncClear, ncBackspace
--   Timer       Kernel/interruptions/time.c: ticks and sleepers
--   ProcessMemory
--               Kernel/utils/scheduler.c: the blocks of the heap that loadProcess takes for a process
--               and deleteProcess gives back
--   Exceptions  Kernel/interruptions/exceptions.c: the message of an exception and the wait for a key
--               before the shell starts again
--   Keyboard    Kernel/interruptions/keyboard.c and the ring of waiting processes in scheduler.c
--   Input       read of Kernel/interruptions/syscalls.c
--   Interrupts  Kernel/interruptions/idtLoader.c
--   Dispatch    Kernel/interruptions/syscallDispatcher.c: the function and the arguments of a system
--               call
--   Memory      Kernel/lib.c and Kernel/moduleLoader.c
--   Reports     the texts of printProcessList, printSemaphores, printPipes, printmem and ncPrintReg
--   Boot        Kernel/kernel.c: the modules and the BSS before main, and the first process
--   Packer      Toolchain/ModulePacker/main.c, which writes the image that moduleLoader.c reads
--   Shell       Userland/SampleCodeModule/apps.c and builtin.c: the command line, pipes between
--               programs, the programs over text, and createProcess of libc.c
--   Programs    Userland/SampleCodeModule/apps.c and builtin.c: p1 to p5, loop and the commands of the
--               shell as the system calls that they make, with printf, putChar and printInt of libc.c
--   SyncTest    Userland/SampleCodeModule/tests/test_sync.c: the processes of test_sync and their
--               steps between two interrupts
--   MemoryTest  Userland/SampleCodeModule/tests/test_mm.c and test_util.c, over the allocator of Heap
--   Text        numbers and texts: Userland/SampleCodeModule/libc.c, uintToBase and itos of
--               Kernel/naiveConsole.c, and the arguments that createProcess of libc.c joins and
--               createProcessWrapper of scheduler.c splits
--   Philo       Userland/SampleCodeModule/philo.c, the dining philosophers
-- Base holds the helpers that all of them use.
--
-- A C function is a function of the state that it reads and writes, in the order of its
-- statements, under its name with underscores. The C objects behind pointers are known by their
-- addresses (pipes, descriptors, blocks) or by their pids (processes). Values of alloc, the scan code
-- of getKey and the addresses of assembly routines are arguments, and so is what the memory that alloc
-- gives holds where the code leaves it unset: the next of the first process's node, the garbage of
-- semaphores and pipes. The node of a process that is gone keeps its contents while it is the current
-- one, and a wake-up still writes to it. The result none of an Option, or
-- the outcome faults, is an access through the null pointer or past an object; the outcome spins is
-- a busy wait that never ends, for interrupts are off in a system call. runScheduler gives up
-- the processor: what a process does before it and what it does when it is resumed are two
-- functions, and the processes round a semaphore are a step relation (Semaphores/Wakeups).
-- The parts meet through values: a process that a semaphore, a pipe, the timer or the keyboard wakes
-- is a result, which Scheduler.wake takes; the process that killPid or exitCurrentProcess removes
-- is a result, which delete_process_from_semaphores and delete_process_from_pipes take. Kernel puts
-- them together: its events are interrupts and system calls, each up to its end or to runScheduler.
--
-- Numbers are natural numbers; unsigned int, int and 64-bit values are taken modulo 2 ^ 32 and 2 ^ 64
-- where the code can pass those bounds.
-- Fuel: a number of 64 bits has at most 64 digits in a base from 2 on; a line of the screen has 80
-- cells, so that a newline ends within 80 turns; a block of the buddy allocator, of 512 bytes or
-- more, merges and splits at most 18 times, and 20 turns are given; the packer reads a
-- file of n bytes in n / 128 + 1 turns.
--
-- Not modelled: the boot loaders under Bootloader, which are third-party; the assembly files;
-- the titles of the reports, and the registers that an exception prints; floating point (dtos,
-- strToDouble, and GetUniform of test_util.c); test_prio and test_processes, which only make calls on
-- processes in a row and busy waits; memory of a freed node or block that alloc gives away again while
-- a pointer to it is left; a request of allocMem that wraps to 8 bytes with its header.
pub mod Base
pub mod Exceptions
pub mod Heap
pub mod Buddy
pub mod Process
pub mod ProcessMemory
pub mod Programs
pub mod Candidates
pub mod Scheduler
pub mod Semaphores
pub mod Pipes
pub mod PipeTable
pub mod Console
pub mod Text
pub mod Timer
pub mod Kernel
pub mod Keyboard
pub mod Input
pub mod Memory
pub mod MemoryTest
pub mod Reports
pub mod Boot
pub mod Packer
pub mod Interrupts
pub mod Dispatch
pub mod Shell
pub mod SyncTest
pub mod Philo
