-- ===== src/Lib.antt =====
-- The kernel of this repository, a nucleus for the uRISC-V machine in C, and its verification.
--
-- The program. headers/listx.h is the intrusive list that every queue is made of. phase1/pcb.c keeps
-- the process control blocks: the free ones, process queues ordered by priority, and the process
-- tree. phase1/asl.c keeps the active semaphore list, the queues of blocked processes. phase2/ is the
-- nucleus on top of them: initial.c sets it up, scheduler.c picks the next process, functions.c
-- blocks and terminates processes, exception.c holds the system calls and the exception entry
-- points, and interrupt.c ends time slices and completes device operations. phase3/ is the support
-- level, which runs user processes: initProc.c starts them, vmSupport.c loads their pages from flash
-- devices, and sysSupport.c holds their system calls.
--
-- The model. A pointer to a pcb_t is its index in pcbFree_table, a semaphore is its address, and NULL
-- is none or the address 0. A queue is the list of the processes on its ring; Listx relates the
-- two for the operations of listx.h. The C int is an integer without bounds, but in Programs/Calc,
-- where it wraps at 32 bits as on the machine (C leaves that overflow open), and the words of a
-- processor state are natural numbers below 2 ^ 32, with to_int and to_word between them. A function that
-- loads a state, stops the machine or never returns ends in an Outcome. What the code takes from the
-- uriscv headers and from the linker is the record Platform of Const; the TOD clock is a stream of
-- readings, and the device registers are a function that the handler reads and writes.
--
--   Common       shared names, Boolean tests, lists measured by native numbers, the C int
--   Listx        headers/listx.h; Listx/Ring and Listx/Ops: a ring stands for a list
--   Const, Types headers/const.h and headers/types.h
--   Pcb          phase1/pcb.c; Pcb/Queue: the priority queue; Pcb/Init: initPcbs; Pcb/Linked: the
--                queues over the pointers of listx.h
--   Asl          phase1/asl.c; Asl/Queues, Asl/Cases, Asl/Refines: the map from semaphores to queues;
--                Asl/Count, Asl/Sleepers: waits and descriptors; Asl/Order: the order of the descriptors
--   Kernel       the globals of phase2/initial.c; Kernel/Init (initKernel), Kernel/Scheduler
--                (scheduler), Kernel/Functions and Kernel/Functions/Terminate (functions.c),
--                Kernel/Syscalls and Kernel/Exception (exception.c), Kernel/Interrupt (interrupt.c)
--   Kernel/Placement, Kernel/Conservation   where processes are
--   Kernel/Closed        the kinds of change that the handlers are made of, an interface: a predicate
--                that survives each of them survives exceptionHandler (Kernel/Closed/Syscalls,
--                Kernel/Closed/Killing, Kernel/Closed/Interrupts, Kernel/Closed/Terminate,
--                Kernel/Closed/Exceptions)
--   Kernel/Population, Kernel/Descriptors   instances: processes and free blocks, descriptors
--   Kernel/Sound         an instance: where each process is, and what its block says. Moves, Entries and
--                Creation: processes change places; Release, Kill, Sweep, Descent, Family and Terminate:
--                recursiveTerminateProcess; Holds and Exact: the instances; Start: initKernel;
--                Search, Calls and Returns: the loops end;
--                Target: what findInTree finds
--   Kernel/Reachable     the states that the kernel reaches from initKernel; Kernel/Reachable/Placed and
--                Kernel/Reachable/Counted: where the blocks are there, and softBlockCount
--   Kernel/Tracked       the operations on semaphores and softBlockCount, an interface like Kernel/Closed:
--                Kernel/Tracked/Interrupts and Kernel/Tracked/Entries carry it to exceptionHandler
--   Kernel/Balance       an instance: the value of a semaphore and its queue (P and V; Killing; Holds)
--   Kernel/SoftBlock     an instance: softBlockCount and the processes that wait on devices (Holds)
--   Kernel/Choice, Kernel/Devices, Kernel/Termination   scheduling, device addresses, termination
--   Support      the state of phase3/; Support/Vm: phase3/vmSupport.c, of which Support/Locks,
--                Support/Frames, Support/Mapping, Support/Paging and Support/Serving are about
--                the pager;
--                Support/Init: phase3/initProc.c; Support/Pages: the page tables;
--                Support/Sys: phase3/sysSupport.c; Support/Terminal: its system calls
--   Programs     phase3/testers: Programs/Calc (calc.c) and Programs/Shell (shell.c), as functions of
--                the lines read; Programs/Calc/Roundtrip, Programs/Calc/Bounds and
--                Programs/Calc/Exact: numbers and lines; Programs/Testers: print.c,
--                fibEight.c, fibEleven.c, uname.c, date.c and sl.c, as the calls that they make;
--                Programs/Testers/Success: a run of fibEight and fibEleven
--   Programs/Phase1, Programs/Terminal   phase1/p1test.c: main in sections (Queues, Trees,
--                Semaphores), a run of it (Passes), and its polled print
--   Programs/Phase2      phase2/p2test.c: the processor states of its processes;
--                Programs/Phase2/Pairs: the V and P calls of test and p2
--   Klog         klog.c, the log; Klog/Bounds: where it writes
--   Tests        the theorems at small machines
--
-- Loops. list_for_each and the loop over the pseudo-clock's queue run on fuel, one round for each
-- element and one to stop. findInTree gets MAXPROC + 2 levels, and identifiers
-- grow along a path down the tree. The two loops of
-- recursiveTerminateProcess share one fuel, `enough`: one more than the processes not marked and
-- their child links.
--
-- The pager runs as one step, since it holds the swap pool's mutex from its P to its V; what DOIO
-- answers and what a TLB probe finds are streams of words.
--
-- In Programs/Phase1 a failed check ends the run, as adderrbuf does, and what a print does to the
-- terminal is a parameter; Programs/Terminal says what termprint does, on fuel for each busy wait.
--
-- Not modelled: the lines that the support level logs; the rest of phase2/p2test.c, whose processes run on
-- the kernel and on the machine between two of its entries; and phase3/testers/echo.c.
pub mod Common
pub mod Listx
pub mod Const
pub mod Types
pub mod Pcb
pub mod Asl
pub mod Kernel
pub mod Klog
pub mod Support
pub mod Programs
pub mod Tests
