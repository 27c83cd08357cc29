-- ===== src/Lib.antt =====
-- The nucleus and the support level of a small operating system for the uMPS3 machine, in C.
--
-- The program has three levels. phase1 keeps the process control blocks (phase1/pcb.c) and the messages
-- (phase1/msg.c) in circular doubly linked lists (headers/listx.h) that run through the blocks themselves.
-- phase2 is the nucleus: a round-robin scheduler (phase2/scheduler.c), the two system calls SendMessage and
-- ReceiveMessage (phase2/exceptions.c), the service process that ends and starts processes (phase2/ssi.c), the
-- interrupts, the start and a log. phase3 is the support level: virtual memory, threads that serve the user
-- processes, and processes that grant mutual exclusion. The levels talk by calls downwards and by messages.
--
-- Files:
--   Base      the shared names, Boolean tests, lists over native numbers, maps as functions with `update`
--   Listx     headers/listx.h on an explicit memory: `Mem` has for each address of a `list_head` its two links;
--             Chain says that a memory holds a well-formed circular list, Frame what an operation leaves alone
--   Store     the memory of phase1: links and fields of the blocks of `pcbTable` and `msgTable`, at the
--             addresses that a `Layout` gives; `container_of` on `p_sib` is the constant distance of the field
--   Pcb       phase1/pcb.c, one definition per function; Queue, Pool and Tree hold the proofs on queues, on
--             the free list and on the tree of children
--   Msg       phase1/msg.c likewise, with Queue and Pool
--   Kernel    phase2. State has the global variables and the fields of the blocks as one record; the queues
--             are the lists of their entries, the abstract view that Pcb.Queue, Pcb.Tree and Msg.Queue take of
--             the linked lists. Run is the way a function ends: it returns, or it gives the processor away. Queues has the
--             phase1 functions on these lists, Scheduler is phase2/scheduler.c, Messages the system calls of
--             phase2/exceptions.c, Terminate the end of a process of phase2/ssi.c, Devices the lists of the
--             devices, Interrupts phase2/interrupts.c, Services the other services of phase2/ssi.c,
--             Exceptions the other handlers of phase2/exceptions.c.
--             Start is phase2/initial.c. Linked puts the queues back on the linked lists of phase1,
--             Places says where a process stands, and Places.Steps what the nucleus does as a relation on states.
--             Service follows requests to the service interface through all of these parts and back
--   Support   phase3. State has the level's variables as one record, the system calls as a log, and `World`; Calls
--             has the requests of phase3/initProc.c, Paging the pager of phase3/vmSupport.c, with the end of a
--             user process and the trap, which call each other, Exceptions the handlers of
--             phase3/sysSupport.c (Resumption where the process goes on, Trap where it ends), Threads
--             phase3/sst.c, Start the test process of phase3/initProc.c with what it starts, Refill `uTLB_RefillHandler` of phase2/exceptions.c on the page tables. Mutex has the
--             processes of phase3/deviceMutex.c and `swap_mutex` of phase3/vmSupport.c
--   Klog      phase2/klog.c; its digits are printed in a loop on fuel 8, the digits of a word
--   PhaseOneTest  phase1/p1test.c: what it prints, and Checks and Main with its `main`, which runs on the store of
--             phase 1; a wait for a terminal that is busy gives what the terminal then shows, if it ever ends
--   PhaseTwoTest  phase2/p2test.c: a process is the tree of its system calls, and Processes and Traps have the processes
--             but for the first, which starts them; a loop that waits for the time is on fuel
--   Tests     (one below each part) concrete runs
--
-- Numbers. Addresses and table indices are natural numbers, `NULL` is 0. An `int` or `unsigned int` of the
-- nucleus is a word below 2 ^ 32, whose arithmetic wraps; a signed comparison is written out in Kernel.Run.
--
-- Loops. A loop over a linked list runs on fuel, 41 in the calls, more than the 40 blocks of either table.
-- TerminateProcess calls itself and loops on fuel, enough of which is more than the tree has processes. The loop
-- of the clock's interrupt has 41 rounds, more than there are processes. The loops of the support level have as
-- many rounds as the source's bound says; the printer's loop reads its bound anew in each round, and has as many
-- as an `int` allows.
--
-- Traps. A process that makes a system call does so by a trap; the service interface answers by the effect of
-- SendMessage, without the registers that the trap saves and loads again.
--
-- The support level's functions run in processes of their own, between whose system calls others run. A function
-- of the model goes through one process: each system call is added to `calls`, and `World` says for every such log
-- how the last call was answered, if it ever was, and what the memory then holds. What other processes meanwhile
-- write to the variables of the level is not in the model.
--
-- Code outside the repository: the clock is a function `tod` from the number of the reading to what it shows,
-- LDST, LDCXT, HALT, PANIC and WAIT are the ways in which a run can stop, the memory that a system call reads
-- and writes by a pointer is a function from addresses to words, and so are the device registers, whose
-- addresses are fields of `Machine` with the other values of the emulator's headers. What a process does in its
-- time slice is a function of which only is used that it leaves the running process and the ready queue alone
-- and ends with the timer's interrupt. The addresses of the tables are a parameter, `Layout`, of which only is
-- used that the heads of the free lists lie outside the tables and that no address is NULL.
--
-- Not modelled: the endless loops around the rounds of the threads, of the mutex processes, of the service interface
-- and of the process that prints in phase2/p2test.c; `test` of that file; the assembly that loads and saves a state; the
-- programs below testers.
pub mod Base
pub mod Listx
pub mod Store
pub mod Pcb
pub mod Msg
pub mod Kernel
pub mod Support
pub mod Klog
pub mod PhaseOneTest
pub mod PhaseTwoTest
