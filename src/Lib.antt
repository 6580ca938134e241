-- ===== src/Lib.antt =====
-- ARCOS, a small kernel for MIPS32 (base/, include/): a model of its components as programs on an
-- explicit kernel state.
--
-- The parts and how they interact. Types.antt has the structures of include/arcos.h, include/ke.h and
-- include/status.h. Memory is a map from addresses to structures for each type of structure, so that
-- structures of two types never overlap; `null` is 0, an access to a structure through it is the outcome
-- `fault`, and so is a store behind the end of a caller's array. Kernel.antt puts the globals of all components into the record Kernel, with the scheduler's
-- own globals as the record Scheduler in it. Prelude/Run.antt has the monad: a run ends in a value and
-- a state, in a call of KeBugCheck (a failed ASSERT is one), in a fault, or with its fuel used up.
--
-- - Ke/Scheduler.antt and Ke/Timers.antt: base/ke/scheduler.c on the record Scheduler: the 32 ready
--   queues, the blocked list, the timer list, the current process and the tick count.
--   enqueue_process is KepEnqueueProcess, dequeue_process is KepDequeueProcess, reschedule is
--   KepReschedule, remove_from_process_list is KepRemoveFromProcessList, block_process is
--   KeBlockProcess, suspend_process is KeSuspendProcess, make_ready is KeResumeProcess behind the
--   call of the resume method, change_process_priority is KeChangeProcessPriority, take_off and
--   count_tick are parts of KeStopSchedulingProcess and KeHandleTimer.
--   Ke/Processes.antt has the operations that also reach the object manager or a resume method.
--   Ke/Invariant.antt sees the linked lists as a View, a list of processes for each queue, and
--   Ke/Choice.antt has the abstract scheduler on views, `choose`; Ke/Frame.antt has what the operations
--   leave alone, Ke/Sleepers/ is about KepWakeUpSleepers, and the other files of Ke/ hold the lemmas and
--   theorems of single operations.
-- - Mm.antt: base/mm/mm.c (MmAlloc moves a pointer, MmFree does nothing).
-- - Rtl/: base/rtl/memory.c and base/rtl/string.c on a memory of bytes. In Rtl/Format.antt a run of
--   RtlFormatString has at most `fuel` rounds of each loop, and shows what these rounds have done.
-- - Ob/: base/ob/ob.c, object headers with their counts, the list of types, handle tables. The Delete
--   methods, which the creators of types supply, are a parameter.
-- - Mess/: base/mess/mess.c. Mess/Messages.antt and Mess/WaitQueue.antt have the functions on message
--   queues and on the queue of waiting processes. Mess/Waiters.antt, Mess/Removal.antt and Mess/Forget.antt
--   see the latter as a list of nodes, with the nodes that stay linked behind it; Mess/Send.antt,
--   Mess/Woken.antt and Mess/Wakes.antt are about MessSendMessage.
-- - Ps/: base/ps/ps.c. Ps/Lookup.antt has how processes are found and numbered, Ps/Process.antt how they
--   are created (create_process is PsCreateProcess), Ps/Kill.antt how they end (ps_kill_process is
--   PsKillProcess), and Ps/Info.antt the functions that read and change what is known of a process.
-- - Io/: base/io/io.c. Io/Fifo.antt is the buffer of characters from the keyboard (the field `count` is its
--   length), Io/Files.antt has the files and their methods, Io/Interrupts.antt the two interrupt
--   handlers, on the record Io of Io/State.antt, which holds the kernel.
-- - Kd/: base/kd, the debugger, on the record Console, which holds the kernel, the position in the command
--   line and what has been printed; ObDumpObject is in Kd/Commands.antt.
-- - Syscall.antt: base/ke/syscall.c, the switch over the system calls, on the record System, which holds the
--   record Io and the variables of user programs that calls fill. Syscall/Blocking.antt is about a call that
--   blocks.
-- - Hal.antt: HalHandleException of base/hal/mipsel32/init.c, through which system calls and interrupts
--   enter all of the above, with KeCaptureContext and KeRestoreContext of base/ke/scheduler.c, on the
--   record Machine, which holds the record System, the debugger and the exception frame. What the
--   registers of the devices read during an exception is the parameter `devices`.
-- - Boot.antt: KeInitialize of base/ke/init.c on the record Machine; initialize_components is its part from
--   MmInitialize to MessInitialize. Io/Start.antt and Ps/Start.antt are about the parts of it.
-- - Apps.antt and Apps/: programs of base/apps, as commands on a program's memory, where a parameter
--   `serve` answers the functions of include/api.h. Apps/Waiter.antt and Apps/Forks.antt are
--   base/apps/waiter.c and base/apps/startwaiter.c, Apps/ChangePrio.antt is base/apps/changeprio.c,
--   Apps/Scroller.antt is base/apps/scroller.c.
-- - Tests/: the theorems at concrete states.
--
-- Fuel. A `while` loop over a linked list has `fuel` rounds and ends in `out_of_fuel` where they are
-- not enough. The bound that a theorem asks for is a round for each entry of the list in question;
-- for the loops over strings it is one more than the characters.
--
-- Not modelled: the assembler sources, the set-up of the devices and the display (the rest of base/hal),
-- the sources for Windows, GetLine of base/io/getline.c, and the other applications (base/apps). Waits for a
-- device have no part in what is modelled, and the registers of a context that no C code names are one
-- function, `others`.
pub mod Prelude
pub mod Types
pub mod Ke
pub mod Kernel
pub mod Mm
pub mod Rtl
pub mod Ps
pub mod Ob
pub mod Mess
pub mod Io
pub mod Kd
pub mod Syscall
pub mod Hal
pub mod Boot
pub mod Apps
pub mod Tests
