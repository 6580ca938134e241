-- ===== src/Tests/Scheduling.antt =====
-- The scheduler's theorems at the machine of Tests/Machine.antt.
use arcos_os.Prelude.{refl, ◌≡◌, ◌∷◌, [], arith, update, some}
use arcos_os.Prelude.Run.{Returns}
use arcos_os.Types.{blocked, mess_resume_method}
use arcos_os.Ke.Scheduler.{set_state, reschedule}
use arcos_os.Ke.Timers.{block_process, suspend_process, make_ready, change_process_priority}
use arcos_os.Ke.Invariant.{Holds, with_ready}
use arcos_os.Ke.Waiting.{with_blocked, with_timers}
use arcos_os.Ke.Choice.{choose, top_level}
use arcos_os.Ke.Reschedule.{reschedule_refines}
use arcos_os.Ke.Running.{Implements}
use arcos_os.Ke.Block.{block_process_refines}
use arcos_os.Ke.Suspend.{sleepers, suspend_process_refines}
use arcos_os.Ke.Wake.{woken, make_ready-preempts}
use arcos_os.Ke.Priority.{moved, change_process_priority-ready}
use arcos_os.Ke.Timers.{take_off}
use arcos_os.Ke.Stop.{take_off-running}
use arcos_os.Tests.Machine.{machine, view, machine-Holds, machine-IsCurrent}

choose-machine :
    choose view (machine.procs 1) 1 ≡ some (2, with_ready (with_ready view 3 (1 ∷ [])) 5 (4 ∷ []))
unfolding choose top_level update
choose-machine = refl

reschedule_refines_example : Implements (choose view (machine.procs 1) 1) (reschedule 10 machine)
reschedule_refines_example =
    reschedule_refines 10 machine-Holds (machine-IsCurrent.ne_null, λ _. machine-IsCurrent)

block_process_refines_example :
    Implements
      (choose (with_blocked view (1 ∷ 6 ∷ [])) (set_state blocked (machine.procs 1)) 1)
      (block_process 10 machine)
block_process_refines_example =
    block_process_refines machine view machine-Holds machine-IsCurrent 10

suspend_process_refines_example :
    Implements
      (choose
        (with_timers view (sleepers machine view 150 mess_resume_method))
        (set_state blocked (machine.procs 1))
        1)
      (suspend_process 10 100 mess_resume_method machine)
suspend_process_refines_example =
    suspend_process_refines 10 machine view 100 mess_resume_method machine-Holds machine-IsCurrent
      (omega arith)

-- The current process sleeps between the two others.
sleepers-machine : sleepers machine view 150 mess_resume_method ≡ 7 ∷ 1 ∷ 8 ∷ []
unfolding update
sleepers-machine = refl

make_ready-preempts_example :
    Implements (choose (woken view 6 7) (machine.procs 1) 1) (make_ready 10 6 machine)
make_ready-preempts_example =
    make_ready-preempts 10 machine-Holds machine-IsCurrent 6 refl (omega arith) (omega arith)
      (omega arith)

take_off-running_example :
    Implements (choose view (set_state blocked (machine.procs 1)) 1) (take_off 10 1 machine)
take_off-running_example = take_off-running 10 machine-Holds machine-IsCurrent refl

change_process_priority-ready_example :
    Returns
      (λ _ s'. Holds s' (moved view 4 5 9) × (s'.current ≡ 1))
      (change_process_priority 10 4 9 machine)
change_process_priority-ready_example =
    change_process_priority-ready 10 machine-Holds 4 9 (omega arith) 5 (omega arith) refl
      (omega arith)
