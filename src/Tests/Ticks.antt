-- ===== src/Tests/Ticks.antt =====
-- The theorems on timer ticks at the machine of Tests/Machine.antt, where the sleepers wake up at 100
-- and at 200.
use arcos_os.Prelude.{◌≡◌, refl, update, update_ne, arith, ◌∷◌, [], ◌≤◌}
use arcos_os.Prelude.Run.{Run, back}
use arcos_os.Ke.Scheduler.{Scheduler}
use arcos_os.Ke.Invariant.{Holds, Holds-outside}
use arcos_os.Ke.Switch.{IsCurrent}
use arcos_os.Ke.Choice.{choose}
use arcos_os.Ke.Running.{Implements}
use arcos_os.Ke.Processes.{handle_timer}
use arcos_os.Ke.Tick.{aged, ticked, NoneDue, Charges, handle_timer-expires}
use arcos_os.Tests.Machine.{machine, view, machine-Holds, machine-IsCurrent, current-IsOff, all_has}
use arcos_os.Tests.Messages.{kernel}

-- The machine with the current process at its last tick.
abbrev pub tired : Scheduler
tired = record machine { procs = update machine.procs 1 (record (machine.procs 1) { quantum = 1 }) }

pub tired-Holds : Holds tired view
tired-Holds =
    Holds-outside machine-Holds tired 1 current-IsOff (λ a ne. update_ne machine.procs 1 _ a ne)
      refl refl refl

pub tired-IsCurrent : IsCurrent tired view
unfolding update
tired-IsCurrent = record {
  ne_null = machine-IsCurrent.ne_null;
  next_clear = refl;
  level = omega arith;
  off = current-IsOff;
}

tired-NoneDue : NoneDue (ticked tired) view
unfolding update
tired-NoneDue =
    all_has (λ a. (ticked tired).tick_count ≤ ((ticked tired).procs a).wake_up_time) (7 ∷ 8 ∷ [])
      (omega arith, (omega arith, tt))

handle_timer-expires_example :
    (r : Run Scheduler (Unit {0})) × (handle_timer 1 (record kernel { ke = tired })
      ≡ back (λ t. record kernel { ke = t }) r)
    × Implements (choose view (aged (tired.procs 1)) 1) r
    × Charges tired r
unfolding update
handle_timer-expires_example =
    handle_timer-expires (record kernel { ke = tired }) view tired-Holds tired-IsCurrent 0
      (omega arith) tired-NoneDue refl
