-- ===== src/Tests/Sleepers.antt =====
-- KepWakeUpSleepers at the machine of Tests/Machine.antt, at tick 150: process 7 is due, process 8 is not.
use arcos_os.Prelude.{refl, ◌≡◌, [], ◌∷◌, arith}
use arcos_os.Prelude.Run.{Returns}
use arcos_os.Types.{no_method}
use arcos_os.Kernel.{Kernel}
use arcos_os.Ke.Processes.{wake_up_sleepers}
use arcos_os.Ke.Invariant.{Holds}
use arcos_os.Ke.Switch.{IsCurrent}
use arcos_os.Ke.Sleepers.Settled.{Settled}
use arcos_os.Ke.Sleepers.Due.{wake_up_sleepers-Settled}
use arcos_os.Ke.Sleepers.Ticking.{Ticking, run_ticks, run_ticks-Ticking}
use arcos_os.Tests.Machine.{all_has, machine, view, machine-Holds, machine-IsCurrent}
use arcos_os.Tests.Messages.{kernel}

abbrev later : Kernel
later = record kernel { ke = record machine { tick_count = 150 } }

later-Holds : Holds later.ke view
later-Holds = record {
  queue_chain = machine-Holds.queue_chain;
  queue_last = machine-Holds.queue_last;
  queue_state = machine-Holds.queue_state;
  queue_priority = machine-Holds.queue_priority;
  blocked_chain = machine-Holds.blocked_chain;
  timer_chain = machine-Holds.timer_chain;
  blocked_state = machine-Holds.blocked_state;
  timer_state = machine-Holds.timer_state;
  blocked_level = machine-Holds.blocked_level;
  timer_level = machine-Holds.timer_level;
  apart = machine-Holds.apart;
  sorted = machine-Holds.sorted;
}

later-IsCurrent : IsCurrent later.ke view
later-IsCurrent = record {
  ne_null = machine-IsCurrent.ne_null;
  next_clear = machine-IsCurrent.next_clear;
  level = machine-IsCurrent.level;
  off = machine-IsCurrent.off;
}

wake_up_sleepers-Settled_example :
    Returns (λ _ k'. Settled later view k') (wake_up_sleepers 3 3 later)
wake_up_sleepers-Settled_example =
    wake_up_sleepers-Settled 3 3 later view later-Holds later-IsCurrent refl
      (all_has (λ a. (machine.procs a).resume_method ≡ no_method) (7 ∷ 8 ∷ []) (refl, (refl, tt)))
      (omega arith) (omega arith) (omega arith)

later-Ticking : Ticking 3 later
later-Ticking = record {
  view = view;
  holds = later-Holds;
  is_current = later-IsCurrent;
  free = refl;
  quantum = omega arith;
  plain =
      all_has (λ a. (machine.procs a).resume_method ≡ no_method) (7 ∷ 8 ∷ []) (refl, (refl, tt));
  timers = omega arith;
  blocked = omega arith;
}

run_ticks-Ticking_example : Returns (λ _ k'. Ticking 3 k') (run_ticks 3 7 later)
run_ticks-Ticking_example = run_ticks-Ticking 3 7 later later-Ticking
