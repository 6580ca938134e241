-- ===== src/Ke/Tick.antt =====
-- base/ke/scheduler.c: KeHandleTimer at a tick at which no sleeper is due.
use arcos_os.Prelude.{
  ℕ, suc, ◌+◌, ◌-◌, ◌%◌, ◌≤◌, ◌<◌, ◌≡◌, ◌≢◌, refl, ap, ◌∙◌, subst, true, ◌∷◌, arith, ◌==◌, update,
  update_self, update_ne, has, List-cases, inl, inr, eq→==, ne→==, lt→ltb, le→ltb, if◌then◌else◌,
}
use arcos_os.Prelude.Run.{Run, ok, bug_check, fault, out_of_fuel, back, pure}
use arcos_os.Types.{Ptr, null, ulong_mod, Process}
use arcos_os.Ke.Scheduler.{Scheduler, reschedule}
use arcos_os.Ke.Timers.{count_tick}
use arcos_os.Ke.Processes.{wake_up_sleepers, handle_timer}
use arcos_os.Ke.Chain.{Chain, load-ok, store-ok}
use arcos_os.Ke.Invariant.{View, Holds, Holds-outside}
use arcos_os.Ke.Switch.{IsCurrent}
use arcos_os.Ke.Frame.{Keeps, keeps, stops, faults, runs_out, Kept-refl, reschedule-Keeps}
use arcos_os.Ke.Choice.{choose}
use arcos_os.Ke.Reschedule.{reschedule_refines}
use arcos_os.Ke.Running.{Implements}
use arcos_os.Kernel.{Kernel, in_ke}

-- The control block of the current process after a tick.
abbrev pub aged : Process → Process
aged r = record r { cpu_time = (r.cpu_time + 10) % ulong_mod; quantum = r.quantum - 1 }

abbrev pub ticked : Scheduler → Scheduler
ticked s = record s {
  tick_count = (s.tick_count + 10) % ulong_mod;
  procs = update s.procs s.current (aged (s.procs s.current));
}

-- No sleeper wakes up before the tick count.
abbrev pub NoneDue : Scheduler → View → Type 0
NoneDue s v = (a : Ptr) → has a v.timers ≡ true → s.tick_count ≤ (s.procs a).wake_up_time

-- A run that, where it ends in a value, has counted a tick of 10 milliseconds, and charged it to the
-- process that was current, and to no other.
abbrev pub Charges : Scheduler → Run Scheduler (Unit {0}) → Type 0
Charges s (ok _ s') =
    (s'.tick_count ≡ (s.tick_count + 10) % ulong_mod)
    × ((s'.procs s.current).cpu_time ≡ ((s.procs s.current).cpu_time + 10) % ulong_mod)
    × ((a : Ptr) → a ≢ s.current → (s'.procs a).cpu_time ≡ (s.procs a).cpu_time)
Charges s (bug_check _) = Unit {0}
Charges s fault = Unit {0}
Charges s out_of_fuel = Unit {0}

Keeps-Charges : (s : Scheduler) {r : Run Scheduler (Unit {0})} → Keeps (ticked s) r → Charges s r
Keeps-Charges s (keeps kept) = (
  kept.0,
  (kept.1 s.current).3
      ∙ ap (λ (r : Process). r.cpu_time) (update_self s.procs s.current (aged (s.procs s.current))),
  λ a ne. (kept.1 a).3 ∙ ap (λ (r : Process). r.cpu_time) (update_ne s.procs s.current _ a ne),
)
Keeps-Charges s (stops m) = tt
Keeps-Charges s faults = tt
Keeps-Charges s runs_out = tt

pub count_tick-ticked :
    (s : Scheduler)
    → s.current ≢ null
    → 0 < (s.procs s.current).quantum
    → count_tick s ≡ ok tt (ticked s)
unfolding count_tick
count_tick-ticked s ne pos = rw (
  load-ok s.current s ne,
  lt→ltb 0 (s.procs s.current).quantum pos,
  store-ok s.current aged (record s { tick_count = (s.tick_count + 10) % ulong_mod }) ne,
)

wake_up_sleepers-idle :
    (fuel rounds : ℕ) (k : Kernel) (v : View)
    → Chain k.ke.procs k.ke.timer_list v.timers
    → NoneDue k.ke v
    → wake_up_sleepers fuel (suc rounds) k ≡ ok tt k
unfolding wake_up_sleepers
wake_up_sleepers-idle fuel rounds k v c none_due = elim (List-cases v.timers) [
  | inl e ↦ rw (eq→== k.ke.timer_list null (subst (λ xs. Chain k.ke.procs k.ke.timer_list xs) e c))
  | inr (x, xs, e) ↦
      let c' : Chain k.ke.procs k.ke.timer_list (x ∷ xs) =
        subst (λ ys. Chain k.ke.procs k.ke.timer_list ys) e c in
      let ne : k.ke.timer_list ≢ null = rw c'.0 c'.1 in
      let on : has k.ke.timer_list v.timers ≡ true = rw (e, eq→== k.ke.timer_list x c'.0) in
      rw (
        ne→== k.ke.timer_list null ne,
        load-ok k.ke.timer_list k.ke ne,
        le→ltb (k.ke.procs k.ke.timer_list).wake_up_time k.ke.tick_count
            (none_due k.ke.timer_list on),
      )
]

module _ (k : Kernel) (v : View) (h : Holds k.ke v) (c : IsCurrent k.ke v) where
  abbrev cur : Process
  cur = k.ke.procs k.ke.current

  abbrev pub after_tick : Kernel
  after_tick = record k { ke = ticked k.ke }

  pub ticked_self : (ticked k.ke).procs k.ke.current ≡ aged cur
  ticked_self = update_self k.ke.procs k.ke.current (aged cur)

  pub ticked-Holds : Holds (ticked k.ke) v
  ticked-Holds =
      Holds-outside h (ticked k.ke) k.ke.current c.off
        (λ a ne. update_ne k.ke.procs k.ke.current _ a ne) refl refl refl

  pub ticked-IsCurrent : IsCurrent (ticked k.ke) v
  ticked-IsCurrent = record {
    ne_null = c.ne_null;
    next_clear = rw ticked_self c.next_clear;
    level = rw ticked_self c.level;
    off = c.off;
  }

  module _ (fuel : ℕ) (pos : 0 < (k.ke.procs k.ke.current).quantum)
      (none_due : NoneDue (ticked k.ke) v) where
    pub handle_timer-after :
        handle_timer (suc fuel) k
        ≡ (if cur.quantum - 1 == 0 then in_ke (reschedule (suc fuel)) else pure tt) after_tick
    unfolding handle_timer
    handle_timer-after = rw (
      ne→== k.ke.current null c.ne_null,
      count_tick-ticked k.ke c.ne_null pos,
      wake_up_sleepers-idle (suc fuel) fuel after_tick v ticked-Holds.timer_chain none_due,
      load-ok k.ke.current (ticked k.ke) c.ne_null,
      ticked_self,
    )

    -- In a state with the lists of a view and with a current process that can run and has more than one
    -- tick left, at a tick at which no sleeper is due, KeHandleTimer counts the tick, charges it to the
    -- current process, and changes nothing else; one round of the loop is enough.
    pub handle_timer-continues : 1 < cur.quantum → handle_timer (suc fuel) k ≡ ok tt after_tick
    handle_timer-continues more =
        handle_timer-after ∙ rw (ne→== (cur.quantum - 1) 0 (λ e. omega (arith, e, more)))

    -- In a state with the lists of a view and with a current process that can run and is at its last
    -- tick, where no sleeper is due, KeHandleTimer runs what the abstract scheduler chooses, or stops the
    -- kernel where it finds nothing to run. Where it does not stop the kernel, the tick count has grown by 10,
    -- modulo 2 ^ 32, and so has the processor time of the process that ran before, and of no other. The
    -- rest of the kernel stays as it is.
    pub handle_timer-expires :
        cur.quantum ≡ 1
        → (r : Run Scheduler (Unit {0})) × (handle_timer (suc fuel) k
            ≡ back (λ t. record k { ke = t }) r)
          × Implements (choose v (aged cur) k.ke.current) r
          × Charges k.ke r
    handle_timer-expires last = (
      reschedule (suc fuel) (ticked k.ke),
      handle_timer-after ∙ rw (eq→== (cur.quantum - 1) 0 (omega (arith, last))),
      subst (λ r. Implements (choose v r k.ke.current) (reschedule (suc fuel) (ticked k.ke)))
          ticked_self
          (reschedule_refines (suc fuel) ticked-Holds (c.ne_null, λ _. ticked-IsCurrent)),
      Keeps-Charges k.ke (reschedule-Keeps (suc fuel) (ticked k.ke) (Kept-refl (ticked k.ke))),
    )
