-- ===== src/Ke/Sleepers/Ticking.antt =====
-- base/ke/scheduler.c: KeHandleTimer at any tick, and sequences of ticks.
use arcos_os.Prelude.{
  ℕ, zero, suc, ◌+◌, ◌%◌, ◌≤◌, ◌<◌, ◌≡◌, refl, ◌∙◌, sym, ap, subst, inl, inr, true, false, some,
  length, has, arith, ◌==◌, if◌then◌else◌, update_self, update_ne, Bool-cases, ne→==, ℕ_discrete,
}
use arcos_os.Prelude.Run.{
  Cmd, pure, ◌>>◌, Returns, returns, Returns-bind, Returns-weaken, Returns-within, Returns-ends,
}
use arcos_os.Types.{Ptr, ulong_mod, Process, is_blocked, no_method}
use arcos_os.Kernel.{Kernel, in_ke}
use arcos_os.Ke.Scheduler.{reschedule}
use arcos_os.Ke.Processes.{handle_timer}
use arcos_os.Ke.Chain.{load-ok}
use arcos_os.Ke.Invariant.{View, Holds}
use arcos_os.Ke.Switch.{IsCurrent}
use arcos_os.Ke.Running.{Implements, Runs}
use arcos_os.Ke.Reschedule.{reschedule_refines}
use arcos_os.Ke.Tick.{
  aged, ticked, NoneDue, count_tick-ticked, ticked_self, ticked-Holds, ticked-IsCurrent,
}
use arcos_os.Ke.Frame.{Kept-refl, Kept, Keeps, Keeps-value, reschedule-Keeps}
use arcos_os.Ke.Sleepers.Awake.{choose-Chosen}
use arcos_os.Ke.Sleepers.Due.{wake_up_sleepers-Settled}

-- The state in which a timer interrupt finds the scheduler: well-formed lists, a current process that
-- can run and has ticks left, sleepers without a resume method, and lists not longer than `fuel`.
pub record Ticking (fuel : ℕ) (k : Kernel) : Type 0 where
  pub view : View
  pub holds : Holds k.ke view
  pub is_current : IsCurrent k.ke view
  pub free : is_blocked (k.ke.procs k.ke.current).state ≡ false
  pub quantum : 0 < (k.ke.procs k.ke.current).quantum
  pub plain : (a : Ptr) → has a view.timers ≡ true → (k.ke.procs a).resume_method ≡ no_method
  pub timers : length view.timers < fuel
  pub blocked : length view.blocked ≤ fuel

-- The end of KeHandleTimer.
abbrev at_end : ℕ → Cmd Kernel (Unit {0})
at_end fuel k =
    (if (k.ke.procs k.ke.current).quantum == 0 then in_ke (reschedule fuel) else pure tt) k

module _ (fuel : ℕ) (k : Kernel) (v : View) (h : Holds k.ke v) (c : IsCurrent k.ke v)
    (free : is_blocked (k.ke.procs k.ke.current).state ≡ false)
    (plain : (a : Ptr) → has a v.timers ≡ true → (k.ke.procs a).resume_method ≡ no_method)
    (none_due : NoneDue k.ke v) (lt : length v.timers < fuel) (lb : length v.blocked ≤ fuel) where
  rescheduled-Ticking :
      Returns
        (λ _ s. Ticking fuel (record k { ke = s }) × (s.tick_count ≡ k.ke.tick_count))
        (reschedule fuel k.ke)
  rescheduled-Ticking =
      let o = choose-Chosen v (k.ke.procs k.ke.current) k.ke.current free c.level in
      let done : Implements (some (o.next, o.left)) (reschedule fuel k.ke) =
        subst (λ q. Implements q (reschedule fuel k.ke)) o.is_choice
          (reschedule_refines fuel h (c.ne_null, λ _. c)) in
      let (a, s, run, got) = Returns-ends done in
      let r : Runs s o.left = got.1 in
      let kept : Kept k.ke s =
        Keeps-value (subst (Keeps k.ke) run (reschedule-Keeps fuel k.ke (Kept-refl k.ke))) in
      rw run (
        returns (
          record {
            view = o.left;
            holds = r.holds;
            is_current = r.is_current;
            free = rw r.is_running;
            quantum = omega (arith, r.fresh);
            plain = λ a on. (kept.1 a).1 ∙ plain a (subst (λ ys. has a ys ≡ true) o.timers on);
            timers = rw o.timers lt;
            blocked = rw o.blocked lb;
          },
          kept.0,
        ))

  at_end-Ticking :
      Returns (λ _ k'. Ticking fuel k' × (k'.ke.tick_count ≡ k.ke.tick_count)) (at_end fuel k)
  at_end-Ticking = elim (Bool-cases ((k.ke.procs k.ke.current).quantum == 0)) [
    | inl over ↦
        rw over (Returns-within (λ s. record k { ke = s }) rescheduled-Ticking (λ _ s done. done))
    | inr left ↦ rw left (
        returns (
          record {
            view = v;
            holds = h;
            is_current = c;
            free = free;
            quantum = ground (arith, left);
            plain = plain;
            timers = lt;
            blocked = lb;
          },
          refl,
        ))
  ]

aged_same :
    (k : Kernel) (a : Ptr) → ((ticked k.ke).procs a).resume_method ≡ (k.ke.procs a).resume_method
aged_same k a = elim (ℕ_discrete a k.ke.current) [
  | yes e ↦
      subst (λ q. ((ticked k.ke).procs q).resume_method ≡ (k.ke.procs q).resume_method) (sym e)
        (ap (λ (r : Process). r.resume_method)
          (update_self k.ke.procs k.ke.current (aged (k.ke.procs k.ke.current))))
  | no ne ↦ ap (λ (r : Process). r.resume_method) (update_ne k.ke.procs k.ke.current _ a ne)
]

-- KeHandleTimer of such a state returns, whether sleepers are due or not and whether the quantum is used up or not, counts
-- the tick, and leaves such a state: in particular the process that then runs has ticks left, and the ASSERT on the quantum
-- holds at the next tick.
pub handle_timer-Ticking :
    (fuel : ℕ) (k : Kernel)
    → Ticking fuel k
    → Returns
        (λ _ k'. Ticking fuel k' × (k'.ke.tick_count ≡ (k.ke.tick_count + 10) % ulong_mod))
        (handle_timer fuel k)
unfolding handle_timer
handle_timer-Ticking fuel k t =
    let aged_free =
      ap (λ (r : Process). is_blocked r.state) (ticked_self k t.view t.holds t.is_current)
      ∙ t.free in
    rw
      (
        ne→== k.ke.current 0 t.is_current.ne_null,
        count_tick-ticked k.ke t.is_current.ne_null t.quantum,
      )
      (Returns-bind
        (wake_up_sleepers-Settled fuel fuel (record k { ke = ticked k.ke }) t.view
          (ticked-Holds k t.view t.holds t.is_current)
          (ticked-IsCurrent k t.view t.holds t.is_current) aged_free
          (λ a on. aged_same k a ∙ t.plain a on) (omega (arith, t.timers)) t.blocked t.timers)
        (λ _ k1 d. rw (load-ok k1.ke.current k1.ke d.is_current.ne_null) (
          Returns-weaken
            (at_end-Ticking fuel k1 d.view d.holds d.is_current d.free
              (λ a on. (d.kept.1 a).1 ∙ aged_same k a ∙ t.plain a (d.fewer a on)) d.none_due
              (omega (arith, d.shorter, t.timers)) (rw d.blocked t.blocked))
            (λ _ k' done. (done.0, done.1 ∙ d.kept.0)))))

abbrev pub run_ticks : ℕ → ℕ → Cmd Kernel (Unit {0})
run_ticks fuel zero = pure tt
run_ticks fuel (suc n) = do handle_timer fuel; run_ticks fuel n

-- Any number of timer interrupts in a row, from a state with well-formed lists, a current process that can
-- run and has ticks left, and sleepers without a resume method, all return: no assertion of the
-- scheduler fails, and the state is such a state again. Each loop has a round for each entry of its list,
-- and that over the sleepers one more.
pub run_ticks-Ticking :
    (fuel n : ℕ) (k : Kernel)
    → Ticking fuel k
    → Returns (λ _ k'. Ticking fuel k') (run_ticks fuel n k)
run_ticks-Ticking fuel zero k t = returns t
run_ticks-Ticking fuel (suc n) k t =
    Returns-bind (handle_timer-Ticking fuel k t) (λ _ k1 done. run_ticks-Ticking fuel n k1 done.0)
