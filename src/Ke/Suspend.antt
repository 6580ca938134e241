-- ===== src/Ke/Suspend.antt =====
-- KeSuspendProcess of base/ke/scheduler.c and the abstract scheduler of Ke/Choice.antt.
use arcos_os.Prelude.{
  ℕ, ◌+◌, ◌%◌, ◌≤◌, ◌≡◌, ◌≢◌, refl, inl, inr, true, false, List, [], ◌∷◌, arith, ◌==◌, ltb, update,
  update_self, update_ne, update_all, length, has, Bool-cases, ==→eq, eq→==, ne→==, sym, ap, ◌∙◌,
  subst,
}
use arcos_os.Prelude.Run.{ok}
use arcos_os.Types.{Ptr, null, ulong_mod, Process, ResumeMethod, blocked}
use arcos_os.Ke.Scheduler.{Scheduler, load, set_next, set_state, reschedule}
use arcos_os.Ke.Timers.{find_spot, enqueue_sleeper, suspend_process}
use arcos_os.Ke.Chain.{Memory, Chain, load-ok, store-ok, Chain-ne_null}
use arcos_os.Ke.Invariant.{View, Holds, IsLevel, IsSorted-frame, Holds-outside}
use arcos_os.Ke.Waiting.{with_timers, Holds-with_timers}
use arcos_os.Ke.Switch.{IsCurrent}
use arcos_os.Ke.Frame.{Keeps, Keeps-value, Kept, Kept-refl, reschedule-Keeps}
use arcos_os.Ke.Choice.{choose}
use arcos_os.Ke.Reschedule.{reschedule_refines}
use arcos_os.Ke.Running.{Implements}
use arcos_os.Ke.Sleep.{
  sleep_list, queued_procs, queued_head, queued-link, queued-ne, Chain-queued, has-sleep_list,
  IsSorted-sleep_list, find_spot-ok, has-spot_of, spot_of,
}

-- The control block of a process that goes to sleep.
abbrev pub sleeper : ℕ → ResumeMethod → Process → Process
sleeper wake method r = record r { wake_up_time = wake; state = blocked; resume_method = method }

-- The sleepers with the current process in its place.
abbrev pub sleepers : Scheduler → View → ℕ → ResumeMethod → List Ptr
sleepers s v wake method =
    sleep_list (update s.procs s.current (sleeper wake method (s.procs s.current))) wake s.current
      v.timers

-- The `if` of KeSuspendProcess puts the process in its place.
pub enqueue_sleeper-ok :
    (fuel : ℕ) (s : Scheduler) (wake : ℕ) (c : Ptr) (xs : List Ptr)
    → Chain s.procs s.timer_list xs
    → length xs ≤ fuel
    → c ≢ null
    → enqueue_sleeper fuel c wake s
      ≡ ok tt (record s {
        procs = queued_procs wake c s.procs s.timer_list xs;
        timer_list = queued_head wake c s.procs s.timer_list xs;
      })
unfolding enqueue_sleeper
enqueue_sleeper-ok fuel s wake c [] ch f ne =
    rw (eq→== s.timer_list null ch, store-ok c (set_next s.timer_list) s ne)
enqueue_sleeper-ok fuel s wake c (x ∷ xs) ch f ne =
    let t_ne : (s.timer_list == null) ≡ false = ne→== s.timer_list null (rw ch.0 ch.1) in
    let head : load s.timer_list s ≡ ok (s.procs x) s =
      subst (λ y. load y s ≡ ok (s.procs x) s) (sym ch.0) (load-ok x s ch.1) in
    elim (Bool-cases (ltb wake (s.procs x).wake_up_time)) [
      | inl lt ↦ rw (t_ne, head, lt, store-ok c (set_next s.timer_list) s ne)
      | inr ge ↦
          let walk : find_spot fuel s.timer_list wake s ≡ ok (spot_of s.procs wake x xs) s =
            subst (λ y. find_spot fuel y wake s ≡ ok (spot_of s.procs wake x xs) s) (sym ch.0)
              (find_spot-ok wake c fuel s x xs (refl, ch.1, ch.2, ch.3) f) in
          let spot_ne =
            Chain-ne_null s.procs s.timer_list (spot_of s.procs wake x xs) (x ∷ xs) ch
              (has-spot_of wake c s.procs x xs) in
          rw (
            t_ne,
            head,
            ge,
            walk,
            load-ok (spot_of s.procs wake x xs) s spot_ne,
            store-ok c (set_next (s.procs (spot_of s.procs wake x xs)).next_pcb) s ne,
            store-ok (spot_of s.procs wake x xs) (set_next c) _ spot_ne,
          )
    ]

true-false : true ≡ false → ⊥
true-false e = cc

module _ (s : Scheduler) (v : View) (h : Holds s v) (c : IsCurrent s v) (method : ResumeMethod)
    (wake : ℕ) where
  pcb : Process
  pcb = sleeper wake method (s.procs s.current)

  -- The memory after the fields of the current process are set.
  abbrev m1 : Memory
  m1 = update s.procs s.current (sleeper wake method (s.procs s.current))

  abbrev s1 : Scheduler
  s1 = record s { procs = m1 }

  m1_self : m1 s.current ≡ sleeper wake method (s.procs s.current)
  m1_self = update_self s.procs s.current _

  s1-Holds : Holds s1 v
  s1-Holds =
      Holds-outside h s1 s.current c.off (λ a ne. update_ne s.procs s.current _ a ne) refl refl refl

  abbrev pub s2 : Scheduler
  s2 = record s {
    procs = queued_procs wake s.current m1 s.timer_list v.timers;
    timer_list = queued_head wake s.current m1 s.timer_list v.timers;
  }

  -- Only the link of the current process differs from its new control block.
  s2_self :
      s2.procs s.current
      ≡ set_next (s2.procs s.current).next_pcb (sleeper wake method (s.procs s.current))
  s2_self =
      queued-link wake s.current m1 s.timer_list v.timers s.current
      ∙ ap (set_next (s2.procs s.current).next_pcb) m1_self

  s2_each :
      (P : Process → Type 0)
      → ((q : Ptr) (r : Process) → P r → P (set_next q r))
      → P (sleeper wake method (s.procs s.current))
      → ((a : Ptr) → has a v.timers ≡ true → P (m1 a))
      → (a : Ptr) → has a (sleep_list m1 wake s.current v.timers) ≡ true
      → P (s2.procs a)
  s2_each P link new old a m = elim (Bool-cases (a == s.current)) [
    | inl hit ↦ rw (==→eq a s.current hit, s2_self) (link _ _ new)
    | inr miss ↦
        let m' : has a v.timers ≡ true =
          ground (arith, has-sleep_list wake s.current m1 a v.timers) in
        rw (queued-link wake s.current m1 s.timer_list v.timers a) (link _ _ (old a m'))
  ]

  s2-Holds : Holds s2 (with_timers v (sleep_list m1 wake s.current v.timers))
  s2-Holds =
      Holds-with_timers s1-Holds s2 s.current refl c.off.not_ready
        (sleep_list m1 wake s.current v.timers)
        (λ a ne out. queued-ne wake s.current m1 s.timer_list v.timers a ne out) c.off.not_blocked
        refl
        (Chain-queued wake s.current m1 s.timer_list v.timers s1-Holds.timer_chain c.off.not_timer
          c.ne_null)
        (s2_each (λ r. r.state ≡ blocked) (λ q r e. e) refl s1-Holds.timer_state)
        (s2_each (λ r. IsLevel r.priority) (λ q r e. e) c.level s1-Holds.timer_level)
        (λ a m. elim (Bool-cases (a == s.current)) [
          | inl hit ↦ rw (==→eq a s.current hit) c.off.not_blocked
          | inr miss ↦ h.apart a (ground (arith, has-sleep_list wake s.current m1 a v.timers))
        ])
        (IsSorted-frame m1 s2.procs (sleep_list m1 wake s.current v.timers)
          (IsSorted-sleep_list wake s.current m1 v.timers s1-Holds.sorted (rw m1_self))
          (λ a m. rw (queued-link wake s.current m1 s.timer_list v.timers a)))

module _ (fuel : ℕ) (s : Scheduler) (v : View) (milliseconds : ℕ) (method : ResumeMethod)
    (h : Holds s v) (c : IsCurrent s v) (f : length v.timers ≤ fuel) where
  abbrev pub asleep : Scheduler
  asleep = s2 s v h c method ((s.tick_count + milliseconds) % ulong_mod)

  suspend_process-asleep : suspend_process fuel milliseconds method s ≡ reschedule fuel asleep
  unfolding suspend_process
  suspend_process-asleep =
      let wake : ℕ = (s.tick_count + milliseconds) % ulong_mod in
      let h1 = s1-Holds s v h c method wake in
      rw (
        load-ok s.current s c.ne_null,
        eq→== _ null c.next_clear,
        store-ok s.current (sleeper wake method) s c.ne_null,
        enqueue_sleeper-ok fuel (s1 s v h c method wake) wake s.current v.timers h1.timer_chain f
            c.ne_null,
      )

  asleep_context : (a : Ptr) → (asleep.procs a).context ≡ (s.procs a).context
  asleep_context a =
      let wake : ℕ = (s.tick_count + milliseconds) % ulong_mod in
      ap (λ (r : Process). r.context)
        (queued-link wake s.current (m1 s v h c method wake) s.timer_list v.timers a)
      ∙ update_all (λ b (r : Process). r.context ≡ (s.procs b).context) s.procs s.current
          (sleeper wake method (s.procs s.current)) refl (λ b ne. refl) a

  -- KeSuspendProcess keeps the registers of every process.
  pub suspend_process-context :
      (s' : Scheduler)
      → suspend_process fuel milliseconds method s ≡ ok tt s'
      → (a : Ptr) → (s'.procs a).context ≡ (s.procs a).context
  suspend_process-context s' run a =
      let kept : Kept asleep s' = Keeps-value (
        subst (Keeps asleep) (sym suspend_process-asleep ∙ run)
          (reschedule-Keeps fuel asleep (Kept-refl asleep))) in
      (kept.1 a).2 ∙ asleep_context a

-- From a state with the lists of a view, whose current process can run, and with a round of the loop
-- for each sleeper, KeSuspendProcess puts the current process on the list of sleepers, sorted by the time at which
-- they wake up, and runs what the abstract scheduler chooses, or stops the kernel where nothing is
-- ready.
pub suspend_process_refines :
    (fuel : ℕ) (s : Scheduler) (v : View) (milliseconds : ℕ) (method : ResumeMethod)
    → Holds s v
    → IsCurrent s v
    → length v.timers ≤ fuel
    → let wake = (s.tick_count + milliseconds) % ulong_mod in
      Implements
        (choose
          (with_timers v (sleepers s v wake method))
          (set_state blocked (s.procs s.current))
          s.current)
        (suspend_process fuel milliseconds method s)
unfolding choose
suspend_process_refines fuel s v milliseconds method h c f =
    let wake : ℕ = (s.tick_count + milliseconds) % ulong_mod in
    rw (suspend_process-asleep fuel s v milliseconds method h c f) (
      subst
        (λ q.
          Implements (choose (with_timers v (sleepers s v wake method)) q s.current)
            (reschedule fuel (s2 s v h c method wake)))
        (s2_self s v h c method wake)
        (reschedule_refines fuel (s2-Holds s v h c method wake)
          (c.ne_null, λ b. absurd (true-false (rw (s2_self s v h c method wake) at b)))))
