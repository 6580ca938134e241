-- ===== src/Ke/Stop.antt =====
-- base/ke/scheduler.c: the switch of KeStopSchedulingProcess, on a process that waits, is ready or runs.
use arcos_os.Prelude.{
  ℕ, ◌≤◌, ◌≡◌, ◌≢◌, refl, inl, inr, true, false, subst, update, update_self, update_ne, length, has,
  erase, Bool-cases, ne→==, ap, ◌∙◌,
}
use arcos_os.Prelude.Run.{ok, Returns, returns, Returns-bind}
use arcos_os.Types.{Ptr, null, running, blocked}
use arcos_os.Ke.Scheduler.{Scheduler, set_state, dequeue_process, reschedule}
use arcos_os.Ke.Timers.{take_off}
use arcos_os.Ke.Chain.{load-ok, store-ok, Chain-ne_null}
use arcos_os.Ke.Invariant.{View, Holds, IsOff, IsLevel, with_ready, Holds-outside}
use arcos_os.Ke.Dequeue.{popped, dequeue-present}
use arcos_os.Ke.Popped.{popped-Holds, popped-IsOff}
use arcos_os.Ke.Resume.{unblocked, Unblocked, remove_from_blocked_lists-found}
use arcos_os.Ke.Wake.{Waits, waits_ne_null}
use arcos_os.Ke.Switch.{IsCurrent}
use arcos_os.Ke.Choice.{choose}
use arcos_os.Ke.Reschedule.{reschedule_refines}
use arcos_os.Ke.Running.{Implements}

true-false : true ≡ false → ⊥
true-false e = cc

module _ (fuel : ℕ) {s : Scheduler} {v : View} (h : Holds s v) where
  Waits-state : (p : Ptr) → Waits v p → (s.procs p).state ≡ blocked
  Waits-state p waits = elim (Bool-cases (has p v.timers)) [
    | inl on ↦ h.timer_state p on
    | inr off ↦ h.blocked_state p (rw off at waits)
  ]

  -- In a state with the lists of a view, and with a round of the loops for each entry, the switch of
  -- KeStopSchedulingProcess takes a sleeping or blocked process off its list, so that it is on
  -- none, keeps the ready queues, and changes of its control block only the link, which it clears.
  take_off-Waits :
      (p : Ptr)
      → Waits v p
      → length v.timers ≤ fuel
      → length v.blocked ≤ fuel
      → Returns (λ _. Unblocked s v (unblocked v p) p) (take_off fuel p s)
  unfolding take_off
  take_off-Waits p waits ft fb =
      let ne : p ≢ null = waits_ne_null h p waits in
      rw (ne→== p null ne, load-ok p s ne, Waits-state p waits)
        (Returns-bind (remove_from_blocked_lists-found h p fuel ft fb waits)
          (λ found s' (e, u). rw e (returns u)))

  -- In a state with the lists of a view, and with a round of the loop for each entry of its queue, the
  -- switch of KeStopSchedulingProcess takes a ready process off the queue of its priority, so that it
  -- is on no list, and the current process stays the same.
  take_off-ready :
      (i : ℕ) (p : Ptr)
      → IsLevel i
      → has p (v.ready i) ≡ true
      → length (v.ready i) ≤ fuel
      → Returns
          (λ _ s'.
            Holds s' (with_ready v i (erase p (v.ready i)))
            × IsOff (with_ready v i (erase p (v.ready i))) p
            × (s'.current ≡ s.current))
          (take_off fuel p s)
  unfolding take_off
  take_off-ready i p level on f =
      let ne : p ≢ null =
        Chain-ne_null s.procs (s.ready_queues i).first p (v.ready i) (h.queue_chain i level) on in
      let pr : (s.procs p).priority ≡ i = h.queue_priority i p level on in
      let run : dequeue_process fuel p s ≡ ok tt (popped s i (v.ready i) p) =
        dequeue-present fuel s p ne (rw pr level) (v.ready i) (rw pr (h.queue_chain i level)) f on
        ∙ ap (λ k. ok tt (popped s k (v.ready i) p)) pr in
      rw (ne→== p null ne, load-ok p s ne, h.queue_state i p level on, run)
        (returns (popped-Holds h i p level on, popped-IsOff h i p level on, refl))

  -- In a state with the lists of a view, the switch of KeStopSchedulingProcess marks the current
  -- process, where it runs and is on none of the lists, as blocked without putting it on the list of
  -- blocked processes, and the kernel runs what the abstract scheduler chooses, or stops where nothing
  -- is ready.
  pub take_off-running :
      IsCurrent s v
      → (s.procs s.current).state ≡ running
      → Implements
          (choose v (set_state blocked (s.procs s.current)) s.current)
          (take_off fuel s.current s)
  unfolding take_off
  take_off-running c st =
      let m = update s.procs s.current (set_state blocked (s.procs s.current)) in
      let self : m s.current ≡ set_state blocked (s.procs s.current) =
        update_self s.procs s.current _ in
      let h' : Holds (record s { procs = m }) v =
        Holds-outside h (record s { procs = m }) s.current c.off
          (λ a ne. update_ne s.procs s.current _ a ne) refl refl refl in
      rw
        (
          ne→== s.current null c.ne_null,
          load-ok s.current s c.ne_null,
          st,
          store-ok s.current (set_state blocked) s c.ne_null,
        )
        (subst (λ r. Implements (choose v r s.current) (reschedule fuel (record s { procs = m })))
          self (reschedule_refines fuel h' (c.ne_null, λ b. absurd (true-false (rw self at b)))))
