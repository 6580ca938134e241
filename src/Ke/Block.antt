-- ===== src/Ke/Block.antt =====
-- KeBlockProcess of base/ke/scheduler.c and the abstract scheduler of Ke/Choice.antt.
use arcos_os.Prelude.{
  ℕ, ◌≡◌, ◌≢◌, refl, inl, inr, true, false, ◌∷◌, arith, ◌==◌, update, has, Bool-cases, ==→eq, ==→ne,
  ne→==, subst,
}
use arcos_os.Types.{Ptr, Process, no_method, blocked}
use arcos_os.Ke.Scheduler.{Scheduler, set_next, set_state, reschedule}
use arcos_os.Ke.Timers.{block_process}
use arcos_os.Ke.Chain.{Memory, Chain-frame, store-ok}
use arcos_os.Ke.Invariant.{View, Holds, IsLevel}
use arcos_os.Ke.Waiting.{ne_of_has, with_blocked, Holds-with_blocked}
use arcos_os.Ke.Switch.{IsCurrent}
use arcos_os.Ke.Choice.{choose}
use arcos_os.Ke.Reschedule.{reschedule_refines}
use arcos_os.Ke.Running.{Implements}

true-false : true ≡ false → ⊥
true-false e = cc

module _ (s : Scheduler) (v : View) (h : Holds s v) (c : IsCurrent s v) where
  abbrev blocked_pcb : Process
  blocked_pcb = record (s.procs s.current) { state = blocked; resume_method = no_method }

  abbrev blocked_procs : Memory
  blocked_procs =
      let m = update s.procs s.current blocked_pcb in
      update m s.current (set_next s.blocked_list (m s.current))

  abbrev blocked_state : Scheduler
  blocked_state = record s { procs = blocked_procs; blocked_list = s.current }

  blocked_self : blocked_procs s.current ≡ set_next s.blocked_list blocked_pcb
  unfolding update
  blocked_self = ground arith

  blocked_ne : (a : Ptr) → a ≢ s.current → blocked_procs a ≡ s.procs a
  unfolding update
  blocked_ne a ne = ground arith

  blocked_each :
      (P : Process → Type 0)
      → P (blocked_procs s.current)
      → ((a : Ptr) → has a v.blocked ≡ true → P (s.procs a))
      → (a : Ptr) → has a (s.current ∷ v.blocked) ≡ true
      → P (blocked_procs a)
  blocked_each P new old a m = elim (Bool-cases (a == s.current)) [
    | inl hit ↦ rw (==→eq a s.current hit) new
    | inr miss ↦ rw (blocked_ne a (==→ne a s.current miss)) (old a (ground arith))
  ]

  blocked_state-Holds : Holds blocked_state (with_blocked v (s.current ∷ v.blocked))
  blocked_state-Holds =
      Holds-with_blocked h blocked_state s.current refl c.off.not_ready (s.current ∷ v.blocked)
        (λ a ne _. blocked_ne a ne) c.off.not_timer refl
        (
          refl,
          c.ne_null,
          c.off.not_blocked,
          rw blocked_self (
              Chain-frame s.procs blocked_procs s.blocked_list v.blocked h.blocked_chain
                (λ a m. rw (blocked_ne a (ne_of_has s.current a v.blocked m c.off.not_blocked)))),
        )
        (blocked_each (λ r. r.state ≡ blocked) (rw blocked_self) h.blocked_state)
        (blocked_each (λ r. IsLevel r.priority) (rw blocked_self c.level) h.blocked_level)
        (λ a m.
          let ne = ne→== a s.current (ne_of_has s.current a v.timers m c.off.not_timer) in
          rw ne (h.apart a m))

  -- From a state with the lists of a view, whose current process can run, KeBlockProcess puts the
  -- current process on the blocked list and runs what the abstract scheduler chooses, or stops the
  -- kernel where nothing is ready.
  pub block_process_refines :
      (fuel : ℕ)
      → Implements
          (choose
            (with_blocked v (s.current ∷ v.blocked))
            (set_state blocked (s.procs s.current))
            s.current)
          (block_process fuel s)
  unfolding block_process choose
  block_process_refines fuel =
      rw
        (
          store-ok s.current (λ r. record r { state = blocked; resume_method = no_method }) s
              c.ne_null,
          store-ok s.current (set_next s.blocked_list) _ c.ne_null,
        )
        (subst
          (λ q.
            Implements (choose (with_blocked v (s.current ∷ v.blocked)) q s.current)
              (reschedule fuel blocked_state))
          blocked_self
          (reschedule_refines fuel blocked_state-Holds
            (c.ne_null, λ b. absurd (true-false (rw blocked_self at b)))))
