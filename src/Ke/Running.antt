-- ===== src/Ke/Running.antt =====
-- base/ke/scheduler.c: a process that runs, and the loop and the end of KepReschedule.
use arcos_os.Prelude.{
  ℕ, zero, suc, ◌≤◌, ◌<◌, ◌≡◌, ◌≢◌, refl, inl, inr, false, Option, none, some, List, [], ◌∷◌, arith,
  update, update_self, update_ne, List-cases, eq→==, ne→==, lt→ltb, le→ltb, dec_lt, ◌∙◌, subst,
}
use arcos_os.Prelude.Run.{
  Run, ok, bug_check, critical_process_blocked, Returns, returns, Returns-weaken,
}
use arcos_os.Types.{Ptr, null, running, is_blocked, process_priority_levels}
use arcos_os.Ke.Scheduler.{Scheduler, switch_to, scan_queues, run_current}
use arcos_os.Ke.Chain.{Chain, load-ok, store-ok}
use arcos_os.Ke.Invariant.{View, Holds, IsLevel, with_ready, Holds-outside}
use arcos_os.Ke.Switch.{IsCurrent, Took}
use arcos_os.Ke.Choice.{top_level}

-- A process runs: the lists are those of the view, the current process can run and does, with a
-- full quantum, and no ready process has a higher priority.
pub record Runs (s : Scheduler) (v : View) : Type 0 where
  pub holds : Holds s v
  pub is_current : IsCurrent s v
  pub is_running : (s.procs s.current).state ≡ running
  pub fresh : (s.procs s.current).quantum ≡ 5
  pub highest : (j : ℕ) → IsLevel j → (s.procs s.current).priority < j → v.ready j ≡ []

-- KepReschedule is called with a current process that is blocked, or that can run.
abbrev pub MayStop : Scheduler → View → Type 0
MayStop s v = (s.current ≢ null) × (is_blocked (s.procs s.current).state ≡ false → IsCurrent s v)

-- A run that does what the abstract scheduler says.
abbrev pub Implements : Option (Ptr × View) → Run Scheduler (Unit {0}) → Type 0
Implements none r = r ≡ bug_check critical_process_blocked
Implements (some (x, v)) r = Returns (λ _ s'. (s'.current ≡ x) × Runs s' v) r

module _ (fuel : ℕ) {s : Scheduler} {v : View} (h : Holds s v) where
  pub queue-Chain :
      (i : ℕ)
      → IsLevel i
      → (xs : List Ptr) → v.ready i ≡ xs
      → Chain s.procs (s.ready_queues i).first xs
  queue-Chain i level xs e =
      subst (λ zs. Chain s.procs (s.ready_queues i).first zs) e (h.queue_chain i level)

  abbrev pub scan_result : Option ℕ → Run Scheduler (Unit {0})
  scan_result none = ok tt s
  scan_result (some i) = switch_to fuel i s

  -- The `for` loop stops at the highest level that has a ready process.
  pub scan-top_level :
      (n bottom : ℕ)
      → n ≤ process_priority_levels
      → scan_queues fuel n bottom s ≡ scan_result (top_level v.ready n bottom)
  unfolding scan_queues top_level
  scan-top_level zero bottom le = refl
  scan-top_level (suc i) bottom le = elim (dec_lt i bottom) [
    | yes below ↦ rw (lt→ltb i bottom below)
    | no above ↦
        let in_range = le→ltb i bottom (omega arith) in
        elim (List-cases (v.ready i)) [
          | inl empty ↦
              rw (in_range, eq→== (s.ready_queues i).first null (queue-Chain i le [] empty), empty)
                (scan-top_level i bottom (omega arith))
          | inr (x, xs, full) ↦
              let c = queue-Chain i le (x ∷ xs) full in
              rw (in_range, ne→== (s.ready_queues i).first null (rw c.0 c.1), full)
        ]
  ]

pub started-Runs :
    (s : Scheduler) (v : View)
    → Holds s v
    → IsCurrent s v
    → ((j : ℕ) → IsLevel j → (s.procs s.current).priority < j → v.ready j ≡ [])
    → Runs
        (record s {
          procs =
              update s.procs s.current
                (record (s.procs s.current) { quantum = 5; state = running });
        })
        v
started-Runs s v h c top =
    let r = record (s.procs s.current) { quantum = 5; state = running } in
    let self = update_self s.procs s.current r in
    record {
      holds =
          Holds-outside h (record s { procs = update s.procs s.current r }) s.current c.off
            (λ a ne. update_ne s.procs s.current r a ne) refl refl refl;
      is_current = record {
        ne_null = c.ne_null;
        next_clear = rw self c.next_clear;
        level = rw self c.level;
        off = c.off;
      };
      is_running = rw self;
      fresh = rw self;
      highest = rw self top;
    }

abbrev pub IsHighest : View → ℕ → Type 0
IsHighest v i = (j : ℕ) → IsLevel j → i < j → v.ready j ≡ []

-- From any state with a current process that can run, the end of KepReschedule starts it.
pub run_current-Runs :
    (s : Scheduler) (v : View)
    → Holds s v
    → IsCurrent s v
    → is_blocked (s.procs s.current).state ≡ false
    → IsHighest v (s.procs s.current).priority
    → Returns (λ _ s'. (s'.current ≡ s.current) × Runs s' v) (run_current s)
unfolding run_current
run_current-Runs s v h c b top =
    rw (load-ok s.current s c.ne_null, b, store-ok s.current _ s c.ne_null)
      (returns (refl, started-Runs s v h c top))

pub run_current-Took :
    (w : View) (i : ℕ) (x : Ptr) (ys : List Ptr) (s : Scheduler)
    → Took w i x ys s
    → IsHighest (with_ready w i ys) i
    → Returns (λ _ s'. (s'.current ≡ x) × Runs s' (with_ready w i ys)) (run_current s)
run_current-Took w i x ys s t top =
    let r =
      run_current-Runs s (with_ready w i ys) t.holds t.is_current (rw t.is_ready)
        (rw t.priority top) in
    Returns-weaken r (λ _ s' (e, runs). (e ∙ t.chosen, runs))

pub IsHighest-with_ready :
    (w : View) (i : ℕ) (ys : List Ptr) → IsHighest w i → IsHighest (with_ready w i ys) i
IsHighest-with_ready w i ys top j level lt =
    update_ne w.ready i ys j (λ e. absurd (omega (arith, e))) ∙ top j level lt
