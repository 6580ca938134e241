-- ===== src/Ke/Frame.antt =====
-- base/ke/scheduler.c: what the operations on the queues leave alone: the tick count, and the wake-up
-- time, resume method, registers and processor time of each process.
use arcos_os.Prelude.{
  ℕ, zero, suc, ◌≡◌, refl, ◌∙◌, Bool, true, false, Option, none, some, ◌==◌, ltb, if◌then◌else◌,
  update, update_all,
}
use arcos_os.Prelude.Run.{BugCheck, Run, ok, bug_check, fault, out_of_fuel, Cmd, then_run, assert}
use arcos_os.Types.{Ptr, null, Process, is_blocked, ready, ProcessQueue, process_priority_levels}
use arcos_os.Ke.Scheduler.{
  Scheduler, load, store, set_next, set_state, link_last, enqueue_process, find_previous, unlink,
  dequeue_found, dequeue_process, switch_to, scan_queues, run_current, reschedule,
}
use arcos_os.Ke.Timers.{
  remove_found, remove_from_process_list, remove_from_blocked_lists, make_ready,
}

abbrev pub SameRest : Process → Process → Type 0
SameRest r r' =
    (r'.wake_up_time ≡ r.wake_up_time)
    × (r'.resume_method ≡ r.resume_method)
    × (r'.context ≡ r.context)
    × (r'.cpu_time ≡ r.cpu_time)

abbrev pub Kept : Scheduler → Scheduler → Type 0
Kept s s' = (s'.tick_count ≡ s.tick_count) × ((a : Ptr) → SameRest (s.procs a) (s'.procs a))

-- A run that, if it ends in a value, has kept all this.
pub data Keeps (s : Scheduler) {A : Type 0} : Run Scheduler A → Type 0 where
  keeps : {a : A} {s' : Scheduler} → Kept s s' → Keeps s (ok a s')
  stops : (m : BugCheck) → Keeps s (bug_check m)
  faults : Keeps s fault
  runs_out : Keeps s out_of_fuel

abbrev pub Preserves : (Process → Process) → Type 0
Preserves f = (r : Process) → SameRest r (f r)

pub Keeps-value : {s s' : Scheduler} {A : Type 0} {a : A} → Keeps s (ok a s') → Kept s s'
Keeps-value (keeps k) = k

pub Kept-refl : (s : Scheduler) → Kept s s
Kept-refl s = (refl, λ a. (refl, refl, refl, refl))

next-Preserves : (q : Ptr) → Preserves (set_next q)
next-Preserves q r = (refl, refl, refl, refl)

store-Kept :
    (s0 s : Scheduler) (p : Ptr) (f : Process → Process)
    → Kept s0 s
    → Preserves f
    → Kept s0 (record s { procs = update s.procs p (f (s.procs p)) })
store-Kept s0 s p f e same = (
  e.0,
  update_all (λ a r. SameRest (s0.procs a) r) s.procs p (f (s.procs p))
      (
        (same (s.procs p)).0 ∙ (e.1 p).0,
        (same (s.procs p)).1 ∙ (e.1 p).1,
        (same (s.procs p)).2 ∙ (e.1 p).2,
        (same (s.procs p)).3 ∙ (e.1 p).3,
      )
      (λ a _. e.1 a),
)

module _ {s0 : Scheduler} where
  Keeps-bind :
      {A B : Type 0} {r : Run Scheduler A} {k : A → Cmd Scheduler B}
      → Keeps s0 r
      → ((a : A) (s : Scheduler) → Kept s0 s → Keeps s0 (k a s))
      → Keeps s0 (then_run r k)
  Keeps-bind (keeps e) next = next _ _ e
  Keeps-bind (stops m) next = stops m
  Keeps-bind faults next = faults
  Keeps-bind runs_out next = runs_out

  Keeps-if :
      {A : Type 0} (b : Bool) (m n : Cmd Scheduler A) (s : Scheduler)
      → Keeps s0 (m s)
      → Keeps s0 (n s)
      → Keeps s0 ((if b then m else n) s)
  Keeps-if true m n s yes_run no_run = yes_run
  Keeps-if false m n s yes_run no_run = no_run

  module _ (s : Scheduler) (e : Kept s0 s) where
    assert-Keeps : (b : Bool) → Keeps s0 (assert b s)
    assert-Keeps true = keeps e
    assert-Keeps false = stops _

    load-Keeps : (p : Ptr) → Keeps s0 (load p s)
    unfolding load
    load-Keeps p = elim (p == null) as (λ b. Keeps s0 (if b then fault else ok (s.procs p) s)) [
      | true ↦ faults
      | false ↦ keeps e
    ]

    store-Keeps : (p : Ptr) (f : Process → Process) → Preserves f → Keeps s0 (store p f s)
    unfolding store
    store-Keeps p f same =
        elim (p == null)
          as (λ b.
            Keeps s0 (
              if b then fault else ok tt (record s { procs = update s.procs p (f (s.procs p)) }))) [
                | true ↦ faults
                | false ↦ keeps (store-Kept s0 s p f e same)
              ]

  link_last-Keeps :
      (i : ℕ) (q : ProcessQueue) (p : Ptr) (s : Scheduler)
      → Kept s0 s
      → Keeps s0 (link_last i q p s)
  unfolding link_last
  link_last-Keeps i q p s e = Keeps-bind (load-Keeps s e q.last) λ tail s e.
      Keeps-bind (assert-Keeps s e (tail.next_pcb == null)) λ _ s e.
        Keeps-bind (store-Keeps s e q.last (set_next p) (next-Preserves p)) λ _ s e. keeps e

  enqueue_process-Keeps : (p : Ptr) (s : Scheduler) → Kept s0 s → Keeps s0 (enqueue_process p s)
  unfolding enqueue_process
  enqueue_process-Keeps p s e = Keeps-bind (load-Keeps s e p) λ r s e.
      Keeps-bind (assert-Keeps s e (r.next_pcb == null)) λ _ s e.
        Keeps-bind (assert-Keeps s e (ltb r.priority process_priority_levels)) λ _ s e.
          Keeps-bind
            (Keeps-if ((s.ready_queues r.priority).first == null) _ _ s (keeps e)
              (link_last-Keeps r.priority (s.ready_queues r.priority) p s e))
            λ _ s e. store-Keeps s e p (set_state ready) (λ r. (refl, refl, refl, refl))

  find_previous-Keeps :
      (fuel : ℕ) (head p : Ptr) (s : Scheduler) → Kept s0 s → Keeps s0 (find_previous fuel head p s)
  unfolding find_previous
  find_previous-Keeps zero head p s e = runs_out
  find_previous-Keeps (suc fuel) head p s e = Keeps-bind (load-Keeps s e head) λ c s e.
      Keeps-if (c.next_pcb == null) _ _ s (keeps e)
        (Keeps-if (c.next_pcb == p) _ _ s (keeps e) (find_previous-Keeps fuel c.next_pcb p s e))

  unlink-Keeps : (prev p : Ptr) (s : Scheduler) → Kept s0 s → Keeps s0 (unlink prev p s)
  unfolding unlink
  unlink-Keeps prev p s e = Keeps-bind (load-Keeps s e p) λ r s e.
      Keeps-bind (store-Keeps s e prev (set_next r.next_pcb) (next-Preserves r.next_pcb))
        λ _ s e. store-Keeps s e p (set_next null) (next-Preserves null)

  dequeue_found-Keeps :
      (i : ℕ) (p : Ptr) (o : Option Ptr) (s : Scheduler)
      → Kept s0 s
      → Keeps s0 (dequeue_found i p o s)
  unfolding dequeue_found
  dequeue_found-Keeps i p none s e = stops _
  dequeue_found-Keeps i p (some prev) s e =
      Keeps-bind (unlink-Keeps prev p s e)
        λ _ s e. Keeps-if ((s.ready_queues i).last == p) _ _ s (keeps e) (keeps e)

  remove_found-Keeps :
      (head p : Ptr) (o : Option Ptr) (s : Scheduler)
      → Kept s0 s
      → Keeps s0 (remove_found head p o s)
  unfolding remove_found
  remove_found-Keeps head p none s e = keeps e
  remove_found-Keeps head p (some prev) s e = Keeps-bind (unlink-Keeps prev p s e) λ _ s e. keeps e

  run_current-Keeps : (s : Scheduler) → Kept s0 s → Keeps s0 (run_current s)
  unfolding run_current
  run_current-Keeps s e = Keeps-bind (load-Keeps s e s.current) λ n s' e.
      Keeps-bind (Keeps-if (is_blocked n.state) _ _ s' (stops _) (keeps e))
        λ _ s' e. store-Keeps s' e s.current _ (λ r. (refl, refl, refl, refl))

  module _ (fuel : ℕ) where
    dequeue_process-Keeps :
        (p : Ptr) (s : Scheduler) → Kept s0 s → Keeps s0 (dequeue_process fuel p s)
    unfolding dequeue_process
    dequeue_process-Keeps p s e = Keeps-bind (load-Keeps s e p) λ r s e.
        Keeps-bind (assert-Keeps s e (ltb r.priority process_priority_levels)) λ _ s e.
          Keeps-if ((s.ready_queues r.priority).first == p) _ _ s
            (store-Keeps (record s { ready_queues = _ }) e p (set_next null) (next-Preserves null))
            (Keeps-bind (find_previous-Keeps fuel (s.ready_queues r.priority).first p s e)
              λ prev s e. dequeue_found-Keeps r.priority p prev s e)

    switch_to-Keeps : (i : ℕ) (s : Scheduler) → Kept s0 s → Keeps s0 (switch_to fuel i s)
    unfolding switch_to
    switch_to-Keeps i s e = Keeps-bind (load-Keeps s e s.current) λ c s' e.
        Keeps-bind
          (Keeps-if (is_blocked c.state) _ _ s' (keeps e) (enqueue_process-Keeps s.current s' e))
          λ _ s e.
            dequeue_process-Keeps (s.ready_queues i).first
              (record s { current = (s.ready_queues i).first }) e

    scan_queues-Keeps :
        (n bottom : ℕ) (s : Scheduler) → Kept s0 s → Keeps s0 (scan_queues fuel n bottom s)
    unfolding scan_queues
    scan_queues-Keeps zero bottom s e = keeps e
    scan_queues-Keeps (suc i) bottom s e = Keeps-if (ltb i bottom) _ _ s (keeps e) (
        Keeps-if ((s.ready_queues i).first == null) _ _ s (scan_queues-Keeps i bottom s e)
          (switch_to-Keeps i s e))

    pub reschedule-Keeps : (s : Scheduler) → Kept s0 s → Keeps s0 (reschedule fuel s)
    unfolding reschedule
    reschedule-Keeps s e = Keeps-bind (load-Keeps s e s.current) λ c s e.
        Keeps-bind (scan_queues-Keeps process_priority_levels _ s e) λ _ s e. run_current-Keeps s e

    remove_from_process_list-Keeps :
        (head p : Ptr) (s : Scheduler)
        → Kept s0 s
        → Keeps s0 (remove_from_process_list fuel head p s)
    unfolding remove_from_process_list
    remove_from_process_list-Keeps head p s e = Keeps-if (head == null) _ _ s (keeps e) (
        Keeps-if (head == p) _ _ s
          (Keeps-bind (load-Keeps s e p) λ r s e.
            Keeps-bind (store-Keeps s e p (set_next null) (next-Preserves null)) λ _ s e. keeps e)
          (Keeps-bind (find_previous-Keeps fuel head p s e)
            λ prev s e. remove_found-Keeps head p prev s e))

    remove_from_blocked_lists-Keeps :
        (p : Ptr) (s : Scheduler) → Kept s0 s → Keeps s0 (remove_from_blocked_lists fuel p s)
    unfolding remove_from_blocked_lists
    remove_from_blocked_lists-Keeps p s e =
        Keeps-bind (remove_from_process_list-Keeps s.timer_list p s e) λ r s e.
          Keeps-if r.0 _ _ (record s { timer_list = r.1 }) (keeps e)
            (Keeps-bind
              (remove_from_process_list-Keeps s.blocked_list p (record s { timer_list = r.1 }) e)
              λ _ s e. keeps e)

    -- KeResumeProcess behind its resume method keeps the tick count, and the wake-up time, the resume
    -- method, the registers and the processor time of each process.
    pub make_ready-Keeps : (p : Ptr) (s : Scheduler) → Kept s0 s → Keeps s0 (make_ready fuel p s)
    unfolding make_ready
    make_ready-Keeps p s e = Keeps-bind (remove_from_blocked_lists-Keeps p s e) λ found s e.
        Keeps-bind (Keeps-if found _ _ s (keeps e) (stops _)) λ _ s e.
          Keeps-bind (enqueue_process-Keeps p s e) λ _ s e. Keeps-bind (load-Keeps s e p) λ r s e.
            Keeps-bind (load-Keeps s e s.current)
              λ c s e. Keeps-if (ltb c.priority r.priority) _ _ s (reschedule-Keeps s e) (keeps e)
