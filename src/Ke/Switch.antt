-- ===== src/Ke/Switch.antt =====
-- The heart of KepReschedule: the first process of a ready queue becomes the current one.
use arcos_os.Prelude.{
  ℕ, ◌≡◌, ◌≢◌, refl, true, false, List, [], ◌∷◌, ◌++◌, if◌then◌else◌, has, erase, eq→==, sym, ap₂,
  ◌∙◌, subst,
}
use arcos_os.Prelude.Run.{ok, Returns, returns}
use arcos_os.Types.{Ptr, null, Process, ready, is_blocked}
use arcos_os.Ke.Scheduler.{Scheduler, set_next, dequeue_process, switch_to}
use arcos_os.Ke.Chain.{Chain, load-ok}
use arcos_os.Ke.Invariant.{View, Holds, IsOff, IsLevel, with_ready}
use arcos_os.Ke.Enqueue.{pushed-Holds, enqueue-pushed}
use arcos_os.Ke.Dequeue.{popped, dequeue_head}
use arcos_os.Ke.Popped.{popped-Holds, popped-IsOff, popped_self}

-- The current process can run: it is on no list, its link is clear, its priority is a level.
pub record IsCurrent (s : Scheduler) (v : View) : Type 0 where
  pub ne_null : s.current ≢ null
  pub next_clear : (s.procs s.current).next_pcb ≡ null
  pub level : IsLevel (s.procs s.current).priority
  pub off : IsOff v s.current

-- The lists after the current process, if it is not blocked, is put back on its queue.
abbrev pub parked : View → Process → Ptr → View
parked v r c =
    if is_blocked r.state then v else with_ready v r.priority (v.ready r.priority ++ c ∷ [])

Holds-current :
    {s : Scheduler} {v : View} (c : Ptr) → Holds s v → Holds (record s { current = c }) v
Holds-current c h = record {
  queue_chain = h.queue_chain;
  queue_last = h.queue_last;
  queue_state = h.queue_state;
  queue_priority = h.queue_priority;
  blocked_chain = h.blocked_chain;
  timer_chain = h.timer_chain;
  blocked_state = h.blocked_state;
  timer_state = h.timer_state;
  blocked_level = h.blocked_level;
  timer_level = h.timer_level;
  apart = h.apart;
  sorted = h.sorted;
}

-- What is true of the state `s'` once the first process `x` of queue `i` is the current one.
pub record Took (v : View) (i : ℕ) (x : Ptr) (xs : List Ptr) (s' : Scheduler) : Type 0 where
  pub holds : Holds s' (with_ready v i xs)
  pub is_current : IsCurrent s' (with_ready v i xs)
  pub chosen : s'.current ≡ x
  pub priority : (s'.procs s'.current).priority ≡ i
  pub is_ready : (s'.procs s'.current).state ≡ ready

module _ (fuel : ℕ) {s : Scheduler} {v : View} (h : Holds s v) (i : ℕ) (x : Ptr) (xs : List Ptr)
    (level : IsLevel i) (e : v.ready i ≡ x ∷ xs) where
  abbrev chosen_state : Scheduler
  chosen_state = record s { current = x }

  on : has x (v.ready i) ≡ true
  on = rw e (rw (eq→== x x refl))

  rest : erase x (v.ready i) ≡ xs
  rest = rw e (rw (eq→== x x refl))

  x_priority : (s.procs x).priority ≡ i
  x_priority = h.queue_priority i x level on

  x-Chain : Chain s.procs (s.ready_queues i).first (x ∷ xs)
  x-Chain = subst (λ zs. Chain s.procs (s.ready_queues i).first zs) e (h.queue_chain i level)

  pub first_of_queue : (s.ready_queues i).first ≡ x
  first_of_queue = x-Chain.0

  taken-Holds : Holds (popped chosen_state i (v.ready i) x) (with_ready v i xs)
  taken-Holds =
      subst (λ zs. Holds (popped chosen_state i (v.ready i) x) (with_ready v i zs)) rest
        (popped-Holds (Holds-current x h) i x level on)

  taken_self : (popped chosen_state i (v.ready i) x).procs x ≡ set_next null (s.procs x)
  taken_self = popped_self (Holds-current x h) i x level on

  taken : Took v i x xs (popped chosen_state i (v.ready i) x)
  taken = record {
    holds = taken-Holds;
    is_current = record {
      ne_null = x-Chain.1;
      next_clear = rw taken_self;
      level = rw (taken_self, x_priority) level;
      off =
          subst (λ zs. IsOff (with_ready v i zs) x) rest
            (popped-IsOff (Holds-current x h) i x level on);
    };
    chosen = refl;
    priority = rw taken_self x_priority;
    is_ready = rw taken_self (h.queue_state i x level on);
  }

  take_runs : dequeue_process fuel x chosen_state ≡ ok tt (popped chosen_state i (v.ready i) x)
  take_runs =
      dequeue_head fuel chosen_state x x-Chain.1 (rw x_priority level) xs
        (rw x_priority first_of_queue)
      ∙ ap₂ (λ j zs. ok tt (popped chosen_state j zs x)) x_priority (sym e)

  -- Making the first process of queue `i` the current one and taking it off the queue.
  pub take_first :
      Returns
        (λ _. Took v i x xs)
        (dequeue_process fuel
          (s.ready_queues i).first
          (record s { current = (s.ready_queues i).first }))
  take_first =
      subst (λ y. Returns (λ _. Took v i x xs) (dequeue_process fuel y (record s { current = y })))
        (sym first_of_queue) (rw take_runs (returns taken))

module _ (fuel : ℕ) {s : Scheduler} {v : View} (h : Holds s v) (i : ℕ) (x : Ptr)
    (level : IsLevel i) where
  -- A blocked current process stays where it is.
  pub switch_blocked :
      (xs : List Ptr)
      → v.ready i ≡ x ∷ xs
      → s.current ≢ null
      → is_blocked (s.procs s.current).state ≡ true
      → Returns (λ _. Took v i x xs) (switch_to fuel i s)
  unfolding switch_to
  switch_blocked xs e ne b = rw (load-ok s.current s ne, b) (take_first fuel h i x xs level e)

  -- Any other goes to the end of its own queue first.
  pub switch_parked :
      (ys : List Ptr)
      → let j = (s.procs s.current).priority in
        let v' = with_ready v j (v.ready j ++ s.current ∷ []) in
        v'.ready i ≡ x ∷ ys
        → IsCurrent s v
        → is_blocked (s.procs s.current).state ≡ false
        → Returns
            (λ _.
              Took
                (with_ready v
                  (s.procs s.current).priority
                  (v.ready (s.procs s.current).priority ++ s.current ∷ []))
                i
                x
                ys)
            (switch_to fuel i s)
  unfolding switch_to
  switch_parked ys e c b =
      rw
        (
          load-ok s.current s c.ne_null,
          b,
          enqueue-pushed h s.current c.off c.ne_null c.next_clear c.level,
        )
        (take_first fuel (pushed-Holds h s.current c.off c.ne_null c.next_clear c.level) i x ys
          level e)
