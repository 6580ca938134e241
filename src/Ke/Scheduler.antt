-- ===== src/Ke/Scheduler.antt =====
-- base/ke/scheduler.c: the ready queues, the lists of blocked and sleeping processes, and the
-- choice of the process to run. A `while` loop over a list has `fuel` rounds.
use arcos_os.Prelude.{ℕ, zero, suc, Option, none, some, ◌==◌, ltb, if◌then◌else◌, update}
use arcos_os.Prelude.Run.{
  Cmd, ok, fault, out_of_fuel, pure, get, modify, assert, ke_bug_check, ◌>>=◌, ◌>>◌,
  not_in_priority_queue, critical_process_blocked,
}
use arcos_os.Types.{
  Ptr, null, Process, ProcessState, running, ready, is_blocked, ProcessQueue,
  process_priority_levels,
}

-- The globals of scheduler.c, with the memory that holds the process control blocks.
pub record Scheduler : Type 0 where
  pub procs : Ptr → Process
  pub ready_queues : ℕ → ProcessQueue
  pub blocked_list : Ptr
  pub timer_list : Ptr
  pub current : Ptr
  pub tick_count : ℕ

-- `*p` for a PPROCESS, a fault at NULL.
unfoldable pub load : Ptr → Cmd Scheduler Process
load p s = if p == null then fault else ok (s.procs p) s

-- An assignment to fields of `*p`.
unfoldable pub store : Ptr → (Process → Process) → Cmd Scheduler (Unit {0})
store p f s =
    if p == null then fault else ok tt (record s { procs = update s.procs p (f (s.procs p)) })

abbrev pub set_next : Ptr → Process → Process
set_next q r = record r { next_pcb = q }

abbrev pub set_state : ProcessState → Process → Process
set_state st r = record r { state = st }

abbrev pub set_queue : ℕ → ProcessQueue → Cmd Scheduler (Unit {0})
set_queue i q = modify λ s. record s { ready_queues = update s.ready_queues i q }

-- The branch of KepEnqueueProcess at a queue with an entry.
unfoldable pub link_last : ℕ → ProcessQueue → Ptr → Cmd Scheduler (Unit {0})
link_last i q p = do
  tail ← load q.last
  assert (tail.next_pcb == null)
  store q.last (set_next p)
  set_queue i (record q { last = p })

unfoldable pub enqueue_process : Ptr → Cmd Scheduler (Unit {0})
enqueue_process p = do
  r ← load p
  assert (r.next_pcb == null)
  assert (ltb r.priority process_priority_levels)
  q ← get λ s. s.ready_queues r.priority
  if q.first == null
      then set_queue r.priority (record { first = p; last = p })
      else link_last r.priority q p
  store p (set_state ready)

-- The `while (currentProcess->NextPCB)` loop of KepDequeueProcess and KepRemoveFromProcessList up
-- to its hit: the entry whose NextPCB is `p`, or none at the end of the list.
unfoldable pub find_previous : ℕ → Ptr → Ptr → Cmd Scheduler (Option Ptr)
find_previous zero current p = λ _. out_of_fuel
find_previous (suc fuel) current p = do
  c ← load current
  let rest = find_previous fuel c.next_pcb p
  if c.next_pcb == null then pure none else if c.next_pcb == p then pure (some current) else rest

-- `prev->NextPCB = p->NextPCB; p->NextPCB = NULL`
unfoldable pub unlink : Ptr → Ptr → Cmd Scheduler (Unit {0})
unlink prev p = do r ← load p; store prev (set_next r.next_pcb); store p (set_next null)

-- The rest of KepDequeueProcess, where `p` is not the first entry of queue `i`.
unfoldable pub dequeue_found : ℕ → Ptr → Option Ptr → Cmd Scheduler (Unit {0})
dequeue_found i p none = ke_bug_check not_in_priority_queue
dequeue_found i p (some prev) = do
  unlink prev p
  q ← get λ s. s.ready_queues i
  if q.last == p then set_queue i (record q { last = prev }) else pure tt

-- KepReschedule behind its loop.
unfoldable pub run_current : Cmd Scheduler (Unit {0})
run_current = do
  new ← get λ s. s.current
  n ← load new
  if is_blocked n.state then ke_bug_check critical_process_blocked else pure tt
  store new (λ r. record r { quantum = 5; state = running })

module _ (fuel : ℕ) where
  unfoldable pub dequeue_process : Ptr → Cmd Scheduler (Unit {0})
  dequeue_process p = do
    r ← load p
    assert (ltb r.priority process_priority_levels)
    q ← get λ s. s.ready_queues r.priority
    if q.first == p
        then (do set_queue r.priority (record q { first = r.next_pcb }); store p (set_next null))
        else (do prev ← find_previous fuel q.first p; dequeue_found r.priority p prev)

  -- KepReschedule once it has found that queue `i` is not empty.
  unfoldable pub switch_to : ℕ → Cmd Scheduler (Unit {0})
  switch_to i = do
    old ← get λ s. s.current
    c ← load old
    if is_blocked c.state then pure tt else enqueue_process old
    q ← get λ s. s.ready_queues i
    modify λ s. record s { current = q.first }
    dequeue_process q.first

  -- The `for` loop of KepReschedule: queues `n - 1` down to `bottom`.
  unfoldable pub scan_queues : ℕ → ℕ → Cmd Scheduler (Unit {0})
  scan_queues zero bottom = pure tt
  scan_queues (suc i) bottom =
      let rest = scan_queues i bottom in
      if ltb i bottom
      then pure tt
      else do q ← get λ s. s.ready_queues i; if q.first == null then rest else switch_to i

  unfoldable pub reschedule : Cmd Scheduler (Unit {0})
  reschedule = do
    old ← get λ s. s.current
    c ← load old
    scan_queues process_priority_levels (if is_blocked c.state then 0 else c.priority)
    run_current
