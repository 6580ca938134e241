-- ===== src/Ke/Timers.antt =====
-- base/ke/scheduler.c: blocking, sleeping, waking, changing the priority and the timer tick, as far
-- as they touch the scheduler's own state. A `while` loop over a list has `fuel` rounds.
use arcos_os.Prelude.{
  ℕ, zero, suc, ◌+◌, ◌-◌, ◌%◌, Bool, true, false, not, Option, none, some, ◌==◌, ltb, if◌then◌else◌,
}
use arcos_os.Prelude.Run.{
  Cmd, out_of_fuel, pure, get, modify, assert, ke_bug_check, ◌>>=◌, ◌>>◌, blocked_in_no_queue,
  unhandled_process_state,
}
use arcos_os.Types.{
  Ptr, null, ulong_mod, Process, running, ready, blocked, process_priority_levels, ResumeMethod,
  no_method,
}
use arcos_os.Ke.Scheduler.{
  Scheduler, load, store, set_next, set_state, enqueue_process, dequeue_process, find_previous,
  unlink, reschedule,
}

abbrev pub set_priority : ℕ → Process → Process
set_priority n r = record r { priority = n }

abbrev pub set_timer_list : Ptr → Cmd Scheduler (Unit {0})
set_timer_list t = modify λ s. record s { timer_list = t }

abbrev pub set_blocked_list : Ptr → Cmd Scheduler (Unit {0})
set_blocked_list t = modify λ s. record s { blocked_list = t }

-- The end of KepRemoveFromProcessList, where `p` is not the head.
unfoldable pub remove_found : Ptr → Ptr → Option Ptr → Cmd Scheduler (Bool × Ptr)
remove_found head p none = pure (false, head)
remove_found head p (some prev) = do unlink prev p; pure (true, head)

-- The `while` loop of KeSuspendProcess: the entry behind which the sleeper goes.
unfoldable pub find_spot : ℕ → Ptr → ℕ → Cmd Scheduler Ptr
find_spot zero current wake = λ _. out_of_fuel
find_spot (suc fuel) current wake = do
  c ← load current
  let rest = find_spot fuel c.next_pcb wake
  if c.next_pcb == null
      then pure current
      else do n ← load c.next_pcb; if ltb n.wake_up_time wake then rest else pure current

module _ (fuel : ℕ) where
  -- `*ListHead` comes as the second argument, and is returned as the call leaves it.
  unfoldable pub remove_from_process_list : Ptr → Ptr → Cmd Scheduler (Bool × Ptr)
  remove_from_process_list head p =
      if head == null
      then pure (false, head)
      else if head == p
      then (do r ← load p; store p (set_next null); pure (true, r.next_pcb))
      else (do prev ← find_previous fuel head p; remove_found head p prev)

  -- `KepRemoveFromProcessList(&KepTimerList, p) || KepRemoveFromProcessList(&KepBlockedList, p)`
  unfoldable pub remove_from_blocked_lists : Ptr → Cmd Scheduler Bool
  remove_from_blocked_lists p = do
    t ← get λ s. s.timer_list
    (found, t) ← remove_from_process_list t p
    set_timer_list t
    if found then pure true else do
      b ← get λ s. s.blocked_list
      (found, b) ← remove_from_process_list b p
      set_blocked_list b
      pure found

  unfoldable pub block_process : Cmd Scheduler (Unit {0})
  block_process = do
    cur ← get λ s. s.current
    store cur (λ r. record r { state = blocked; resume_method = no_method })
    b ← get λ s. s.blocked_list
    store cur (set_next b)
    set_blocked_list cur
    reschedule fuel

  -- KeResumeProcess behind the call of the resume method.
  unfoldable pub make_ready : Ptr → Cmd Scheduler (Unit {0})
  make_ready p = do
    found ← remove_from_blocked_lists p
    if found then pure tt else ke_bug_check blocked_in_no_queue
    enqueue_process p
    r ← load p
    cur ← get λ s. s.current
    c ← load cur
    if ltb c.priority r.priority then reschedule fuel else pure tt

  unfoldable pub change_process_priority : Ptr → ℕ → Cmd Scheduler (Unit {0})
  change_process_priority p new_priority = do
    assert (not (p == null))
    assert (ltb new_priority process_priority_levels)
    r ← load p
    elim r.state [
      | running ↦ store p (set_priority new_priority)
      | blocked ↦ store p (set_priority new_priority)
      | ready ↦ (do dequeue_process fuel p; store p (set_priority new_priority); enqueue_process p)
      | _ ↦ ke_bug_check unhandled_process_state
    ]

  -- The `if` of KeSuspendProcess: the process `cur` goes to the sorted timer list.
  unfoldable pub enqueue_sleeper : Ptr → ℕ → Cmd Scheduler (Unit {0})
  enqueue_sleeper cur wake = do
    t ← get λ s. s.timer_list
    first ← (if t == null then pure true else (do h ← load t; pure (ltb wake h.wake_up_time)))
    if first then (do store cur (set_next t); set_timer_list cur) else (do
      spot ← find_spot fuel t wake
      n ← load spot
      store cur (set_next n.next_pcb)
      store spot (set_next cur))

  unfoldable pub suspend_process : ℕ → ResumeMethod → Cmd Scheduler (Unit {0})
  suspend_process milliseconds method = do
    cur ← get λ s. s.current
    c ← load cur
    assert (c.next_pcb == null)
    now ← get λ s. s.tick_count
    let wake = (now + milliseconds) % ulong_mod
    store cur (λ r. record r { wake_up_time = wake; state = blocked; resume_method = method })
    enqueue_sleeper cur wake
    reschedule fuel

  -- The switch of KeStopSchedulingProcess.
  unfoldable pub take_off : Ptr → Cmd Scheduler (Unit {0})
  take_off p = do
    assert (not (p == null))
    r ← load p
    elim r.state [
      | running ↦ (do store p (set_state blocked); reschedule fuel)
      | ready ↦ dequeue_process fuel p
      | blocked ↦ (do
        found ← remove_from_blocked_lists p
        if found then pure tt else ke_bug_check blocked_in_no_queue)
      | _ ↦ ke_bug_check unhandled_process_state
    ]

-- KeHandleTimer up to the call of KepWakeUpSleepers.
unfoldable pub count_tick : Cmd Scheduler (Unit {0})
count_tick = do
  cur ← get λ s. s.current
  c ← load cur
  assert (ltb 0 c.quantum)
  modify λ s. record s { tick_count = (s.tick_count + 10) % ulong_mod }
  store cur (λ r. record r { cpu_time = (r.cpu_time + 10) % ulong_mod; quantum = r.quantum - 1 })
