-- ===== src/Ke/Processes.antt =====
-- base/ke/scheduler.c and base/ke/syscall.c: the operations that also reach the object manager, or
-- call a resume method.
use arcos_os.Prelude.{ℕ, zero, suc, not, ◌==◌, ltb, if◌then◌else◌}
use arcos_os.Prelude.Run.{Cmd, out_of_fuel, pure, get, assert, ◌>>=◌, ◌>>◌}
use arcos_os.Types.{Ptr, null, Status, success, is_blocked, no_method, mess_resume_method}
use arcos_os.Ke.Scheduler.{load, store, enqueue_process, reschedule}
use arcos_os.Ke.Timers.{make_ready, take_off, count_tick}
use arcos_os.Kernel.{Kernel, in_ke, current_process}
use arcos_os.Mess.WaitQueue.{mess_resume}
use arcos_os.Ob.Objects.{reference_object, dereference_object}

unfoldable pub start_scheduling_process : Ptr → Cmd Kernel Status
start_scheduling_process p = do
  assert (not (p == null))
  r ← in_ke (load p)
  assert (r.next_pcb == null)
  status ← reference_object p null
  elim status [ success ↦ (do in_ke (enqueue_process p); pure success) | other ↦ pure other ]

-- KeGetTickCount
unfoldable pub get_tick_count : Cmd Kernel ℕ
get_tick_count = get λ k. k.ke.tick_count

-- KeSetSyscallResult
unfoldable pub set_syscall_result : Ptr → ℕ → Cmd Kernel (Unit {0})
set_syscall_result p result = do
  assert (not (p == null))
  in_ke (store p (λ r. record r { context = record r.context { v0 = result } }))

module _ (fuel : ℕ) where
  unfoldable pub resume_process : Ptr → Cmd Kernel (Unit {0})
  resume_process p = do
    assert (not (p == null))
    r ← in_ke (load p)
    assert (is_blocked r.state)
    elim r.resume_method [ no_method ↦ pure tt | mess_resume_method ↦ mess_resume fuel p ]
    in_ke (make_ready fuel p)

  -- KepWakeUpSleepers, with `rounds` rounds of its loop.
  unfoldable pub wake_up_sleepers : ℕ → Cmd Kernel (Unit {0})
  wake_up_sleepers zero = λ _. out_of_fuel
  wake_up_sleepers (suc rounds) = do
    t ← get λ k. k.ke.timer_list
    let rest = (do resume_process t; wake_up_sleepers rounds)
    if t == null then pure tt else do
      r ← in_ke (load t)
      now ← get λ k. k.ke.tick_count
      if ltb r.wake_up_time now then rest else pure tt

  unfoldable pub handle_timer : Cmd Kernel (Unit {0})
  handle_timer = do
    cur ← current_process
    assert (not (cur == null))
    in_ke count_tick
    wake_up_sleepers fuel
    cur ← current_process
    c ← in_ke (load cur)
    if c.quantum == 0 then in_ke (reschedule fuel) else pure tt

  module _ (delete_method : Ptr → Ptr → Cmd Kernel (Unit {0})) where
    unfoldable pub stop_scheduling_process : Ptr → Cmd Kernel Status
    stop_scheduling_process p = do
      assert (not (p == null))
      in_ke (take_off fuel p)
      dereference_object fuel delete_method p
      pure success
