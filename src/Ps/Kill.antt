-- ===== src/Ps/Kill.antt =====
-- base/ps/ps.c: ending processes. `fuel` bounds every loop.
use arcos_os.Prelude.{ℕ, ◌+◌, ◌%◌, not, ◌==◌, if◌then◌else◌}
use arcos_os.Prelude.Run.{Cmd, pure, get, modify, assert, ◌>>=◌, ◌>>◌}
use arcos_os.Types.{Ptr, null, ulong_mod, Status, success}
use arcos_os.Kernel.{Kernel, in_ke, current_process}
use arcos_os.Ke.Scheduler.{load, store}
use arcos_os.Ke.Processes.{stop_scheduling_process}
use arcos_os.Mm.{mm_free}
use arcos_os.Rtl.Strings.{string_length}
use arcos_os.Rtl.Format.{format_string}
use arcos_os.Ob.Objects.{reference_object, dereference_object}
use arcos_os.Ob.Handles.{kill_process}
use arcos_os.Ob.Signal.{signal_object}
use arcos_os.Mess.Messages.{delete_message_queue}
use arcos_os.Ps.Lookup.{reference_process}
use arcos_os.Kernel.{with_rounds}

-- `send_message` is the system call, `string` the local array, `format` the address of "%d".
module _ (fuel : ℕ) (delete_method : Ptr → Ptr → Cmd Kernel (Unit {0}))
    (send_message : ℕ → ℕ → Ptr → ℕ → Cmd Kernel Status) (string format : Ptr) where
  unfoldable pub tell_supervisor : Ptr → Cmd Kernel (Unit {0})
  tell_supervisor process = do
    r ← in_ke (load process)
    if r.supervisor == 0 then pure tt else do
      m ← get λ k. k.bytes
      let printed = format_string fuel (λ _. r.pid) m string 10 format
      modify λ k. record k { bytes = printed.1.bytes }
      n ← with_rounds (string_length fuel printed.1.bytes string)
      _ ← send_message r.supervisor 0 string ((n + 1) % ulong_mod)
      pure tt

  -- PsKillProcess
  unfoldable pub ps_kill_process : Ptr → ℕ → Cmd Kernel Status
  ps_kill_process process exit_status = do
    type ← get λ k. k.process_type
    status ← reference_object process type
    elim status [
      | success ↦ (do
        status ← stop_scheduling_process fuel delete_method process
        elim status [
          | success ↦ (do
            tell_supervisor process
            r ← in_ke (load process)
            _ ← delete_message_queue fuel r.message_queue
            kill_process fuel delete_method process
            r ← in_ke (load process)
            mm_free r.allocated_memory
            if r.args == null then pure tt else mm_free r.args
            in_ke (store process λ r. record r { exit_status = exit_status })
            signal_object fuel process
            dereference_object fuel delete_method process
            pure success)
          | other ↦ pure other
        ])
      | other ↦ pure other
    ]

  unfoldable pub kill_me : Cmd Kernel (Unit {0})
  kill_me = do cur ← current_process; _ ← ps_kill_process cur 0; pure tt

  unfoldable pub kill_by_pid : ℕ → ℕ → Cmd Kernel Status
  kill_by_pid pid exit_status = do
    (status, process) ← reference_process fuel pid
    elim status [
      | success ↦ (do
        assert (not (process == null))
        status ← ps_kill_process process exit_status
        dereference_object fuel delete_method process
        pure status)
      | other ↦ pure other
    ]
