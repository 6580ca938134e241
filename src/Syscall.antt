-- ===== src/Syscall.antt =====
-- base/ke/syscall.c: KeSystemService, on the state of all components and of the structures that user
-- programs hand over by address. C leaves open whether KeCurrentProcess is read before or behind the
-- call whose value is the other argument of KeSetSyscallResult: `early` says which. The other
-- parameters are those of the components.
pub mod Results
pub mod Blocking
use arcos_os.Prelude.{ℕ, Option, none, some, List, Bool, true, false, ◌==◌, if◌then◌else◌, update}
use arcos_os.Prelude.Run.{Cmd, pure, get, modify, within, ke_bug_check, bad_syscall, ◌>>=◌, ◌>>◌}
use arcos_os.Types.{
  Ptr, Status, success, insufficient_resources, invalid_handle, no_memory, buffer_too_small,
  invalid_parameter, object_type_mismatch, handle_limit_reached, no_such_process, no_such_program,
  invalid_application_adress, no_method,
}
use arcos_os.Kernel.{Kernel, in_ke, current_process}
use arcos_os.Ke.Scheduler.{load}
use arcos_os.Ke.Timers.{suspend_process}
use arcos_os.Ke.Processes.{set_syscall_result}
use arcos_os.Ob.Handles.{close_handle, wait_for_single_object}
use arcos_os.Mess.Messages.{
  send_message, receive_first, receive_type, get_message_size, copy_message, delete_message,
}
use arcos_os.Ps.Process.{create_process_by_name}
use arcos_os.Ps.Kill.{kill_me, kill_by_pid}
use arcos_os.Ps.Programs.{Application}
use arcos_os.Ps.Info.{
  ProcessInfo, InfoArray, get_processes_info, change_priority, supervise, get_pid, copy_args,
}
use arcos_os.Io.State.{Io}
use arcos_os.Io.Files.{io_create_file, io_write_file, io_read_file}

-- `infos` are arrays of PROCESS_INFO by their address, `words` are ULONG and HANDLE variables.
pub record System : Type 0 where
  pub io : Io
  pub infos : Ptr → InfoArray
  pub words : Ptr → ℕ

abbrev pub on_io : {A : Type 0} → Cmd Io A → Cmd System A
on_io = within (λ s. s.io) (λ s i. record s { io = i })

abbrev pub on_kernel : {A : Type 0} → Cmd Kernel A → Cmd System A
on_kernel = within (λ s. s.io.kernel) (λ s k. record s { io = record s.io { kernel = k } })

-- The values of STATUS.
abbrev pub status_code : Status → ℕ
status_code success = 0
status_code insufficient_resources = 2
status_code invalid_handle = 3
status_code no_memory = 5
status_code buffer_too_small = 6
status_code invalid_parameter = 10
status_code object_type_mismatch = 11
status_code handle_limit_reached = 12
status_code no_such_process = 13
status_code no_such_program = 14
status_code invalid_application_adress = 15

abbrev pub status_of : Cmd Kernel Status → Cmd System ℕ
status_of call = do status ← on_kernel call; pure (status_code status)

-- A store through a pointer that a successful call makes.
abbrev pub put_word : Ptr → Status → ℕ → Cmd System (Unit {0})
put_word p success w = modify λ s. record s { words = update s.words p w }
put_word p other w = pure tt

-- KeSetSyscallResult(KeCurrentProcess, call)
unfoldable pub set_result : Bool → Cmd System ℕ → Cmd System (Unit {0})
set_result true call = do
  cur ← on_kernel current_process
  result ← call
  on_kernel (set_syscall_result cur result)
set_result false call = do
  result ← call
  cur ← on_kernel current_process
  on_kernel (set_syscall_result cur result)

-- A service with a result, or without one.
abbrev pub run_service :
    Bool → Cmd System (Unit {0}) → Option (Cmd System ℕ) → Cmd System (Unit {0})
run_service early only (some call) = set_result early call
run_service early only none = only

module _ (fuel : ℕ) (delete_method : Ptr → Ptr → Cmd Kernel (Unit {0})) (apps : List Application)
    (send : ℕ → ℕ → Ptr → ℕ → Cmd Kernel Status) (string format stale : Ptr)
    (unset : ProcessInfo) where
  -- PsCreateProcessByName with its handle variable.
  unfoldable pub service_create : ℕ → ℕ → ℕ → ℕ → Cmd System ℕ
  service_create arg0 arg1 arg2 arg3 = do
    (status, handle) ← on_kernel (create_process_by_name fuel delete_method apps arg0 arg1 arg3)
    put_word arg2 status handle
    pure (status_code status)

  -- PsGetProcessesInfo with its array and count.
  unfoldable pub service_infos : ℕ → ℕ → ℕ → Cmd System ℕ
  service_infos arg0 arg1 arg2 = do
    buffer ← get λ s. s.infos arg0
    (count, buffer) ← on_kernel (get_processes_info fuel arg1 unset buffer)
    modify λ s. record s { infos = update s.infos arg0 buffer }
    put_word arg2 success count
    pure (status_code success)

  -- PsGetPid with its variable.
  unfoldable pub service_pid : ℕ → ℕ → Cmd System ℕ
  service_pid arg0 arg1 = do
    old ← get λ s. s.words arg1
    (status, pid) ← on_kernel (get_pid fuel delete_method old arg0)
    put_word arg1 status pid
    pure (status_code status)

  -- The call whose value is the result of the service, where the service has one.
  unfoldable pub service_value : ℕ → ℕ → ℕ → ℕ → ℕ → Option (Cmd System ℕ)
  service_value number arg0 arg1 arg2 arg3 =
      if number == 1
      then some (on_kernel (do cur ← current_process; r ← in_ke (load cur); pure r.pid))
      else if number == 3
      then some (service_create arg0 arg1 arg2 arg3)
      else if number == 4
      then some (on_kernel (do cur ← current_process; r ← in_ke (load cur); pure r.priority))
      else if number == 5
      then some (on_io (io_create_file arg0))
      else if number == 6
      then some (on_io (io_write_file fuel delete_method stale arg0 arg1 arg2))
      else if number == 7
      then some (on_io (io_read_file fuel delete_method stale arg0 arg1 arg2))
      else if number == 8
      then some (status_of (kill_by_pid fuel delete_method send string format arg0 arg1))
      else if number == 9
      then some (status_of (change_priority fuel arg0 arg1))
      else if number == 10
      then some (status_of (send_message fuel delete_method arg0 arg1 arg2 arg3))
      else if number == 11
      then some (on_kernel (receive_first fuel arg0))
      else if number == 13
      then some (on_kernel (receive_type fuel arg0 arg1))
      else if number == 14
      then some (on_kernel (get_message_size arg0))
      else if number == 15
      then some (status_of (copy_message arg0 arg1 arg2))
      else if number == 16
      then some (status_of (delete_message fuel arg0))
      else if number == 17
      then some (service_infos arg0 arg1 arg2)
      else if number == 18
      then some (status_of (supervise fuel delete_method arg0 arg1))
      else if number == 25
      then some (on_kernel (copy_args fuel arg0 arg1))
      else if number == 26
      then some (status_of (close_handle fuel delete_method arg0))
      else if number == 27
      then some (service_pid arg0 arg1)
      else none

  -- The services without a result.
  unfoldable pub service_only : ℕ → ℕ → Cmd System (Unit {0})
  service_only number arg0 =
      if number == 0
      then on_kernel (in_ke (suspend_process fuel arg0 no_method))
      else if number == 2
      then on_kernel (kill_me fuel delete_method send string format)
      else if number == 23
      then (do _ ← on_kernel (wait_for_single_object fuel delete_method arg0); pure tt)
      else ke_bug_check bad_syscall

  -- KeSystemService
  unfoldable pub system_service : Bool → ℕ → ℕ → ℕ → ℕ → ℕ → Cmd System (Unit {0})
  system_service early number arg0 arg1 arg2 arg3 =
      run_service early (service_only number arg0) (service_value number arg0 arg1 arg2 arg3)
