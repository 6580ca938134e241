-- ===== src/Ps/Info.antt =====
-- base/ps/ps.c: reading and changing what is known of a process. `fuel` bounds every loop.
use arcos_os.Prelude.{ℕ, zero, suc, ◌+◌, not, ◌&&◌, ◌||◌, ◌==◌, ltb, if◌then◌else◌, update}
use arcos_os.Prelude.Run.{Cmd, ok, fault, out_of_fuel, pure, get, modify, assert, ◌>>=◌, ◌>>◌}
use arcos_os.Types.{Ptr, null, Process, ProcessState, Status, success, invalid_parameter}
use arcos_os.Kernel.{Kernel, in_ke, current_process}
use arcos_os.Ke.Scheduler.{load, store}
use arcos_os.Ke.Timers.{change_process_priority}
use arcos_os.Ob.Objects.{dereference_object, get_next_object_of_type}
use arcos_os.Ob.Handles.{reference_object_by_handle}
use arcos_os.Ps.Lookup.{first_process, reference_process}

-- PROCESS_INFO
pub record ProcessInfo : Type 0 where
  pub state : ProcessState
  pub running_program : Ptr
  pub pid : ℕ
  pub priority : ℕ
  pub cpu_time : ℕ

-- An array that starts at `Buffer`.
abbrev pub InfoArray : Type 0
InfoArray = ℕ → ProcessInfo

-- CopyPInfo, of a process that is not NULL.
abbrev pub info_of : Process → ProcessInfo
info_of r = record {
  state = r.state;
  running_program = r.running_program;
  pid = r.pid;
  priority = r.priority;
  cpu_time = r.cpu_time;
}

-- `Buffer[i] = info`, where the array has `size` elements: what lies behind them is memory of others, of any
-- type, so that a store there ends the run in a fault.
unfoldable pub store_info : ℕ → ℕ → ProcessInfo → InfoArray → Cmd Kernel InfoArray
store_info size i info buffer k = if ltb i size then ok (update buffer i info) k else fault

module _ (fuel : ℕ) where
  -- The loop of PsGetProcessesInfo; `pinfo` is the local variable, `found` is foundProc.
  unfoldable pub processes_info_from :
      ℕ → ℕ → Ptr → ℕ → ProcessInfo → InfoArray → Cmd Kernel (ℕ × InfoArray)
  processes_info_from zero buffer_size process found pinfo buffer = λ _. out_of_fuel
  processes_info_from (suc rounds) buffer_size process found pinfo buffer =
      if process == null then pure (found, buffer) else do
        r ← in_ke (load process)
        let pinfo' = if ltb found buffer_size then info_of r else pinfo
        buffer' ← store_info buffer_size found pinfo' buffer
        next ← get_next_object_of_type process
        processes_info_from rounds buffer_size next (found + 1) pinfo' buffer'

  -- The first component is `*NumberProcesses`; `pinfo` comes with what is on the stack.
  unfoldable pub get_processes_info : ℕ → ProcessInfo → InfoArray → Cmd Kernel (ℕ × InfoArray)
  get_processes_info buffer_size pinfo buffer = do
    first ← first_process
    processes_info_from fuel buffer_size first 0 pinfo buffer

  -- PsChangePriority
  unfoldable pub change_priority : ℕ → ℕ → Cmd Kernel Status
  change_priority pid new_priority =
      if ltb pid 1 || ltb 31 new_priority then pure invalid_parameter else do
        (status, process) ← reference_process fuel pid
        elim status [
          | success ↦ (do
            assert (not (process == null))
            in_ke (change_process_priority fuel process new_priority)
            pure success)
          | other ↦ pure other
        ]

  module _ (delete_method : Ptr → Ptr → Cmd Kernel (Unit {0})) where
    -- The common text of PsGetExitStatus, PsGetPriority, PsGetState and PsGetPid: the second component
    -- is what the call stores, where it stores anything.
    unfoldable pub get_field : {A : Type 0} → (Process → A) → A → ℕ → Cmd Kernel (Status × A)
    get_field field old handle = do
      type ← get λ k. k.process_type
      (status, process) ← reference_object_by_handle handle type
      elim status [
        | success ↦ (do
          r ← in_ke (load process)
          assert (not (process == null))
          dereference_object fuel delete_method process
          pure (success, field r))
        | other ↦ pure (other, old)
      ]

    abbrev pub get_exit_status : ℕ → ℕ → Cmd Kernel (Status × ℕ)
    get_exit_status = get_field λ r. r.exit_status

    abbrev pub get_priority : ℕ → ℕ → Cmd Kernel (Status × ℕ)
    get_priority = get_field λ r. r.priority

    abbrev pub get_state : ProcessState → ℕ → Cmd Kernel (Status × ProcessState)
    get_state = get_field λ r. r.state

    abbrev pub get_pid : ℕ → ℕ → Cmd Kernel (Status × ℕ)
    get_pid = get_field λ r. r.pid

    -- PsSupervise
    unfoldable pub supervise : ℕ → ℕ → Cmd Kernel Status
    supervise supervisor pid = do
      (status, process) ← reference_process fuel pid
      elim status [
        | success ↦ (do
          in_ke (store process λ r. record r { supervisor = supervisor })
          assert (not (process == null))
          dereference_object fuel delete_method process
          pure success)
        | other ↦ pure other
      ]

-- The `while` loop of PsCopyArgs, with the index `count` at which it ends.
unfoldable pub copy_args_from : ℕ → Ptr → Ptr → ℕ → ℕ → Cmd Kernel ℕ
copy_args_from zero args buffer buffer_size count = λ _. out_of_fuel
copy_args_from (suc rounds) args buffer buffer_size count = do
  c ← get λ k. k.bytes (args + count)
  let rest = (do
    modify λ k. record k { bytes = update k.bytes (buffer + count) c }
    copy_args_from rounds args buffer buffer_size (count + 1))
  if not (c == 0) && ltb (count + 1) buffer_size then rest else pure count

unfoldable pub copy_args : ℕ → Ptr → ℕ → Cmd Kernel ℕ
copy_args fuel buffer buffer_size = do
  cur ← current_process
  r ← in_ke (load cur)
  if r.args == null
      then (do modify λ k. record k { bytes = update k.bytes buffer 0 }; pure 0)
      else (do
        count ← copy_args_from fuel r.args buffer buffer_size 0
        modify λ k. record k { bytes = update k.bytes (buffer + count) 0 }
        pure count)
