-- ===== src/Ps/Lookup.antt =====
-- base/ps/ps.c: finding processes in the list of objects of the process type. A `while` loop over
-- that list has `fuel` rounds.
use arcos_os.Prelude.{ℕ, zero, suc, ◌+◌, ◌%◌, Bool, true, false, ◌==◌, if◌then◌else◌}
use arcos_os.Prelude.Run.{Cmd, out_of_fuel, pure, get, modify, ◌>>=◌, ◌>>◌}
use arcos_os.Types.{Ptr, null, ulong_mod, Status, success, no_such_process}
use arcos_os.Ke.Scheduler.{load}
use arcos_os.Kernel.{Kernel, in_ke}
use arcos_os.Ob.Objects.{
  reference_object, get_first_object_of_type, get_next_object_of_type, create_object_type,
}
use arcos_os.Ob.Handles.{open_object_by_pointer}

-- The name under which ps.c registers the process type.
abbrev pub process_type_name : ℕ
process_type_name = 0x0CE55

unfoldable pub create_process_object_type : Cmd Kernel Status
create_process_object_type = do
  (status, type) ← create_object_type process_type_name null null
  modify λ k. record k { process_type = type }
  pure status

abbrev pub first_process : Cmd Kernel Ptr
first_process = do t ← get λ k. k.process_type; get_first_object_of_type t

-- The loop of PIDInUse.
unfoldable pub pid_in_use_from : ℕ → ℕ → Ptr → Cmd Kernel Bool
pid_in_use_from zero pid process = λ _. out_of_fuel
pid_in_use_from (suc fuel) pid process = if process == null then pure false else do
  r ← in_ke (load process)
  let rest = (do next ← get_next_object_of_type process; pid_in_use_from fuel pid next)
  if r.pid == pid then pure true else rest

unfoldable pub pid_in_use : ℕ → ℕ → Cmd Kernel Bool
pid_in_use fuel pid = do first ← first_process; pid_in_use_from fuel pid first

-- The loop of GetNewPID, with `tries` rounds.
unfoldable pub get_new_pid_from : ℕ → ℕ → ℕ → Cmd Kernel ℕ
get_new_pid_from fuel zero pid = λ _. out_of_fuel
get_new_pid_from fuel (suc tries) pid = do
  used ← pid_in_use fuel pid
  let rest = get_new_pid_from fuel tries ((pid + 1) % ulong_mod)
  if used then rest else pure pid

unfoldable pub get_new_pid : ℕ → ℕ → Cmd Kernel ℕ
get_new_pid fuel tries = get_new_pid_from fuel tries 1

-- The loop of PsReferenceProcess; the second component is what is stored in `*ProcessPtr`.
unfoldable pub reference_process_from : ℕ → ℕ → Ptr → Cmd Kernel (Status × Ptr)
reference_process_from zero pid process = λ _. out_of_fuel
reference_process_from (suc fuel) pid process =
    if process == null then pure (no_such_process, null) else do
      r ← in_ke (load process)
      let rest = (do next ← get_next_object_of_type process; reference_process_from fuel pid next)
      if r.pid == pid
          then (do
            t ← get λ k. k.process_type
            _ ← reference_object process t
            pure (success, process))
          else rest

unfoldable pub reference_process : ℕ → ℕ → Cmd Kernel (Status × Ptr)
reference_process fuel pid = do first ← first_process; reference_process_from fuel pid first

-- The loop of PsOpenProcess; the second component is what is stored in `*ProcessHandle`.
unfoldable pub open_process_from : ℕ → ℕ → Ptr → Cmd Kernel (Status × ℕ)
open_process_from zero pid process = λ _. out_of_fuel
open_process_from (suc fuel) pid process = if process == null then pure (no_such_process, 0) else do
  r ← in_ke (load process)
  let rest = (do next ← get_next_object_of_type process; open_process_from fuel pid next)
  if r.pid == pid
      then (do t ← get λ k. k.process_type; open_object_by_pointer process 0 t)
      else rest

unfoldable pub open_process : ℕ → ℕ → Cmd Kernel (Status × ℕ)
open_process fuel pid = do first ← first_process; open_process_from fuel pid first
