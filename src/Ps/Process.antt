-- ===== src/Ps/Process.antt =====
-- base/ps/ps.c: creating processes. KdPrint only prints, and is left out. The table of
-- applications, which the linker fills, is a parameter. `fuel` bounds every loop.
use arcos_os.Prelude.{ℕ, ◌+◌, ◌%◌, not, List, ◌==◌, ltb, if◌then◌else◌}
use arcos_os.Prelude.Run.{Cmd, pure, get, modify, assert, ◌>>=◌, ◌>>◌}
use arcos_os.Types.{
  Ptr, null, ulong_mod, Process, created, ready, no_method, Status, success, no_memory,
  no_such_program, invalid_application_adress,
}
use arcos_os.Kernel.{Kernel, in_ke, current_process}
use arcos_os.Ke.Scheduler.{store}
use arcos_os.Ke.Processes.{start_scheduling_process}
use arcos_os.Mm.{mm_alloc, mm_free}
use arcos_os.Rtl.Strings.{string_length, copy_string}
use arcos_os.Ob.Objects.{create_object, create_object_type, dereference_object}
use arcos_os.Ob.Handles.{init_process, open_object_by_pointer}
use arcos_os.Ps.Lookup.{process_type_name, get_new_pid}
use arcos_os.Kernel.{with_rounds}
use arcos_os.Ps.Programs.{Application, get_program_adress, get_program_name}

abbrev pub process_memory_size : ℕ
process_memory_size = 32768

-- sizeof(PROCESS): 34 registers, 256 handles of two words, 14 more words.
abbrev pub process_size : ℕ
process_size = 2240

-- RtlZeroMemory(process, sizeof(PROCESS))
abbrev pub zero_process : Process
zero_process = record {
  context = record { v0 = 0; a0 = 0; a1 = 0; a2 = 0; a3 = 0; sp = 0; pc = 0; others = λ _. 0 };
  handle_table = λ _. record { attributes = 0; object = null };
  state = created;
  running_program = null;
  pid = 0;
  priority = 0;
  exit_status = 0;
  allocated_memory = null;
  cpu_time = 0;
  wake_up_time = 0;
  quantum = 0;
  args = null;
  message_queue = null;
  supervisor = 0;
  resume_method = no_method;
  next_pcb = null;
}

-- PsInitialize; `idle_name` is the address of "IDLE Process".
unfoldable pub ps_initialize : Ptr → Cmd Kernel (Unit {0})
ps_initialize idle_name = do
  (_, type) ← create_object_type process_type_name null null
  modify λ k. record k { process_type = type }
  (_, process) ← create_object type 0 process_size
  assert (not (process == null))
  in_ke (store process λ _. record zero_process { quantum = 1; running_program = idle_name })
  _ ← init_process null process
  modify λ k. record k { ke = record k.ke { current = process } }
  assert (not (process == null))

-- The block `if (Args != NULL)` of PsCreateProcess.
unfoldable pub copy_args_in : ℕ → Ptr → Ptr → Cmd Kernel (Unit {0})
copy_args_in fuel process args = if args == null then pure tt else do
  m ← get λ k. k.bytes
  length ← with_rounds (string_length fuel m args)
  if not (ltb 0 length) then pure tt else do
    tmp ← mm_alloc length
    m ← get λ k. k.bytes
    m' ← with_rounds (copy_string fuel tmp args m)
    modify λ k. record k { bytes = m' }
    in_ke (store process λ r. record r { args = tmp; context = record r.context { a0 = tmp } })

module _ (fuel : ℕ) (delete_method : Ptr → Ptr → Cmd Kernel (Unit {0}))
    (apps : List Application) where
  -- The fields that PsCreateProcess sets between the allocation and ObInitProcess.
  abbrev pub new_process : Ptr → Ptr → ℕ → Ptr → ℕ → Process
  new_process starting_address memory priority args pid = record zero_process {
    running_program = get_program_name apps starting_address;
    allocated_memory = memory;
    pid = pid;
    priority = priority;
    args = args;
    exit_status = 654321;
    context = record zero_process.context {
      pc = starting_address;
      sp = (memory + process_memory_size) % ulong_mod;
    };
  }

  -- The clean-up on an error behind the allocation.
  unfoldable pub give_up : Ptr → Ptr → Status → Cmd Kernel Status
  give_up process memory status = do
    dereference_object fuel delete_method process
    mm_free memory
    pure status

  -- PsCreateProcess behind ObOpenObjectByPointer.
  unfoldable pub start_created : Ptr → Ptr → Status → Cmd Kernel Status
  start_created process memory success = do
    in_ke (store process λ r. record r { state = ready })
    status ← start_scheduling_process process
    elim status [
      | success ↦ (do dereference_object fuel delete_method process; pure success)
      | other ↦ give_up process memory other
    ]
  start_created process memory other = give_up process memory other

  -- PsCreateProcess behind ObInitProcess.
  unfoldable pub finish_created : Ptr → Ptr → Ptr → Status → Cmd Kernel (Status × ℕ)
  finish_created process memory args success = do
    copy_args_in fuel process args
    type ← get λ k. k.process_type
    (status, handle) ← open_object_by_pointer process 0 type
    status ← start_created process memory status
    pure (status, handle)
  finish_created process memory args other = do
    status ← give_up process memory other
    pure (status, 0)

  -- The second component is what is stored in `*ProcessHandle`, where anything is.
  unfoldable pub create_process : Ptr → ℕ → Ptr → Cmd Kernel (Status × ℕ)
  create_process starting_address priority args =
      if starting_address == null then pure (invalid_application_adress, 0) else do
        type ← get λ k. k.process_type
        (status, process) ← create_object type 0 process_size
        elim status [
          | success ↦ (do
            assert (not (process == null))
            in_ke (store process λ _. zero_process)
            memory ← mm_alloc process_memory_size
            if memory == null
                then (do dereference_object fuel delete_method process; pure (no_memory, 0))
                else (do
                  pid ← get_new_pid fuel fuel
                  in_ke (store process λ _. new_process starting_address memory priority args pid)
                  parent ← current_process
                  status ← init_process parent process
                  finish_created process memory args status))
          | other ↦ pure (other, 0)
        ]

  unfoldable pub create_process_by_name : Ptr → ℕ → Ptr → Cmd Kernel (Status × ℕ)
  create_process_by_name program_name priority args = do
    address ← get_program_adress fuel apps program_name
    if address == null then pure (no_such_program, 0) else create_process address priority args
