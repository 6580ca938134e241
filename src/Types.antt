-- ===== src/Types.antt =====
-- include/arcos.h, include/ke.h and include/status.h: the process control block, the scheduling
-- queues and the status codes. Typed memory is a map from addresses to structures, one map for
-- each type of structure, so structures of two types never overlap. ULONG and pointers are numbers
-- below 2 ^ 32; `null` is 0.
use arcos_os.Prelude.{ℕ, ◌^◌, Bool, true, false}

abbrev pub Ptr : Type 0
Ptr = ℕ

abbrev pub null : Ptr
null = 0

abbrev pub ulong_mod : ℕ
ulong_mod = 2 ^ 32

-- PROCESS_STATE
pub data ProcessState : Type 0 where
  created running ready blocked done : ProcessState

abbrev pub is_blocked : ProcessState → Bool
is_blocked blocked = true
is_blocked _ = false

-- RESUME_METHOD: the only function whose address is ever stored there is ResumeMethod of mess.c.
pub data ResumeMethod : Type 0 where
  no_method mess_resume_method : ResumeMethod

-- HANDLE_TABLE_ENTRY
pub record HandleTableEntry : Type 0 where
  pub attributes : ℕ
  pub object : Ptr

-- CONTEXT; the registers that no C code names are `others`, in the order of the structure.
pub record Context : Type 0 where
  pub v0 : ℕ
  pub a0 : ℕ
  pub a1 : ℕ
  pub a2 : ℕ
  pub a3 : ℕ
  pub sp : ℕ
  pub pc : ℕ
  pub others : ℕ → ℕ

-- PROCESS
pub record Process : Type 0 where
  pub context : Context
  pub handle_table : ℕ → HandleTableEntry
  pub state : ProcessState
  pub running_program : Ptr
  pub pid : ℕ
  pub priority : ℕ
  pub exit_status : ℕ
  pub allocated_memory : Ptr
  pub cpu_time : ℕ
  pub wake_up_time : ℕ
  pub quantum : ℕ
  pub args : Ptr
  pub message_queue : Ptr
  pub supervisor : ℕ
  pub resume_method : ResumeMethod
  pub next_pcb : Ptr

-- PROCESS_QUEUE
pub record ProcessQueue : Type 0 where
  pub first : Ptr
  pub last : Ptr

abbrev pub process_priority_levels : ℕ
process_priority_levels = 32

abbrev pub max_handle_count : ℕ
max_handle_count = 256

pub data Status : Type 0 where
  success insufficient_resources invalid_handle no_memory buffer_too_small invalid_parameter :
      Status
  object_type_mismatch handle_limit_reached no_such_process no_such_program : Status
  invalid_application_adress : Status
