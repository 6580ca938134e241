-- ===== src/Kernel.antt =====
-- The state of the kernel: the globals of base/ke, base/mm, base/ob, base/mess and base/ps, with the
-- typed memory behind them (include/ob.h, include/arcos.h). `bytes` is the memory that holds
-- characters and the bodies of messages.
use arcos_os.Prelude.{ℕ, Option, none, some, ◌+◌, ◌-◌, ◌%◌, ◌==◌, if◌then◌else◌, update}
use arcos_os.Prelude.Run.{Cmd, out_of_fuel, pure, ok, fault, get, within}
use arcos_os.Types.{Ptr, null, ulong_mod}
use arcos_os.Ke.Scheduler.{Scheduler}

-- OBJECT_HEADER, at the header's address; the body follows at `body_offset`.
pub record ObjectHeader : Type 0 where
  pub magic : ℕ
  pub handle_count : ℕ
  pub pointer_count : ℕ
  pub attributes : ℕ
  pub signal_state : ℕ
  pub wait_queue : Ptr
  pub type : Ptr
  pub next_object_of_type : Ptr

-- OBJECT_TYPE, the body of a type object. `delete` and `dump` are addresses of functions.
pub record ObjectType : Type 0 where
  pub name : ℕ
  pub first_object_of_type : Ptr
  pub next_type_object : Ptr
  pub dump : Ptr
  pub delete : Ptr

-- OB_WAIT_QUEUE_ENTRY
pub record WaitQueueEntry : Type 0 where
  pub process : Ptr
  pub next : Ptr

-- MESSAGE, without the bytes of its body.
pub record Message : Type 0 where
  pub sender_pid : ℕ
  pub receiver_pid : ℕ
  pub priority : ℕ
  pub type : ℕ
  pub buffer : Ptr
  pub buffer_size : ℕ
  pub next : Ptr

-- MESS_PROCESS_NODE
pub record MessNode : Type 0 where
  pub process : Ptr
  pub pid : ℕ
  pub type : ℕ
  pub next : Ptr

pub record Kernel : Type 0 where
  pub ke : Scheduler
  pub headers : Ptr → ObjectHeader
  pub types : Ptr → ObjectType
  pub wait_entries : Ptr → WaitQueueEntry
  pub type_list_head : Ptr
  pub free_mem_pointer : Ptr
  pub messages : Ptr → Message
  pub mess_nodes : Ptr → MessNode
  pub mess_first : Ptr
  pub mess_last : Ptr
  pub process_type : Ptr
  pub bytes : Ptr → ℕ

-- A command of the scheduler, run on the kernel.
abbrev pub in_ke : {A : Type 0} → Cmd Scheduler A → Cmd Kernel A
in_ke = within (λ k. k.ke) (λ k s. record k { ke = s })

-- Reads through a pointer, a fault at NULL.
abbrev pub deref : {A : Type 0} → (Kernel → Ptr → A) → Ptr → Cmd Kernel A
deref memory p k = if p == null then fault else ok (memory k p) k

abbrev pub header : Ptr → Cmd Kernel ObjectHeader
header = deref λ k. k.headers

abbrev pub set_header : Ptr → (ObjectHeader → ObjectHeader) → Cmd Kernel (Unit {0})
set_header h f k =
    if h == null then fault else ok tt (record k { headers = update k.headers h (f (k.headers h)) })

abbrev pub object_type : Ptr → Cmd Kernel ObjectType
object_type = deref λ k. k.types

abbrev pub set_object_type : Ptr → (ObjectType → ObjectType) → Cmd Kernel (Unit {0})
set_object_type t f k =
    if t == null then fault else ok tt (record k { types = update k.types t (f (k.types t)) })

-- FIELD_OFFSET(OBJECT_HEADER, Body): eight words of four bytes.
abbrev pub body_offset : ℕ
body_offset = 32

-- OBJECT_BODY_TO_HEADER
abbrev pub body_to_header : Ptr → Ptr
body_to_header body = (body + ulong_mod - body_offset) % ulong_mod

-- `&header->Body`
abbrev pub header_to_body : Ptr → Ptr
header_to_body h = (h + body_offset) % ulong_mod

-- The current process, and a change of it.
abbrev pub current_process : Cmd Kernel Ptr
current_process = get λ k. k.ke.current

-- A function of Rtl/Strings.antt on the kernel's memory.
abbrev pub with_rounds : {A : Type 0} → Option A → Cmd Kernel A
with_rounds none k = out_of_fuel
with_rounds (some a) k = pure a k
