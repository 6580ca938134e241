-- ===== src/Io/State.antt =====
-- base/io/io.c and include/io.h: the state of the input and output component, above the kernel. The
-- characters of an output node lie in the kernel's memory, from the node's address on. `display` is what
-- HalDisplayChar has been given, `lcd` the memory of the device.
use arcos_os.Prelude.{ℕ, ◌==◌, if◌then◌else◌, List, update}
use arcos_os.Prelude.Run.{Cmd, ok, fault, within}
use arcos_os.Types.{Ptr, null}
use arcos_os.Kernel.{Kernel}
use arcos_os.Io.Fifo.{Fifo}

-- The functions whose addresses a FILE holds.
pub data FileMethod : Type 0 where
  no_file_method serial_read serial_write lcd_write : FileMethod

-- FILE
pub record File : Type 0 where
  pub write : FileMethod
  pub read : FileMethod

-- IO_WAITING_NODE
pub record WaitingNode : Type 0 where
  pub process : Ptr
  pub buffer : Ptr
  pub buffer_size : ℕ
  pub next : Ptr

-- IO_BUFFER_NODE, less the array at its start; nothing uses sizeCounter.
pub record BufferNode : Type 0 where
  pub buffer_size : ℕ
  pub next : Ptr

-- IO_WAITING_QUEUE and IO_BUFFER_QUEUE
pub record IoQueue : Type 0 where
  pub first : Ptr
  pub last : Ptr

pub record Io : Type 0 where
  pub kernel : Kernel
  pub fifo : Fifo
  pub file_type : Ptr
  pub serial_file : Ptr
  pub lcd_file : Ptr
  pub files : Ptr → File
  pub waiting_queue : IoQueue
  pub waiting_nodes : Ptr → WaitingNode
  pub buffer_queue : IoQueue
  pub buffer_nodes : Ptr → BufferNode
  pub output_pointer : Ptr
  pub display : List ℕ
  pub lcd : Ptr → ℕ

abbrev pub on_kernel : {A : Type 0} → Cmd Kernel A → Cmd Io A
on_kernel = within (λ s. s.kernel) (λ s k. record s { kernel = k })

-- Accesses through a pointer, a fault at NULL.
abbrev pub waiting_node : Ptr → Cmd Io WaitingNode
waiting_node p s = if p == null then fault else ok (s.waiting_nodes p) s

abbrev pub set_waiting_node : Ptr → (WaitingNode → WaitingNode) → Cmd Io (Unit {0})
set_waiting_node p f s =
    if p == null
    then fault
    else ok tt (record s { waiting_nodes = update s.waiting_nodes p (f (s.waiting_nodes p)) })

abbrev pub buffer_node : Ptr → Cmd Io BufferNode
buffer_node p s = if p == null then fault else ok (s.buffer_nodes p) s

abbrev pub set_buffer_node : Ptr → (BufferNode → BufferNode) → Cmd Io (Unit {0})
set_buffer_node p f s =
    if p == null
    then fault
    else ok tt (record s { buffer_nodes = update s.buffer_nodes p (f (s.buffer_nodes p)) })

abbrev pub file : Ptr → Cmd Io File
file p s = if p == null then fault else ok (s.files p) s

abbrev pub set_file : Ptr → File → Cmd Io (Unit {0})
set_file p f s = if p == null then fault else ok tt (record s { files = update s.files p f })
