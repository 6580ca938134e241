-- ===== src/Io/Files.antt =====
-- base/io/io.c: the files, their read and write methods, and the functions on handles. The two queue
-- structures that IoInitialize allocates are part of the state, so their allocation only moves the
-- memory pointer. A local variable that a failed call leaves unset has the value `stale`. `fuel` bounds
-- every loop.
use arcos_os.Prelude.{
  ℕ, zero, suc, Bool, true, false, ◌+◌, ◌*◌, not, ◌&&◌, ◌==◌, ltb, if◌then◌else◌, update,
}
use arcos_os.Prelude.Run.{Cmd, ok, fault, pure, get, modify, assert, ◌>>=◌, ◌>>◌}
use arcos_os.Types.{Ptr, null, Status, success}
use arcos_os.Kernel.{Kernel, in_ke, current_process}
use arcos_os.Mm.{mm_alloc}
use arcos_os.Rtl.Strings.{copy_string}
use arcos_os.Ob.Objects.{create_object, create_object_type, reference_object, dereference_object}
use arcos_os.Ob.Handles.{open_object_by_pointer, reference_object_by_handle}
use arcos_os.Ke.Timers.{block_process}
use arcos_os.Kernel.{with_rounds}
use arcos_os.Io.Fifo.{get_first_char_from_buffer}
use arcos_os.Io.State.{
  Io, IoQueue, FileMethod, no_file_method, serial_read, serial_write, lcd_write, on_kernel, file,
  set_file, set_waiting_node, set_buffer_node,
}

-- sizeof(FILE), sizeof(IO_WAITING_QUEUE), sizeof(IO_BUFFER_QUEUE): two words.
abbrev pub two_words : ℕ
two_words = 8

-- sizeof(IO_BUFFER_NODE)
abbrev pub buffer_node_size : ℕ
buffer_node_size = 524

-- sizeof(IO_WAITING_NODE)
abbrev pub waiting_node_size : ℕ
waiting_node_size = 16

abbrev pub empty_queue : IoQueue
empty_queue = record { first = null; last = null }

-- IoInitialize behind the creation of the serial file. A failure to create the second file is returned
-- at the end.
unfoldable pub finish_initialize : Cmd Io Status
finish_initialize = do
  type ← get λ s. s.file_type
  (status, lcd) ← on_kernel (create_object type 0 two_words)
  elim status [
    | success ↦ (do
      modify λ s. record s { lcd_file = lcd }
      set_file lcd (record { write = lcd_write; read = no_file_method }))
    | _ ↦ pure tt
  ]
  _ ← on_kernel (mm_alloc two_words)
  modify λ s. record s { waiting_queue = empty_queue }
  _ ← on_kernel (mm_alloc two_words)
  modify λ s. record s { buffer_queue = empty_queue }
  modify λ s. record s { output_pointer = null }
  pure status

unfoldable pub io_initialize : Cmd Io Status
io_initialize = do
  modify λ s. record s { fifo = record s.fifo { count = 0 } }
  (status, type) ← on_kernel (create_object_type 102 null null)
  elim status [
    | success ↦ (do
      modify λ s. record s { file_type = type }
      (status, serial) ← on_kernel (create_object type 0 two_words)
      elim status [
        | success ↦ (do
          modify λ s. record s { serial_file = serial }
          set_file serial (record { write = serial_write; read = serial_read })
          finish_initialize)
        | other ↦ pure other
      ])
    | other ↦ pure other
  ]

-- What IoCreateFile returns of ObOpenObjectByPointer: the handle, NULL where none is stored.
abbrev handle_or_null : Status → ℕ → ℕ
handle_or_null success handle = handle
handle_or_null other handle = null

-- IoCreateFile; 's' is 115 and 'l' is 108.
unfoldable pub io_create_file : ℕ → Cmd Io ℕ
io_create_file filename =
    if filename == 115
    then (do
      object ← get λ s. s.serial_file
      type ← get λ s. s.file_type
      (status, handle) ← on_kernel (open_object_by_pointer object 0 type)
      pure (handle_or_null status handle))
    else if filename == 108
    then (do
      object ← get λ s. s.lcd_file
      type ← get λ s. s.file_type
      (status, handle) ← on_kernel (open_object_by_pointer object 0 type)
      pure (handle_or_null status handle))
    else pure null

-- The insertion of a node into the output queue.
unfoldable pub append_output : Ptr → Cmd Io (Unit {0})
append_output node = do
  q ← get λ s. s.buffer_queue
  if q.first == null
      then (modify λ s. record s {
        buffer_queue = record { first = node; last = node };
        output_pointer = node;
      })
      else (do
        set_buffer_node q.last λ n. record n { next = node }
        modify λ s. record s { buffer_queue = record s.buffer_queue { last = node } })

unfoldable pub io_write_serial : ℕ → Ptr → ℕ → Cmd Io (Unit {0})
io_write_serial fuel buffer buffer_size = do
  node ← on_kernel (mm_alloc buffer_node_size)
  m ← get λ s. s.kernel.bytes
  m' ← on_kernel (with_rounds (copy_string fuel node buffer m))
  modify λ s. record s { kernel = record s.kernel { bytes = m' } }
  set_buffer_node node λ n. record n { next = null; buffer_size = buffer_size }
  append_output node

-- The common end of the branches of IoReadSerial.
unfoldable pub wait_for_input : ℕ → Cmd Io (Unit {0})
wait_for_input fuel = do
  cur ← on_kernel current_process
  _ ← on_kernel (reference_object cur null)
  on_kernel (in_ke (block_process fuel))

-- IoReadSerial behind its first `if`, which does not return.
unfoldable pub enqueue_reader : ℕ → Ptr → ℕ → Cmd Io (Unit {0})
enqueue_reader fuel buffer buffer_size = do
  node ← on_kernel (mm_alloc waiting_node_size)
  cur ← on_kernel current_process
  set_waiting_node node
      λ _. record { process = cur; buffer = buffer; buffer_size = buffer_size; next = null }
  q ← get λ s. s.waiting_queue
  if q.first == null
      then (do
        modify λ s. record s { waiting_queue = record { first = node; last = node } }
        wait_for_input fuel)
      else (do
        assert (not (q.last == null))
        set_waiting_node q.last λ n. record n { next = node }
        modify λ s. record s { waiting_queue = record s.waiting_queue { last = node } }
        wait_for_input fuel)

-- `*p = GetFirstCharFromBuffer()`
unfoldable pub hand_over : Ptr → Cmd Io (Unit {0})
hand_over p s =
    let (c, f) = get_first_char_from_buffer s.fifo in
    if p == null
    then fault
    else ok tt
        (record s { fifo = f; kernel = record s.kernel { bytes = update s.kernel.bytes p c } })

unfoldable pub io_read_serial : ℕ → Ptr → ℕ → Cmd Io (Unit {0})
io_read_serial fuel buffer buffer_size = do
  q ← get λ s. s.waiting_queue
  f ← get λ s. s.fifo
  if (q.first == null) && not (f.buffer 0 == 0) then hand_over buffer else pure tt
  enqueue_reader fuel buffer buffer_size

abbrev pub lcd_address : Ptr
lcd_address = 0xbf000418

-- The loop of IoWriteLcd, from `i` on, for `rounds` rounds: at most eight.
unfoldable pub write_lcd_from : ℕ → ℕ → Ptr → ℕ → Cmd Io (Unit {0})
write_lcd_from zero i buffer buffer_size = pure tt
write_lcd_from (suc rounds) i buffer buffer_size = do
  let rest = (do
    c ← get λ s. s.kernel.bytes (buffer + i)
    modify λ s. record s { lcd = update s.lcd (lcd_address + 8 * i) c }
    write_lcd_from rounds (i + 1) buffer buffer_size)
  if ltb i buffer_size then rest else pure tt

unfoldable pub io_write_lcd : Ptr → ℕ → Cmd Io (Unit {0})
io_write_lcd = write_lcd_from 8 0

-- A call of a file's method.
unfoldable pub call_method : ℕ → FileMethod → Ptr → ℕ → Cmd Io (Unit {0})
call_method fuel no_file_method buffer buffer_size = λ _. fault
call_method fuel serial_read buffer buffer_size = io_read_serial fuel buffer buffer_size
call_method fuel serial_write buffer buffer_size = io_write_serial fuel buffer buffer_size
call_method fuel lcd_write buffer buffer_size = io_write_lcd buffer buffer_size

abbrev pub is_no_method : FileMethod → Bool
is_no_method no_file_method = true
is_no_method _ = false

-- What `*Object` holds behind ObReferenceObjectByHandle.
abbrev pub found_object : Ptr → Status → Ptr → Ptr
found_object stale success object = object
found_object stale other object = stale

module _ (fuel : ℕ) (delete_method : Ptr → Ptr → Cmd Kernel (Unit {0})) (stale : Ptr) where
  unfoldable pub io_write_file : ℕ → Ptr → ℕ → Cmd Io ℕ
  io_write_file handle buffer buffer_size = do
    type ← get λ s. s.file_type
    (status, object) ← on_kernel (reference_object_by_handle handle type)
    let p = found_object stale status object
    f ← file p
    call_method fuel f.write buffer buffer_size
    assert (not (p == null))
    on_kernel (dereference_object fuel delete_method p)
    pure 0

  unfoldable pub io_read_file : ℕ → Ptr → ℕ → Cmd Io ℕ
  io_read_file handle buffer buffer_size = do
    type ← get λ s. s.file_type
    (status, object) ← on_kernel (reference_object_by_handle handle type)
    let p = found_object stale status object
    f ← file p
    if is_no_method f.read then pure tt else call_method fuel f.read buffer buffer_size
    assert (not (p == null))
    on_kernel (dereference_object fuel delete_method p)
    pure 0
