-- ===== src/Mess/Messages.antt =====
-- base/mess/mess.c: sending, receiving and deleting messages. A `while` loop over a queue has `fuel`
-- rounds. The structure of a message is typed memory; its body is bytes behind the structure.
use arcos_os.Prelude.{ℕ, zero, suc, ◌+◌, ◌%◌, not, ◌||◌, ◌==◌, ltb, if◌then◌else◌, update}
use arcos_os.Prelude.Run.{Cmd, ok, fault, out_of_fuel, pure, get, modify, assert, ◌>>=◌, ◌>>◌}
use arcos_os.Types.{
  Ptr, null, ulong_mod, Process, is_blocked, mess_resume_method, Status, success, no_memory,
  buffer_too_small, invalid_handle,
}
use arcos_os.Ke.Scheduler.{load, store}
use arcos_os.Ke.Timers.{suspend_process}
use arcos_os.Ke.Processes.{set_syscall_result, resume_process}
use arcos_os.Kernel.{Kernel, Message, deref, in_ke, current_process}
use arcos_os.Mm.{mm_alloc, mm_free}
use arcos_os.Ob.Objects.{dereference_object}
use arcos_os.Rtl.Memory.{copy_memory}
use arcos_os.Ps.Lookup.{reference_process}
use arcos_os.Mess.WaitQueue.{mess_node, add_process_to_queue, remove_process_from_queue}

-- sizeof(MESSAGE): seven words.
abbrev pub message_size : ℕ
message_size = 28

-- MESSAGE_TYPE_FIRST
abbrev pub message_type_first : ℕ
message_type_first = 0

abbrev pub message : Ptr → Cmd Kernel Message
message = deref λ k. k.messages

abbrev pub set_message : Ptr → (Message → Message) → Cmd Kernel (Unit {0})
set_message p f k =
    if p == null
    then fault
    else ok tt (record k { messages = update k.messages p (f (k.messages p)) })

abbrev pub set_message_next : Ptr → Message → Message
set_message_next q m = record m { next = q }

abbrev pub set_message_queue : Ptr → Process → Process
set_message_queue q r = record r { message_queue = q }

-- The walk of MessSendMessage to the end of the receiver's queue, and the link there.
unfoldable pub append_message : ℕ → Ptr → Ptr → Cmd Kernel (Unit {0})
append_message zero mq new = λ _. out_of_fuel
append_message (suc fuel) mq new = do
  m ← message mq
  let rest = append_message fuel m.next new
  if m.next == null then set_message mq (set_message_next new) else rest

-- The last part of MessSendMessage before the dereference.
unfoldable pub add_to_queue : ℕ → Ptr → Ptr → Cmd Kernel (Unit {0})
add_to_queue fuel receiver new = do
  r ← in_ke (load receiver)
  if r.message_queue == null
      then in_ke (store receiver (set_message_queue new))
      else append_message fuel r.message_queue new

-- One round of the loop of MessSendMessage over the waiting processes.
unfoldable pub wake_receiver : ℕ → ℕ → ℕ → Ptr → Ptr → Ptr → Ptr → Cmd Kernel (Unit {0})
wake_receiver fuel receiver_pid type new receiver iterator prev = do
  n ← mess_node iterator
  if not (n.pid == receiver_pid) then pure tt else do
    waiter ← in_ke (load n.process)
    if not (is_blocked waiter.state)
        then (do _ ← remove_process_from_queue iterator prev; pure tt)
        else if (n.type == message_type_first) || (n.type == type)
        then (do
          set_syscall_result receiver new
          resume_process fuel receiver
          _ ← remove_process_from_queue iterator prev
          pure tt)
        else pure tt

unfoldable pub wake_receivers : ℕ → ℕ → ℕ → ℕ → Ptr → Ptr → Ptr → Ptr → Cmd Kernel (Unit {0})
wake_receivers fuel zero receiver_pid type new receiver iterator prev = λ _. out_of_fuel
wake_receivers fuel (suc rounds) receiver_pid type new receiver iterator prev =
    if iterator == null then pure tt else do
      wake_receiver fuel receiver_pid type new receiver iterator prev
      n ← mess_node iterator
      wake_receivers fuel rounds receiver_pid type new receiver n.next iterator

abbrev pub new_message : ℕ → ℕ → ℕ → Ptr → ℕ → Message
new_message sender receiver type buffer size = record {
  sender_pid = sender;
  receiver_pid = receiver;
  priority = 1;
  type = type;
  buffer = buffer;
  buffer_size = size;
  next = null;
}

module _ (fuel : ℕ) where
  module _ (delete_method : Ptr → Ptr → Cmd Kernel (Unit {0})) where
    unfoldable pub send_message : ℕ → ℕ → Ptr → ℕ → Cmd Kernel Status
    send_message receiver_pid type buffer buffer_size = do
      assert (not (buffer == null))
      new ← mm_alloc ((message_size + buffer_size) % ulong_mod)
      if new == null then pure no_memory else do
        cur ← current_process
        c ← in_ke (load cur)
        modify λ k. record k { bytes = copy_memory k.bytes (new + message_size) buffer buffer_size }
        set_message new λ _. new_message c.pid receiver_pid type (new + message_size) buffer_size
        (status, receiver) ← reference_process fuel receiver_pid
        elim status [
          | success ↦ (do
            first ← get λ k. k.mess_first
            wake_receivers fuel fuel receiver_pid type new receiver first first
            assert (not (receiver == null))
            add_to_queue fuel receiver new
            dereference_object fuel delete_method receiver
            pure success)
          | other ↦ pure other
        ]

  -- The wait of MessReceiveFirst and MessReceiveType, where there is no message to hand out.
  unfoldable pub wait_for_message : ℕ → ℕ → Cmd Kernel Ptr
  wait_for_message timeout type = do
    _ ← add_process_to_queue type
    in_ke (suspend_process fuel timeout mess_resume_method)
    pure null

  unfoldable pub receive_first : ℕ → Cmd Kernel Ptr
  receive_first timeout = do
    cur ← current_process
    c ← in_ke (load cur)
    if c.message_queue == null then wait_for_message timeout message_type_first else do
      let new = c.message_queue
      m ← message new
      in_ke (store cur (set_message_queue m.next))
      set_message new (set_message_next null)
      pure new

  -- The loop of MessReceiveType; null where it comes to the end.
  unfoldable pub take_of_type : ℕ → ℕ → Ptr → Ptr → Cmd Kernel Ptr
  take_of_type zero type mq prev = λ _. out_of_fuel
  take_of_type (suc rounds) type mq prev = if mq == null then pure null else do
    m ← message mq
    let rest = take_of_type rounds type m.next mq
    if m.type == type
        then (do
          set_message mq (set_message_next null)
          m ← message mq
          set_message prev (set_message_next m.next)
          pure mq)
        else rest

  unfoldable pub receive_type : ℕ → ℕ → Cmd Kernel Ptr
  receive_type timeout type = do
    cur ← current_process
    c ← in_ke (load cur)
    if c.message_queue == null then wait_for_message timeout type else do
      m ← message c.message_queue
      if m.type == type
          then (do
            let new = c.message_queue
            set_message new (set_message_next null)
            m ← message c.message_queue
            in_ke (store cur (set_message_queue m.next))
            pure new)
          else (do
            found ← take_of_type fuel type c.message_queue c.message_queue
            if found == null then wait_for_message timeout type else pure found)

-- MessGetMessageSize
unfoldable pub get_message_size : Ptr → Cmd Kernel ℕ
get_message_size mess = do m ← message mess; pure ((m.buffer_size + message_size) % ulong_mod)

-- MessCopyMessage
unfoldable pub copy_message : Ptr → Ptr → ℕ → Cmd Kernel Status
copy_message dest source size_of_message = do
  assert (not (dest == null))
  assert (not (source == null))
  m ← message source
  let size = (m.buffer_size + message_size) % ulong_mod
  if ltb size_of_message size then pure buffer_too_small else do
    set_message dest (λ _. m)
    modify λ k. record k {
      bytes = copy_memory k.bytes (dest + message_size) (source + message_size) m.buffer_size;
    }
    pure success

-- The loop of MessDeleteMessage.
unfoldable pub delete_behind : ℕ → Ptr → Ptr → Cmd Kernel Status
delete_behind zero iterator mess = λ _. out_of_fuel
delete_behind (suc fuel) iterator mess = if iterator == null then pure invalid_handle else do
  i ← message iterator
  let rest = delete_behind fuel i.next mess
  if i.next == mess
      then (do
        m ← message mess
        set_message iterator (set_message_next m.next)
        mm_free mess
        pure success)
      else rest

unfoldable pub delete_message : ℕ → Ptr → Cmd Kernel Status
delete_message fuel mess = do
  assert (not (mess == null))
  cur ← current_process
  assert (not (cur == null))
  c ← in_ke (load cur)
  if c.message_queue == null
      then pure success
      else if c.message_queue == mess
      then (do
        m ← message mess
        in_ke (store cur (set_message_queue m.next))
        mm_free mess
        pure invalid_handle)
      else delete_behind fuel c.message_queue mess

-- MessDeleteMessageQueue
unfoldable pub delete_message_queue : ℕ → Ptr → Cmd Kernel Status
delete_message_queue zero mq = λ _. out_of_fuel
delete_message_queue (suc fuel) mq =
    if mq == null
    then pure success
    else do m ← message mq; mm_free mq; delete_message_queue fuel m.next
