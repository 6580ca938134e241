-- ===== src/Mess/WaitQueue.antt =====
-- base/mess/mess.c: the queue of processes that wait for a message. A `while` loop over the queue
-- has `fuel` rounds. MmFree does nothing, so a node that is taken out can still be read.
use arcos_os.Prelude.{ℕ, zero, suc, ◌+◌, ◌&&◌, ◌==◌, if◌then◌else◌, update}
use arcos_os.Prelude.Run.{Cmd, ok, fault, out_of_fuel, pure, get, modify, ◌>>=◌, ◌>>◌}
use arcos_os.Types.{Ptr, null, Status, success, no_memory}
use arcos_os.Ke.Scheduler.{load}
use arcos_os.Kernel.{Kernel, MessNode, deref, in_ke, current_process}
use arcos_os.Mm.{mm_alloc, mm_free}

abbrev pub mess_node : Ptr → Cmd Kernel MessNode
mess_node = deref λ k. k.mess_nodes

abbrev pub set_mess_node : Ptr → (MessNode → MessNode) → Cmd Kernel (Unit {0})
set_mess_node p f k =
    if p == null
    then fault
    else ok tt (record k { mess_nodes = update k.mess_nodes p (f (k.mess_nodes p)) })

abbrev pub set_node_next : Ptr → MessNode → MessNode
set_node_next q n = record n { next = q }

abbrev pub set_mess_queue : Ptr → Ptr → Cmd Kernel (Unit {0})
set_mess_queue first last = modify λ k. record k { mess_first = first; mess_last = last }

-- sizeof(MESS_PROCESS_QUEUE) and sizeof(MESS_PROCESS_NODE)
abbrev pub mess_queue_size : ℕ
mess_queue_size = 8

abbrev pub mess_node_size : ℕ
mess_node_size = 16

-- MessInitialize; the queue's two fields stand in the kernel's state.
unfoldable pub mess_initialize : Cmd Kernel Status
mess_initialize = do
  q ← mm_alloc mess_queue_size
  if q == null then pure no_memory else do set_mess_queue null null; pure success

-- LengthOfQueue, with `fuel` calls.
unfoldable pub length_of_queue : ℕ → Ptr → Cmd Kernel ℕ
length_of_queue zero node = λ _. out_of_fuel
length_of_queue (suc fuel) node =
    if node == null
    then pure 0
    else do n ← mess_node node; rest ← length_of_queue fuel n.next; pure (1 + rest)

unfoldable pub add_process_to_queue : ℕ → Cmd Kernel Status
add_process_to_queue type = do
  new ← mm_alloc mess_node_size
  if new == null then pure no_memory else do
    cur ← current_process
    r ← in_ke (load cur)
    set_mess_node new (λ _. record { process = cur; pid = r.pid; type = type; next = null })
    first ← get λ k. k.mess_first
    last ← get λ k. k.mess_last
    if (first == null) && (last == null)
        then set_mess_queue new new
        else (do set_mess_node last (set_node_next new); set_mess_queue first new)
    pure success

unfoldable pub remove_process_from_queue : Ptr → Ptr → Cmd Kernel Status
remove_process_from_queue iterator prev = do
  first ← get λ k. k.mess_first
  last ← get λ k. k.mess_last
  if (first == iterator) && (last == iterator)
      then set_mess_queue null null
      else if first == iterator
      then (do n ← mess_node first; set_mess_queue n.next (if last == iterator then null else last))
      else if last == iterator
      then set_mess_queue first prev
      else (do n ← mess_node iterator; set_mess_node prev (set_node_next n.next))
  mm_free iterator
  pure success

-- The loop of ResumeMethod.
unfoldable pub forget_waiter : ℕ → ℕ → Ptr → Ptr → Cmd Kernel (Unit {0})
forget_waiter zero pid iterator prev = λ _. out_of_fuel
forget_waiter (suc fuel) pid iterator prev = if iterator == null then pure tt else do
  n ← mess_node iterator
  if n.pid == pid then (do _ ← remove_process_from_queue iterator prev; pure tt) else pure tt
  n ← mess_node iterator
  forget_waiter fuel pid n.next iterator

-- ResumeMethod
unfoldable pub mess_resume : ℕ → Ptr → Cmd Kernel (Unit {0})
mess_resume fuel process = do
  r ← in_ke (load process)
  first ← get λ k. k.mess_first
  forget_waiter fuel r.pid first first
