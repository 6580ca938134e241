-- ===== src/Mess/Send.antt =====
-- base/mess/mess.c: MessSendMessage to a process that does not wait for a message.
use arcos_os.Prelude.{
  ℕ, ◌+◌, ◌%◌, ◌≤◌, ◌<◌, ◌≡◌, ◌≢◌, refl, sym, ap, ◌∙◌, subst, false, Option, none, some, List, [],
  ◌∷◌, ◌++◌, arith, length, update, update_self, update_ne, has, has-last_from, last_from, eq→==,
  ne→==,
}
use arcos_os.Prelude.Links.{Links}
use arcos_os.Prelude.Run.{Cmd, ok, Returns, returns}
use arcos_os.Types.{Ptr, null, ulong_mod, success, no_such_process}
use arcos_os.Ke.Chain.{load-ok, store-ok}
use arcos_os.Kernel.{Kernel, Message, body_to_header}
use arcos_os.Mm.{mm_alloc, align_memory}
use arcos_os.Ob.Objects.{dereference_object}
use arcos_os.Ob.Balance.{referenced, dereference_object-referenced}
use arcos_os.Rtl.Memory.{copy_memory}
use arcos_os.Ps.Listed.{IsObject, Listed, find_pid}
use arcos_os.Ps.Reference.{reference_process-find, reference_result}
use arcos_os.Ps.Changes.{IsHeld, find_pid-IsObject}
use arcos_os.Ps.Lookup.{reference_process}
use arcos_os.Mess.Waiters.{next_of}
use arcos_os.Mess.Forget.{Elsewhere}
use arcos_os.Mess.Passing.{wake_receivers-Elsewhere}
use arcos_os.Mess.Messages.{
  message_size, new_message, set_message_next, set_message_queue, add_to_queue, send_message,
}
use arcos_os.Mess.Queue.{Queue, Queue-frame, Waiting, Queue-append, append_message-ok}

-- The kernel with `new` behind the messages `xs` that wait for `p`.
abbrev pub delivered : Kernel → Ptr → Ptr → List Ptr → Kernel
delivered k p new [] = record k {
  ke = record k.ke { procs = update k.ke.procs p (set_message_queue new (k.ke.procs p)) };
}
delivered k p new (x ∷ xs) = record k {
  messages =
      update k.messages (last_from x xs) (set_message_next new (k.messages (last_from x xs)));
}

pub add_to_queue-delivered :
    (fuel : ℕ) (k : Kernel) (p new : Ptr) (xs : List Ptr)
    → Waiting k p xs
    → p ≢ null
    → length xs ≤ fuel
    → add_to_queue fuel p new k ≡ ok tt (delivered k p new xs)
unfolding add_to_queue
add_to_queue-delivered fuel k p new [] c ne f = rw (
  load-ok p k.ke ne,
  eq→== (k.ke.procs p).message_queue null c,
  store-ok p (set_message_queue new) k.ke ne,
)
add_to_queue-delivered fuel k p new (x ∷ xs) c ne f = rw (
  load-ok p k.ke ne,
  ne→== (k.ke.procs p).message_queue null (rw c.0 c.1),
  c.0,
  append_message-ok fuel k x new xs (refl, c.1, c.2, c.3) (omega arith),
)

-- What sending leaves: the message stands behind those that wait, and is as it was made.
pub delivered-Waiting :
    (k : Kernel) (p new : Ptr) (xs : List Ptr)
    → Waiting k p xs
    → new ≢ null
    → has new xs ≡ false
    → (k.messages new).next ≡ null
    → Waiting (delivered k p new xs) p (xs ++ new ∷ [])
      × ((delivered k p new xs).messages new ≡ k.messages new)
unfolding update
delivered-Waiting k p new [] c ne out end = (
  rw (update_self k.ke.procs p (set_message_queue new (k.ke.procs p))) (refl, ne, refl, end),
  refl,
)
delivered-Waiting k p new (x ∷ xs) c ne out end = (
  subst (λ h. Queue (delivered k p new (x ∷ xs)).messages h (x ∷ (xs ++ new ∷ []))) (sym c.0)
      (Queue-append k.messages x new xs (refl, c.1, c.2, c.3) out ne end),
  ground (arith, has-last_from x xs),
)

find_pid-same :
    (k k' : Kernel) (pid : ℕ) (ps : List Ptr)
    → k'.ke ≡ k.ke
    → find_pid k' pid ps ≡ find_pid k pid ps
find_pid-same k k' pid [] e = refl
find_pid-same k k' pid (p ∷ ps) e = rw (e, find_pid-same k k' pid ps e)

delivered-referenced :
    (k : Kernel) (p new : Ptr) (xs : List Ptr)
    → delivered (referenced k p) p new xs ≡ referenced (delivered k p new xs) p
delivered-referenced k p new [] = refl
delivered-referenced k p new (x ∷ xs) = refl

pub delivered_headers :
    (k : Kernel) (p new : Ptr) (xs : List Ptr) → (delivered k p new xs).headers ≡ k.headers
delivered_headers k p new [] = refl
delivered_headers k p new (x ∷ xs) = refl

delivered_bytes :
    (k : Kernel) (p new : Ptr) (xs : List Ptr) → (delivered k p new xs).bytes ≡ k.bytes
delivered_bytes k p new [] = refl
delivered_bytes k p new (x ∷ xs) = refl

module _ (k : Kernel) (receiver_pid type : ℕ) (buffer : Ptr) (size : ℕ) where
  abbrev sent : Ptr
  sent = k.free_mem_pointer

  abbrev pub message_of : Message
  message_of =
      new_message (k.ke.procs k.ke.current).pid receiver_pid type (sent + message_size) size

  -- The kernel once the message is made.
  abbrev pub prepared : Kernel
  prepared = record k {
    free_mem_pointer =
        align_memory ((k.free_mem_pointer + (message_size + size) % ulong_mod) % ulong_mod);
    bytes = copy_memory k.bytes (sent + message_size) buffer size;
    messages = update k.messages sent message_of;
  }

  module _ (fuel : ℕ) (delete_method : Ptr → Ptr → Cmd Kernel (Unit {0})) (ps : List Ptr)
      (l : Listed k ps) (enough : length ps < fuel) (cur_ne : k.ke.current ≢ null)
      (buffer_ne : buffer ≢ null) (memory : sent ≢ null) where
    prepared-Listed : Listed prepared ps
    prepared-Listed = record {
      type_ne = l.type_ne;
      type_header_ne = l.type_header_ne;
      type_magic = l.type_magic;
      objects = l.objects;
    }

    pub found_run :
        {o : Option Ptr}
        → find_pid k receiver_pid ps ≡ o
        → reference_process fuel receiver_pid prepared ≡ reference_result prepared o
    found_run e =
        reference_process-find fuel receiver_pid prepared ps prepared-Listed enough
        ∙ ap (reference_result prepared) (find_pid-same k prepared receiver_pid ps refl ∙ e)

    -- MessSendMessage to a number that no process has returns STATUS_NO_SUCH_PROCESS; the message has been
    -- made, is in no queue, and its memory is not given back.
    pub send_message-unknown :
        find_pid k receiver_pid ps ≡ none
        → send_message fuel delete_method receiver_pid type buffer size k
          ≡ ok no_such_process prepared
    unfolding send_message mm_alloc
    send_message-unknown none_found = rw (
      ne→== buffer null buffer_ne,
      ne→== sent null memory,
      load-ok k.ke.current k.ke cur_ne,
      ne→== sent null memory,
      found_run none_found,
    )

    module _ (p : Ptr) (found : find_pid k receiver_pid ps ≡ some p)
        (held : IsHeld (k.headers (body_to_header p))) (ns : List Ptr)
        (nodes : Links (next_of k.mess_nodes) k.mess_first ns null)
        (elsewhere : Elsewhere k.mess_nodes receiver_pid ns) (rounds : length ns < fuel)
        (xs : List Ptr) (queue : Waiting k p xs) (fresh : has sent xs ≡ false)
        (room : length xs ≤ fuel) where
      object : IsObject k.headers k.process_type p
      object = find_pid-IsObject k k.headers k.process_type receiver_pid p ps _ l.objects found

      prepared-Waiting : Waiting prepared p xs
      prepared-Waiting =
          Queue-frame k.messages prepared.messages (k.ke.procs p).message_queue xs queue (λ a on.
            ap (λ (m : Message). m.next)
              (update_ne k.messages sent message_of a (λ e. cc (ap (λ b. has b xs) e))))

      given_back :
          dereference_object fuel delete_method p (referenced (delivered prepared p sent xs) p)
          ≡ ok tt (delivered prepared p sent xs)
      given_back =
          let same = delivered_headers prepared p sent xs in
          dereference_object-referenced fuel delete_method (delivered prepared p sent xs) p object.0
            object.1 (rw same object.3) (rw same held.handles) (rw same held.some_left)
            (rw same held.room)

      send_message-delivered :
          send_message fuel delete_method receiver_pid type buffer size k
          ≡ ok success (delivered prepared p sent xs)
      unfolding send_message mm_alloc
      send_message-delivered = rw (
        ne→== buffer null buffer_ne,
        ne→== sent null memory,
        load-ok k.ke.current k.ke cur_ne,
        ne→== sent null memory,
        found_run found,
        wake_receivers-Elsewhere fuel fuel receiver_pid type sent p k.mess_first k.mess_first
            (referenced prepared p) ns nodes elsewhere rounds,
        ne→== p null object.0,
        add_to_queue-delivered fuel (referenced prepared p) p sent xs prepared-Waiting object.0
            room,
        delivered-referenced prepared p sent xs,
        given_back,
      )

      -- MessSendMessage to a listed process that does not wait for a message returns STATUS_SUCCESS and puts a
      -- message behind those that wait for the process: its header has the sender's number, the type and
      -- the size, its body is a copy of the buffer, and the reference to the receiver is given back. The
      -- loops need one round more than there are processes, waiting processes and waiting messages.
      pub send_message-Waiting :
          Returns
            (λ status k'.
              (status ≡ success)
              × Waiting k' p (xs ++ sent ∷ [])
              × (k'.messages sent ≡ message_of)
              × (k'.bytes ≡ copy_memory k.bytes (sent + message_size) buffer size)
              × (k'.headers ≡ k.headers))
            (send_message fuel delete_method receiver_pid type buffer size k)
      send_message-Waiting =
          let self = update_self k.messages sent message_of in
          let got =
            delivered-Waiting prepared p sent xs prepared-Waiting memory fresh
              (ap (λ (m : Message). m.next) self) in
          rw send_message-delivered (
            returns (
              refl,
              got.0,
              got.1 ∙ self,
              delivered_bytes prepared p sent xs,
              delivered_headers prepared p sent xs,
            ))
