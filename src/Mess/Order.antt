-- ===== src/Mess/Order.antt =====
-- base/mess/mess.c: receiving and deleting the first message of a queue.
use arcos_os.Prelude.{
  ℕ, ◌≡◌, ◌≢◌, refl, sym, ap, ◌∙◌, subst, true, List, [], ◌∷◌, update, update_self, update_ne, has,
  eq→==, ne→==,
}
use arcos_os.Prelude.Run.{Returns, returns}
use arcos_os.Types.{Ptr, null, Process, invalid_handle}
use arcos_os.Ke.Chain.{load-ok, store-ok}
use arcos_os.Kernel.{Kernel, Message}
use arcos_os.Mess.Messages.{
  set_message_next, set_message_queue, receive_first, receive_type, delete_message,
}
use arcos_os.Mm.{mm_free}
use arcos_os.Mess.Queue.{Queue, Waiting, Queue-frame, message-ok, set_message-ok}

module _ (fuel : ℕ) (k : Kernel) where
  module _ (x : Ptr) (xs : List Ptr) (c : Waiting k k.ke.current (x ∷ xs))
      (ne : k.ke.current ≢ null) where
    abbrev head : Ptr
    head = (k.ke.procs k.ke.current).message_queue

    head_ne : head ≢ null
    head_ne = rw c.0 c.1

    -- The queue behind the first message, in a memory where only that message may have changed.
    rest_Queue :
        (m : Ptr → Message)
        → ((a : Ptr) → a ≢ head → m a ≡ k.messages a)
        → Queue m (k.messages head).next xs
    rest_Queue m same =
        subst (λ h. Queue m (k.messages h).next xs) (sym c.0)
          (Queue-frame k.messages m (k.messages x).next xs c.3
            (λ a on. ap (λ (n : Message). n.next) (same a (λ e. absurd (absent a on (e ∙ c.0))))))
      where
        absent : (a : Ptr) → has a xs ≡ true → a ≡ x → ⊥
        absent a on e = cc (ap (λ t. has t xs) e)

    -- The message that is handed out has no successor.
    unlinked : (update k.messages head (set_message_next null (k.messages head)) x).next ≡ null
    unlinked =
        subst
          (λ h. (update k.messages head (set_message_next null (k.messages head)) h).next ≡ null)
          c.0 (ap (λ (n : Message). n.next) (update_self k.messages head _))

    left :
        (q : Ptr) (m : Ptr → Message)
        → Queue m q xs
        → Queue m
            (update k.ke.procs k.ke.current
              (set_message_queue q (k.ke.procs k.ke.current))
              k.ke.current).message_queue
            xs
    left q m queue =
        rw (update_self k.ke.procs k.ke.current (set_message_queue q (k.ke.procs k.ke.current)))
          queue

    -- MessReceiveFirst hands out the first message of a process that has one, unlinked, and leaves
    -- the others in their order.
    pub receive_first-Waiting :
        (timeout : ℕ)
        → Returns
            (λ p k'. (p ≡ x) × ((k'.messages x).next ≡ null) × Waiting k' k'.ke.current xs)
            (receive_first fuel timeout k)
    unfolding receive_first
    receive_first-Waiting timeout =
        rw
          (
            load-ok k.ke.current k.ke ne,
            ne→== head null head_ne,
            message-ok head k head_ne,
            store-ok k.ke.current (set_message_queue (k.messages head).next) k.ke ne,
            set_message-ok head (set_message_next null) _ head_ne,
          )
          (returns (
            c.0,
            unlinked,
            left (k.messages head).next
                (update k.messages head (set_message_next null (k.messages head)))
                (rest_Queue (update k.messages head (set_message_next null (k.messages head)))
                  λ a n. update_ne k.messages head _ a n),
          ))

    -- MessReceiveType, where the first message has the type that is asked for, hands out that message
    -- and leaves the process with no message at all, whatever came behind the first one.
    pub receive_type-lost :
        (timeout type : ℕ)
        → (k.messages x).type ≡ type
        → Returns (λ p k'. (p ≡ x) × Waiting k' k'.ke.current []) (receive_type fuel timeout type k)
    unfolding receive_type
    receive_type-lost timeout type e =
        let hit : (k.messages head).type ≡ type = ap (λ a. (k.messages a).type) c.0 ∙ e in
        rw
          (
            load-ok k.ke.current k.ke ne,
            ne→== head null head_ne,
            message-ok head k head_ne,
            eq→== (k.messages head).type type hit,
            set_message-ok head (set_message_next null) k head_ne,
            message-ok head _ head_ne,
            update_self k.messages head (set_message_next null (k.messages head)),
            store-ok k.ke.current (set_message_queue null) k.ke ne,
          )
          (returns
            (c.0, ap (λ (r : Process). r.message_queue) (update_self k.ke.procs k.ke.current _)))

    -- MessDeleteMessage of the first message of the current process takes the message out of its queue
    -- and keeps the others in their order, but returns STATUS_INVALID_HANDLE.
    delete_message-first :
        Returns
          (λ status k'. (status ≡ invalid_handle) × Waiting k' k'.ke.current xs)
          (delete_message fuel x k)
    unfolding delete_message mm_free
    delete_message-first =
        rw
          (
            ne→== x null c.1,
            ne→== k.ke.current null ne,
            load-ok k.ke.current k.ke ne,
            ne→== head null head_ne,
            eq→== head x c.0,
            message-ok x k c.1,
            store-ok k.ke.current (set_message_queue (k.messages x).next) k.ke ne,
          )
          (returns (refl, left (k.messages x).next k.messages c.3))
