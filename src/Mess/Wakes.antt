-- ===== src/Mess/Wakes.antt =====
-- base/mess/mess.c: MessSendMessage to a process that waits for the message.
use arcos_os.Prelude.{
  ℕ, ◌≤◌, ◌<◌, ◌≡◌, ◌≢◌, refl, sym, ap, ◌∙◌, subst, false, some, List, [], ◌∷◌, ◌++◌, length,
  update, update_self, update_ne, has, ne→==,
}
use arcos_os.Prelude.Run.{Cmd, ok, Returns, returns, Returns-ends}
use arcos_os.Types.{Ptr, null, Process, success, ready}
use arcos_os.Ke.Chain.{load-ok}
use arcos_os.Ke.Scheduler.{set_state, set_next}
use arcos_os.Ke.Fields.{Holds-with_fields}
use arcos_os.Ke.Invariant.{View, Holds}
use arcos_os.Ke.Wake.{woken}
use arcos_os.Kernel.{Kernel, Message, body_to_header}
use arcos_os.Mm.{mm_alloc}
use arcos_os.Ob.Objects.{dereference_object}
use arcos_os.Ob.Balance.{referenced, dereference_object-referenced}
use arcos_os.Ps.Listed.{IsObject, Listed, find_pid}
use arcos_os.Ps.Changes.{IsHeld, find_pid-IsObject}
use arcos_os.Mess.Messages.{set_message_queue, wake_receivers, send_message}
use arcos_os.Mess.Queue.{Queue-frame, Waiting}
use arcos_os.Mess.Waiters.{Queued}
use arcos_os.Mess.Again.{left_behind}
use arcos_os.Mess.Woken.{Receives, with_result, IsAwake, wake_receivers-IsAwake}
use arcos_os.Mess.Send.{
  delivered, add_to_queue-delivered, delivered-Waiting, delivered_headers, message_of, prepared,
  found_run,
}

delivered-Holds :
    (k : Kernel) (v : View) (p new : Ptr) (xs : List Ptr)
    → Holds k.ke v
    → Holds (delivered k p new xs).ke v
delivered-Holds k v p new [] h =
    Holds-with_fields k.ke p (set_message_queue new (k.ke.procs p))
      (record { next = refl; state = refl; priority = refl; wake = refl }) h
delivered-Holds k v p new (x ∷ xs) h = h

delivered-Queued :
    (k : Kernel) (p new : Ptr) (xs live stale : List Ptr)
    → Queued k live stale
    → Queued (delivered k p new xs) live stale
delivered-Queued k p new [] live stale q = q
delivered-Queued k p new (x ∷ xs) live stale q = q

-- The receiver's record, but for its message queue.
delivered_self :
    (k : Kernel) (p new : Ptr) (xs : List Ptr)
    → set_message_queue null ((delivered k p new xs).ke.procs p)
      ≡ set_message_queue null (k.ke.procs p)
delivered_self k p new [] =
    ap (set_message_queue null) (update_self k.ke.procs p (set_message_queue new (k.ke.procs p)))
delivered_self k p new (x ∷ xs) = refl

module _ (k : Kernel) (type : ℕ) (buffer : Ptr) (size fuel : ℕ)
    (delete_method : Ptr → Ptr → Cmd Kernel (Unit {0})) (ps : List Ptr) (p : Ptr) (v : View)
    (before : List Ptr) (it : Ptr) (behind stale xs : List Ptr) where
  -- The process that is meant is listed, has a sound reference count, waits for the message, and has the
  -- messages `xs`; there is memory for the message.
  pub record IsReceiver : Type 0 where
    pub listed : Listed k ps
    pub found : find_pid k (k.ke.procs p).pid ps ≡ some p
    pub enough : length ps < fuel
    pub held : IsHeld (k.headers (body_to_header p))
    pub sender_ne : k.ke.current ≢ null
    pub buffer_ne : buffer ≢ null
    pub memory : k.free_mem_pointer ≢ null
    pub queue : Waiting k p xs
    pub fresh : has k.free_mem_pointer xs ≡ false
    pub room : length xs ≤ fuel
    pub receives : Receives fuel k v p type before it behind stale

  abbrev new : Ptr
  new = k.free_mem_pointer

  abbrev pid : ℕ
  pid = (k.ke.procs p).pid

  abbrev made : Kernel
  made = referenced (prepared k pid type buffer size) p

  module _ (r : IsReceiver) where
    made-Receives : Receives fuel made v p type before it behind stale
    made-Receives =
        let w = r.receives in
        record {
          at = record {
            queued = w.at.queued;
            node = w.at.node;
            not_before = w.at.not_before;
            not_behind = w.at.not_behind;
          };
          process = w.process;
          wanted = w.wanted;
          holds = w.holds;
          is_current = w.is_current;
          waits = w.waits;
          method = w.method;
          no_higher = w.no_higher;
          nodes_enough = w.nodes_enough;
          timers_enough = w.timers_enough;
          blocked_enough = w.blocked_enough;
        }

    object : IsObject k.headers k.process_type p
    object = find_pid-IsObject k k.headers k.process_type pid p ps _ r.listed.objects r.found

    module _ (k' : Kernel)
        (a : IsAwake fuel made v p new type before it behind stale made-Receives k') where
      self : k'.ke.procs p ≡ set_state ready (set_next null (with_result new (k.ke.procs p)))
      self =
          a.woken.self
          ∙ ap (λ (q : Process). set_state ready (set_next null q))
              (update_self k.ke.procs p (with_result new (k.ke.procs p)))

      messages_same : k'.messages ≡ update k.messages new (message_of k pid type buffer size)
      messages_same = ap (λ (q : Kernel). q.messages) a.same

      waiting : Waiting k' p xs
      waiting =
          let queue_same = ap (λ (q : Process). q.message_queue) self in
          rw (messages_same, queue_same)
            (Queue-frame k.messages (update k.messages new (message_of k pid type buffer size))
              (k.ke.procs p).message_queue xs r.queue
              (λ b on.
                ap (λ (m : Message). m.next)
                  (update_ne k.messages new _ b (λ e. cc (ap (λ c. has c xs) e)))))

      -- The kernel once the reference is given back.
      abbrev ends : Kernel
      ends = record (delivered k' p new xs) { headers = k.headers }

      given_back : dereference_object fuel delete_method p (delivered k' p new xs) ≡ ok tt ends
      given_back =
          let counted : (delivered k' p new xs).headers ≡ made.headers =
            delivered_headers k' p new xs ∙ ap (λ (q : Kernel). q.headers) a.same in
          ap
            (λ m.
              dereference_object fuel delete_method p
                (record (delivered k' p new xs) { headers = m }))
            counted
          ∙ dereference_object-referenced fuel delete_method ends p object.0 object.1 object.3
              r.held.handles r.held.some_left r.held.room

      send_runs :
          wake_receivers fuel fuel pid type new p k.mess_first k.mess_first made ≡ ok tt k'
          → send_message fuel delete_method pid type buffer size k ≡ ok success ends
      unfolding send_message mm_alloc
      send_runs run = rw (
        ne→== buffer null r.buffer_ne,
        ne→== new null r.memory,
        load-ok k.ke.current k.ke r.sender_ne,
        ne→== new null r.memory,
        found_run k pid type buffer size fuel delete_method ps r.listed r.enough r.sender_ne
            r.buffer_ne r.memory r.found,
        run,
        ne→== p null object.0,
        add_to_queue-delivered fuel k' p new xs waiting object.0 r.room,
        given_back,
      )

      field :
          {A : Type 0} (f : Process → A)
          → ((q : Process) → f (set_message_queue null q) ≡ f q)
          → f (ends.ke.procs p) ≡ f (k'.ke.procs p)
      field f same =
          sym (same (ends.ke.procs p)) ∙ ap f (delivered_self k' p new xs) ∙ same (k'.ke.procs p)

      ends-Holds : Holds ends.ke (woken v p (k.ke.procs p).priority)
      ends-Holds = delivered-Holds k' (woken v p (k.ke.procs p).priority) p new xs (
          subst (λ i. Holds k'.ke (woken v p i))
            (ap (λ (q : Process). q.priority)
              (update_self k.ke.procs p (with_result new (k.ke.procs p))))
            a.woken.holds)

    -- MessSendMessage to a listed process that waits for a message of the type, and has no higher priority than
    -- the sender, returns STATUS_SUCCESS and makes the receiver ready: the message is the result of its
    -- system call, its node is no longer in the queue of waiting processes, nor linked behind it, and the
    -- scheduler's lists are well formed. The message also stands in the receiver's queue, behind those that
    -- wait there, from which a later call hands it out again. The loops need one round more than there
    -- are entries of the lists.
    pub send_message-IsReceiver :
        Returns
          (λ status k'.
            (status ≡ success)
            × ((k'.ke.procs p).context.v0 ≡ k.free_mem_pointer)
            × ((k'.ke.procs p).state ≡ ready)
            × Waiting k' p (xs ++ k.free_mem_pointer ∷ [])
            × (k'.messages k.free_mem_pointer ≡ message_of k (k.ke.procs p).pid type buffer size)
            × Queued k' (before ++ behind) (left_behind before behind stale)
            × Holds k'.ke (woken v p (k.ke.procs p).priority)
            × (k'.headers ≡ k.headers))
          (send_message fuel delete_method (k.ke.procs p).pid type buffer size k)
    send_message-IsReceiver =
        let (_, k', run, a) =
          Returns-ends
            (wake_receivers-IsAwake fuel made v p new type before it behind stale made-Receives) in
        let sent_self = update_self k.messages new (message_of k pid type buffer size) in
        let here = ap (λ (m : Ptr → Message). m new) (messages_same k' a) ∙ sent_self in
        let got =
          delivered-Waiting k' p new xs (waiting k' a) r.memory r.fresh
            (ap (λ (m : Message). m.next) here) in
        rw (send_runs k' a run) (
          returns (
            refl,
            field k' a (λ (q : Process). q.context.v0) (λ q. refl)
                ∙ ap (λ (q : Process). q.context.v0) (self k' a),
            field k' a (λ (q : Process). q.state) (λ q. refl)
                ∙ ap (λ (q : Process). q.state) (self k' a),
            got.0,
            got.1 ∙ here,
            delivered-Queued k' p new xs (before ++ behind) (left_behind before behind stale)
                a.queued,
            ends-Holds k' a,
            refl,
          ))
