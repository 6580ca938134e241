-- ===== src/Mess/Woken.antt =====
-- base/mess/mess.c: the part of MessSendMessage that wakes a process which waits for the message.
use arcos_os.Prelude.{
  ℕ, ◌<◌, ◌≤◌, ◌||◌, ◌≡◌, ◌≢◌, refl, sym, ap, ◌∙◌, subst, inl, inr, true, false, List, ◌∷◌, ◌++◌,
  arith, ◌==◌, length, has, has-append, last_from, eq→==, ne→==, update, update_self, update_ne,
  Bool-cases,
}
use arcos_os.Prelude.Links.{Links, Distinct}
use arcos_os.Prelude.Run.{ok, Returns, returns, Returns-ends}
use arcos_os.Types.{Ptr, null, Process, Status, blocked, is_blocked, mess_resume_method}
use arcos_os.Ke.Scheduler.{Scheduler}
use arcos_os.Ke.Chain.{load-ok, store-ok}
use arcos_os.Ke.Invariant.{View, Holds}
use arcos_os.Ke.Switch.{IsCurrent}
use arcos_os.Ke.Wake.{Waits, waits_ne_null, Woken, make_ready-stays}
use arcos_os.Ke.Processes.{resume_process, set_syscall_result}
use arcos_os.Kernel.{Kernel}
use arcos_os.Mess.WaitQueue.{set_node_next, remove_process_from_queue}
use arcos_os.Mess.Waiters.{next_of, Queued, mess_node-ok}
use arcos_os.Mess.Removal.{left_over}
use arcos_os.Mess.Forget.{
  At, Elsewhere, Queued-Links, Links-node, previous_same, rest_Links, rest_Elsewhere,
  mess_resume-Queued,
}
use arcos_os.Mess.Again.{left_behind, remove_process_from_queue-again}
use arcos_os.Mess.Passing.{wake_receivers-Elsewhere, wake_receivers-reaches}
use arcos_os.Mess.Messages.{message_type_first, wake_receiver, wake_receivers}
use arcos_os.Ke.Fields.{SamePlace, Holds-with_fields, IsCurrent-with_fields}
use arcos_os.Ke.Wake.{off_ne_waits}
use arcos_os.Prelude.Links.{Distinct-out}

abbrev pub relinked : Kernel → Kernel → Kernel
relinked k k' = record k {
  mess_nodes = k'.mess_nodes;
  mess_first = k'.mess_first;
  mess_last = k'.mess_last;
}

module _ {s : Scheduler} {v : View} (h : Holds s v) (p : Ptr) (waits : Waits v p) where
  waits_blocked : (s.procs p).state ≡ blocked
  waits_blocked = elim (Bool-cases (has p v.timers)) [
    | inl on ↦ h.timer_state p on
    | inr off ↦ h.blocked_state p (rw off at waits)
  ]

module _ (fuel : ℕ) (k : Kernel) (p : Ptr) (before : List Ptr) (it : Ptr) (behind stale : List Ptr)
    (at : At k (k.ke.procs p).pid before it behind stale)
    (enough : length (before ++ it ∷ (behind ++ stale)) < fuel) {v : View} (h : Holds k.ke v)
    (c : IsCurrent k.ke v) (waits : Waits v p)
    (method : (k.ke.procs p).resume_method ≡ mess_resume_method) (ft : length v.timers ≤ fuel)
    (fb : length v.blocked ≤ fuel)
    (le : (k.ke.procs p).priority ≤ (k.ke.procs k.ke.current).priority) where
  -- KeResumeProcess of a process that waits for a message.
  pub resume_process-Queued :
      Returns
        (λ _ k'.
          Queued k' (before ++ behind) (left_over before it behind stale)
          × Woken k.ke v p k'.ke
          × (k' ≡ record (relinked k k') { ke = k'.ke })
          × ((a : Ptr) → set_node_next null (k'.mess_nodes a) ≡ set_node_next null (k.mess_nodes a))
          × ((a : Ptr) → has a before ≡ false → k'.mess_nodes a ≡ k.mess_nodes a))
        (resume_process fuel p k)
  unfolding resume_process
  resume_process-Queued =
      let ne = waits_ne_null h p waits in
      let (_, k1, run, post) =
        Returns-ends (mess_resume-Queued fuel k p ne before it behind stale at enough) in
      let (_, s', woke, w) = Returns-ends (make_ready-stays fuel h c p waits ft fb le) in
      let same : k1.ke ≡ k.ke = ap (λ (r : Kernel). r.ke) post.1.same in
      rw (ne→== p null ne, load-ok p k.ke ne, waits_blocked h p waits, method, run, same, woke)
        (returns (
          post.0,
          w,
          ap (λ (r : Kernel). record r { ke = s' }) post.1.same,
          post.1.links,
          post.1.others,
        ))

-- A process waits for a message of the type, and sending it does not preempt the current process.
pub record Receives (fuel : ℕ) (k : Kernel) (v : View) (p : Ptr) (type : ℕ) (before : List Ptr)
    (it : Ptr) (behind stale : List Ptr) : Type 0 where
  pub at : At k (k.ke.procs p).pid before it behind stale
  pub process : (k.mess_nodes it).process ≡ p
  pub wanted :
      (((k.mess_nodes it).type == message_type_first) || ((k.mess_nodes it).type == type)) ≡ true
  pub holds : Holds k.ke v
  pub is_current : IsCurrent k.ke v
  pub waits : Waits v p
  pub method : (k.ke.procs p).resume_method ≡ mess_resume_method
  pub no_higher : (k.ke.procs p).priority ≤ (k.ke.procs k.ke.current).priority
  pub nodes_enough : length (before ++ it ∷ (behind ++ stale)) < fuel
  pub timers_enough : length v.timers ≤ fuel
  pub blocked_enough : length v.blocked ≤ fuel

abbrev pub with_result : Ptr → Process → Process
with_result new r = record r { context = record r.context { v0 = new } }

-- The kernel once the receiver has its result.
abbrev pub answered : Kernel → Ptr → Ptr → Kernel
answered k p new = record k {
  ke = record k.ke { procs = update k.ke.procs p (with_result new (k.ke.procs p)) };
}

module _ (fuel : ℕ) (k : Kernel) (v : View) (p new : Ptr) (type : ℕ) (before : List Ptr) (it : Ptr)
    (behind stale : List Ptr) (w : Receives fuel k v p type before it behind stale) where
  self : (answered k p new).ke.procs p ≡ with_result new (k.ke.procs p)
  self = update_self k.ke.procs p (with_result new (k.ke.procs p))

  place : SamePlace (k.ke.procs p) (with_result new (k.ke.procs p))
  place = record { next = refl; state = refl; priority = refl; wake = refl }

  answered-At : At (answered k p new) ((answered k p new).ke.procs p).pid before it behind stale
  answered-At =
      let pid = ap (λ (r : Process). r.pid) self in
      record {
        queued = w.at.queued;
        node = w.at.node ∙ sym pid;
        not_before = subst (λ n. Elsewhere k.mess_nodes n before) (sym pid) w.at.not_before;
        not_behind =
            subst (λ n. Elsewhere k.mess_nodes n (behind ++ stale)) (sym pid) w.at.not_behind;
      }

  current_same : (answered k p new).ke.procs k.ke.current ≡ k.ke.procs k.ke.current
  current_same =
      update_ne k.ke.procs p _ k.ke.current
        (off_ne_waits w.holds p w.waits k.ke.current w.is_current.off)

  chain : Links (next_of k.mess_nodes) k.mess_first (before ++ it ∷ (behind ++ stale)) null
  chain = (Queued-Links k before it behind stale w.at.queued).0

  once : Distinct (before ++ it ∷ (behind ++ stale))
  once = (Queued-Links k before it behind stale w.at.queued).1

  it_node : (it ≢ null) × Links (next_of k.mess_nodes) (k.mess_nodes it).next (behind ++ stale) null
  it_node = Links-node k k.mess_first it before (behind ++ stale) chain

  apart : (has it before ≡ false) × (has it (behind ++ stale) ≡ false)
  apart = Distinct-out it before (behind ++ stale) once

  wake_receiver-runs :
      (k1 k2 : Kernel) (status : Status)
      → resume_process fuel p (answered k p new) ≡ ok tt k1
      → remove_process_from_queue it (last_from it before) k1 ≡ ok status k2
      → wake_receiver fuel (k.ke.procs p).pid type new p it (last_from it before) k ≡ ok tt k2
  unfolding wake_receiver set_syscall_result
  wake_receiver-runs k1 k2 status resumed removed =
      let ne = waits_ne_null w.holds p w.waits in
      let is : is_blocked (k.ke.procs p).state ≡ true =
        ap is_blocked (waits_blocked w.holds p w.waits) in
      rw (
        mess_node-ok it k it_node.0,
        eq→== (k.mess_nodes it).pid (k.ke.procs p).pid w.at.node,
        w.process,
        load-ok p k.ke ne,
        is,
        w.wanted,
        ne→== p null ne,
        store-ok p (with_result new) k.ke ne,
        resumed,
        removed,
      )

  -- What is true once the receiver is awake.
  pub record IsAwake (k' : Kernel) : Type 0 where
    pub queued : Queued k' (before ++ behind) (left_behind before behind stale)
    pub woken : Woken (answered k p new).ke v p k'.ke
    pub same : k' ≡ record (relinked k k') { ke = k'.ke }
    pub others : (a : Ptr) → has a before ≡ false → k'.mess_nodes a ≡ k.mess_nodes a

  wake_receiver-IsAwake :
      Returns
        (λ _. IsAwake)
        (wake_receiver fuel (k.ke.procs p).pid type new p it (last_from it before) k)
  wake_receiver-IsAwake =
      let (_, k1, run, post) = Returns-ends (
        resume_process-Queued fuel (answered k p new) p before it behind stale answered-At
          w.nodes_enough (Holds-with_fields k.ke p (with_result new (k.ke.procs p)) place w.holds)
          (IsCurrent-with_fields k.ke p (with_result new (k.ke.procs p)) place w.is_current) w.waits
          (ap (λ (r : Process). r.resume_method) self ∙ w.method) w.timers_enough w.blocked_enough
          (rw (self, current_same) w.no_higher)) in
      let out : has it behind ≡ false = ground (arith, apart.1, has-append it behind stale) in
      let (status, k2, removed, post') = Returns-ends (
        remove_process_from_queue-again k1 it it_node.0 before behind stale apart.0 out post.0
          (rest_Links k k1 before it (behind ++ stale) post.4 once it_node.1)) in
      let ke_same : k2.ke ≡ k1.ke = ap (λ (r : Kernel). r.ke) post'.2.same in
      rw (wake_receiver-runs k1 k2 status run removed) (
        returns (record {
          queued = post'.1;
          woken = rw ke_same post.1;
          same =
              post'.2.same
              ∙ ap (λ r. relinked r k2) post.2
              ∙ ap (λ s. record (relinked k k2) { ke = s }) (sym ke_same);
          others = λ a o. post'.2.others a o ∙ post.4 a o;
        }))

  -- The loop of MessSendMessage over the waiting processes.
  pub wake_receivers-IsAwake :
      Returns
        (λ _. IsAwake)
        (wake_receivers fuel fuel (k.ke.procs p).pid type new p k.mess_first k.mess_first k)
  unfolding wake_receivers
  wake_receivers-IsAwake =
      let pid : ℕ = (k.ke.procs p).pid in
      let (r, more, reached) =
        wake_receivers-reaches fuel fuel pid type new p k.mess_first k.mess_first it k before
          (behind ++ stale) chain w.at.not_before w.nodes_enough in
      let (_, k', run, awake) = Returns-ends wake_receiver-IsAwake in
      let rest =
        wake_receivers-Elsewhere fuel r pid type new p (k'.mess_nodes it).next it k'
          (behind ++ stale)
          (rest_Links k k' before it (behind ++ stale) awake.others once it_node.1)
          (rest_Elsewhere k k' before it (behind ++ stale) awake.others once pid w.at.not_behind)
          more in
      rw
        (
          reached,
          previous_same k k.mess_first it before (behind ++ stale) chain,
          ne→== it null it_node.0,
          run,
          mess_node-ok it k' it_node.0,
          rest,
        )
        (returns awake)
