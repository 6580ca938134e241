-- ===== src/Ke/Enqueue.antt =====
-- KepEnqueueProcess appends a process to the ready queue of its priority.
use arcos_os.Prelude.{
  ◌≡◌, ◌≢◌, refl, inl, inr, true, false, List, [], ◌∷◌, ◌++◌, arith, ◌==◌, update, update_self,
  update_ne, has, last_from, has-append, has-last_from, last_from_of_append, Bool-cases, ==→eq,
  ==→ne, eq→==, ne→==, lt→ltb, sym, subst,
}
use arcos_os.Prelude.Run.{ok}
use arcos_os.Types.{Ptr, null, ready}
use arcos_os.Ke.Scheduler.{Scheduler, set_next, set_state, link_last, enqueue_process}
use arcos_os.Ke.Chain.{Memory, Chain, Chain-append, Chain-ne_null, Chain-last, load-ok, store-ok}
use arcos_os.Ke.Invariant.{View, Holds, IsOff, IsLevel, with_ready, Holds-with_ready}

-- The memory after the process `p` is linked behind the entries `xs` and marked as ready.
abbrev pub pushed_procs : Memory → List Ptr → Ptr → Memory
pushed_procs m [] p = update m p (set_state ready (m p))
pushed_procs m (x ∷ xs) p =
    let t = last_from x xs in
    let m' = update m t (set_next p (m t)) in update m' p (set_state ready (m' p))

abbrev pub pushed_head : Ptr → List Ptr → Ptr → Ptr
pushed_head first [] p = p
pushed_head first (x ∷ xs) p = first

-- The state that KepEnqueueProcess leaves, where the queue held `xs`.
abbrev pub pushed : Scheduler → List Ptr → Ptr → Scheduler
pushed s xs p =
    let i = (s.procs p).priority in
    record s {
      procs = pushed_procs s.procs xs p;
      ready_queues =
          update s.ready_queues i
            (record { first = pushed_head (s.ready_queues i).first xs p; last = p });
    }

module _ (m : Memory) (p : Ptr) where
  pub pushed_procs_ne :
      (xs : List Ptr) (a : Ptr) → a ≢ p → has a xs ≡ false → pushed_procs m xs p a ≡ m a
  unfolding update
  pushed_procs_ne [] a ne out = ground arith
  pushed_procs_ne (x ∷ xs) a ne out = ground (arith, has-last_from x xs)

  pub pushed_procs_self :
      (xs : List Ptr) → has p xs ≡ false → pushed_procs m xs p p ≡ set_state ready (m p)
  unfolding update
  pushed_procs_self [] out = ground arith
  pushed_procs_self (x ∷ xs) out = ground (arith, has-last_from x xs)

  -- Only links change, but for the state of `p`.
  pub pushed_procs_link :
      (xs : List Ptr) (a : Ptr)
      → a ≢ p
      → pushed_procs m xs p a ≡ set_next (pushed_procs m xs p a).next_pcb (m a)
  unfolding update
  pushed_procs_link [] a ne = ground arith
  pushed_procs_link (x ∷ xs) a ne = ground arith

  pub Chain-pushed :
      (first : Ptr) (xs : List Ptr)
      → Chain m first xs
      → has p xs ≡ false
      → p ≢ null
      → (m p).next_pcb ≡ null
      → Chain (pushed_procs m xs p) (pushed_head first xs p) (xs ++ p ∷ [])
  unfolding update
  Chain-pushed first [] c out ne end = (refl, ne, refl, ground arith)
  Chain-pushed first (x ∷ xs) c out ne end =
      subst (λ f. Chain (pushed_procs m (x ∷ xs) p) f (x ∷ (xs ++ p ∷ []))) (sym c.0)
        (Chain-append m (pushed_procs m (x ∷ xs) p) x p xs (refl, c.1, c.2, c.3) out ne
          (ground (arith, has-last_from x xs)) (ground (arith, has-last_from x xs))
          (λ a h e. ground arith))

module _ {s : Scheduler} {v : View} (h : Holds s v) (p : Ptr) (off : IsOff v p) (ne : p ≢ null)
    (end : (s.procs p).next_pcb ≡ null) (level : IsLevel (s.procs p).priority) where
  enqueue-pushed_from :
      (xs : List Ptr)
      → v.ready (s.procs p).priority ≡ xs
      → enqueue_process p s ≡ ok tt (pushed s xs p)
  unfolding enqueue_process link_last
  enqueue-pushed_from [] e =
      let i = (s.procs p).priority in
      let f : (s.ready_queues i).first ≡ null =
        subst (λ zs. Chain s.procs (s.ready_queues i).first zs) e (h.queue_chain i level) in
      rw (
        load-ok p s ne,
        eq→== _ null end,
        lt→ltb _ _ level,
        eq→== _ null f,
        store-ok p (set_state ready),
      )
  enqueue-pushed_from (x ∷ xs) e =
      let i = (s.procs p).priority in
      let c : Chain s.procs (s.ready_queues i).first (x ∷ xs) =
        subst (λ zs. Chain s.procs (s.ready_queues i).first zs) e (h.queue_chain i level) in
      let t_ne : last_from x xs ≢ null =
        Chain-ne_null s.procs (s.ready_queues i).first (last_from x xs) (x ∷ xs) c
          (has-last_from x xs) in
      let f : ((s.ready_queues i).first == null) ≡ false = ne→== _ null (rw c.0 c.1) in
      rw (
        load-ok p s ne,
        eq→== _ null end,
        lt→ltb _ _ level,
        f,
        h.queue_last i x xs level e,
        load-ok (last_from x xs) s t_ne,
        eq→== _ null (Chain-last s.procs _ x xs c),
        store-ok (last_from x xs) (set_next p) s t_ne,
        store-ok p (set_state ready) _ ne,
      )

  -- KepEnqueueProcess returns, with the process behind the others of its queue.
  pub enqueue-pushed : enqueue_process p s ≡ ok tt (pushed s (v.ready (s.procs p).priority) p)
  enqueue-pushed = enqueue-pushed_from (v.ready (s.procs p).priority) refl

  pushed_state :
      (xs : List Ptr) (a : Ptr)
      → v.ready (s.procs p).priority ≡ xs
      → has a (xs ++ p ∷ []) ≡ true
      → let r = pushed_procs s.procs xs p a in
        (r.state ≡ ready) × (r.priority ≡ (s.procs p).priority)
  pushed_state xs a e m = elim (Bool-cases (a == p)) [
    | inl hit ↦
        let out : has p xs ≡ false = subst (λ zs. has p zs ≡ false) e (off.not_ready _ level) in
        rw (==→eq a p hit, pushed_procs_self s.procs p xs out) (refl, refl)
    | inr miss ↦
        let old : has a xs ≡ true = ground (arith, has-append a xs (p ∷ [])) in
        let old' : has a (v.ready (s.procs p).priority) ≡ true = rw e old in
        rw (pushed_procs_link s.procs p xs a (==→ne a p miss))
          (h.queue_state _ a level old', h.queue_priority _ a level old')
  ]

  pub pushed-Holds :
      let i = (s.procs p).priority in
      Holds (pushed s (v.ready i) p) (with_ready v i (v.ready i ++ p ∷ []))
  pushed-Holds =
      let i = (s.procs p).priority in
      let xs = v.ready i in
      let q =
        update_self s.ready_queues i
          (record { first = pushed_head (s.ready_queues i).first xs p; last = p }) in
      Holds-with_ready h (pushed s xs p) i p (xs ++ p ∷ []) level
        (λ a ne out. pushed_procs_ne s.procs p xs a ne out) (λ j hj _. off.not_ready j hj)
        off.not_blocked off.not_timer (λ j ne. update_ne s.ready_queues i _ j ne) refl refl
        (rw q (
          Chain-pushed s.procs p (s.ready_queues i).first xs (h.queue_chain i level)
            (off.not_ready i level) ne end))
        (λ x zs e. rw q (sym (last_from_of_append x p xs zs e)))
        (λ a m. (pushed_state xs a refl m).0) (λ a m. (pushed_state xs a refl m).1)
