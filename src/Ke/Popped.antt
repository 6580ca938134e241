-- ===== src/Ke/Popped.antt =====
-- base/ke/scheduler.c: the lists after KepDequeueProcess has taken a process off its ready queue.
use arcos_os.Prelude.{
  ℕ, ◌≡◌, refl, inl, inr, true, false, some, List, [], ◌∷◌, arith, ◌==◌, update_self, update_ne,
  update_all, has, erase, last_from, has-of_erase, Bool-cases, sym, ◌∙◌, subst,
}
use arcos_os.Types.{Ptr, null}
use arcos_os.Ke.Scheduler.{Scheduler, set_next}
use arcos_os.Ke.Chain.{Chain, before, before-some}
use arcos_os.Ke.Invariant.{
  View, Holds, IsOff, IsLevel, with_ready, Holds-with_ready, ready_apart, not_true, ready_blocked,
}
use arcos_os.Ke.Remove.{
  Distinct, Chain-Distinct, has-erase_self, removed_head, removed_procs_ne, removed_procs_link,
  removed_procs_self, Chain-removed,
}
use arcos_os.Ke.Dequeue.{popped_last-last_from, popped_last, popped}

module _ {s : Scheduler} {v : View} (h : Holds s v) (i : ℕ) (p : Ptr) (level : IsLevel i)
    (on : has p (v.ready i) ≡ true) where
  popped-last_behind :
      (y prev : Ptr) (ys : List Ptr) (x : Ptr) (zs : List Ptr)
      → v.ready i ≡ y ∷ ys
      → erase p (y ∷ ys) ≡ x ∷ zs
      → Distinct (y ∷ ys)
      → (y == p) ≡ false
      → before y ys p ≡ some prev
      → popped_last (s.ready_queues i).last (y ∷ ys) p ≡ last_from x zs
  popped-last_behind y prev ys x zs e e' d miss b =
      let left : y ∷ erase p ys ≡ x ∷ zs = rw miss at e' in
      let same : last_from y (erase p ys) ≡ last_from x zs = cc in
      rw (miss, b, h.queue_last i y ys level e) (popped_last-last_from y p prev ys d b ∙ same)

  popped-last :
      (xs : List Ptr) (x : Ptr) (zs : List Ptr)
      → v.ready i ≡ xs
      → erase p xs ≡ x ∷ zs
      → popped_last (s.ready_queues i).last xs p ≡ last_from x zs
  popped-last [] x zs e e' = cc
  popped-last (y ∷ ys) x zs e e' = elim (Bool-cases (y == p)) [
    | inl hit ↦ rw hit (ground (arith, h.queue_last i y ys level e))
    | inr miss ↦
        let on' : has p (y ∷ ys) ≡ true = subst (λ ws. has p ws ≡ true) e on in
        let (prev, b) = before-some y p ys (ground (arith, on')) in
        let c : Chain s.procs (s.ready_queues i).first (y ∷ ys) =
          subst (λ ws. Chain s.procs (s.ready_queues i).first ws) e (h.queue_chain i level) in
        popped-last_behind y prev ys x zs e e' (Chain-Distinct s.procs _ (y ∷ ys) c) miss b
  ]

  -- Taking a process off its queue keeps the lists in order.
  pub popped-Holds : Holds (popped s i (v.ready i) p) (with_ready v i (erase p (v.ready i)))
  popped-Holds =
      let xs = v.ready i in
      let q = update_self s.ready_queues i (record {
        first = removed_head s.procs (s.ready_queues i).first p;
        last = popped_last (s.ready_queues i).last xs p;
      }) in
      let was : (a : Ptr) → has a (erase p xs) ≡ true → has a xs ≡ true =
        λ a. has-of_erase a p xs in
      Holds-with_ready h (popped s i xs p) i p (erase p xs) level
        (λ a ne out. removed_procs_ne s.procs p xs a ne out)
        (λ j hj ne. ready_apart h i j p level hj (λ e. ne (sym e)) on)
        (not_true _ λ b. ready_blocked (h.queue_state i p level on) (h.blocked_state p b))
        (not_true _ λ b. ready_blocked (h.queue_state i p level on) (h.timer_state p b))
        (λ j ne. update_ne s.ready_queues i _ j ne) refl refl
        (rw q (Chain-removed s.procs p (s.ready_queues i).first xs (h.queue_chain i level) on))
        (λ x zs e. rw q (popped-last xs x zs refl e))
        (λ a m. rw (removed_procs_link s.procs p xs a) (h.queue_state i a level (was a m)))
        (λ a m. rw (removed_procs_link s.procs p xs a) (h.queue_priority i a level (was a m)))

  -- The process is then on no list, and its link is clear.
  pub popped-IsOff : IsOff (with_ready v i (erase p (v.ready i))) p
  popped-IsOff = record {
    not_ready =
        update_all (λ j xs. IsLevel j → has p xs ≡ false) v.ready i (erase p (v.ready i))
          (λ _.
            has-erase_self p (v.ready i)
              (Chain-Distinct s.procs _ (v.ready i) (h.queue_chain i level)))
          (λ j ne hj. ready_apart h i j p level hj (λ e. ne (sym e)) on);
    not_blocked = not_true _ λ b. ready_blocked (h.queue_state i p level on) (h.blocked_state p b);
    not_timer = not_true _ λ b. ready_blocked (h.queue_state i p level on) (h.timer_state p b);
  }

  pub popped_self : (popped s i (v.ready i) p).procs p ≡ set_next null (s.procs p)
  popped_self = removed_procs_self s.procs p (v.ready i) on
