-- ===== src/Ke/Dequeue.antt =====
-- KepDequeueProcess takes a process off the ready queue of its priority.
use arcos_os.Prelude.{
  ℕ, ◌≤◌, ◌<◌, ◌≡◌, ◌≢◌, refl, inl, inr, true, false, none, some, List, [], ◌∷◌, arith, ◌==◌,
  if◌then◌else◌, update, update_same, length, has, erase, last_from, has-last_from, Bool-cases,
  ==→eq, ==→ne, eq→==, ne→==, lt→ltb, sym, ap, ap₂, ◌∙◌, subst,
}
use arcos_os.Prelude.Run.{ok, bug_check, fault, not_in_priority_queue}
use arcos_os.Types.{Ptr, null, ProcessQueue}
use arcos_os.Ke.Scheduler.{Scheduler, set_next, find_previous, dequeue_found, dequeue_process}
use arcos_os.Ke.Chain.{
  Chain, Chain-ne_null, load-ok, store-ok, before, before-some, before-none, has-before, unlinked,
  find_previous-before, find_previous-null,
}
use arcos_os.Ke.Invariant.{IsLevel}
use arcos_os.Ke.Remove.{Distinct, removed_procs, removed_head, removed_procs_found, unlink-ok}

-- `Last` of the queue after `p` is taken off the entries `xs`.
abbrev pub popped_last : Ptr → List Ptr → Ptr → Ptr
popped_last last [] p = last
popped_last last (x ∷ xs) p =
    if x == p
    then last
    else if last == p
    then elim (before x xs p) [ none ↦ last | some prev ↦ prev ]
    else last

-- The state that KepDequeueProcess leaves, where queue `i` held `xs`.
abbrev pub popped : Scheduler → ℕ → List Ptr → Ptr → Scheduler
popped s i xs p = record s {
  procs = removed_procs s.procs xs p;
  ready_queues = update s.ready_queues i (record {
    first = removed_head s.procs (s.ready_queues i).first p;
    last = popped_last (s.ready_queues i).last xs p;
  });
}

-- Where the last entry was removed, the one in front of it is the last one.
pub popped_last-last_from :
    (x p prev : Ptr) (xs : List Ptr)
    → Distinct (x ∷ xs)
    → before x xs p ≡ some prev
    → (if last_from x xs == p then prev else last_from x xs) ≡ last_from x (erase p xs)
popped_last-last_from x p prev [] d e = cc
popped_last-last_from x p prev (y ∷ []) d e = ground arith
popped_last-last_from x p prev (y ∷ z ∷ zs) d e = elim (Bool-cases (y == p)) [
  | inl hit ↦ ground (arith, has-last_from z zs)
  | inr miss ↦ rw miss (popped_last-last_from y p prev (z ∷ zs) d.1 (ground arith))
]

module _ (fuel : ℕ) (s : Scheduler) (p : Ptr) (ne : p ≢ null)
    (level : IsLevel (s.procs p).priority) where
  priority_queue : ProcessQueue
  priority_queue = s.ready_queues (s.procs p).priority

  first_priority_queue : (s.ready_queues (s.procs p).priority).first ≡ priority_queue.first
  unfolding priority_queue
  first_priority_queue = refl

  pub dequeue_head :
      (xs : List Ptr)
      → (s.ready_queues (s.procs p).priority).first ≡ p
      → dequeue_process fuel p s ≡ ok tt (popped s (s.procs p).priority (p ∷ xs) p)
  unfolding dequeue_process
  dequeue_head xs e = rw (
    load-ok p s ne,
    lt→ltb _ _ level,
    eq→== _ p e,
    eq→== p p refl,
    store-ok p (set_next null) _ ne,
  )

  module _ (x prev : Ptr) (xs : List Ptr) (e : priority_queue.first ≡ x)
      (c : Chain s.procs x (x ∷ xs)) (f : length xs < fuel) (miss : (x == p) ≡ false)
      (b : before x xs p ≡ some prev) where
    away : (priority_queue.first == p) ≡ false
    away = ne→== _ p (rw e (==→ne x p miss))

    find_behind : find_previous fuel priority_queue.first p s ≡ ok (some prev) s
    find_behind = rw e (find_previous-before fuel s x p xs c f ∙ ap (λ o. ok o s) b)

    abbrev left_last : Ptr
    unfolding priority_queue
    left_last = if priority_queue.last == p then prev else priority_queue.last

    dequeue_behind_from :
        dequeue_process fuel p s
        ≡ ok tt (record s {
          procs = unlinked s.procs prev p;
          ready_queues =
              update s.ready_queues
                (s.procs p).priority
                (record { first = priority_queue.first; last = left_last });
        })
    unfolding dequeue_process dequeue_found priority_queue
    dequeue_behind_from =
        let ne' = Chain-ne_null s.procs x prev (x ∷ xs) c (has-before x p prev xs b) in
        elim (Bool-cases (priority_queue.last == p)) [
          | inl last ↦ rw (
            load-ok p s ne,
            lt→ltb _ _ level,
            away,
            find_behind,
            dequeue_found,
            unlink-ok s p prev ne ne',
            last,
          )
          | inr other ↦
              rw
                (
                  load-ok p s ne,
                  lt→ltb _ _ level,
                  away,
                  find_behind,
                  dequeue_found,
                  unlink-ok s p prev ne ne',
                  other,
                )
                (ap (λ g. ok tt (record s { procs = unlinked s.procs prev p; ready_queues = g }))
                  (sym (update_same s.ready_queues (s.procs p).priority _ refl)))
        ]

    left_queue :
        ◌≡◌ {A = ProcessQueue}
          (record { first = priority_queue.first; last = left_last })
          (record {
            first = removed_head s.procs priority_queue.first p;
            last = popped_last priority_queue.last (x ∷ xs) p;
          })
    unfolding priority_queue
    left_queue = rw (away, miss, b)

    dequeue_behind : dequeue_process fuel p s ≡ ok tt (popped s (s.procs p).priority (x ∷ xs) p)
    unfolding priority_queue
    dequeue_behind =
        dequeue_behind_from
        ∙ ap₂
            (λ m q.
              ok tt (record s {
                procs = m;
                ready_queues = update s.ready_queues (s.procs p).priority q;
              }))
            (sym (removed_procs_found s.procs p x prev xs miss b)) left_queue

  dequeue_from :
      (first : Ptr) (x : Ptr) (xs : List Ptr)
      → priority_queue.first ≡ x
      → Chain s.procs x (x ∷ xs)
      → length xs < fuel
      → has p (x ∷ xs) ≡ true
      → dequeue_process fuel p s ≡ ok tt (popped s (s.procs p).priority (x ∷ xs) p)
  dequeue_from first x xs e c f i = elim (Bool-cases (x == p)) [
    | inl hit ↦
        subst (λ y. dequeue_process fuel p s ≡ ok tt (popped s (s.procs p).priority (y ∷ xs) p))
          (sym (==→eq x p hit)) (dequeue_head xs (first_priority_queue ∙ e ∙ ==→eq x p hit))
    | inr miss ↦
        let (prev, b) = before-some x p xs (ground arith) in dequeue_behind x prev xs e c f miss b
  ]

  -- KepDequeueProcess returns if the process is on its queue.
  pub dequeue-present :
      (xs : List Ptr)
      → Chain s.procs (s.ready_queues (s.procs p).priority).first xs
      → length xs ≤ fuel
      → has p xs ≡ true
      → dequeue_process fuel p s ≡ ok tt (popped s (s.procs p).priority xs p)
  unfolding priority_queue
  dequeue-present [] c f i = cc
  dequeue-present (x ∷ xs) c f i = dequeue_from x x xs c.0 (refl, c.1, c.2, c.3) f i

  -- KepDequeueProcess of a process, not null, that is not on the ready queue of its priority, below 32: on a
  -- queue with other entries it stops the kernel, on an empty one it reads through a null pointer.
  -- The loop has a round for each entry, and at least one.
  pub dequeue-absent :
      (xs : List Ptr)
      → Chain s.procs (s.ready_queues (s.procs p).priority).first xs
      → length xs ≤ fuel
      → 0 < fuel
      → has p xs ≡ false
      → dequeue_process fuel p s
        ≡ elim xs [ [] ↦ fault | ◌∷◌ _ _ ↦ bug_check not_in_priority_queue ]
  unfolding dequeue_process dequeue_found
  dequeue-absent [] c f f' i =
      let q = s.ready_queues (s.procs p).priority in
      let away : (q.first == p) ≡ false = ne→== _ p (λ e. ne (sym e ∙ c)) in
      let walk : find_previous fuel q.first p s ≡ fault = rw c (find_previous-null fuel s p f') in
      rw (load-ok p s ne, lt→ltb _ _ level, away, walk)
  dequeue-absent (x ∷ xs) c f f' i =
      let q = s.ready_queues (s.procs p).priority in
      let miss : (x == p) ≡ false = ground arith in
      let away : (q.first == p) ≡ false = ne→== _ p (rw c.0 (==→ne x p miss)) in
      let walk : find_previous fuel q.first p s ≡ ok none s = rw c.0 (
        find_previous-before fuel s x p xs (refl, c.1, c.2, c.3) f
        ∙ ap (λ o. ok o s) (before-none x p xs (ground arith))) in
      rw (load-ok p s ne, lt→ltb _ _ level, away, walk, dequeue_found)
