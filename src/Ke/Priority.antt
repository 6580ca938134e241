-- ===== src/Ke/Priority.antt =====
-- KeChangeProcessPriority of base/ke/scheduler.c on running and ready processes.
use arcos_os.Prelude.{
  ℕ, ◌≤◌, ◌≡◌, ◌≢◌, refl, true, [], ◌∷◌, ◌++◌, update, update_self, update_ne, length, has, erase,
  ne→==, lt→ltb, ap, ◌∙◌, subst,
}
use arcos_os.Prelude.Run.{ok, Returns, returns}
use arcos_os.Types.{Ptr, null, Process, running}
use arcos_os.Ke.Scheduler.{Scheduler, set_next, dequeue_process}
use arcos_os.Ke.Timers.{set_priority, change_process_priority}
use arcos_os.Ke.Chain.{load-ok, store-ok, Chain-ne_null}
use arcos_os.Ke.Invariant.{View, Holds, IsOff, IsLevel, with_ready, Holds-outside}
use arcos_os.Ke.Enqueue.{pushed, pushed-Holds, enqueue-pushed}
use arcos_os.Ke.Dequeue.{popped, dequeue-present}
use arcos_os.Ke.Popped.{popped-Holds, popped-IsOff, popped_self}

-- The lists after the ready process `p` moves from level `i` to the end of level `j`.
abbrev pub moved : View → Ptr → ℕ → ℕ → View
moved v p i j =
    let v' = with_ready v i (erase p (v.ready i)) in with_ready v' j (v'.ready j ++ p ∷ [])

module _ (fuel : ℕ) {s : Scheduler} {v : View} (h : Holds s v) (p : Ptr) (new : ℕ)
    (level : IsLevel new) where
  -- In a state with the lists of a view, KeChangeProcessPriority gives a running process that is on
  -- none of the lists its new priority, below 32, and nothing else: the process runs on.
  pub change_process_priority-running :
      (s.procs p).state ≡ running
      → p ≢ null
      → IsOff v p
      → Returns
          (λ _ s'. Holds s' v × ((s'.procs p).priority ≡ new) × (s'.current ≡ s.current))
          (change_process_priority fuel p new s)
  unfolding change_process_priority
  change_process_priority-running st ne off =
      rw (ne→== p null ne, lt→ltb _ _ level, load-ok p s ne, st, store-ok p (set_priority new) s ne)
        (returns (
          Holds-outside h (record s { procs = update s.procs p (set_priority new (s.procs p)) }) p
              off (λ a n. update_ne s.procs p _ a n) refl refl refl,
          ap (λ (r : Process). r.priority) (update_self s.procs p (set_priority new (s.procs p))),
          refl,
        ))

  module _ (i : ℕ) (li : IsLevel i) (on : has p (v.ready i) ≡ true)
      (f : length (v.ready i) ≤ fuel) where
    p_ne : p ≢ null
    p_ne = Chain-ne_null s.procs (s.ready_queues i).first p (v.ready i) (h.queue_chain i li) on

    p_level : (s.procs p).priority ≡ i
    p_level = h.queue_priority i p li on

    abbrev out : Scheduler
    out = popped s i (v.ready i) p

    abbrev set : Scheduler
    set = record out { procs = update out.procs p (set_priority new (out.procs p)) }

    abbrev left : View
    left = with_ready v i (erase p (v.ready i))

    out_runs : dequeue_process fuel p s ≡ ok tt out
    out_runs =
        dequeue-present fuel s p p_ne (rw p_level li) (v.ready i) (rw p_level (h.queue_chain i li))
          f on
        ∙ ap (λ k. ok tt (popped s k (v.ready i) p)) p_level

    set_self : set.procs p ≡ set_priority new (set_next null (s.procs p))
    set_self = update_self out.procs p _ ∙ ap (set_priority new) (popped_self h i p li on)

    set-Holds : Holds set left
    set-Holds =
        Holds-outside (popped-Holds h i p li on) set p (popped-IsOff h i p li on)
          (λ a n. update_ne out.procs p _ a n) refl refl refl

    set_priority_of : (set.procs p).priority ≡ new
    set_priority_of = ap (λ (r : Process). r.priority) set_self

    set_next_of : (set.procs p).next_pcb ≡ null
    set_next_of = ap (λ (r : Process). r.next_pcb) set_self

    set-IsLevel : IsLevel (set.procs p).priority
    set-IsLevel = rw set_priority_of level

    back_Holds : Holds (pushed set (left.ready (set.procs p).priority) p) (moved v p i new)
    back_Holds =
        subst
          (λ k.
            Holds (pushed set (left.ready (set.procs p).priority) p)
              (with_ready left k (left.ready k ++ p ∷ [])))
          set_priority_of
          (pushed-Holds set-Holds p (popped-IsOff h i p li on) p_ne set_next_of set-IsLevel)

    -- In a state with the lists of a view, and with a round of the loop for each entry of its queue,
    -- KeChangeProcessPriority moves a ready process to the end of the queue of its new priority, below
    -- 32. The current process runs on, whatever the new priority is.
    pub change_process_priority-ready :
        Returns
          (λ _ s'. Holds s' (moved v p i new) × (s'.current ≡ s.current))
          (change_process_priority fuel p new s)
    unfolding change_process_priority
    change_process_priority-ready =
        rw
          (
            ne→== p null p_ne,
            lt→ltb _ _ level,
            load-ok p s p_ne,
            h.queue_state i p li on,
            out_runs,
            store-ok p (set_priority new) out p_ne,
            enqueue-pushed set-Holds p (popped-IsOff h i p li on) p_ne set_next_of set-IsLevel,
          )
          (returns (back_Holds, refl))
