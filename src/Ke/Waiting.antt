-- ===== src/Ke/Waiting.antt =====
-- Changes of the list of blocked processes and of the list of sleepers.
use arcos_os.Prelude.{ℕ, ◌≡◌, ◌≢◌, true, false, List, has, ap}
use arcos_os.Types.{Ptr, blocked}
use arcos_os.Ke.Scheduler.{Scheduler}
use arcos_os.Ke.Chain.{Chain, Chain-frame}
use arcos_os.Ke.Invariant.{View, Holds, IsLevel, IsSorted, IsSorted-frame, not_true, ready_blocked}

abbrev pub with_blocked : View → List Ptr → View
with_blocked v bs = record v { blocked = bs }

abbrev pub with_timers : View → List Ptr → View
with_timers v ts = record v { timers = ts }

pub ne_of_has : (p a : Ptr) (xs : List Ptr) → has a xs ≡ true → has p xs ≡ false → a ≢ p
ne_of_has p a xs m out e = cc (ap (λ t. has t xs) e)

module _ {s : Scheduler} {v : View} (h : Holds s v) (s' : Scheduler) (p : Ptr)
    (queues : s'.ready_queues ≡ s.ready_queues)
    (not_ready : (i : ℕ) → IsLevel i → has p (v.ready i) ≡ false) where
  module _ (bs : List Ptr)
      (same : (a : Ptr) → a ≢ p → has a v.blocked ≡ false → s'.procs a ≡ s.procs a)
      (not_timer : has p v.timers ≡ false) where
    ready_same : (i : ℕ) (a : Ptr) → IsLevel i → has a (v.ready i) ≡ true → s'.procs a ≡ s.procs a
    ready_same i a hi m =
        same a (ne_of_has p a (v.ready i) m (not_ready i hi))
          (not_true _ λ b. ready_blocked (h.queue_state i a hi m) (h.blocked_state a b))

    timer_same : (a : Ptr) → has a v.timers ≡ true → s'.procs a ≡ s.procs a
    timer_same a m = same a (ne_of_has p a v.timers m not_timer) (h.apart a m)

    -- A change of the blocked list that touches only its entries and `p`.
    pub Holds-with_blocked :
        s'.timer_list ≡ s.timer_list
        → Chain s'.procs s'.blocked_list bs
        → ((a : Ptr) → has a bs ≡ true → (s'.procs a).state ≡ blocked)
        → ((a : Ptr) → has a bs ≡ true → IsLevel (s'.procs a).priority)
        → ((a : Ptr) → has a v.timers ≡ true → has a bs ≡ false)
        → Holds s' (with_blocked v bs)
    Holds-with_blocked tl chain st lv ap' = record {
      queue_chain = λ i hi. rw queues (
          Chain-frame s.procs s'.procs (s.ready_queues i).first (v.ready i) (h.queue_chain i hi)
            (λ a m. rw (ready_same i a hi m)));
      queue_last = λ i x xs hi e. rw queues (h.queue_last i x xs hi e);
      queue_state = λ i a hi m. rw (ready_same i a hi m) (h.queue_state i a hi m);
      queue_priority = λ i a hi m. rw (ready_same i a hi m) (h.queue_priority i a hi m);
      blocked_chain = chain;
      timer_chain = rw tl (
          Chain-frame s.procs s'.procs s.timer_list v.timers h.timer_chain
            (λ a m. rw (timer_same a m)));
      blocked_state = st;
      timer_state = λ a m. rw (timer_same a m) (h.timer_state a m);
      blocked_level = lv;
      timer_level = λ a m. rw (timer_same a m) (h.timer_level a m);
      apart = ap';
      sorted = IsSorted-frame s.procs s'.procs v.timers h.sorted (λ a m. rw (timer_same a m));
    }

  module _ (ts : List Ptr)
      (same : (a : Ptr) → a ≢ p → has a v.timers ≡ false → s'.procs a ≡ s.procs a)
      (not_blocked : has p v.blocked ≡ false) where
    ready_alike : (i : ℕ) (a : Ptr) → IsLevel i → has a (v.ready i) ≡ true → s'.procs a ≡ s.procs a
    ready_alike i a hi m =
        same a (ne_of_has p a (v.ready i) m (not_ready i hi))
          (not_true _ λ b. ready_blocked (h.queue_state i a hi m) (h.timer_state a b))

    blocked_alike : (a : Ptr) → has a v.blocked ≡ true → s'.procs a ≡ s.procs a
    blocked_alike a m =
        same a (ne_of_has p a v.blocked m not_blocked) (not_true _ λ t. absurd (cc (h.apart a t)))

    -- A change of the timer list that touches only its entries and `p`.
    pub Holds-with_timers :
        s'.blocked_list ≡ s.blocked_list
        → Chain s'.procs s'.timer_list ts
        → ((a : Ptr) → has a ts ≡ true → (s'.procs a).state ≡ blocked)
        → ((a : Ptr) → has a ts ≡ true → IsLevel (s'.procs a).priority)
        → ((a : Ptr) → has a ts ≡ true → has a v.blocked ≡ false)
        → IsSorted s'.procs ts
        → Holds s' (with_timers v ts)
    Holds-with_timers bl chain st lv ap' so = record {
      queue_chain = λ i hi. rw queues (
          Chain-frame s.procs s'.procs (s.ready_queues i).first (v.ready i) (h.queue_chain i hi)
            (λ a m. rw (ready_alike i a hi m)));
      queue_last = λ i x xs hi e. rw queues (h.queue_last i x xs hi e);
      queue_state = λ i a hi m. rw (ready_alike i a hi m) (h.queue_state i a hi m);
      queue_priority = λ i a hi m. rw (ready_alike i a hi m) (h.queue_priority i a hi m);
      blocked_chain = rw bl (
          Chain-frame s.procs s'.procs s.blocked_list v.blocked h.blocked_chain
            (λ a m. rw (blocked_alike a m)));
      timer_chain = chain;
      blocked_state = λ a m. rw (blocked_alike a m) (h.blocked_state a m);
      timer_state = st;
      blocked_level = λ a m. rw (blocked_alike a m) (h.blocked_level a m);
      timer_level = lv;
      apart = ap';
      sorted = so;
    }
