-- ===== src/Ke/Invariant.antt =====
-- The lists of scheduler.c seen as sequences of processes, and what a scheduler state keeps true.
use arcos_os.Prelude.{
  ℕ, ◌≤◌, ◌<◌, ◌≡◌, ◌≢◌, refl, Bool, true, false, List, [], ◌∷◌, arith, update, update_all, has,
  last_from, sym, ap, ◌∙◌,
}
use arcos_os.Types.{Ptr, ProcessState, ready, blocked, process_priority_levels}
use arcos_os.Ke.Scheduler.{Scheduler}
use arcos_os.Ke.Chain.{Memory, Chain, Chain-frame}

pub record View : Type 0 where
  pub ready : ℕ → List Ptr
  pub blocked : List Ptr
  pub timers : List Ptr

-- No entry wakes up before the one in front of it.
abbrev pub IsSorted : Memory → List Ptr → Type 0
IsSorted m [] = Unit {0}
IsSorted m (x ∷ []) = Unit {0}
IsSorted m (x ∷ y ∷ ys) = ((m x).wake_up_time ≤ (m y).wake_up_time) × IsSorted m (y ∷ ys)

abbrev pub IsLevel : ℕ → Type 0
IsLevel i = i < process_priority_levels

-- The state's lists are those of the view: each ready queue holds ready processes of its own
-- priority and knows its last entry, blocked processes are on one list, sleepers in order.
pub record Holds (s : Scheduler) (v : View) : Type 0 where
  pub queue_chain : (i : ℕ) → IsLevel i → Chain s.procs (s.ready_queues i).first (v.ready i)
  pub queue_last :
      (i : ℕ) (x : Ptr) (xs : List Ptr)
      → IsLevel i
      → v.ready i ≡ x ∷ xs
      → (s.ready_queues i).last ≡ last_from x xs
  pub queue_state :
      (i : ℕ) (a : Ptr) → IsLevel i → has a (v.ready i) ≡ true → (s.procs a).state ≡ ready
  pub queue_priority :
      (i : ℕ) (a : Ptr) → IsLevel i → has a (v.ready i) ≡ true → (s.procs a).priority ≡ i
  pub blocked_chain : Chain s.procs s.blocked_list v.blocked
  pub timer_chain : Chain s.procs s.timer_list v.timers
  pub blocked_state : (a : Ptr) → has a v.blocked ≡ true → (s.procs a).state ≡ blocked
  pub timer_state : (a : Ptr) → has a v.timers ≡ true → (s.procs a).state ≡ blocked
  pub blocked_level : (a : Ptr) → has a v.blocked ≡ true → IsLevel (s.procs a).priority
  pub timer_level : (a : Ptr) → has a v.timers ≡ true → IsLevel (s.procs a).priority
  pub apart : (a : Ptr) → has a v.timers ≡ true → has a v.blocked ≡ false
  pub sorted : IsSorted s.procs v.timers

-- `p` is on none of the lists.
pub record IsOff (v : View) (p : Ptr) : Type 0 where
  pub not_ready : (i : ℕ) → IsLevel i → has p (v.ready i) ≡ false
  pub not_blocked : has p v.blocked ≡ false
  pub not_timer : has p v.timers ≡ false

abbrev pub with_ready : View → ℕ → List Ptr → View
with_ready v i xs = record v { ready = update v.ready i xs }

pub IsSorted-frame :
    (m m' : Memory) (xs : List Ptr)
    → IsSorted m xs
    → ((a : Ptr) → has a xs ≡ true → (m' a).wake_up_time ≡ (m a).wake_up_time)
    → IsSorted m' xs
IsSorted-frame m m' [] o same = tt
IsSorted-frame m m' (x ∷ []) o same = tt
IsSorted-frame m m' (x ∷ y ∷ ys) o same = (
  omega (arith, o.0, same x (ground arith), same y (ground arith)),
  IsSorted-frame m m' (y ∷ ys) o.1 (λ a h. same a (ground arith)),
)

pub ready_blocked : {st : ProcessState} → st ≡ ready → st ≡ blocked → ⊥
ready_blocked e e' = cc

pub not_true : (b : Bool) → (b ≡ true → ⊥) → b ≡ false
not_true true h = absurd (h refl)
not_true false h = refl

module _ {s : Scheduler} {v : View} (h : Holds s v) where
  -- Two ready queues share no entry, nor does one share an entry with the other lists.
  pub ready_apart :
      (i j : ℕ) (a : Ptr)
      → IsLevel i
      → IsLevel j
      → i ≢ j
      → has a (v.ready i) ≡ true
      → has a (v.ready j) ≡ false
  ready_apart i j a hi hj ne m =
      not_true _ λ m'. ne (sym (h.queue_priority i a hi m) ∙ h.queue_priority j a hj m')

  pub blocked-ready_apart :
      (j : ℕ) (a : Ptr) → IsLevel j → (s.procs a).state ≡ blocked → has a (v.ready j) ≡ false
  blocked-ready_apart j a hj m = not_true _ λ m'. cc (h.queue_state j a hj m')

-- A change of queue `j` that touches only its entries and `p`, which is on no other list.
module _ {s : Scheduler} {v : View} (h : Holds s v) (s' : Scheduler) (j : ℕ) (p : Ptr)
    (ys : List Ptr) (hj : IsLevel j)
    (same : (a : Ptr) → a ≢ p → has a (v.ready j) ≡ false → s'.procs a ≡ s.procs a)
    (alone : (i : ℕ) → IsLevel i → i ≢ j → has p (v.ready i) ≡ false)
    (not_blocked : has p v.blocked ≡ false) (not_timer : has p v.timers ≡ false) where
  ne_of_has : (a : Ptr) (xs : List Ptr) → has a xs ≡ true → has p xs ≡ false → a ≢ p
  ne_of_has a xs m out e = cc (ap (λ t. has t xs) e)

  same_ready :
      (i : ℕ) (a : Ptr) → IsLevel i → i ≢ j → has a (v.ready i) ≡ true → s'.procs a ≡ s.procs a
  same_ready i a hi ne m =
      same a (ne_of_has a (v.ready i) m (alone i hi ne)) (ready_apart h i j a hi hj ne m)

  same_blocked : (a : Ptr) → has a v.blocked ≡ true → s'.procs a ≡ s.procs a
  same_blocked a m =
      same a (ne_of_has a v.blocked m not_blocked)
        (blocked-ready_apart h j a hj (h.blocked_state a m))

  same_timer : (a : Ptr) → has a v.timers ≡ true → s'.procs a ≡ s.procs a
  same_timer a m =
      same a (ne_of_has a v.timers m not_timer) (blocked-ready_apart h j a hj (h.timer_state a m))

  pub Holds-with_ready :
      ((i : ℕ) → i ≢ j → s'.ready_queues i ≡ s.ready_queues i)
      → s'.blocked_list ≡ s.blocked_list
      → s'.timer_list ≡ s.timer_list
      → Chain s'.procs (s'.ready_queues j).first ys
      → ((x : Ptr) (xs : List Ptr) → ys ≡ x ∷ xs → (s'.ready_queues j).last ≡ last_from x xs)
      → ((a : Ptr) → has a ys ≡ true → (s'.procs a).state ≡ ready)
      → ((a : Ptr) → has a ys ≡ true → (s'.procs a).priority ≡ j)
      → Holds s' (with_ready v j ys)
  unfolding update
  Holds-with_ready queues bl tl chain last st pr = record {
    queue_chain =
        update_all (λ i xs. IsLevel i → Chain s'.procs (s'.ready_queues i).first xs) v.ready j ys
          (λ _. chain)
          (λ i ne hi. rw (queues i ne) (
            Chain-frame s.procs s'.procs (s.ready_queues i).first (v.ready i) (h.queue_chain i hi)
              (λ a m. rw (same_ready i a hi ne m))));
    queue_last = λ i x xs hi e.
        update_all (λ i zs. IsLevel i → zs ≡ x ∷ xs → (s'.ready_queues i).last ≡ last_from x xs)
          v.ready j ys (λ _. last x xs) (λ i ne hi e. rw (queues i ne) (h.queue_last i x xs hi e)) i
          hi e;
    queue_state = λ i a.
        update_all (λ i zs. IsLevel i → has a zs ≡ true → (s'.procs a).state ≡ ready) v.ready j ys
          (λ _. st a) (λ i ne hi m. rw (same_ready i a hi ne m) (h.queue_state i a hi m)) i;
    queue_priority = λ i a.
        update_all (λ i zs. IsLevel i → has a zs ≡ true → (s'.procs a).priority ≡ i) v.ready j ys
          (λ _. pr a) (λ i ne hi m. rw (same_ready i a hi ne m) (h.queue_priority i a hi m)) i;
    blocked_chain = rw bl (
        Chain-frame s.procs s'.procs s.blocked_list v.blocked h.blocked_chain
          (λ a m. rw (same_blocked a m)));
    timer_chain = rw tl (
        Chain-frame s.procs s'.procs s.timer_list v.timers h.timer_chain
          (λ a m. rw (same_timer a m)));
    blocked_state = λ a m. rw (same_blocked a m) (h.blocked_state a m);
    timer_state = λ a m. rw (same_timer a m) (h.timer_state a m);
    blocked_level = λ a m. rw (same_blocked a m) (h.blocked_level a m);
    timer_level = λ a m. rw (same_timer a m) (h.timer_level a m);
    apart = h.apart;
    sorted = IsSorted-frame s.procs s'.procs v.timers h.sorted (λ a m. rw (same_timer a m));
  }

-- A change of a process that is on no list.
pub Holds-outside :
    {s : Scheduler} {v : View}
    → Holds s v
    → (s' : Scheduler) (p : Ptr) → IsOff v p
    → ((a : Ptr) → a ≢ p → s'.procs a ≡ s.procs a)
    → s'.ready_queues ≡ s.ready_queues
    → s'.blocked_list ≡ s.blocked_list
    → s'.timer_list ≡ s.timer_list
    → Holds s' v
Holds-outside {s} {v} h s' p off same rq bl tl = record {
  queue_chain = λ i hi. rw rq (
      Chain-frame s.procs s'.procs (s.ready_queues i).first (v.ready i) (h.queue_chain i hi)
        (λ a m. rw (ready_same i a hi m)));
  queue_last = λ i x xs hi e. rw rq (h.queue_last i x xs hi e);
  queue_state = λ i a hi m. rw (ready_same i a hi m) (h.queue_state i a hi m);
  queue_priority = λ i a hi m. rw (ready_same i a hi m) (h.queue_priority i a hi m);
  blocked_chain = rw bl (
      Chain-frame s.procs s'.procs s.blocked_list v.blocked h.blocked_chain
        (λ a m. rw (blocked_same a m)));
  timer_chain = rw tl (
      Chain-frame s.procs s'.procs s.timer_list v.timers h.timer_chain
        (λ a m. rw (timer_same a m)));
  blocked_state = λ a m. rw (blocked_same a m) (h.blocked_state a m);
  timer_state = λ a m. rw (timer_same a m) (h.timer_state a m);
  blocked_level = λ a m. rw (blocked_same a m) (h.blocked_level a m);
  timer_level = λ a m. rw (timer_same a m) (h.timer_level a m);
  apart = h.apart;
  sorted = IsSorted-frame s.procs s'.procs v.timers h.sorted (λ a m. rw (timer_same a m));
}
  where
    other : (a : Ptr) (xs : List Ptr) → has a xs ≡ true → has p xs ≡ false → s'.procs a ≡ s.procs a
    other a xs m out = same a (λ e. cc (ap (λ t. has t xs) e))

    ready_same : (i : ℕ) (a : Ptr) → IsLevel i → has a (v.ready i) ≡ true → s'.procs a ≡ s.procs a
    ready_same i a hi m = other a (v.ready i) m (off.not_ready i hi)

    blocked_same : (a : Ptr) → has a v.blocked ≡ true → s'.procs a ≡ s.procs a
    blocked_same a m = other a v.blocked m off.not_blocked

    timer_same : (a : Ptr) → has a v.timers ≡ true → s'.procs a ≡ s.procs a
    timer_same a m = other a v.timers m off.not_timer
