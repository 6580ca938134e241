-- ===== src/Ke/Resume.antt =====
-- KeResumeProcess, behind its resume method: a blocked or sleeping process becomes ready.
use arcos_os.Prelude.{
  ℕ, ◌≤◌, ◌≡◌, refl, inl, inr, true, false, ◌||◌, List, [], ◌∷◌, arith, ◌==◌, if◌then◌else◌, length,
  has, erase, has-of_erase, has-erase, Bool-cases, sym,
}
use arcos_os.Prelude.Run.{bug_check, blocked_in_no_queue, Returns, returns}
use arcos_os.Types.{Ptr, null}
use arcos_os.Ke.Scheduler.{Scheduler, set_next}
use arcos_os.Ke.Timers.{remove_from_blocked_lists, make_ready}
use arcos_os.Ke.Chain.{Memory}
use arcos_os.Ke.Invariant.{
  View, Holds, IsOff, IsLevel, IsSorted, IsSorted-frame, blocked-ready_apart,
}
use arcos_os.Ke.Remove.{
  Chain-Distinct, has-erase_self, removed_procs, removed_head, removed_procs_ne, removed_procs_link,
  removed_procs_self, Chain-removed, remove_from_process_list-present,
  remove_from_process_list-absent,
}
use arcos_os.Ke.Waiting.{
  with_timers, with_blocked, Holds-with_timers, Holds-with_blocked, ne_of_has,
}

-- The lists without `p`, which is asleep or blocked.
abbrev pub unblocked : View → Ptr → View
unblocked v p =
    if has p v.timers then with_timers v (erase p v.timers) else with_blocked v (erase p v.blocked)

-- What is true once `p` is off the lists of blocked processes.
pub record Unblocked (s : Scheduler) (v v' : View) (p : Ptr) (s' : Scheduler) : Type 0 where
  pub holds : Holds s' v'
  pub off : IsOff v' p
  pub self : s'.procs p ≡ set_next null (s.procs p)
  pub others : (a : Ptr) → IsOff v a → s'.procs a ≡ s.procs a
  pub current : s'.current ≡ s.current
  pub keeps : (a : Ptr) → IsOff v a → IsOff v' a
  pub same_ready : v'.ready ≡ v.ready

IsSorted-tail : (m : Memory) (x : Ptr) (xs : List Ptr) → IsSorted m (x ∷ xs) → IsSorted m xs
IsSorted-tail m x [] so = tt
IsSorted-tail m x (y ∷ ys) so = so.1

IsSorted-cons_erase :
    (m : Memory) (p x : Ptr) (xs : List Ptr) → IsSorted m (x ∷ xs) → IsSorted m (x ∷ erase p xs)
IsSorted-cons_erase m p x [] so = tt
IsSorted-cons_erase m p x (y ∷ []) so = elim (Bool-cases (y == p)) [
  | inl hit ↦ rw hit tt
  | inr miss ↦ rw miss so
]
IsSorted-cons_erase m p x (y ∷ z ∷ zs) so = elim (Bool-cases (y == p)) [
  | inl hit ↦ rw hit (omega (arith, so.0, so.1.0), so.1.1)
  | inr miss ↦ rw miss (so.0, IsSorted-cons_erase m p y (z ∷ zs) so.1)
]

IsSorted-erase : (m : Memory) (p : Ptr) (xs : List Ptr) → IsSorted m xs → IsSorted m (erase p xs)
IsSorted-erase m p [] so = tt
IsSorted-erase m p (x ∷ xs) so = elim (Bool-cases (x == p)) [
  | inl hit ↦ rw hit (IsSorted-tail m x xs so)
  | inr miss ↦ rw miss (IsSorted-cons_erase m p x xs so)
]

module _ {s : Scheduler} {v : View} (h : Holds s v) (p : Ptr) where
  module _ (on : has p v.timers ≡ true) where
    abbrev awake : Scheduler
    awake = record s {
      procs = removed_procs s.procs v.timers p;
      timer_list = removed_head s.procs s.timer_list p;
    }

    asleep_ready : (i : ℕ) → IsLevel i → has p (v.ready i) ≡ false
    asleep_ready i level = blocked-ready_apart h i p level (h.timer_state p on)

    awake-Holds : Holds awake (with_timers v (erase p v.timers))
    awake-Holds =
        let link = removed_procs_link s.procs p v.timers in
        let was = λ (a : Ptr). has-of_erase a p v.timers in
        Holds-with_timers h awake p refl asleep_ready (erase p v.timers)
          (λ a ne out. removed_procs_ne s.procs p v.timers a ne out) (h.apart p on) refl
          (Chain-removed s.procs p s.timer_list v.timers h.timer_chain on)
          (λ a m. rw (link a) (h.timer_state a (was a m)))
          (λ a m. rw (link a) (h.timer_level a (was a m))) (λ a m. h.apart a (was a m))
          (IsSorted-frame s.procs awake.procs (erase p v.timers)
            (IsSorted-erase s.procs p v.timers h.sorted) (λ a m. rw (link a)))

    awake-Unblocked : Unblocked s v (with_timers v (erase p v.timers)) p awake
    awake-Unblocked = record {
      holds = awake-Holds;
      off = record {
        not_ready = asleep_ready;
        not_blocked = h.apart p on;
        not_timer =
            has-erase_self p v.timers (Chain-Distinct s.procs s.timer_list v.timers h.timer_chain);
      };
      self = removed_procs_self s.procs p v.timers on;
      others = λ a o.
          removed_procs_ne s.procs p v.timers a (λ e. ne_of_has a p v.timers on o.not_timer (sym e))
            o.not_timer;
      current = refl;
      keeps = λ a o. record {
        not_ready = o.not_ready;
        not_blocked = o.not_blocked;
        not_timer = has-erase a p v.timers o.not_timer;
      };
      same_ready = refl;
    }

  module _ (on : has p v.blocked ≡ true) (not_timer : has p v.timers ≡ false) where
    abbrev free : Scheduler
    free = record s {
      procs = removed_procs s.procs v.blocked p;
      blocked_list = removed_head s.procs s.blocked_list p;
    }

    blocked_ready : (i : ℕ) → IsLevel i → has p (v.ready i) ≡ false
    blocked_ready i level = blocked-ready_apart h i p level (h.blocked_state p on)

    free-Holds : Holds free (with_blocked v (erase p v.blocked))
    free-Holds =
        let link = removed_procs_link s.procs p v.blocked in
        let was = λ (a : Ptr). has-of_erase a p v.blocked in
        Holds-with_blocked h free p refl blocked_ready (erase p v.blocked)
          (λ a ne out. removed_procs_ne s.procs p v.blocked a ne out) not_timer refl
          (Chain-removed s.procs p s.blocked_list v.blocked h.blocked_chain on)
          (λ a m. rw (link a) (h.blocked_state a (was a m)))
          (λ a m. rw (link a) (h.blocked_level a (was a m)))
          (λ a m. has-erase a p v.blocked (h.apart a m))

    free-Unblocked : Unblocked s v (with_blocked v (erase p v.blocked)) p free
    free-Unblocked = record {
      holds = free-Holds;
      off = record {
        not_ready = blocked_ready;
        not_blocked =
            has-erase_self p v.blocked
              (Chain-Distinct s.procs s.blocked_list v.blocked h.blocked_chain);
        not_timer = not_timer;
      };
      self = removed_procs_self s.procs p v.blocked on;
      others = λ a o.
          removed_procs_ne s.procs p v.blocked a
            (λ e. ne_of_has a p v.blocked on o.not_blocked (sym e)) o.not_blocked;
      current = refl;
      keeps = λ a o. record {
        not_ready = o.not_ready;
        not_blocked = has-erase a p v.blocked o.not_blocked;
        not_timer = o.not_timer;
      };
      same_ready = refl;
    }

  module _ (fuel : ℕ) (ft : length v.timers ≤ fuel) (fb : length v.blocked ≤ fuel) where
    remove_asleep :
        has p v.timers ≡ true
        → Returns
            (λ found s'. (found ≡ true) × Unblocked s v (unblocked v p) p s')
            (remove_from_blocked_lists fuel p s)
    unfolding remove_from_blocked_lists
    remove_asleep on =
        rw (remove_from_process_list-present s p fuel s.timer_list v.timers h.timer_chain ft on, on)
          (returns (refl, awake-Unblocked on))

    remove_blocked :
        has p v.timers ≡ false
        → has p v.blocked ≡ true
        → Returns
            (λ found s'. (found ≡ true) × Unblocked s v (unblocked v p) p s')
            (remove_from_blocked_lists fuel p s)
    unfolding remove_from_blocked_lists
    remove_blocked off on =
        rw
          (
            remove_from_process_list-absent s p fuel s.timer_list v.timers h.timer_chain ft off,
            off,
            remove_from_process_list-present s p fuel s.blocked_list v.blocked h.blocked_chain fb
                on,
          )
          (returns (refl, free-Unblocked on off))

    -- A process on one of the two lists is found and taken off.
    pub remove_from_blocked_lists-found :
        (has p v.timers || has p v.blocked) ≡ true
        → Returns
            (λ found s'. (found ≡ true) × Unblocked s v (unblocked v p) p s')
            (remove_from_blocked_lists fuel p s)
    remove_from_blocked_lists-found on = elim (Bool-cases (has p v.timers)) [
      | inl asleep ↦ remove_asleep asleep
      | inr awake ↦ remove_blocked awake (rw awake at on)
    ]

    -- In a state with the lists of a view, and with a round of the loops for each entry, the part of
    -- KeResumeProcess behind its resume method stops the kernel at a process on neither of the lists
    -- of sleeping and blocked processes.
    make_ready-lost :
        has p v.timers ≡ false
        → has p v.blocked ≡ false
        → make_ready fuel p s ≡ bug_check blocked_in_no_queue
    unfolding make_ready remove_from_blocked_lists
    make_ready-lost off off' = rw (
      remove_from_process_list-absent s p fuel s.timer_list v.timers h.timer_chain ft off,
      remove_from_process_list-absent s p fuel s.blocked_list v.blocked h.blocked_chain fb off',
    )
