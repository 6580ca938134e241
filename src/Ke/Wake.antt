-- ===== src/Ke/Wake.antt =====
-- KeResumeProcess of base/ke/scheduler.c behind the call of the resume method, for a process that waits.
use arcos_os.Prelude.{
  ℕ, ◌≤◌, ◌<◌, ◌≡◌, ◌≢◌, inl, inr, true, false, ◌||◌, [], ◌∷◌, ◌++◌, ltb, if◌then◌else◌, update_all,
  length, has, has-append, Bool-cases, ne→==, lt→ltb, le→ltb, sym, ap, ◌∙◌, subst,
}
use arcos_os.Prelude.Run.{ok, Returns, returns, Returns-ends}
use arcos_os.Types.{Ptr, null, Process, ready}
use arcos_os.Ke.Scheduler.{Scheduler, set_next, set_state, enqueue_process, reschedule}
use arcos_os.Ke.Timers.{remove_from_blocked_lists, make_ready}
use arcos_os.Ke.Chain.{load-ok, Chain-ne_null}
use arcos_os.Ke.Invariant.{View, Holds, IsOff, IsLevel, with_ready}
use arcos_os.Ke.Waiting.{ne_of_has}
use arcos_os.Ke.Enqueue.{pushed, pushed-Holds, enqueue-pushed, pushed_procs_ne, pushed_procs_self}
use arcos_os.Ke.Switch.{IsCurrent}
use arcos_os.Ke.Choice.{choose}
use arcos_os.Ke.Reschedule.{reschedule_refines}
use arcos_os.Ke.Running.{Implements}
use arcos_os.Ke.Resume.{unblocked, Unblocked, remove_from_blocked_lists-found}

-- The lists once `p` is awake, at the end of the ready queue of level `j`.
abbrev pub woken : View → Ptr → ℕ → View
woken v p j = with_ready (unblocked v p) j ((unblocked v p).ready j ++ p ∷ [])

-- `p` waits: it is asleep or blocked.
abbrev pub Waits : View → Ptr → Type 0
Waits v p = (has p v.timers || has p v.blocked) ≡ true

module _ {s : Scheduler} {v : View} (h : Holds s v) (p : Ptr) (waits : Waits v p) where
  pub waits_ne_null : p ≢ null
  waits_ne_null = elim (Bool-cases (has p v.timers)) [
    | inl on ↦ Chain-ne_null s.procs s.timer_list p v.timers h.timer_chain on
    | inr off ↦ Chain-ne_null s.procs s.blocked_list p v.blocked h.blocked_chain (rw off at waits)
  ]

  pub waits-IsLevel : IsLevel (s.procs p).priority
  waits-IsLevel = elim (Bool-cases (has p v.timers)) [
    | inl on ↦ h.timer_level p on
    | inr off ↦ h.blocked_level p (rw off at waits)
  ]

  pub off_ne_waits : (a : Ptr) → IsOff v a → a ≢ p
  off_ne_waits a o e = elim (Bool-cases (has p v.timers)) [
    | inl on ↦ ne_of_has a p v.timers on o.not_timer (sym e)
    | inr off ↦ ne_of_has a p v.blocked (rw off at waits) o.not_blocked (sym e)
  ]

  module _ (s1 : Scheduler) (u : Unblocked s v (unblocked v p) p s1) where
    abbrev level_of : ℕ
    level_of = (s1.procs p).priority

    abbrev s2 : Scheduler
    s2 = pushed s1 ((unblocked v p).ready level_of) p

    same_level : level_of ≡ (s.procs p).priority
    same_level = ap (λ (r : Process). r.priority) u.self

    enqueue_runs : enqueue_process p s1 ≡ ok tt s2
    enqueue_runs =
        enqueue-pushed u.holds p u.off waits_ne_null (rw u.self) (rw same_level waits-IsLevel)

    s2-Holds : Holds s2 (woken v p level_of)
    s2-Holds = pushed-Holds u.holds p u.off waits_ne_null (rw u.self) (rw same_level waits-IsLevel)

    s2_off : (a : Ptr) → IsOff v a → s2.procs a ≡ s.procs a
    s2_off a o =
        pushed_procs_ne s1.procs p ((unblocked v p).ready level_of) a (off_ne_waits a o)
          ((u.keeps a o).not_ready level_of (rw same_level waits-IsLevel))
        ∙ u.others a o

    s2_self : s2.procs p ≡ set_state ready (s1.procs p)
    s2_self =
        pushed_procs_self s1.procs p ((unblocked v p).ready level_of)
          (u.off.not_ready level_of (rw same_level waits-IsLevel))

    woken-IsOff : (a : Ptr) → IsOff v a → IsOff (woken v p level_of) a
    woken-IsOff a o = record {
      not_ready =
          update_all (λ i xs. IsLevel i → has a xs ≡ false) (unblocked v p).ready level_of
            ((unblocked v p).ready level_of ++ p ∷ [])
            (λ hi.
              let out = (u.keeps a o).not_ready level_of hi in
              let ne = ne→== a p (off_ne_waits a o) in
              rw (has-append a ((unblocked v p).ready level_of) (p ∷ []), out, ne))
            (λ i _ hi. (u.keeps a o).not_ready i hi);
      not_blocked = (u.keeps a o).not_blocked;
      not_timer = (u.keeps a o).not_timer;
    }

    s2-IsCurrent : IsCurrent s v → IsCurrent s2 (woken v p level_of)
    s2-IsCurrent c = record {
      ne_null = rw u.current c.ne_null;
      next_clear = rw (u.current, s2_off s.current c.off) c.next_clear;
      level = rw (u.current, s2_off s.current c.off) c.level;
      off = rw u.current (woken-IsOff s.current c.off);
    }

    -- The comparison of priorities, with the fields that it reads.
    make_ready-rest :
        (fuel : ℕ) (c : IsCurrent s v)
        → remove_from_blocked_lists fuel p s ≡ ok true s1
        → make_ready fuel p s
          ≡ (if ltb (s.procs s.current).priority (s.procs p).priority
                then reschedule fuel
                else ok tt)
              s2
    unfolding make_ready
    make_ready-rest fuel c run =
        let ne : s1.current ≢ null = rw u.current c.ne_null in
        let same : s2.procs s1.current ≡ s.procs s.current =
          ap s2.procs u.current ∙ s2_off s.current c.off in
        rw (
          run,
          enqueue_runs,
          load-ok p s2 waits_ne_null,
          s2_self,
          load-ok s1.current s2 ne,
          same,
          same_level,
        )

-- What KeResumeProcess leaves where it does not reschedule.
pub record Woken (s : Scheduler) (v : View) (p : Ptr) (s' : Scheduler) : Type 0 where
  pub holds : Holds s' (woken v p (s.procs p).priority)
  pub is_current : IsCurrent s' (woken v p (s.procs p).priority)
  pub current : s'.current ≡ s.current
  pub same : s'.procs s.current ≡ s.procs s.current
  pub self : s'.procs p ≡ set_state ready (set_next null (s.procs p))

module _ (fuel : ℕ) {s : Scheduler} {v : View} (h : Holds s v) (c : IsCurrent s v) (p : Ptr)
    (waits : Waits v p) (ft : length v.timers ≤ fuel) (fb : length v.blocked ≤ fuel) where
  s2-Woken :
      (s1 : Scheduler) (u : Unblocked s v (unblocked v p) p s1) → Woken s v p (s2 h p waits s1 u)
  s2-Woken s1 u =
      let e = same_level h p waits s1 u in
      record {
        holds = subst (λ j. Holds (s2 h p waits s1 u) (woken v p j)) e (s2-Holds h p waits s1 u);
        is_current =
            subst (λ j. IsCurrent (s2 h p waits s1 u) (woken v p j)) e
              (s2-IsCurrent h p waits s1 u c);
        current = u.current;
        same = s2_off h p waits s1 u s.current c.off;
        self = s2_self h p waits s1 u ∙ ap (set_state ready) u.self;
      }

  -- From a state with the lists of a view, whose current process can run, and with a round of the
  -- loops for each entry of the lists, KeResumeProcess behind its resume method puts a waiting
  -- process of no higher priority than the current one at the end of its ready queue, and the current
  -- process runs on.
  pub make_ready-stays :
      (s.procs p).priority ≤ (s.procs s.current).priority
      → Returns (λ _. Woken s v p) (make_ready fuel p s)
  make_ready-stays le =
      let (found, s1, run, got) =
        Returns-ends (remove_from_blocked_lists-found h p fuel ft fb waits) in
      rw (make_ready-rest h p waits s1 got.1 fuel c (run ∙ ap (λ b. ok b s1) got.0), le→ltb _ _ le)
        (returns (s2-Woken s1 got.1))

  -- From a state with the lists of a view, whose current process can run, and with a round of the
  -- loops for each entry of the lists, KeResumeProcess behind its resume method puts a waiting
  -- process of higher priority than the current one at the end of its ready queue, and the kernel then
  -- runs what the abstract scheduler chooses.
  pub make_ready-preempts :
      (s.procs s.current).priority < (s.procs p).priority
      → Implements
          (choose (woken v p (s.procs p).priority) (s.procs s.current) s.current)
          (make_ready fuel p s)
  make_ready-preempts lt =
      let (found, s1, run, got) =
        Returns-ends (remove_from_blocked_lists-found h p fuel ft fb waits) in
      let w = s2-Woken s1 got.1 in
      let r = reschedule_refines fuel w.holds (w.is_current.ne_null, λ _. w.is_current) in
      rw (make_ready-rest h p waits s1 got.1 fuel c (run ∙ ap (λ b. ok b s1) got.0), lt→ltb _ _ lt)
        (subst
          (λ a.
            Implements (choose (woken v p (s.procs p).priority) a s.current)
              (reschedule fuel (s2 h p waits s1 got.1)))
          w.same
          (subst
            (λ a.
              Implements
                (choose (woken v p (s.procs p).priority) ((s2 h p waits s1 got.1).procs a) a)
                (reschedule fuel (s2 h p waits s1 got.1)))
            w.current r))
