-- ===== src/Ke/Sleepers/Rouse.antt =====
-- base/ke/scheduler.c: KeResumeProcess behind its resume method, whether it reschedules or not.
use arcos_os.Prelude.{
  ℕ, ◌≤◌, ◌≡◌, refl, subst, ◌⊎◌, inl, inr, false, some, length, has, arith, dec_le, Bool-cases,
}
use arcos_os.Prelude.Run.{ok, Returns, returns, Returns-ends}
use arcos_os.Types.{Ptr, is_blocked}
use arcos_os.Ke.Scheduler.{Scheduler}
use arcos_os.Ke.Timers.{make_ready}
use arcos_os.Ke.Invariant.{View, Holds, IsLevel}
use arcos_os.Ke.Switch.{IsCurrent}
use arcos_os.Ke.Choice.{choose}
use arcos_os.Ke.Running.{Implements, Runs}
use arcos_os.Ke.Resume.{unblocked}
use arcos_os.Ke.Wake.{Waits, woken, Woken, make_ready-stays, make_ready-preempts}
use arcos_os.Ke.Frame.{Kept-refl, Kept, Keeps-value, Keeps, make_ready-Keeps}
use arcos_os.Ke.Sleepers.Awake.{IsReady, IsAwake, IsReady-append, Chosen, choose-Chosen}

-- What `p` and the others are after `p` is resumed.
pub record Roused (s : Scheduler) (v : View) (p : Ptr) (s' : Scheduler) : Type 0 where
  pub view : View
  pub holds : Holds s' view
  pub is_current : IsCurrent s' view
  pub free : is_blocked (s'.procs s'.current).state ≡ false
  pub timers : view.timers ≡ (unblocked v p).timers
  pub blocked : view.blocked ≡ (unblocked v p).blocked
  pub awake : (a : Ptr) → (a ≡ p) ⊎ IsAwake v s.current a → IsAwake view s'.current a
  pub kept : Kept s s'

IsReady-unblocked : (v : View) (p a : Ptr) → IsReady v a → IsReady (unblocked v p) a
IsReady-unblocked v p a r = elim (Bool-cases (has p v.timers)) [
  | inl on ↦ rw on r
  | inr off ↦ rw off r
]

-- `p` and the others behind the insertion of `p` in its queue.
IsAwake-woken :
    (v : View) (p c a : Ptr) (j : ℕ)
    → IsLevel j
    → (a ≡ p) ⊎ IsAwake v c a
    → IsAwake (woken v p j) c a
IsAwake-woken v p c a j level (inl e) = inr (IsReady-append (unblocked v p) j p a level (inl e))
IsAwake-woken v p c a j level (inr (inl e)) = inl e
IsAwake-woken v p c a j level (inr (inr r)) =
    inr (IsReady-append (unblocked v p) j p a level (inr (IsReady-unblocked v p a r)))

module _ (fuel : ℕ) {s : Scheduler} {v : View} (h : Holds s v) (c : IsCurrent s v)
    (free : is_blocked (s.procs s.current).state ≡ false) (p : Ptr) (waits : Waits v p)
    (level : IsLevel (s.procs p).priority) (ft : length v.timers ≤ fuel)
    (fb : length v.blocked ≤ fuel) where
  -- What is kept, of a run that ends in a value.
  make_ready-Kept : (s' : Scheduler) → make_ready fuel p s ≡ ok tt s' → Kept s s'
  make_ready-Kept s' run =
      Keeps-value (subst (Keeps s) run (make_ready-Keeps fuel p s (Kept-refl s)))

  stays-Roused :
      (s' : Scheduler) → make_ready fuel p s ≡ ok tt s' → Woken s v p s' → Roused s v p s'
  stays-Roused s' run w = record {
    view = woken v p (s.procs p).priority;
    holds = w.holds;
    is_current = w.is_current;
    free = rw (w.current, w.same) free;
    timers = refl;
    blocked = refl;
    awake = λ a q. rw w.current (IsAwake-woken v p s.current a (s.procs p).priority level q);
    kept = make_ready-Kept s' run;
  }

  preempts-Roused :
      (s' : Scheduler)
      (o : Chosen
        (woken v p (s.procs p).priority)
        s.current
        (choose (woken v p (s.procs p).priority) (s.procs s.current) s.current))
      → make_ready fuel p s ≡ ok tt s'
      → s'.current ≡ o.next
      → Runs s' o.left
      → Roused s v p s'
  preempts-Roused s' o run e r = record {
    view = o.left;
    holds = r.holds;
    is_current = r.is_current;
    free = rw r.is_running;
    timers = o.timers;
    blocked = o.blocked;
    awake = λ a q. rw e (o.awake a (IsAwake-woken v p s.current a (s.procs p).priority level q));
    kept = make_ready-Kept s' run;
  }

  pub make_ready-Roused : Returns (λ _ s'. Roused s v p s') (make_ready fuel p s)
  make_ready-Roused = elim (dec_le (s.procs p).priority (s.procs s.current).priority) [
    | yes le ↦
        let (a, s', run, w) = Returns-ends (make_ready-stays fuel h c p waits ft fb le) in
        rw run (returns (stays-Roused s' run w))
    | no gt ↦
        let o =
          choose-Chosen (woken v p (s.procs p).priority) (s.procs s.current) s.current free
            c.level in
        let done : Implements (some (o.next, o.left)) (make_ready fuel p s) =
          subst (λ q. Implements q (make_ready fuel p s)) o.is_choice
            (make_ready-preempts fuel h c p waits ft fb (omega arith)) in
        let (a, s', run, r) = Returns-ends done in
        rw run (returns (preempts-Roused s' o run r.0 r.1))
  ]
