-- ===== src/Ke/Sleepers/Due.antt =====
-- base/ke/scheduler.c: the loop of KepWakeUpSleepers.
use arcos_os.Prelude.{
  ℕ, zero, suc, ◌≤◌, ◌<◌, ◌≡◌, ◌≢◌, refl, ◌∙◌, sym, ap, subst, inl, inr, true, false, List, [], ◌∷◌,
  length, has, arith, ◌==◌, ltb, Bool-cases, ==→eq, eq→==, ne→==, ltb→le, ltb→lt, List-cases,
}
use arcos_os.Prelude.Run.{Returns, returns, Returns-bind, Returns-weaken, Returns-within}
use arcos_os.Types.{Ptr, null, is_blocked, blocked, no_method}
use arcos_os.Kernel.{Kernel, in_ke}
use arcos_os.Ke.Timers.{make_ready}
use arcos_os.Ke.Processes.{resume_process, wake_up_sleepers}
use arcos_os.Ke.Chain.{Memory, Chain, load-ok}
use arcos_os.Ke.Invariant.{View, Holds, IsSorted}
use arcos_os.Ke.Switch.{IsCurrent}
use arcos_os.Ke.Resume.{unblocked}
use arcos_os.Ke.Tick.{NoneDue}
use arcos_os.Ke.Sleepers.Rouse.{Roused, make_ready-Roused}
use arcos_os.Ke.Sleepers.Settled.{Settled, behind, idle-Settled, step-Settled}

-- KeResumeProcess of a blocked process without a resume method.
resume_process-no_method :
    (fuel : ℕ) (p : Ptr) (k : Kernel)
    → p ≢ null
    → (k.ke.procs p).state ≡ blocked
    → (k.ke.procs p).resume_method ≡ no_method
    → resume_process fuel p k ≡ in_ke (make_ready fuel p) k
unfolding resume_process
resume_process-no_method fuel p k ne st m = rw (ne→== p null ne, load-ok p k.ke ne, st, m)

-- Nobody behind a head that is not due is due.
sorted_none_due :
    (m : Memory) (now x : ℕ) (xs : List Ptr)
    → IsSorted m (x ∷ xs)
    → now ≤ (m x).wake_up_time
    → (a : Ptr) → has a (x ∷ xs) ≡ true
    → now ≤ (m a).wake_up_time
sorted_none_due m now x [] so le a on =
    subst (λ q. now ≤ (m q).wake_up_time) (ground (arith, on)) le
sorted_none_due m now x (y ∷ ys) so le a on = elim (Bool-cases (a == x)) [
  | inl hit ↦ subst (λ q. now ≤ (m q).wake_up_time) (sym (==→eq a x hit)) le
  | inr miss ↦ sorted_none_due m now y ys so.1 (omega (arith, so.0, le)) a (rw miss at on)
]

unblocked_head :
    (v : View) (x : Ptr) (xs : List Ptr)
    → v.timers ≡ x ∷ xs
    → ((unblocked v x).timers ≡ xs) × ((unblocked v x).blocked ≡ v.blocked)
unblocked_head v x xs e =
    let on : has x v.timers ≡ true = rw (e, eq→== x x refl) in
    rw (on, e, eq→== x x refl) (refl, refl)

-- KepWakeUpSleepers, from a state with the lists of a view whose current process can run and is not
-- blocked, and where the sleepers have no resume method, returns. Each sleeper whose wake-up time is below the tick
-- count is then ready or runs, each other one still sleeps, no sleeper is due, each process that
-- was ready or ran is ready or runs, and the lists are well formed. It needs a round for each sleeper and
-- one more, and in each loop over a list a round for each of its entries.
pub wake_up_sleepers-Settled :
    (fuel rounds : ℕ) (k : Kernel) (v : View)
    → Holds k.ke v
    → IsCurrent k.ke v
    → is_blocked (k.ke.procs k.ke.current).state ≡ false
    → ((a : Ptr) → has a v.timers ≡ true → (k.ke.procs a).resume_method ≡ no_method)
    → length v.timers ≤ fuel
    → length v.blocked ≤ fuel
    → length v.timers < rounds
    → Returns (λ _ k'. Settled k v k') (wake_up_sleepers fuel rounds k)
unfolding wake_up_sleepers
wake_up_sleepers-Settled fuel zero k v h c free plain ft fb f = absurd (omega arith)
wake_up_sleepers-Settled fuel (suc rounds) k v h c free plain ft fb f = elim (List-cases v.timers) [
  | inl nil ↦
      let off : (a : Ptr) → has a v.timers ≡ true → k.ke.tick_count ≤ (k.ke.procs a).wake_up_time =
        λ a on. absurd (cc (rw nil at on)) in
      rw
        (eq→== k.ke.timer_list null
          (subst (λ xs. Chain k.ke.procs k.ke.timer_list xs) nil h.timer_chain))
        (returns (idle-Settled k v h c free off))
  | inr (x, xs, e) ↦
      let chain : Chain k.ke.procs k.ke.timer_list (x ∷ xs) =
        subst (λ ys. Chain k.ke.procs k.ke.timer_list ys) e h.timer_chain in
      let ne : k.ke.timer_list ≢ null = rw chain.0 chain.1 in
      let on : has x v.timers ≡ true = rw (e, eq→== x x refl) in
      elim (Bool-cases (ltb (k.ke.procs k.ke.timer_list).wake_up_time k.ke.tick_count)) [
        | inr later ↦
            let le : k.ke.tick_count ≤ (k.ke.procs x).wake_up_time =
              subst (λ q. k.ke.tick_count ≤ (k.ke.procs q).wake_up_time) chain.0
                (ltb→le _ _ later) in
            let off : NoneDue k.ke v = λ a on.
              sorted_none_due k.ke.procs k.ke.tick_count x xs
                (subst (IsSorted k.ke.procs) e h.sorted) le a
                (subst (λ ys. has a ys ≡ true) e on) in
            rw (ne→== k.ke.timer_list null ne, load-ok k.ke.timer_list k.ke ne, later)
              (returns (idle-Settled k v h c free off))
        | inl now ↦
            let lt : (k.ke.procs x).wake_up_time < k.ke.tick_count =
              subst (λ q. (k.ke.procs q).wake_up_time < k.ke.tick_count) chain.0 (ltb→lt _ _ now) in
            let head = unblocked_head v x xs e in
            let resumed =
              resume_process-no_method fuel k.ke.timer_list k ne
                (subst (λ q. (k.ke.procs q).state ≡ blocked) (sym chain.0) (h.timer_state x on))
                (subst (λ q. (k.ke.procs q).resume_method ≡ no_method) (sym chain.0)
                  (plain x on)) in
            rw (ne→== k.ke.timer_list null ne, load-ok k.ke.timer_list k.ke ne, now, resumed)
              (Returns-bind {P = λ _ k1. (k1 ≡ record k { ke = k1.ke }) × Roused k.ke v x k1.ke}
                (Returns-within (λ s. record k { ke = s })
                  (subst (λ q. Returns (λ _ s. Roused k.ke v x s) (make_ready fuel q k.ke))
                    (sym chain.0)
                    (make_ready-Roused fuel h c free x (rw on) (h.timer_level x on) ft fb))
                  (λ _ s r. (refl, r)))
                (λ _ k1 got.
                  let r : Roused k.ke v x k1.ke = got.1 in
                  let t : r.view.timers ≡ xs = r.timers ∙ head.0 in
                  let b : r.view.blocked ≡ v.blocked = r.blocked ∙ head.1 in
                  Returns-weaken
                    (wake_up_sleepers-Settled fuel rounds k1 r.view r.holds r.is_current r.free
                      (λ a on.
                        (r.kept.1 a).1
                        ∙ plain a (behind v x xs a e (subst (λ ys. has a ys ≡ true) t on)))
                      (rw t (omega (arith, ft, ap length e))) (rw b fb)
                      (rw t (omega (arith, f, ap length e))))
                    (λ _ k' d. step-Settled k v x xs k1 k' got.0 e lt r t b d)))
      ]
]
