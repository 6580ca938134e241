-- ===== src/Ke/Reschedule.antt =====
-- KepReschedule of base/ke/scheduler.c and the abstract scheduler of Ke/Choice.antt.
use arcos_os.Prelude.{
  ℕ, ◌≤◌, ◌≡◌, ◌≢◌, refl, inl, inr, true, false, Option, none, some, List, [], ◌∷◌, ◌++◌, arith,
  if◌then◌else◌, update, update_self, update_ne, Bool-cases, List-cases, ℕ_discrete, sym, ◌∙◌,
  subst,
}
use arcos_os.Prelude.Run.{Run, Returns, Returns-bind, then_run}
use arcos_os.Types.{Ptr, Process, is_blocked, process_priority_levels}
use arcos_os.Ke.Scheduler.{Scheduler, switch_to, run_current, reschedule}
use arcos_os.Ke.Chain.{load-ok}
use arcos_os.Ke.Invariant.{View, Holds, with_ready}
use arcos_os.Ke.Switch.{parked, Took, switch_blocked, switch_parked}
use arcos_os.Ke.Choice.{
  top_level, bottom_level, first_of, choose, top_level-some, top_level-none, EmptyBetween, TopLevel,
}
use arcos_os.Ke.Running.{
  IsHighest, MayStop, Implements, scan_result, scan-top_level, run_current-Runs, run_current-Took,
  IsHighest-with_ready,
}

append-ne_nil : (xs : List Ptr) (c : Ptr) → xs ++ c ∷ [] ≢ []
append-ne_nil [] c e = cc
append-ne_nil (x ∷ xs) c e = cc

pub put_back-ne_nil :
    (v : View) (j i : ℕ) (c : Ptr)
    → v.ready i ≢ []
    → (with_ready v j (v.ready j ++ c ∷ [])).ready i ≢ []
put_back-ne_nil v j i c ne = elim (ℕ_discrete i j) [
  | yes same ↦ λ e. append-ne_nil (v.ready j) c (
      sym (update_self v.ready j _)
      ∙ subst (λ k. update v.ready j (v.ready j ++ c ∷ []) k ≡ []) same e)
  | no other ↦ λ e. ne (sym (update_ne v.ready j _ i other) ∙ e)
]

module _ (fuel : ℕ) {s : Scheduler} {v : View} (h : Holds s v) (stop : MayStop s v) where
  abbrev cur : Process
  cur = s.procs s.current

  abbrev after_scan : Option ℕ → Run Scheduler (Unit {0})
  after_scan o = then_run (scan_result fuel h o) (λ _. run_current)

  reschedule-after_scan :
      reschedule fuel s ≡ after_scan (top_level v.ready process_priority_levels (bottom_level cur))
  unfolding reschedule
  reschedule-after_scan = rw (
    load-ok s.current s stop.0,
    scan-top_level fuel h process_priority_levels (bottom_level cur) (omega arith),
  )

  abbrev chosen : Option ℕ → Option (Ptr × View)
  chosen none = if is_blocked cur.state then none else some (s.current, v)
  chosen (some i) = first_of (parked v cur s.current) i ((parked v cur s.current).ready i)

  no_other :
      EmptyBetween v.ready (bottom_level cur) process_priority_levels
      → Implements (chosen none) (after_scan none)
  unfolding run_current
  no_other empty = elim (Bool-cases (is_blocked cur.state)) [
    | inl b ↦ rw (b, load-ok s.current s stop.0, b)
    | inr b ↦
        rw b
          (run_current-Runs s v h (stop.1 b) b (λ j level lt. empty j (rw b (omega arith)) level))
  ]

  switch_step :
      (w : View) (i : ℕ) (x : Ptr) (ys : List Ptr)
      → w.ready i ≡ x ∷ ys
      → Returns (λ _. Took w i x ys) (switch_to fuel i s)
      → IsHighest w i
      → Implements (first_of w i (w.ready i)) (after_scan (some i))
  switch_step w i x ys e run top =
      subst (λ zs. Implements (first_of w i zs) (after_scan (some i))) (sym e)
        (Returns-bind run
          λ _ s' t. run_current-Took w i x ys s' t (IsHighest-with_ready w i ys top))

  switched_blocked :
      (i : ℕ)
      → TopLevel v.ready process_priority_levels (bottom_level cur) i
      → is_blocked cur.state ≡ true
      → Implements (chosen (some i)) (after_scan (some i))
  switched_blocked i top b = elim (List-cases (v.ready i)) [
    | inl e ↦ absurd (top.2 e)
    | inr (x, ys, e) ↦ rw b (
        switch_step v i x ys e (switch_blocked fuel h i x top.1 ys e stop.0 b)
          (λ j level lt. top.3 j lt level))
  ]

  abbrev put_back : View
  put_back = with_ready v cur.priority (v.ready cur.priority ++ s.current ∷ [])

  switched_parked :
      (i : ℕ)
      → TopLevel v.ready process_priority_levels (bottom_level cur) i
      → is_blocked cur.state ≡ false
      → Implements (chosen (some i)) (after_scan (some i))
  switched_parked i top b = elim (List-cases (put_back.ready i)) [
    | inl e ↦ absurd (put_back-ne_nil v cur.priority i s.current top.2 e)
    | inr (x, ys, e) ↦
        let above : cur.priority ≤ i = rw b at top.0 in
        rw b (
          switch_step put_back i x ys e (switch_parked fuel h i x top.1 ys e (stop.1 b) b)
            (λ j level lt.
              update_ne v.ready cur.priority _ j (λ e. absurd (omega (arith, e)))
              ∙ top.3 j lt level))
  ]

  switched :
      (i : ℕ)
      → TopLevel v.ready process_priority_levels (bottom_level cur) i
      → Implements (chosen (some i)) (after_scan (some i))
  switched i top = elim (Bool-cases (is_blocked cur.state)) [
    | inl b ↦ switched_blocked i top b
    | inr b ↦ switched_parked i top b
  ]

  scan-Implements :
      (o : Option ℕ)
      → top_level v.ready process_priority_levels (bottom_level cur) ≡ o
      → Implements (chosen o) (after_scan o)
  scan-Implements none e =
      no_other (top_level-none v.ready process_priority_levels (bottom_level cur) e)
  scan-Implements (some i) e =
      switched i (top_level-some v.ready process_priority_levels (bottom_level cur) i e)

  -- From a state with the lists of a view, whose current process is blocked or can run, KepReschedule
  -- does what the abstract scheduler says: it runs the process that `choose` names, leaves the lists
  -- that `choose` gives, or stops the kernel where `choose` finds none.
  pub reschedule_refines : Implements (choose v (s.procs s.current) s.current) (reschedule fuel s)
  unfolding choose
  reschedule_refines =
      rw reschedule-after_scan
        (scan-Implements (top_level v.ready process_priority_levels (bottom_level cur)) refl)
