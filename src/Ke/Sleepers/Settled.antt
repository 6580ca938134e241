-- ===== src/Ke/Sleepers/Settled.antt =====
-- base/ke/scheduler.c: what KepWakeUpSleepers leaves.
use arcos_os.Prelude.{
  ◌≤◌, ◌<◌, ◌≡◌, refl, ◌∙◌, ap, subst, inl, inr, Bool, true, false, ◌||◌, List, ◌∷◌, length, has,
  arith, ◌==◌, Bool-cases, ==→eq,
}
use arcos_os.Types.{Ptr, is_blocked}
use arcos_os.Kernel.{Kernel}
use arcos_os.Ke.Invariant.{View, Holds}
use arcos_os.Ke.Switch.{IsCurrent}
use arcos_os.Ke.Tick.{NoneDue}
use arcos_os.Ke.Sleepers.Awake.{IsAwake}
use arcos_os.Ke.Sleepers.Rouse.{Roused}
use arcos_os.Ke.Frame.{Kept-refl, Kept}
use arcos_os.Ke.Scheduler.{Scheduler}

pub behind :
    (v : View) (x : Ptr) (xs : List Ptr) (a : Ptr)
    → v.timers ≡ x ∷ xs
    → has a xs ≡ true
    → has a v.timers ≡ true
behind v x xs a e on = rw (e, on) (or_true (a == x))
  where
    or_true : (b : Bool) → (b || true) ≡ true
    or_true true = refl
    or_true false = refl

pub Kept-trans : (s s' s'' : Scheduler) → Kept s s' → Kept s' s'' → Kept s s''
Kept-trans s s' s'' e e' = (
  e'.0 ∙ e.0,
  λ a. (
    (e'.1 a).0 ∙ (e.1 a).0,
    (e'.1 a).1 ∙ (e.1 a).1,
    (e'.1 a).2 ∙ (e.1 a).2,
    (e'.1 a).3 ∙ (e.1 a).3,
  ),
)

-- What the loop leaves.
pub record Settled (k : Kernel) (v : View) (k' : Kernel) : Type 0 where
  pub view : View
  pub rest : k' ≡ record k { ke = k'.ke }
  pub holds : Holds k'.ke view
  pub is_current : IsCurrent k'.ke view
  pub free : is_blocked (k'.ke.procs k'.ke.current).state ≡ false
  pub kept : Kept k.ke k'.ke
  pub none_due : NoneDue k'.ke view
  pub due :
      (a : Ptr)
      → has a v.timers ≡ true
      → (k.ke.procs a).wake_up_time < k.ke.tick_count
      → IsAwake view k'.ke.current a
  pub others :
      (a : Ptr)
      → has a v.timers ≡ true
      → k.ke.tick_count ≤ (k.ke.procs a).wake_up_time
      → has a view.timers ≡ true
  pub awake : (a : Ptr) → IsAwake v k.ke.current a → IsAwake view k'.ke.current a
  pub fewer : (a : Ptr) → has a view.timers ≡ true → has a v.timers ≡ true
  pub shorter : length view.timers ≤ length v.timers
  pub blocked : view.blocked ≡ v.blocked

-- Nobody is due.
pub idle-Settled :
    (k : Kernel) (v : View)
    → Holds k.ke v
    → IsCurrent k.ke v
    → is_blocked (k.ke.procs k.ke.current).state ≡ false
    → NoneDue k.ke v
    → Settled k v k
idle-Settled k v h c free none_due = record {
  view = v;
  rest = refl;
  holds = h;
  is_current = c;
  free = free;
  kept = Kept-refl k.ke;
  none_due = none_due;
  due = λ a on lt. absurd (omega (arith, none_due a on, lt));
  others = λ a on le. on;
  awake = λ a w. w;
  fewer = λ a on. on;
  shorter = omega arith;
  blocked = refl;
}

-- A round for the first sleeper `x`, and the rest of the loop.
pub step-Settled :
    (k : Kernel) (v : View) (x : Ptr) (xs : List Ptr) (k1 k' : Kernel)
    → k1 ≡ record k { ke = k1.ke }
    → v.timers ≡ x ∷ xs
    → (k.ke.procs x).wake_up_time < k.ke.tick_count
    → (r : Roused k.ke v x k1.ke) → r.view.timers ≡ xs
    → r.view.blocked ≡ v.blocked
    → Settled k1 r.view k'
    → Settled k v k'
step-Settled k v x xs k1 k' same e lt r t b d = record {
  view = d.view;
  rest = d.rest ∙ ap (λ (q : Kernel). record q { ke = k'.ke }) same;
  holds = d.holds;
  is_current = d.is_current;
  free = d.free;
  kept = Kept-trans k.ke k1.ke k'.ke r.kept d.kept;
  none_due = d.none_due;
  due = λ a on soon. elim (Bool-cases (a == x)) [
    | inl hit ↦ d.awake a (r.awake a (inl (==→eq a x hit)))
    | inr miss ↦ d.due a (later a miss on) (omega (arith, (r.kept.1 a).0, r.kept.0, soon))
  ];
  others = λ a on le. elim (Bool-cases (a == x)) [
    | inl hit ↦ absurd (
        omega (
          arith,
          lt,
          subst (λ q. k.ke.tick_count ≤ (k.ke.procs q).wake_up_time) (==→eq a x hit) le,
        ))
    | inr miss ↦ d.others a (later a miss on) (omega (arith, (r.kept.1 a).0, r.kept.0, le))
  ];
  awake = λ a w. d.awake a (r.awake a (inr w));
  fewer = λ a on. behind v x xs a e (subst (λ ys. has a ys ≡ true) t (d.fewer a on));
  shorter = omega (arith, d.shorter, ap length t, ap length e);
  blocked = d.blocked ∙ b;
}
  where
    later : (a : Ptr) → (a == x) ≡ false → has a v.timers ≡ true → has a r.view.timers ≡ true
    later a miss on =
        let on' : has a (x ∷ xs) ≡ true = subst (λ ys. has a ys ≡ true) e on in
        rw t (rw miss at on')
