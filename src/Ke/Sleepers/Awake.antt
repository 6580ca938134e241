-- ===== src/Ke/Sleepers/Awake.antt =====
-- The processes that can run, ready or running, behind a choice of the abstract scheduler.
use arcos_os.Prelude.{
  ℕ, ◌≡◌, refl, ◌∙◌, ap, subst, ◌⊎◌, inl, inr, Bool, true, false, ◌||◌, Option, none, some, List,
  [], ◌∷◌, ◌++◌, has, has-append, ◌==◌, if◌then◌else◌, update_self, update_ne, Bool-cases,
  List-cases, ==→eq, eq→==, ℕ_discrete,
}
use arcos_os.Types.{Ptr, Process, is_blocked, process_priority_levels}
use arcos_os.Ke.Invariant.{View, IsLevel, with_ready}
use arcos_os.Ke.Switch.{parked}
use arcos_os.Ke.Choice.{choose, top_level, bottom_level, first_of, top_level-some}
use arcos_os.Ke.Reschedule.{put_back-ne_nil}

-- The process is on a ready queue.
abbrev pub IsReady : View → Ptr → Type 0
IsReady v a = (i : ℕ) × IsLevel i × (has a (v.ready i) ≡ true)

-- The process is current, `c`, or ready.
abbrev pub IsAwake : View → Ptr → Ptr → Type 0
IsAwake v c a = (a ≡ c) ⊎ IsReady v a

pub IsReady-append :
    (v : View) (i : ℕ) (c a : Ptr)
    → IsLevel i
    → IsAwake v c a
    → IsReady (with_ready v i (v.ready i ++ c ∷ [])) a
IsReady-append v i c a level (inl e) = (
  i,
  level,
  rw (update_self v.ready i (v.ready i ++ c ∷ []), has-append a (v.ready i) (c ∷ []), eq→== a c e)
      (or_true (has a (v.ready i))),
)
  where
    or_true : (b : Bool) → (b || true) ≡ true
    or_true true = refl
    or_true false = refl
IsReady-append v i c a level (inr (j, lj, on)) = elim (ℕ_discrete j i) [
  | yes e ↦
      let on' : has a (v.ready i) ≡ true = subst (λ n. has a (v.ready n) ≡ true) e on in
      (
        i,
        level,
        rw (update_self v.ready i (v.ready i ++ c ∷ []), has-append a (v.ready i) (c ∷ []), on'),
      )
  | no ne ↦ (j, lj, rw (update_ne v.ready i (v.ready i ++ c ∷ []) j ne, on))
]

-- The first process of a queue becomes the current one.
IsAwake-taken :
    (v : View) (i : ℕ) (x : Ptr) (xs : List Ptr) (a : Ptr)
    → v.ready i ≡ x ∷ xs
    → IsReady v a
    → IsAwake (with_ready v i xs) x a
IsAwake-taken v i x xs a e (j, lj, on) = elim (ℕ_discrete j i) [
  | yes same ↦
      let on' : has a (x ∷ xs) ≡ true = subst (λ ys. has a ys ≡ true) (ap v.ready same ∙ e) on in
      elim (Bool-cases (a == x)) [
        | inl hit ↦ inl (==→eq a x hit)
        | inr miss ↦ inr (j, lj, rw (same, update_self v.ready i xs) (rw miss at on'))
      ]
  | no ne ↦ inr (j, lj, rw (update_ne v.ready i xs j ne) on)
]

-- The choice at a level.
abbrev choice_at : View → Process → Ptr → Option ℕ → Option (Ptr × View)
choice_at v r c none = if is_blocked r.state then none else some (c, v)
choice_at v r c (some i) = first_of (parked v r c) i ((parked v r c).ready i)

-- A choice leaves the sleepers alone, and whoever could run still can.
pub record Chosen (v : View) (c : Ptr) (o : Option (Ptr × View)) : Type 0 where
  pub next : Ptr
  pub left : View
  pub is_choice : o ≡ some (next, left)
  pub timers : left.timers ≡ v.timers
  pub blocked : left.blocked ≡ v.blocked
  pub awake : (a : Ptr) → IsAwake v c a → IsAwake left next a

choice_at-Chosen :
    (v : View) (r : Process) (c : Ptr) (o : Option ℕ)
    → is_blocked r.state ≡ false
    → IsLevel r.priority
    → top_level v.ready process_priority_levels (bottom_level r) ≡ o
    → Chosen v c (choice_at v r c o)
choice_at-Chosen v r c none free level e = record {
  next = c;
  left = v;
  is_choice = rw free;
  timers = refl;
  blocked = refl;
  awake = λ a w. w;
}
choice_at-Chosen v r c (some i) free level e =
    let top = top_level-some v.ready process_priority_levels (bottom_level r) i e in
    let put : View = with_ready v r.priority (v.ready r.priority ++ c ∷ []) in
    elim (List-cases (put.ready i)) [
      | inl nil ↦ absurd (put_back-ne_nil v r.priority i c top.2 nil)
      | inr (x, xs, full) ↦ record {
        next = x;
        left = with_ready put i xs;
        is_choice = rw (free, full);
        timers = refl;
        blocked = refl;
        awake = λ a w. IsAwake-taken put i x xs a full (IsReady-append v r.priority c a level w);
      }
    ]

pub choose-Chosen :
    (v : View) (r : Process) (c : Ptr)
    → is_blocked r.state ≡ false
    → IsLevel r.priority
    → Chosen v c (choose v r c)
unfolding choose
choose-Chosen v r c free level =
    choice_at-Chosen v r c (top_level v.ready process_priority_levels (bottom_level r)) free level
      refl
