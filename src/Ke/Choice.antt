-- ===== src/Ke/Choice.antt =====
-- Which process KepReschedule is meant to run: the abstract scheduler.
use arcos_os.Prelude.{
  ℕ, zero, suc, ◌≤◌, ◌<◌, ◌≡◌, ◌≢◌, refl, ap, inl, inr, Option, none, some, List, [], ◌∷◌, arith,
  ltb, if◌then◌else◌, lt→ltb, le→ltb, List-cases, ℕ_discrete, dec_lt, sym, ◌∙◌,
}
use arcos_os.Types.{Ptr, Process, blocked, is_blocked, process_priority_levels}
use arcos_os.Ke.Invariant.{View, with_ready}
use arcos_os.Ke.Switch.{parked}

-- The highest level below `n`, and not below `bottom`, whose queue has an entry.
unfoldable pub top_level : (ℕ → List Ptr) → ℕ → ℕ → Option ℕ
top_level q zero bottom = none
top_level q (suc i) bottom =
    if ltb i bottom then none else elim (q i) [ [] ↦ top_level q i bottom | ◌∷◌ _ _ ↦ some i ]

abbrev pub bottom_level : Process → ℕ
bottom_level r = if is_blocked r.state then 0 else r.priority

abbrev pub first_of : View → ℕ → List Ptr → Option (Ptr × View)
first_of v i [] = none
first_of v i (x ∷ xs) = some (x, with_ready v i xs)

-- The process to run and the lists behind it, where `c` with control block `r` ran before. There is
-- none if `c` is blocked and every queue is empty.
unfoldable pub choose : View → Process → Ptr → Option (Ptr × View)
unfolding top_level
choose v r c = elim (top_level v.ready process_priority_levels (bottom_level r)) [
  | none ↦ if is_blocked r.state then none else some (c, v)
  | some i ↦ first_of (parked v r c) i ((parked v r c).ready i)
]

abbrev pub EmptyBetween : (ℕ → List Ptr) → ℕ → ℕ → Type 0
EmptyBetween q lo hi = (j : ℕ) → lo ≤ j → j < hi → q j ≡ []

none-some : {A : Type 0} {a : A} → none ≡ some a → ⊥
none-some e = cc

some_eq : {a b : ℕ} → some a ≡ some b → a ≡ b
some_eq e = cc

cons_nil : {x : Ptr} {xs : List Ptr} → x ∷ xs ≡ [] → ⊥
cons_nil e = cc

module _ (q : ℕ → List Ptr) (i bottom : ℕ) where
  pub top_level-below : i < bottom → top_level q (suc i) bottom ≡ none
  unfolding top_level
  top_level-below h = rw (lt→ltb i bottom h)

  pub top_level-empty : bottom ≤ i → q i ≡ [] → top_level q (suc i) bottom ≡ top_level q i bottom
  unfolding top_level
  top_level-empty h e = rw (le→ltb i bottom h, e)

  pub top_level-full :
      (x : Ptr) (xs : List Ptr) → bottom ≤ i → q i ≡ x ∷ xs → top_level q (suc i) bottom ≡ some i
  unfolding top_level
  top_level-full x xs h e = rw (le→ltb i bottom h, e)

pub top_level-none :
    (q : ℕ → List Ptr) (n bottom : ℕ) → top_level q n bottom ≡ none → EmptyBetween q bottom n
top_level-none q zero bottom e j lo hi = absurd (omega arith)
top_level-none q (suc i) bottom e j lo hi =
    let in_range : bottom ≤ i = omega arith in
    elim (List-cases (q i)) [
      | inl empty ↦ elim (ℕ_discrete j i) [
        | yes same ↦ rw same empty
        | no other ↦
            top_level-none q i bottom (sym (top_level-empty q i bottom in_range empty) ∙ e) j lo
              (omega arith)
      ]
      | inr (x, xs, full) ↦
          absurd (none-some (sym e ∙ top_level-full q i bottom x xs in_range full))
    ]

abbrev pub TopLevel : (ℕ → List Ptr) → ℕ → ℕ → ℕ → Type 0
TopLevel q n bottom i = (bottom ≤ i) × (i < n) × (q i ≢ []) × EmptyBetween q (suc i) n

pub top_level-some :
    (q : ℕ → List Ptr) (n bottom i : ℕ) → top_level q n bottom ≡ some i → TopLevel q n bottom i
unfolding top_level
top_level-some q zero bottom i e = cc
top_level-some q (suc k) bottom i e = elim (dec_lt k bottom) [
  | yes below ↦ absurd (none-some (sym (top_level-below q k bottom below) ∙ e))
  | no above ↦ elim (List-cases (q k)) [
    | inl empty ↦
        let (lo, hi, ne, rest) =
          top_level-some q k bottom i (sym (top_level-empty q k bottom (omega arith) empty) ∙ e) in
        (
          lo,
          omega arith,
          ne,
          λ j a b. elim (ℕ_discrete j k) [
            | yes same ↦ rw same empty
            | no other ↦ rest j a (omega arith)
          ],
        )
    | inr (x, xs, full) ↦
        let same : k ≡ i = some_eq (sym (top_level-full q k bottom x xs (omega arith) full) ∙ e) in
        (
          omega arith,
          omega arith,
          λ n. cons_nil (sym full ∙ rw same n),
          λ j a b. absurd (omega arith),
        )
  ]
]

-- The choice where the process that ran is blocked.
abbrev from_queues : View → Option ℕ → Option (Ptr × View)
from_queues v o = elim o [ none ↦ none | some i ↦ first_of v i (v.ready i) ]

abbrev timers_of : View → Option (Ptr × View) → List Ptr
timers_of v o = elim o [ none ↦ v.timers | some a ↦ a.1.timers ]

timers_of-first : (v : View) (i : ℕ) (xs : List Ptr) → timers_of v (first_of v i xs) ≡ v.timers
timers_of-first v i [] = refl
timers_of-first v i (x ∷ xs) = refl

timers_of-queues : (v : View) (o : Option ℕ) → timers_of v (from_queues v o) ≡ v.timers
timers_of-queues v none = refl
timers_of-queues v (some i) = timers_of-first v i (v.ready i)

choose-queues :
    (v : View) (r : Process) (c : Ptr)
    → choose v (record r { state = blocked }) c
      ≡ from_queues v (top_level v.ready process_priority_levels 0)
unfolding choose
choose-queues v r c = refl

-- A choice in place of a blocked process leaves the sleepers where they are.
pub choose-timers :
    (v : View) (r : Process) (c x : Ptr) (v' : View)
    → choose v (record r { state = blocked }) c ≡ some (x, v')
    → v'.timers ≡ v.timers
choose-timers v r c x v' e =
    ap (timers_of v) (sym e ∙ choose-queues v r c)
    ∙ timers_of-queues v (top_level v.ready process_priority_levels 0)
