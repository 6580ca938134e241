-- ===== src/Tests/Machine.antt =====
-- A machine with six processes: process 1 runs at priority 3, processes 2 and 4 are ready at
-- priority 5, process 6 is blocked, processes 7 and 8 sleep until the ticks 100 and 200.
use arcos_os.Prelude.{
  ℕ, ◌≡◌, refl, true, false, List, [], ◌∷◌, ◌==◌, if◌then◌else◌, Bool-cases, arith, ==→eq, ==→ne,
  has, inl, inr, ap, last_from,
}
use arcos_os.Types.{Ptr, null, Process, ProcessState, running, ready, blocked, no_method}
use arcos_os.Ke.Scheduler.{Scheduler}
use arcos_os.Ke.Invariant.{View, Holds, IsOff, IsLevel}
use arcos_os.Ke.Chain.{Chain}
use arcos_os.Ke.Switch.{IsCurrent}

abbrev pcb : ProcessState → ℕ → ℕ → Ptr → Process
pcb st pr wake next = record {
  context = record { v0 = 0; a0 = 0; a1 = 0; a2 = 0; a3 = 0; sp = 0; pc = 0; others = λ _. 0 };
  handle_table = λ _. record { attributes = 0; object = null };
  state = st;
  running_program = null;
  pid = 1;
  priority = pr;
  exit_status = 0;
  allocated_memory = null;
  cpu_time = 0;
  wake_up_time = wake;
  quantum = 5;
  args = null;
  message_queue = null;
  supervisor = 0;
  resume_method = no_method;
  next_pcb = next;
}

abbrev pub procs : Ptr → Process
procs a =
    if a == 2
    then pcb ready 5 0 4
    else if a == 4
    then pcb ready 5 0 null
    else if a == 6
    then pcb blocked 7 0 null
    else if a == 7
    then pcb blocked 2 100 8
    else if a == 8
    then pcb blocked 2 200 null
    else pcb running 3 0 null

abbrev pub machine : Scheduler
machine = record {
  procs = procs;
  ready_queues =
      λ i. if i == 5 then record { first = 2; last = 4 } else record { first = null; last = null };
  blocked_list = 6;
  timer_list = 7;
  current = 1;
  tick_count = 50;
}

abbrev pub view : View
view = record {
  ready = λ i. if i == 5 then 2 ∷ 4 ∷ [] else [];
  blocked = 6 ∷ [];
  timers = 7 ∷ 8 ∷ [];
}

abbrev pub All : (Ptr → Type 0) → List Ptr → Type 0
All P [] = Unit {0}
All P (x ∷ xs) = P x × All P xs

pub all_has : (P : Ptr → Type 0) (xs : List Ptr) → All P xs → (a : Ptr) → has a xs ≡ true → P a
all_has P [] all a m = absurd (cc m)
all_has P (x ∷ xs) all a m = elim (Bool-cases (a == x)) [
  | inl hit ↦ rw (==→eq a x hit) all.0
  | inr miss ↦ all_has P xs all.1 a (ground arith)
]

ready-Chain : (i : ℕ) → Chain procs (machine.ready_queues i).first (view.ready i)
ready-Chain i = elim (Bool-cases (i == 5)) [
  | inl hit ↦ rw hit (refl, ==→ne 2 0 refl, refl, (refl, ==→ne 4 0 refl, refl, refl))
  | inr miss ↦ rw miss refl
]

on_ready :
    (P : ℕ → Ptr → Type 0) → P 5 2 → P 5 4 → (i : ℕ) (a : Ptr) → has a (view.ready i) ≡ true → P i a
on_ready P two four i a m = elim (Bool-cases (i == 5)) [
  | inl hit ↦ rw (==→eq i 5 hit) (all_has (P 5) (2 ∷ 4 ∷ []) (two, (four, tt)) a (rw hit at m))
  | inr miss ↦ absurd (cc (rw miss at m))
]

nil_cons : {x : Ptr} {xs : List Ptr} → [] ≡ x ∷ xs → ⊥
nil_cons e = cc

ready_last :
    (i : ℕ) (x : Ptr) (xs : List Ptr)
    → view.ready i ≡ x ∷ xs
    → (machine.ready_queues i).last ≡ last_from x xs
ready_last i x xs e = elim (Bool-cases (i == 5)) [
  | inl hit ↦ rw hit (ap (λ zs. elim zs [ [] ↦ 0 | ◌∷◌ y ys ↦ last_from y ys ]) (rw hit at e))
  | inr miss ↦ absurd (nil_cons (rw miss at e))
]

pub machine-Holds : Holds machine view
machine-Holds = record {
  queue_chain = λ i _. ready-Chain i;
  queue_last = λ i x xs _ e. ready_last i x xs e;
  queue_state = λ i a _ m. on_ready (λ _ a. (procs a).state ≡ ready) refl refl i a m;
  queue_priority = λ i a _ m. on_ready (λ i a. (procs a).priority ≡ i) refl refl i a m;
  blocked_chain = (refl, ==→ne 6 0 refl, refl, refl);
  timer_chain = (refl, ==→ne 7 0 refl, refl, (refl, ==→ne 8 0 refl, refl, refl));
  blocked_state = all_has (λ a. (procs a).state ≡ blocked) (6 ∷ []) (refl, tt);
  timer_state = all_has (λ a. (procs a).state ≡ blocked) (7 ∷ 8 ∷ []) (refl, (refl, tt));
  blocked_level = all_has (λ a. IsLevel (procs a).priority) (6 ∷ []) (omega arith, tt);
  timer_level =
      all_has (λ a. IsLevel (procs a).priority) (7 ∷ 8 ∷ []) (omega arith, (omega arith, tt));
  apart = all_has (λ a. has a view.blocked ≡ false) (7 ∷ 8 ∷ []) (refl, (refl, tt));
  sorted = (omega arith, tt);
}

off_ready : (a : Ptr) → has a (2 ∷ 4 ∷ []) ≡ false → (i : ℕ) → has a (view.ready i) ≡ false
off_ready a out i = elim (Bool-cases (i == 5)) [ inl hit ↦ rw hit out | inr miss ↦ rw miss refl ]

pub current-IsOff : IsOff view 1
current-IsOff = record {
  not_ready = λ i _. off_ready 1 refl i;
  not_blocked = refl;
  not_timer = refl;
}

pub machine-IsCurrent : IsCurrent machine view
machine-IsCurrent = record {
  ne_null = ==→ne 1 0 refl;
  next_clear = refl;
  level = omega arith;
  off = current-IsOff;
}
