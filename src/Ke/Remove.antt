-- ===== src/Ke/Remove.antt =====
-- Taking a process off a list: KepRemoveFromProcessList, and what KepDequeueProcess does to memory.
use arcos_os.Prelude.{
  ℕ, ◌≤◌, ◌<◌, ◌≡◌, ◌≢◌, refl, inl, inr, true, false, Option, none, some, List, [], ◌∷◌, arith,
  ◌==◌, if◌then◌else◌, update, length, has, erase, Bool-cases, ==→eq, ==→ne, eq→==, ne→==, sym, ap,
  ◌∙◌, subst,
}
use arcos_os.Prelude.Run.{ok}
use arcos_os.Types.{Ptr, null}
use arcos_os.Ke.Scheduler.{Scheduler, set_next, unlink}
use arcos_os.Ke.Timers.{remove_found, remove_from_process_list}
use arcos_os.Ke.Chain.{
  Memory, Chain, Chain-update, Chain-ne_null, load-ok, store-ok, before, before-some, before-none,
  has-before, unlinked, Chain-unlinked, find_previous-before,
}

abbrev pub Distinct : List Ptr → Type 0
Distinct [] = Unit {0}
Distinct (x ∷ xs) = (has x xs ≡ false) × Distinct xs

pub Chain-Distinct : (m : Memory) (p : Ptr) (xs : List Ptr) → Chain m p xs → Distinct xs
Chain-Distinct m p [] c = tt
Chain-Distinct m p (x ∷ xs) c = (c.2, Chain-Distinct m (m x).next_pcb xs c.3)

-- A removed entry is gone.
pub has-erase_self : (p : Ptr) (xs : List Ptr) → Distinct xs → has p (erase p xs) ≡ false
has-erase_self p [] d = refl
has-erase_self p (x ∷ xs) d = ground (arith, has-erase_self p xs d.1)

abbrev removed_behind : Memory → Option Ptr → Ptr → Memory
removed_behind m none p = m
removed_behind m (some prev) p = unlinked m prev p

-- The memory after `p` is taken off the list `xs`.
abbrev pub removed_procs : Memory → List Ptr → Ptr → Memory
removed_procs m [] p = m
removed_procs m (x ∷ xs) p =
    if x == p then update m p (set_next null (m p)) else removed_behind m (before x xs p) p

abbrev pub removed_head : Memory → Ptr → Ptr → Ptr
removed_head m first p = if first == p then (m p).next_pcb else first

module _ (m : Memory) (p : Ptr) where
  pub removed_procs_ne :
      (xs : List Ptr) (a : Ptr) → a ≢ p → has a xs ≡ false → removed_procs m xs p a ≡ m a
  unfolding update
  removed_procs_ne [] a ne out = refl
  removed_procs_ne (x ∷ xs) a ne out = ground (arith, has-before x p a xs)

  -- Only links change.
  pub removed_procs_link :
      (xs : List Ptr) (a : Ptr)
      → removed_procs m xs p a ≡ set_next (removed_procs m xs p a).next_pcb (m a)
  unfolding update
  removed_procs_link [] a = refl
  removed_procs_link (x ∷ xs) a = ground arith

  pub removed_procs_self :
      (xs : List Ptr) → has p xs ≡ true → removed_procs m xs p p ≡ set_next null (m p)
  unfolding update
  removed_procs_self [] i = cc
  removed_procs_self (x ∷ xs) i = elim (Bool-cases (x == p)) [
    | inl hit ↦ rw hit (ground arith)
    | inr miss ↦ let (prev, e) = before-some x p xs (ground arith) in rw (miss, e) (ground arith)
  ]

  pub removed_procs_found :
      (x prev : Ptr) (xs : List Ptr)
      → (x == p) ≡ false
      → before x xs p ≡ some prev
      → removed_procs m (x ∷ xs) p ≡ unlinked m prev p
  removed_procs_found x prev xs miss e = rw (miss, e)

  Chain-removed_behind :
      (x prev : Ptr) (xs : List Ptr)
      → Chain m x (x ∷ xs)
      → (x == p) ≡ false
      → before x xs p ≡ some prev
      → Chain (removed_procs m (x ∷ xs) p) (removed_head m x p) (erase p (x ∷ xs))
  Chain-removed_behind x prev xs c miss e =
      subst (λ m'. Chain m' (removed_head m x p) (erase p (x ∷ xs)))
        (sym (removed_procs_found x prev xs miss e))
        (rw miss (Chain-unlinked m x p prev xs c (λ e'. ==→ne x p miss (sym e')) e))

  Chain-removed_from :
      (x : Ptr) (xs : List Ptr)
      → Chain m x (x ∷ xs)
      → has p (x ∷ xs) ≡ true
      → Chain (removed_procs m (x ∷ xs) p) (removed_head m x p) (erase p (x ∷ xs))
  Chain-removed_from x xs c i = elim (Bool-cases (x == p)) [
    | inl hit ↦
        rw (hit, ← ==→eq x p hit) (Chain-update m (m x).next_pcb x (set_next null (m x)) xs c.3 c.2)
    | inr miss ↦
        let (prev, e) = before-some x p xs (ground arith) in Chain-removed_behind x prev xs c miss e
  ]

  -- What is left is the list without `p`.
  pub Chain-removed :
      (first : Ptr) (xs : List Ptr)
      → Chain m first xs
      → has p xs ≡ true
      → Chain (removed_procs m xs p) (removed_head m first p) (erase p xs)
  Chain-removed first [] c i = cc
  Chain-removed first (x ∷ xs) c i =
      subst (λ f. Chain (removed_procs m (x ∷ xs) p) (removed_head m f p) (erase p (x ∷ xs)))
        (sym c.0) (Chain-removed_from x xs (refl, c.1, c.2, c.3) i)

module _ (s : Scheduler) (p : Ptr) where
  abbrev pub removed : List Ptr → Scheduler
  removed xs = record s { procs = removed_procs s.procs xs p }

  pub unlink-ok :
      (prev : Ptr)
      → p ≢ null
      → prev ≢ null
      → unlink prev p s ≡ ok tt (record s { procs = unlinked s.procs prev p })
  unfolding unlink
  unlink-ok prev ne ne' = rw (load-ok p s ne, store-ok prev _ s ne', store-ok p _ _ ne)

  pub unlink_found :
      (x prev : Ptr) (xs : List Ptr)
      → Chain s.procs x (x ∷ xs)
      → (x == p) ≡ false
      → before x xs p ≡ some prev
      → p ≢ null
      → unlink prev p s ≡ ok tt (removed (x ∷ xs))
  unlink_found x prev xs c miss e ne =
      unlink-ok prev ne (Chain-ne_null s.procs x prev (x ∷ xs) c (has-before x p prev xs e))
      ∙ ap (λ m. ok tt (record s { procs = m }))
          (sym (removed_procs_found s.procs p x prev xs miss e))

  remove_behind :
      (fuel : ℕ) (x prev : Ptr) (xs : List Ptr)
      → Chain s.procs x (x ∷ xs)
      → length xs < fuel
      → p ≢ null
      → (x == p) ≡ false
      → before x xs p ≡ some prev
      → remove_from_process_list fuel x p s ≡ ok (true, removed_head s.procs x p) (removed (x ∷ xs))
  unfolding remove_from_process_list remove_found
  remove_behind fuel x prev xs c f ne miss e =
      let run = unlink_found x prev xs c miss e ne in
      rw (ne→== x null c.1, miss, find_previous-before fuel s x p xs c f, e, remove_found, run)
        (ap (λ m. ok (true, x) (record s { procs = m }))
          (removed_procs_found s.procs p x prev xs miss e))

  remove_from :
      (fuel : ℕ) (x : Ptr) (xs : List Ptr)
      → Chain s.procs x (x ∷ xs)
      → length xs < fuel
      → p ≢ null
      → has p (x ∷ xs) ≡ true
      → remove_from_process_list fuel x p s ≡ ok (true, removed_head s.procs x p) (removed (x ∷ xs))
  unfolding remove_from_process_list
  remove_from fuel x xs c f ne i = elim (Bool-cases (x == p)) [
    | inl hit ↦ rw (hit, ne→== x null c.1, load-ok p s ne, store-ok p (set_next null) s ne)
    | inr miss ↦
        let (prev, e) = before-some x p xs (ground arith) in
        remove_behind fuel x prev xs c f ne miss e
  ]

  -- KepRemoveFromProcessList takes an entry off, and tells that it has.
  pub remove_from_process_list-present :
      (fuel : ℕ) (head : Ptr) (xs : List Ptr)
      → Chain s.procs head xs
      → length xs ≤ fuel
      → has p xs ≡ true
      → remove_from_process_list fuel head p s ≡ ok (true, removed_head s.procs head p) (removed xs)
  remove_from_process_list-present fuel head [] c f i = cc
  remove_from_process_list-present fuel head (x ∷ xs) c f i =
      subst
        (λ y.
          remove_from_process_list fuel y p s
          ≡ ok (true, removed_head s.procs y p) (removed (x ∷ xs)))
        (sym c.0)
        (remove_from fuel x xs (refl, c.1, c.2, c.3) f (Chain-ne_null s.procs head p (x ∷ xs) c i)
          i)

  -- A process that is not on the list leaves everything as it is.
  pub remove_from_process_list-absent :
      (fuel : ℕ) (head : Ptr) (xs : List Ptr)
      → Chain s.procs head xs
      → length xs ≤ fuel
      → has p xs ≡ false
      → remove_from_process_list fuel head p s ≡ ok (false, head) s
  unfolding remove_from_process_list remove_found
  remove_from_process_list-absent fuel head [] c f i = rw (eq→== head null c)
  remove_from_process_list-absent fuel head (x ∷ xs) c f i =
      let same : head ≡ x = c.0 in
      let miss : (x == p) ≡ false = ground arith in
      let c' : Chain s.procs x (x ∷ xs) = (refl, c.1, c.2, c.3) in
      rw (
        same,
        miss,
        ne→== x null c.1,
        find_previous-before fuel s x p xs c' f,
        before-none x p xs (ground arith),
      )
