-- ===== src/Ke/Sleep.antt =====
-- KeSuspendProcess puts the current process on the sorted list of sleepers, and another one runs.
use arcos_os.Prelude.{
  ℕ, zero, suc, ◌≤◌, ◌<◌, ◌≡◌, ◌≢◌, refl, inl, inr, true, false, ◌||◌, List, [], ◌∷◌, arith, ◌==◌,
  ltb, if◌then◌else◌, update, update_self, length, has, Bool-cases, eq→==, ne→==, ltb→le, ltb→lt,
}
use arcos_os.Prelude.Run.{ok}
use arcos_os.Types.{Ptr, null}
use arcos_os.Ke.Scheduler.{Scheduler, set_next}
use arcos_os.Ke.Timers.{find_spot}
use arcos_os.Ke.Chain.{Memory, Chain, Chain-frame, Chain-update, load-ok}
use arcos_os.Ke.Invariant.{IsSorted}

-- The entry of `x ∷ xs` behind which a process that wakes up at `wake` goes.
abbrev pub spot_of : Memory → ℕ → Ptr → List Ptr → Ptr
spot_of m wake x [] = x
spot_of m wake x (y ∷ ys) = if ltb (m y).wake_up_time wake then spot_of m wake y ys else x

-- `c` behind the entries of `xs` that wake up before it.
abbrev pub placed : Memory → ℕ → Ptr → List Ptr → List Ptr
placed m wake c [] = c ∷ []
placed m wake c (y ∷ ys) =
    if ltb (m y).wake_up_time wake then y ∷ placed m wake c ys else c ∷ y ∷ ys

-- The list of sleepers with `c` in its place: in front of a head that wakes up later than `c`,
-- otherwise behind the head and the entries after it that wake up before `c`.
abbrev pub sleep_list : Memory → ℕ → Ptr → List Ptr → List Ptr
sleep_list m wake c [] = c ∷ []
sleep_list m wake c (x ∷ xs) =
    if ltb wake (m x).wake_up_time then c ∷ x ∷ xs else x ∷ placed m wake c xs

-- The memory after `c` is linked behind `spot`.
abbrev pub linked : Memory → Ptr → Ptr → Memory
linked m spot c =
    let m' = update m c (set_next (m spot).next_pcb (m c)) in update m' spot (set_next c (m' spot))

module _ (wake : ℕ) (c : Ptr) where
  pub find_spot-ok :
      (k : ℕ) (s : Scheduler) (x : Ptr) (xs : List Ptr)
      → Chain s.procs x (x ∷ xs)
      → length xs < k
      → find_spot k x wake s ≡ ok (spot_of s.procs wake x xs) s
  unfolding find_spot
  find_spot-ok zero s x xs ch h = absurd (omega arith)
  find_spot-ok (suc k) s x [] ch h = rw (load-ok x s ch.1, eq→== (s.procs x).next_pcb null ch.3)
  find_spot-ok (suc k) s x (y ∷ ys) ch h =
      let link : (s.procs x).next_pcb ≡ y = ch.3.0 in
      let ih = find_spot-ok k s y ys (refl, ch.3.1, ch.3.2, ch.3.3) (omega arith) in
      elim (Bool-cases (ltb (s.procs y).wake_up_time wake)) [
        | inl lt ↦ rw (load-ok x s ch.1, link, ne→== y null ch.3.1, load-ok y s ch.3.1, lt) ih
        | inr ge ↦ rw (load-ok x s ch.1, link, ne→== y null ch.3.1, load-ok y s ch.3.1, ge)
      ]

  pub has-spot_of :
      (m : Memory) (x : Ptr) (xs : List Ptr) → has (spot_of m wake x xs) (x ∷ xs) ≡ true
  has-spot_of m x [] = ground arith
  has-spot_of m x (y ∷ ys) = ground (arith, has-spot_of m y ys)

  pub has-placed :
      (m : Memory) (a : Ptr) (xs : List Ptr) → has a (placed m wake c xs) ≡ ((a == c) || has a xs)
  has-placed m a [] = refl
  has-placed m a (y ∷ ys) = ground (arith, has-placed m a ys)

  pub linked-link :
      (m : Memory) (spot a : Ptr) → linked m spot c a ≡ set_next (linked m spot c a).next_pcb (m a)
  unfolding update
  linked-link m spot a = ground arith

  -- The walk and the two assignments put `c` in its place.
  pub Chain-placed :
      (m : Memory) (spot x : Ptr) (xs : List Ptr)
      → Chain m x (x ∷ xs)
      → has c (x ∷ xs) ≡ false
      → c ≢ null
      → spot_of m wake x xs ≡ spot
      → Chain (linked m spot c) x (x ∷ placed m wake c xs)
  unfolding update
  Chain-placed m spot x [] ch out ne e =
      (refl, ch.1, ground arith, (ground arith, ne, refl, ground arith))
  Chain-placed m spot x (y ∷ ys) ch out ne e = elim (Bool-cases (ltb (m y).wake_up_time wake)) [
    | inl lt ↦
        let e' : spot_of m wake y ys ≡ spot = rw lt at e in
        let link : (linked m spot c x).next_pcb ≡ y = ground (arith, has-spot_of m y ys) in
        let ih = Chain-placed m spot y ys (refl, ch.3.1, ch.3.2, ch.3.3) (ground arith) ne e' in
        rw lt (refl, ch.1, ground (arith, has-placed m x ys), rw link ih)
    | inr ge ↦
        let e' : x ≡ spot = rw ge at e in
        let link : (linked m spot c x).next_pcb ≡ c = ground arith in
        let link' : (linked m spot c c).next_pcb ≡ y = ground arith in
        let tail =
          Chain-frame m (linked m spot c) y (y ∷ ys) (refl, ch.3.1, ch.3.2, ch.3.3)
            (λ a h. ground arith) in
        rw ge (refl, ch.1, ground arith, rw link (refl, ne, ground arith, rw link' tail))
  ]

  IsSorted-placed :
      (m : Memory) (x : Ptr) (xs : List Ptr)
      → IsSorted m (x ∷ xs)
      → (m x).wake_up_time ≤ wake
      → (m c).wake_up_time ≡ wake
      → IsSorted m (x ∷ placed m wake c xs)
  IsSorted-placed m x [] so le e = (omega arith, tt)
  IsSorted-placed m x (y ∷ ys) so le e = elim (Bool-cases (ltb (m y).wake_up_time wake)) [
    | inl lt ↦ rw lt (so.0, IsSorted-placed m y ys so.1 (omega (arith, ltb→lt _ _ lt)) e)
    | inr ge ↦ rw ge (omega arith, (omega (arith, ltb→le _ _ ge), so.1))
  ]

  pub IsSorted-sleep_list :
      (m : Memory) (xs : List Ptr)
      → IsSorted m xs
      → (m c).wake_up_time ≡ wake
      → IsSorted m (sleep_list m wake c xs)
  IsSorted-sleep_list m [] so e = tt
  IsSorted-sleep_list m (x ∷ xs) so e = elim (Bool-cases (ltb wake (m x).wake_up_time)) [
    | inl lt ↦ rw lt (omega (arith, ltb→lt _ _ lt), so)
    | inr ge ↦ rw ge (IsSorted-placed m x xs so (ltb→le _ _ ge) e)
  ]

  pub has-sleep_list :
      (m : Memory) (a : Ptr) (xs : List Ptr)
      → has a (sleep_list m wake c xs) ≡ ((a == c) || has a xs)
  has-sleep_list m a [] = refl
  has-sleep_list m a (x ∷ xs) = ground (arith, has-placed m a xs)

  -- The memory and the head of the list after `c` is put on the list `xs` with head `t`.
  abbrev pub queued_procs : Memory → Ptr → List Ptr → Memory
  queued_procs m t [] = update m c (set_next t (m c))
  queued_procs m t (x ∷ xs) =
      if ltb wake (m x).wake_up_time
      then update m c (set_next t (m c))
      else linked m (spot_of m wake x xs) c

  abbrev pub queued_head : Memory → Ptr → List Ptr → Ptr
  queued_head m t [] = c
  queued_head m t (x ∷ xs) = if ltb wake (m x).wake_up_time then c else t

  pub queued-link :
      (m : Memory) (t : Ptr) (xs : List Ptr) (a : Ptr)
      → queued_procs m t xs a ≡ set_next (queued_procs m t xs a).next_pcb (m a)
  unfolding update
  queued-link m t [] a = ground arith
  queued-link m t (x ∷ xs) a = ground arith

  pub queued-ne :
      (m : Memory) (t : Ptr) (xs : List Ptr) (a : Ptr)
      → a ≢ c
      → has a xs ≡ false
      → queued_procs m t xs a ≡ m a
  unfolding update
  queued-ne m t [] a ne out = ground arith
  queued-ne m t (x ∷ xs) a ne out = ground (arith, has-spot_of m x xs)

  front :
      (m : Memory) (t : Ptr) (xs : List Ptr)
      → Chain m t xs
      → has c xs ≡ false
      → c ≢ null
      → Chain (update m c (set_next t (m c))) c (c ∷ xs)
  front m t xs ch out ne = (
    refl,
    ne,
    out,
    rw (update_self m c (set_next t (m c))) (Chain-update m t c (set_next t (m c)) xs ch out),
  )

  pub Chain-queued :
      (m : Memory) (t : Ptr) (xs : List Ptr)
      → Chain m t xs
      → has c xs ≡ false
      → c ≢ null
      → Chain (queued_procs m t xs) (queued_head m t xs) (sleep_list m wake c xs)
  Chain-queued m t [] ch out ne = front m t [] ch out ne
  Chain-queued m t (x ∷ xs) ch out ne = elim (Bool-cases (ltb wake (m x).wake_up_time)) [
    | inl lt ↦ rw lt (front m t (x ∷ xs) ch out ne)
    | inr ge ↦
        let same : t ≡ x = ch.0 in
        rw (ge, same)
          (Chain-placed m (spot_of m wake x xs) x xs (refl, ch.1, ch.2, ch.3) out ne refl)
  ]
