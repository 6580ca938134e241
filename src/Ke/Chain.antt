-- ===== src/Ke/Chain.antt =====
-- Lists of processes linked by NextPCB, as the sequences of addresses that they run through.
use arcos_os.Prelude.{
  ℕ, zero, suc, ◌<◌, ◌≡◌, ◌≢◌, refl, inl, inr, true, false, Option, none, some, List, [], ◌∷◌, ◌++◌,
  arith, ◌==◌, if◌then◌else◌, update, length, has, erase, last_from, has-append, has-erase,
  has-last_from, Bool-cases,
}
use arcos_os.Prelude.Run.{ok, fault}
use arcos_os.Types.{Ptr, null, Process}
use arcos_os.Ke.Scheduler.{Scheduler, load, store, set_next, find_previous}

abbrev pub Memory : Type 0
Memory = Ptr → Process

-- From `p` the NextPCB links lead through the distinct entries `xs` to NULL.
abbrev pub Chain : Memory → Ptr → List Ptr → Type 0
Chain m p [] = p ≡ null
Chain m p (x ∷ xs) = (p ≡ x) × (x ≢ null) × (has x xs ≡ false) × Chain m (m x).next_pcb xs

-- The entry of `c ∷ xs` in front of `p`.
abbrev pub before : Ptr → List Ptr → Ptr → Option Ptr
before c [] p = none
before c (y ∷ ys) p = if y == p then some c else before y ys p

-- The memory after `prev->NextPCB = p->NextPCB; p->NextPCB = NULL`.
abbrev pub unlinked : Memory → Ptr → Ptr → Memory
unlinked m prev p =
    let m' = update m prev (set_next (m p).next_pcb (m prev)) in update m' p (set_next null (m' p))

-- A list survives any change that leaves the links of its entries alone.
pub Chain-frame :
    (m m' : Memory) (p : Ptr) (xs : List Ptr)
    → Chain m p xs
    → ((a : Ptr) → has a xs ≡ true → (m' a).next_pcb ≡ (m a).next_pcb)
    → Chain m' p xs
Chain-frame m m' p [] c same = c
Chain-frame m m' p (x ∷ xs) c same =
    let e : (m' x).next_pcb ≡ (m x).next_pcb = same x (ground arith) in
    (c.0, c.1, c.2, rw e (Chain-frame m m' (m x).next_pcb xs c.3 (λ a h. same a (ground arith))))

pub Chain-update :
    (m : Memory) (p q : Ptr) (r : Process) (xs : List Ptr)
    → Chain m p xs
    → has q xs ≡ false
    → Chain (update m q r) p xs
unfolding update
Chain-update m p q r xs c out = Chain-frame m (update m q r) p xs c (λ a h. ground arith)

pub Chain-ne_null :
    (m : Memory) (p a : Ptr) (xs : List Ptr) → Chain m p xs → has a xs ≡ true → a ≢ null
Chain-ne_null m p a [] c h e = cc
Chain-ne_null m p a (x ∷ xs) c h e = elim (Bool-cases (a == x)) [
  | inl hit ↦ c.1 (ground arith)
  | inr miss ↦ Chain-ne_null m (m x).next_pcb a xs c.3 (ground arith) e
]

-- The last entry ends the list.
pub Chain-last :
    (m : Memory) (p x : Ptr) (xs : List Ptr)
    → Chain m p (x ∷ xs)
    → (m (last_from x xs)).next_pcb ≡ null
Chain-last m p x [] c = c.3
Chain-last m p x (y ∷ ys) c = Chain-last m (m x).next_pcb y ys c.3

-- Linking `q`, which ends in NULL, behind the last entry.
pub Chain-append :
    (m m' : Memory) (x q : Ptr) (xs : List Ptr)
    → Chain m x (x ∷ xs)
    → has q (x ∷ xs) ≡ false
    → q ≢ null
    → (m' q).next_pcb ≡ null
    → (m' (last_from x xs)).next_pcb ≡ q
    → ((a : Ptr) → has a (x ∷ xs) ≡ true → a ≢ last_from x xs → (m' a).next_pcb ≡ (m a).next_pcb)
    → Chain m' x (x ∷ (xs ++ q ∷ []))
Chain-append m m' x q [] c out ne end link same = (refl, c.1, ground arith, (link, ne, refl, end))
Chain-append m m' x q (y ∷ ys) c out ne end link same =
    let step : (m' x).next_pcb ≡ y = ground (arith, same x, has-last_from y ys) in
    let rest : Chain m y (y ∷ ys) = (refl, c.3.1, c.3.2, c.3.3) in
    let grown =
      Chain-append m m' y q ys rest (ground arith) ne end link (λ a h e. same a (ground arith) e) in
    (refl, c.1, ground (arith, has-append x ys (q ∷ [])), rw step grown)

pub load-ok : (p : Ptr) (s : Scheduler) → p ≢ null → load p s ≡ ok (s.procs p) s
unfolding load
load-ok p s h = ground arith

pub store-ok :
    (p : Ptr) (f : Process → Process) (s : Scheduler)
    → p ≢ null
    → store p f s ≡ ok tt (record s { procs = update s.procs p (f (s.procs p)) })
unfolding store
store-ok p f s h = ground arith

-- The loop of KepDequeueProcess and KepRemoveFromProcessList, run on a list that does not begin
-- with `p`, finds the entry in front of `p`, or none if `p` is not on the list.
pub find_previous-before :
    (k : ℕ) (s : Scheduler) (x p : Ptr) (xs : List Ptr)
    → Chain s.procs x (x ∷ xs)
    → length xs < k
    → find_previous k x p s ≡ ok (before x xs p) s
unfolding find_previous
find_previous-before zero s x p xs c h = absurd (omega arith)
find_previous-before (suc k) s x p [] c h = rw (load-ok x s c.1, c.3)
find_previous-before (suc k) s x p (y ∷ ys) c h =
    let link : (s.procs x).next_pcb ≡ y = c.3.0 in
    let ih = find_previous-before k s y p ys (refl, c.3.1, c.3.2, c.3.3) (omega arith) in
    ground (arith, load-ok x s c.1, ih)

pub has-before :
    (x p prev : Ptr) (xs : List Ptr) → before x xs p ≡ some prev → has prev (x ∷ xs) ≡ true
has-before x p prev [] e = cc
has-before x p prev (y ∷ ys) e = ground (arith, has-before y p prev ys)

pub before-none : (x p : Ptr) (xs : List Ptr) → has p xs ≡ false → before x xs p ≡ none
before-none x p [] h = refl
before-none x p (y ∷ ys) h = ground (arith, before-none y p ys)

pub before-some :
    (x p : Ptr) (xs : List Ptr) → has p xs ≡ true → (prev : Ptr) × (before x xs p ≡ some prev)
before-some x p [] h = cc
before-some x p (y ∷ ys) h = elim (Bool-cases (y == p)) [
  | inl hit ↦ (x, rw hit refl)
  | inr miss ↦ let (prev, e) = before-some y p ys (ground arith) in (prev, rw miss e)
]

-- Unlinking `p` drops it from the list.
pub Chain-unlinked :
    (m : Memory) (x p prev : Ptr) (xs : List Ptr)
    → Chain m x (x ∷ xs)
    → p ≢ x
    → before x xs p ≡ some prev
    → Chain (unlinked m prev p) x (x ∷ erase p xs)
unfolding update
Chain-unlinked m x p prev [] c ne e = cc
Chain-unlinked m x p prev (y ∷ ys) c ne e = elim (Bool-cases (y == p)) [
  | inl hit ↦
      let link : (unlinked m prev p x).next_pcb ≡ (m y).next_pcb = ground arith in
      let tail = Chain-frame m (unlinked m prev p) (m y).next_pcb ys c.3.3 (λ a h. ground arith) in
      rw hit (refl, c.1, ground arith, rw link tail)
  | inr miss ↦
      let e' : before y ys p ≡ some prev = ground arith in
      let link : (unlinked m prev p x).next_pcb ≡ y = ground (arith, has-before y p prev ys) in
      let tail = Chain-unlinked m y p prev ys (refl, c.3.1, c.3.2, c.3.3) (ground arith) e' in
      rw miss (refl, c.1, ground (arith, has-erase x p ys), rw link tail)
]

pub find_previous-null :
    (k : ℕ) (s : Scheduler) (p : Ptr) → 0 < k → find_previous k null p s ≡ fault
unfolding find_previous load
find_previous-null zero s p h = absurd (omega arith)
find_previous-null (suc k) s p h = refl
