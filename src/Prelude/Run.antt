-- ===== src/Prelude/Run.antt =====
-- Kernel code as commands on a state. A run ends in a value, in a call of KeBugCheck, which never
-- returns, in a fault (an access through a null pointer, or a store behind the end of a caller's
-- array), or with its fuel used up.
use Prim.Native.Nat.{ℕ}
use mathlib.Core.Path.{◌≡◌, refl}
use mathlib.Core.Bool.{Bool, true, false}

-- The messages that the source hands to KeBugCheck; `assertion` is that of the ASSERT macro, `trap` those
-- of HalTrapCodeNames.
pub data BugCheck : Type 0 where
  assertion : BugCheck
  not_in_priority_queue : BugCheck
  critical_process_blocked : BugCheck
  blocked_in_no_queue : BugCheck
  unhandled_process_state : BugCheck
  object_not_in_list : BugCheck
  bad_syscall : BugCheck
  trap : ℕ → BugCheck
  unknown_exception : BugCheck

pub data Run (S A : Type 0) : Type 0 where
  ok : A → S → Run S A
  bug_check : BugCheck → Run S A
  fault : Run S A
  out_of_fuel : Run S A

abbrev pub Cmd : Type 0 → Type 0 → Type 0
Cmd S A = S → Run S A

abbrev pub pure : {S A : Type 0} → A → Cmd S A
pure = ok

module _ {S A B : Type 0} where
  abbrev pub then_run : Run S A → (A → Cmd S B) → Run S B
  then_run (ok a s) k = k a s
  then_run (bug_check m) k = bug_check m
  then_run fault k = fault
  then_run out_of_fuel k = out_of_fuel

  infixl 5 ◌>>=◌ ◌>>◌
  abbrev pub ◌>>=◌ : Cmd S A → (A → Cmd S B) → Cmd S B
  m >>= k = λ s. then_run (m s) k

  abbrev pub ◌>>◌ : Cmd S A → Cmd S B → Cmd S B
  m >> n = m >>= λ _. n

module _ {S : Type 0} where
  abbrev pub get : {A : Type 0} → (S → A) → Cmd S A
  get f s = ok (f s) s

  abbrev pub modify : (S → S) → Cmd S (Unit {0})
  modify f s = ok tt (f s)

  -- KeBugCheck disables interrupts, prints and spins.
  abbrev pub ke_bug_check : {A : Type 0} → BugCheck → Cmd S A
  ke_bug_check m s = bug_check m

  -- The ASSERT macro of a build without NDEBUG.
  abbrev pub assert : Bool → Cmd S (Unit {0})
  assert true = pure tt
  assert false = ke_bug_check assertion

-- A command on a part of the state.
abbrev pub back : {S T A : Type 0} → (T → S) → Run T A → Run S A
back put (ok a t) = ok a (put t)
back put (bug_check m) = bug_check m
back put fault = fault
back put out_of_fuel = out_of_fuel

abbrev pub within : {S T A : Type 0} → (S → T) → (S → T → S) → Cmd T A → Cmd S A
within part put m s = back (put s) (m (part s))

-- Total correctness: the run ends in a value, and the value and the state satisfy `P`.
pub data Returns {S A : Type 0} (P : A → S → Type 0) : Run S A → Type 0 where
  returns : {a : A} {s : S} → P a s → Returns P (ok a s)

module _ {S A : Type 0} {P : A → S → Type 0} where
  pub Returns-bind :
      {B : Type 0} {Q : B → S → Type 0} {r : Run S A} {k : A → Cmd S B}
      → Returns P r
      → ((a : A) (s : S) → P a s → Returns Q (k a s))
      → Returns Q (then_run r k)
  Returns-bind (returns p) next = next _ _ p

  pub Returns-weaken :
      {Q : A → S → Type 0} {r : Run S A}
      → Returns P r
      → ((a : A) (s : S) → P a s → Q a s)
      → Returns Q r
  Returns-weaken (returns p) imp = returns (imp _ _ p)

  pub Returns-within :
      {T : Type 0} (put : S → T) {r : Run S A} {Q : A → T → Type 0}
      → Returns P r
      → ((a : A) (s : S) → P a s → Q a (put s))
      → Returns Q (back put r)
  Returns-within put (returns p) imp = returns (imp _ _ p)

  -- The value and the state in which such a run ends.
  pub Returns-ends : {r : Run S A} → Returns P r → (a : A) × (s : S) × (r ≡ ok a s) × P a s
  Returns-ends (returns {a} {s} p) = (a, s, refl, p)

pub Returns-value : {S A : Type 0} {P : A → S → Type 0} {a : A} {s : S} → Returns P (ok a s) → P a s
Returns-value (returns p) = p
